-- ===== src/InboundQueue/Table.antt =====
-- The tables message_events and inbound_events (model/storage/sqlite_store.go), with the SQL
-- statements' WHERE as a Boolean test. The payload column, the JSON of the event, holds the event.
-- Times are Unix nanoseconds.
use diana_qq_bot.Prelude.{
  ℕ, Bool, true, false, ◌&&◌, List, [], ◌∷◌, Option, none, some, if◌then◌else◌, ltb, leb, count_if,
}
use diana_qq_bot.Prelude.Text.{Text, text_eq}
use diana_qq_bot.Event.{EventKind, MessageEvent}

pub data Status : Type 0 where
  pending processing done : Status

abbrev pub is_pending : Status → Bool
is_pending pending = true
is_pending _ = false

abbrev pub is_processing : Status → Bool
is_processing processing = true
is_processing _ = false

abbrev pub is_done : Status → Bool
is_done done = true
is_done _ = false

pub record InboundRow : Type 0 where
  pub id : Text
  pub session : Text
  pub kind : EventKind
  pub group_id : Text
  pub user_id : Text
  pub message_id : Text
  pub event_time : ℕ  -- Unix seconds
  pub payload : MessageEvent
  pub priority : ℕ
  pub status : Status
  pub attempts : ℕ
  pub available_at : ℕ
  pub lease_owner : Option Text
  pub lease_until : Option ℕ
  pub outcome : Option Text
  pub last_error : Option Text
  pub created_at : ℕ
  pub updated_at : ℕ
  pub completed_at : Option ℕ

pub record HistoryRow : Type 0 where
  pub id : Text
  pub session : Text
  pub kind : EventKind
  pub group_id : Text
  pub user_id : Text
  pub message_id : Text
  pub sender_name : Text
  pub event_time : ℕ
  pub text : Text
  pub payload : MessageEvent
  pub created_at : ℕ

pub record Store : Type 0 where
  pub history : List HistoryRow
  pub events : List InboundRow

pub data StoreError : Type 0 where
  session_required owner_required lease_in_past id_and_owner_required group_required : StoreError
  database lease_not_held : StoreError

pub data Result {ℓ} (A : Type ℓ) : Type ℓ where
  ok : A → Result A
  err : StoreError → Result A

-- What a claim hands to the worker.
pub record Item : Type 0 where
  pub id : Text
  pub session : Text
  pub event : MessageEvent
  pub attempts : ℕ
  pub priority : ℕ

-- A comparison with NULL is not true.
abbrev pub null_eq : Option Text → Text → Bool
null_eq none t = false
null_eq (some s) t = text_eq s t

abbrev pub null_le : Option ℕ → ℕ → Bool
null_le none n = false
null_le (some m) n = leb m n

abbrev pub null_gt : Option ℕ → ℕ → Bool
null_gt none n = false
null_gt (some m) n = ltb n m

module _ {ℓ} {A : Type ℓ} where
  -- UPDATE … SET f WHERE p.
  abbrev pub update_where : (A → Bool) → (A → A) → List A → List A
  update_where p f [] = []
  update_where p f (r ∷ rs) = (if p r then f r else r) ∷ update_where p f rs

abbrev pub has_id : Text → InboundRow → Bool
has_id id r = text_eq r.id id

abbrev pub history_has_id : Text → HistoryRow → Bool
history_has_id id r = text_eq r.id id

-- A lease of the session that has not run out.
abbrev pub holds_lease : Text → ℕ → InboundRow → Bool
holds_lease session now r =
    text_eq r.session session && is_processing r.status && null_gt r.lease_until now

unfoldable pub active_leases : Text → ℕ → List InboundRow → ℕ
active_leases session now rows = count_if (holds_lease session now) rows
