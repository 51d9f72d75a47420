-- ===== src/InboundQueue/Enqueue.antt =====
-- EnqueueInboundEvent: a message enters the history and, when it is new there, the queue.
use diana_qq_bot.Prelude.{
  ℕ, ◌/◌, Bool, true, false, ◌&&◌, not, List, [], ◌∷◌, ◌++◌, none, if◌then◌else◌, ltb, ◌==◌,
  count_if,
}
use diana_qq_bot.Prelude.Text.{Text, codes, text_eq, is_empty, is_blank, trim_space}
use diana_qq_bot.Prelude.Int64.{ℤ, pos, negsuc}
use diana_qq_bot.Event.{EventKind, MessageEvent, MessageSegment, is_notice, plain_text}
use diana_qq_bot.InboundQueue.Table.{
  pending, is_pending, InboundRow, HistoryRow, Store, session_required, database, Result, ok, err,
  update_where, has_id, history_has_id,
}

-- The identity of an event without a message id is the hash of these fields.
pub record Canonical : Type 0 where
  pub session : Text
  pub kind : EventKind
  pub sub_type : Text
  pub time : ℤ
  pub self_id : Text
  pub user_id : Text
  pub operator_id : Text
  pub group_id : Text
  pub message_type : Text
  pub raw_message : Text
  pub segments : List MessageSegment

unfoldable pub canonical : Text → MessageEvent → Canonical
canonical session event = record {
  session = session;
  kind = event.kind;
  sub_type = event.sub_type;
  time = event.time;
  self_id = event.self_id;
  user_id = event.user_id;
  operator_id = event.operator_id;
  group_id = event.group_id;
  message_type = event.message_type;
  raw_message = event.raw_message;
  segments = event.segments;
}

-- The source's last return, a random id, is for events without a message id; stableInboundEventID
-- never reaches it, so it is the argument `random`.
unfoldable pub persisted_message_id : Text → Text → MessageEvent → Text
persisted_message_id random session event =
    if not (is_blank event.message_id)
    then if is_notice event.kind
      then session
        ++ (codes ":notice:"
            ++ (trim_space event.sub_type ++ (codes ":" ++ trim_space event.message_id)))
      else session ++ (codes ":" ++ trim_space event.message_id)
    else session ++ (codes ":" ++ random)

-- `digest` is the hexadecimal SHA-256 of the JSON of its argument.
unfoldable pub stable_inbound_event_id : (Canonical → Text) → Text → MessageEvent → Text
unfolding persisted_message_id canonical
stable_inbound_event_id digest session event =
    if not (is_blank event.message_id)
    then persisted_message_id [] session event
    else codes "sha256:" ++ digest (canonical session event)

unfoldable pub inbound_priority_value : List ℤ → ℕ
inbound_priority_value [] = 0
inbound_priority_value (pos n ∷ _) = n
inbound_priority_value (negsuc n ∷ _) = 0

nanos_per_second : ℕ
nanos_per_second = 1000000000

-- `if event.Time <= 0 { event.Time = now.Unix() }`.
unfoldable pub event_seconds : ℤ → ℕ → ℕ
unfolding nanos_per_second
event_seconds (pos n) now = if n == 0 then now / nanos_per_second else n
event_seconds (negsuc n) now = now / nanos_per_second

unfoldable pub event_text : MessageEvent → Text
event_text event =
    let plain = trim_space (plain_text event.segments) in
    if is_empty plain then trim_space event.raw_message else plain

unfoldable pub history_row : Text → Text → MessageEvent → ℕ → ℕ → HistoryRow
unfolding event_text
history_row id session event seconds now = record {
  id = id;
  session = session;
  kind = event.kind;
  group_id = event.group_id;
  user_id = event.user_id;
  message_id = event.message_id;
  sender_name = event.sender_name;
  event_time = seconds;
  text = event_text event;
  payload = event;
  created_at = now;
}

unfoldable pub queue_row : Text → Text → MessageEvent → ℕ → ℕ → ℕ → InboundRow
queue_row id session event seconds priority now = record {
  id = id;
  session = session;
  kind = event.kind;
  group_id = event.group_id;
  user_id = event.user_id;
  message_id = event.message_id;
  event_time = seconds;
  payload = event;
  priority = priority;
  status = pending;
  attempts = 0;
  available_at = now;
  lease_owner = none;
  lease_until = none;
  outcome = none;
  last_error = none;
  created_at = now;
  updated_at = now;
  completed_at = none;
}

-- The refresh of a history row keeps its id and its session.
unfoldable pub refresh_history : HistoryRow → HistoryRow → HistoryRow
refresh_history new r = record new { id = r.id; session = r.session }

-- A pending row takes the higher priority and the new payload, and keeps its place in time.
unfoldable pub refresh_row : MessageEvent → ℕ → ℕ → InboundRow → InboundRow
refresh_row event priority now r = record r {
  priority = if ltb r.priority priority then priority else r.priority;
  payload = event;
  updated_at = now;
}

abbrev pub pending_with_id : Text → InboundRow → Bool
pending_with_id id r = text_eq r.id id && is_pending r.status

-- The transaction, on the values that the head of the function computes: the new store, and whether
-- the queue got a row.
unfoldable pub store_event : Text → Text → MessageEvent → ℕ → ℕ → ℕ → Store → Store × Bool
unfolding history_row queue_row refresh_history refresh_row
store_event id session event seconds priority now s =
    let row = history_row id session event seconds now in
    let known = not (count_if (history_has_id id) s.history == 0) in
    let queued = not (count_if (has_id id) s.events == 0) in
    if known
    then (
      record s {
        history = update_where (history_has_id id) (refresh_history row) s.history;
        events = update_where (pending_with_id id) (refresh_row event priority now) s.events;
      },
      false,
    )
    else if queued
    then (record s { history = s.history ++ (row ∷ []) }, false)
    else (
      record {
        history = s.history ++ (row ∷ []);
        events = s.events ++ (queue_row id session event seconds priority now ∷ []);
      },
      true,
    )

-- `answers` is whether SQLite carries out the transaction; where it does not, it is rolled back.
unfoldable pub enqueue :
    (Canonical → Text)
    → Bool
    → ℕ
    → Text
    → MessageEvent
    → List ℤ
    → Store
    → Store × Result (Text × Bool)
unfolding stable_inbound_event_id inbound_priority_value event_seconds store_event
enqueue digest answers now session event priorities s =
    let session' = trim_space session in
    let id = stable_inbound_event_id digest session' event in
    let seconds = event_seconds event.time now in
    let event' = record event { time = pos seconds } in
    let (s', inserted) =
      store_event id session' event' seconds (inbound_priority_value priorities) now s in
    if is_empty session'
    then (s, err session_required)
    else if answers
    then (s', ok (id, inserted))
    else (s, err database)
