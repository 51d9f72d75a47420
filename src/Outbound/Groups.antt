-- ===== src/Outbound/Groups.antt =====
-- Groups that the bot can no longer send to, the errors of a send, and what they do to a delivery.
use diana_qq_bot.Prelude.{
  ℕ, ◌*◌, Bool, true, false, ◌&&◌, ◌||◌, not, List, [], ◌∷◌, ◌++◌, Option, none, some,
  if◌then◌else◌, ltb, ◌==◌, length, take,
}
use diana_qq_bot.Prelude.Text.{Text, codes, text_eq, is_empty, trim_space}
use diana_qq_bot.Prelude.Int64.{ℤ, pos, negsuc}
use diana_qq_bot.Prelude.Assoc.{lookup, insert, delete}
use diana_qq_bot.Event.{MessageEvent, is_group}

pub record UnavailableGroup : Type 0 where
  pub blocked_at : ℕ
  pub reason : Text

-- A Go error: any, by its text, or an *outboundSendError, whose text is its cause's.
pub data GoError : Type 0 where
  plain : Text → GoError
  outbound : (group_id cause : Text) (unavailable dropped : Bool) → GoError

abbrev pub error_text : GoError → Text
error_text (plain t) = t
error_text (outbound g cause u d) = cause

-- errors.Is with errOutboundSend, errGroupSendUnavailable and errOutboundDeliveryDropped.
abbrev pub is_outbound_send : GoError → Bool
is_outbound_send (plain t) = false
is_outbound_send (outbound g cause u d) = true

abbrev pub is_group_unavailable : GoError → Bool
is_group_unavailable (plain t) = false
is_group_unavailable (outbound g cause u d) = u

abbrev pub is_delivery_dropped : GoError → Bool
is_delivery_dropped (plain t) = false
is_delivery_dropped (outbound g cause u d) = d

pub record Gate : Type 0 where
  pub failures : ℕ
  pub first_failure : Option ℕ
  pub next_attempt : Option ℕ
  pub drop_until : Option ℕ
  pub last_error : Text

-- What a delivery does besides changing its state: entries of the log, and the cancelled batch.
pub data Effect : Type 0 where
  delivery_dropped : ℕ → Effect
  delivery_backoff : ℕ → ℤ → Effect
  delivery_recovered : ℕ → Effect
  group_send_disabled : Text → Effect
  cancel_passive_batch : Text → Effect

-- A delivery under way: its group's gate, the blocked groups, the effects so far, oldest first, and
-- how often the API has been called.
pub record Delivery : Type 0 where
  pub gate : Gate
  pub groups : List (Text × UnavailableGroup)
  pub effects : List Effect
  pub calls : ℕ

unfoldable pub emit : Effect → Delivery → Delivery
emit e d = record d { effects = d.effects ++ (e ∷ []) }

-- get_group_list's answer: none where the channel or the call failed, then none where no list was
-- recognised, then the group_id of each item, none for an item that is no object.
abbrev pub GroupList : Type 0
GroupList = Option (Option (List (Option Text)))

lists_group : Text → List (Option Text) → Bool
lists_group g [] = false
lists_group g (none ∷ items) = lists_group g items
lists_group g (some id ∷ items) = text_eq (trim_space id) g || lists_group g items

-- (missing, verified)
unfoldable pub group_missing : Text → GroupList → Bool × Bool
unfolding lists_group
group_missing group_id answer =
    let g = trim_space group_id in
    if is_empty g then (false, false) else elim answer [
      | none ↦ (false, false)
      | some none ↦ (false, false)
      | some (some items) ↦ if lists_group g items then (false, true) else (true, true)
    ]

abbrev pub is_some {ℓ} : {A : Type ℓ} → Option A → Bool
is_some none = false
is_some (some a) = true

-- At most 500 runes of the cause.
pub block_reason : Text → Text
block_reason cause =
    let reason = trim_space cause in if ltb 500 (length reason) then take 500 reason else reason

unfoldable pub mark_unavailable : ℕ → MessageEvent → GoError → Delivery → Delivery
unfolding block_reason emit
mark_unavailable now event cause d =
    let group_id = trim_space event.group_id in
    let reason = block_reason (error_text cause) in
    let cancelled = emit (cancel_passive_batch group_id) d in
    if is_empty group_id
    then d
    else if is_some (lookup group_id d.groups)
    then cancelled
    else emit (group_send_disabled reason) (record cancelled {
      groups = insert group_id (record { blocked_at = now; reason = reason }) d.groups;
    })

-- wrapOutboundSendError at an error.
unfoldable pub wrap_error : ℕ → MessageEvent → GroupList → GoError → Delivery → Delivery × GoError
wrap_error now event answer e d =
    let group_id = trim_space event.group_id in
    let unavailable =
      is_group event.kind && not (is_empty group_id) && (group_missing group_id answer).0 in
    let wrapped = outbound group_id (error_text e) unavailable false in
    if is_outbound_send e
    then (d, e)
    else (if unavailable then mark_unavailable now event e d else d, wrapped)

-- blockedGroupSendError.
unfoldable pub blocked_error : MessageEvent → List (Text × UnavailableGroup) → Option GoError
blocked_error event groups =
    let group_id = trim_space event.group_id in
    if not (is_group event.kind) || is_empty group_id then none else elim (lookup group_id groups) [
      | none ↦ none
      | some g ↦
          let reason = trim_space g.reason in
          some (
            outbound group_id
              (codes "qqbot: sending to group "
                ++ (group_id
                    ++ (codes " is disabled: "
                        ++ (if is_empty reason
                            then codes
                                "previous OneBot response reported that the bot cannot send to this group"
                            else reason))))
              true false)
    ]

-- time.Unix(seconds, 0).After(blocked), for positive seconds.
abbrev pub is_newer : ℤ → ℕ → Bool
is_newer (pos n) blocked = if ltb 0 n then ltb blocked (n * 1000000000) else false
is_newer (negsuc n) blocked = false

-- The lift of a block under the write lock: the group may have been blocked anew since the block was
-- read.
unfoldable pub unblock :
    Text → UnavailableGroup → List (Text × UnavailableGroup) → List (Text × UnavailableGroup)
unblock group_id state current = elim (lookup group_id current) [
  | none ↦ current
  | some c ↦ if c.blocked_at == state.blocked_at then delete group_id current else current
]

-- ignoreUnavailableGroupEvent: whether to ignore the event, and the groups that stay blocked. `seen`
-- are the blocks under the read lock, `current` those under the write lock.
unfoldable pub ignore_event :
    MessageEvent
    → (seen current : List (Text × UnavailableGroup)) → Bool × List (Text × UnavailableGroup)
unfolding unblock
ignore_event event seen current =
    let group_id = trim_space event.group_id in
    if not (is_group event.kind) || is_empty group_id
    then (false, current)
    else elim (lookup group_id seen) [
      | none ↦ (false, current)
      | some state ↦
          if is_newer event.time state.blocked_at
          then (false, unblock group_id state current)
          else (true, current)
    ]
