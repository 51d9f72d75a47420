-- ===== src/Outbound/Gate.antt =====
-- executeOutboundCall: one round of its loop, the loop over the rounds that the environment gives, and
-- the call as a whole.
use diana_qq_bot.Prelude.{
  ℕ, ◌+◌, Bool, true, false, ◌||◌, not, List, [], ◌∷◌, ◌++◌, Option, none, some, if◌then◌else◌, ltb,
  ◌==◌,
}
use diana_qq_bot.Prelude.Text.{Text, codes, is_empty, is_blank, trim_space}
use diana_qq_bot.Prelude.Int64.{ltz, add_time, sub_time}
use diana_qq_bot.Prelude.Assoc.{lookup, insert}
use diana_qq_bot.Event.{MessageEvent, is_group}
use diana_qq_bot.Outbound.Policy.{DeliveryPolicy, policy_from_context, backoff_delay}
use diana_qq_bot.Outbound.Groups.{
  UnavailableGroup, GoError, plain, outbound, error_text, is_group_unavailable, Gate,
  delivery_dropped, delivery_backoff, delivery_recovered, Delivery, emit, GroupList, wrap_error,
  blocked_error,
}

-- What the API call returns: the response, handed through, or an error.
pub data CallOutcome : Type 0 where
  sent : Text → CallOutcome
  refused : GoError → CallOutcome

-- What one round reads of the context, the clock and the network, in the order of the source.
pub record Turn : Type 0 where
  pub ctx_error : Option Text
  pub stopped : Bool  -- runtimeContextStopped, after an error of the context
  pub cancelled_at : ℕ  -- time.Now, for the cooldown that such an error starts
  pub now : ℕ
  pub asked_at : ℕ  -- the clock of time.Until
  pub wait_error : Option Text
  pub outcome : CallOutcome
  pub group_list : GroupList
  pub failed_at : ℕ

-- What the call returns to its caller.
pub data Reply : Type 0 where
  delivered : Text → Reply
  failed : GoError → Reply

abbrev pub open_gate : Gate
open_gate = record {
  failures = 0;
  first_failure = none;
  next_attempt = none;
  drop_until = none;
  last_error = [];
}

-- The parameters of one call: the policy, whether an alternative delivery takes over after one
-- failure, the event and the API action.
pub record Request : Type 0 where
  pub policy : DeliveryPolicy
  pub alternative : Bool
  pub event : MessageEvent
  pub action : Text

abbrev pub request : Option DeliveryPolicy → Bool → MessageEvent → Text → Request
request policy alternative event action = record {
  policy = policy_from_context policy;
  alternative = alternative;
  event = event;
  action = action;
}

abbrev pub group_of : Request → Text
group_of q = trim_space q.event.group_id

unfoldable pub dropped_error : Text → Text → GoError
dropped_error group_id cause =
    let cause' = trim_space cause in
    outbound group_id
      (codes "qqbot: dropped outbound delivery for group "
        ++ (group_id
            ++ (codes ": "
                ++ (if is_empty cause'
                    then codes "delivery did not recover before the retry window expired"
                    else cause'))))
      false true

-- enterOutboundDropCooldown, and the error that follows it.
unfoldable pub drop_delivery : ℕ → Request → Delivery → Delivery × Option Reply
unfolding emit dropped_error
drop_delivery now q d = (
  emit (delivery_dropped d.gate.failures) (record d {
    gate = record (d.gate) {
      next_attempt = none;
      drop_until = some (add_time now q.policy.drop_cooldown);
    };
  }),
  some (failed (dropped_error (group_of q) d.gate.last_error)),
)

-- `if strings.TrimSpace(gate.lastError) == "" { gate.lastError = err.Error() }`.
abbrev pub note_error : Text → Delivery → Delivery
note_error e d = record d {
  gate = record (d.gate) {
    last_error = if is_blank d.gate.last_error then e else d.gate.last_error;
  };
}

-- Whether the window of failures has passed.
abbrev pub window_over : Request → ℕ → Option ℕ → Bool
window_over q now none = false
window_over q now (some first) = not (ltz (sub_time now first) q.policy.failure_window)

abbrev pub first_or : Option ℕ → ℕ → ℕ
first_or none now = now
first_or (some t) now = t

-- The failure itself: its time, if it is the window's first, its number and its text.
abbrev pub count_failure : Turn → GoError → Delivery → Delivery
count_failure t e d = record d {
  gate = record (d.gate) {
    first_failure = some (first_or d.gate.first_failure t.failed_at);
    failures = d.gate.failures + 1;
    last_error = error_text e;
  };
}

-- A failed call counts, and the delivery is dropped or waits for its next attempt.
unfoldable pub after_failure :
    Request → Turn → GoError → GoError → Delivery → Delivery × Option Reply
unfolding drop_delivery backoff_delay
after_failure q t e wrapped d =
    let counted = count_failure t e d in
    let delay = backoff_delay q.event q.action (d.gate.failures + 1) q.policy in
    let waiting = emit (delivery_backoff (d.gate.failures + 1) delay) (record counted {
      gate = record (counted.gate) { next_attempt = some (add_time t.failed_at delay) };
    }) in
    if window_over q t.failed_at counted.gate.first_failure
    then drop_delivery t.failed_at q counted
    else (waiting, if q.alternative then some (failed wrapped) else none)

unfoldable pub call_api : Request → Turn → Delivery → Delivery × Option Reply
unfolding after_failure emit
call_api q t d =
    let called = record d { calls = d.calls + 1 } in
    elim t.outcome [
      | sent response ↦
          let reset = record called { gate = open_gate } in
          (
            if ltb 0 d.gate.failures
                then emit (delivery_recovered d.gate.failures) reset
                else reset,
            some (delivered response),
          )
      | refused e ↦
          let (marked, wrapped) = wrap_error t.failed_at q.event t.group_list e called in
          if is_group_unavailable wrapped
          then (marked, some (failed wrapped))
          else after_failure q t e wrapped marked
    ]

-- `time.Until(gate.nextAttempt) > 0`: a gate with no next attempt does not wait.
abbrev pub must_wait : Turn → Option ℕ → Bool
must_wait t none = false
must_wait t (some next) = ltb t.asked_at next

unfoldable pub wait_and_call : Request → Turn → Delivery → Delivery × Option Reply
unfolding call_api drop_delivery
wait_and_call q t d =
    if must_wait t d.gate.next_attempt
    then elim t.wait_error [
      | none ↦ call_api q t d
      | some e ↦
          if t.stopped
          then (d, some (failed (plain e)))
          else drop_delivery t.cancelled_at q (note_error e d)
    ]
    else call_api q t d

unfoldable pub check_window : Request → Turn → Delivery → Delivery × Option Reply
unfolding wait_and_call drop_delivery
check_window q t d =
    if window_over q t.now d.gate.first_failure
    then drop_delivery t.now q d
    else wait_and_call q t d

-- One round of the loop: the new state, and the reply if the round returns.
unfoldable pub turn : Request → Turn → Delivery → Delivery × Option Reply
unfolding check_window drop_delivery dropped_error
turn q t d = elim t.ctx_error [
  | some e ↦
      if d.gate.failures == 0 || t.stopped
      then (d, some (failed (plain e)))
      else drop_delivery t.cancelled_at q (note_error e d)
  | none ↦ elim d.gate.drop_until [
    | none ↦ check_window q t d
    | some until ↦
        if ltb t.now until
        then (d, some (failed (dropped_error (group_of q) d.gate.last_error)))
        else check_window q t (record d { gate = open_gate })
  ]
]

-- The loop; no reply means that the call is still under way when the rounds end.
unfoldable pub deliver : Request → List Turn → Delivery → Delivery × Option Reply
unfolding turn
deliver q [] d = (d, none)
deliver q (t ∷ ts) d =
    let (d', reply) = turn q t d in
    let rest = deliver q ts d' in elim reply [ some r ↦ (d', some r) | none ↦ rest ]

-- What the runtime keeps across calls.
pub record Guard : Type 0 where
  pub deliveries : List (Text × Gate)
  pub groups : List (Text × UnavailableGroup)

-- A group's gate is made when it is first asked for.
abbrev pub gate_of : Text → Guard → Gate
gate_of group_id g = elim (lookup group_id g.deliveries) [ none ↦ open_gate | some gate ↦ gate ]

-- One call with no retries.
unfoldable pub call_once : Request → Turn → Delivery → Delivery × Option Reply
call_once q t d =
    let called = record d { calls = d.calls + 1 } in
    elim t.outcome [
      | sent response ↦ (called, some (delivered response))
      | refused e ↦
          let (marked, wrapped) = wrap_error t.failed_at q.event t.group_list e called in
          (marked, some (failed wrapped))
    ]

abbrev pub start : Gate → Guard → Delivery
start gate g = record { gate = gate; groups = g.groups; effects = []; calls = 0 }

-- `retries` is whether the channel wants outbound backoff; `once` is the round of a call that does not
-- retry. The gate stays locked from its look-up to the reply, so that no other call of the group comes
-- between.
unfoldable pub execute :
    Bool
    → Option DeliveryPolicy
    → Bool
    → MessageEvent
    → Text
    → Turn
    → List Turn
    → Guard
    → Guard × Delivery × Option Reply
unfolding call_once deliver
execute retries policy alternative event action once turns g =
    let q = request policy alternative event action in
    let group_id = trim_space event.group_id in
    let gate = gate_of group_id g in
    elim (blocked_error event g.groups) [
      | some e ↦ (g, start gate g, some (failed e))
      | none ↦
          let (d, reply) = call_once q once (start gate g) in
          let (d', reply') = deliver q turns (start gate g) in
          if not (is_group event.kind) || is_empty group_id || not retries
          then (record g { groups = d.groups }, d, reply)
          else (
            record { deliveries = insert group_id d'.gate g.deliveries; groups = d'.groups },
            d',
            reply',
          )
    ]
