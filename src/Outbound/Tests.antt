-- ===== src/Outbound/Tests.antt =====
-- The guard on concrete deliveries.
use diana_qq_bot.Prelude.{
  ℕ, ◌*◌, ◌≤◌, ◌≡◌, refl, inl, true, false, [], ◌∷◌, Option, none, some, arith,
}
use diana_qq_bot.Prelude.Text.{Text, codes, text_eq, trim_space}
use diana_qq_bot.Prelude.Int64.{pos, mul64, quo64, wrap64}
use diana_qq_bot.Prelude.Hash.{utf8, decimal, fnv32a}
use diana_qq_bot.Prelude.Backoff.{double_up, doubled, jitter}
use diana_qq_bot.Prelude.Assoc.{lookup, insert}
use diana_qq_bot.Event.{MessageEvent, EventKind, session_key}
use diana_qq_bot.Outbound.Policy.{DeliveryPolicy, policy_from_context, backoff_delay}
use diana_qq_bot.Outbound.Groups.{
  is_some, Delivery, mark_unavailable, is_group_unavailable, GoError, plain, group_missing,
  blocked_error, ignore_event, wrap_error, outbound,
}
use diana_qq_bot.Outbound.Gate.{
  Turn, sent, refused, Reply, open_gate, request, Request, deliver, Guard, start, execute,
  dropped_error, failed,
}
use diana_qq_bot.Outbound.Bounds.{IsSound, policy_from_context-IsSound, backoff_delay_bounds}
use diana_qq_bot.Outbound.Rounds.{Consistent, deliver-Consistent}
use diana_qq_bot.Outbound.Termination.{deliver_returns}
use diana_qq_bot.Outbound.Calls.{OfGroup}
use diana_qq_bot.Outbound.Resets.{deliver-Resets}
use diana_qq_bot.Outbound.Cooldown.{Refuses, cooldown-Refuses}
use diana_qq_bot.Outbound.Gone.{gone_refuses}
use diana_qq_bot.Outbound.Rejoin.{ignore_event-mark_unavailable}

abbrev message : ℕ → MessageEvent
message seconds = record {
  kind = EventKind.group;
  sub_type = [];
  time = pos seconds;
  original_time = pos 0;
  self_id = [];
  user_id = codes "7";
  operator_id = [];
  operator_name = [];
  operator_role = [];
  group_id = codes "42";
  message_id = [];
  message_seq = [];
  message_type = [];
  raw_message = [];
  segments = [];
  sender_name = [];
  sender_role = [];
  sender_level = [];
  to_me = false;
  quoted = none;
  semantic_source_message_id = [];
}

abbrev send : Text
send = codes "send_group_msg"

-- One minute at first, and a window of two.
abbrev short : Option DeliveryPolicy
short = some (record {
  initial_delay = pos 60000000000;
  maximum_delay = pos 900000000000;
  failure_window = pos 120000000000;
  drop_cooldown = pos 0;
})

abbrev fails_at : ℕ → Turn
fails_at now = record {
  ctx_error = none;
  stopped = false;
  cancelled_at = now;
  now = now;
  asked_at = now;
  wait_error = none;
  outcome = refused (plain (codes "timeout"));
  group_list = none;
  failed_at = now;
}

abbrev sends_at : ℕ → Turn
sends_at now = record (fails_at now) { outcome = sent (codes "ok") }

abbrev gone_at : ℕ → Turn
gone_at now = record (fails_at now) { group_list = some (some (some (codes "41") ∷ [])) }

abbrev fresh : Guard
fresh = record { deliveries = []; groups = [] }

abbrev asked : Request
asked = request short false (message 5) send

everything : Unit {0}
unfolding deliver execute backoff_delay policy_from_context double_up doubled jitter mul64 quo64
    wrap64 utf8 decimal fnv32a session_key lookup insert text_eq trim_space group_missing
    blocked_error wrap_error ignore_event dropped_error
everything = tt

policy_from_context-IsSound_example : IsSound (policy_from_context short)
policy_from_context-IsSound_example = policy_from_context-IsSound short

backoff_delay_bounds_example :
    (delay : ℕ) × (backoff_delay (message 5) send 3 asked.policy ≡ pos delay)
    × (240000000000 ≤ delay)
    × (delay ≤ 900000000000)
    × (delay * 5 ≤ 240000000000 * 6)
unfolding policy_from_context
backoff_delay_bounds_example =
    backoff_delay_bounds (message 5) send 3 asked.policy 60000000000 900000000000 refl refl
      (omega arith) (omega arith)

deliver-Consistent_example :
    Consistent
      (deliver asked (fails_at 0 ∷ sends_at 100000000000 ∷ []) (start open_gate fresh)).0.gate
deliver-Consistent_example =
    deliver-Consistent asked (fails_at 0 ∷ sends_at 100000000000 ∷ []) (start open_gate fresh)
      (inl (refl, refl, refl, refl))

deliver-Resets_example :
    (deliver asked (fails_at 0 ∷ sends_at 100000000000 ∷ []) (start open_gate fresh)).0.gate
    ≡ open_gate
unfolding everything
deliver-Resets_example =
    deliver-Resets asked (fails_at 0 ∷ sends_at 100000000000 ∷ []) (start open_gate fresh)
      (codes "ok") (tt, (tt, tt)) refl

deliver_returns_example :
    (r : Reply) × ((deliver asked
        (fails_at 0 ∷ fails_at 100000000000 ∷ fails_at 400000000000 ∷ [])
        (start open_gate fresh)).1
      ≡ some r)
unfolding everything
deliver_returns_example =
    deliver_returns asked 60000000000 900000000000 120000000000 0 (fails_at 0)
      (fails_at 100000000000 ∷ fails_at 400000000000 ∷ []) (start open_gate fresh)
      (record {
        initial_is = refl;
        maximum_is = refl;
        window_is = refl;
        initial_pos = omega arith;
        initial_le = omega arith;
        maximum_small = omega arith;
      })
      tt
      (
        omega arith,
        omega arith,
        omega arith,
        tt,
        (
          omega arith,
          omega arith,
          omega arith,
          λ _. omega arith,
          (omega arith, omega arith, omega arith, λ _. omega arith, tt),
        ),
      )
      (omega arith)

in_group_42 : (n : ℕ) → OfGroup (codes "42") (message n)
unfolding trim_space
in_group_42 n = record { of_group = refl; named = refl; not_blank = refl }

-- The window of two minutes is over at the third failure, and the cooldown is the default one.
abbrev after_drop : Guard
after_drop =
    (execute true short false (message 5) send (fails_at 0)
      (fails_at 0 ∷ fails_at 100000000000 ∷ fails_at 400000000000 ∷ []) fresh).0

cooldown-Refuses_example :
    Refuses
      (codes "42")
      after_drop
      500000000000
      (execute true none true
        (message 400)
        (codes "send_msg")
        (sends_at 0)
        (sends_at 500000000000 ∷ [])
        after_drop).1.calls
unfolding everything
cooldown-Refuses_example =
    cooldown-Refuses short none false true (message 5) (message 400) send (codes "send_msg")
      (codes "42") (fails_at 0) (sends_at 0) (sends_at 500000000000)
      (fails_at 0 ∷ fails_at 100000000000 ∷ fails_at 400000000000 ∷ []) [] fresh
      (dropped_error (codes "42") (codes "timeout")) (in_group_42 5) (in_group_42 400) refl
      (tt, (tt, (tt, tt))) refl refl refl

-- Blocked at 1 s, blocked anew at 3 s, and an event of 2 s that has read the first block.
abbrev free : Delivery
free = record { gate = open_gate; groups = []; effects = []; calls = 0 }

ignore_event-mark_unavailable_example :
    let seen = (mark_unavailable 1000000000 (message 5) (plain []) free).groups in
    let current = (mark_unavailable 3000000000 (message 5) (plain []) free).groups in
    let result = ignore_event (message 2) seen current in
    (result.0 ≡ false)
    × (is_some (blocked_error (message 5) result.1) ≡ true)
    × (lookup (codes "43") result.1 ≡ none)
unfolding everything
ignore_event-mark_unavailable_example =
    ignore_event-mark_unavailable 1000000000 3000000000 (message 5) (message 2) (codes "42")
      (codes "43") (plain []) (plain []) free free (in_group_42 5) (in_group_42 2) refl refl refl

-- The groups of the bot do not name the group any more.
abbrev after_leave : Guard
after_leave = (execute true short false (message 5) send (gone_at 0) (gone_at 7 ∷ []) fresh).0

gone_refuses_example :
    let x =
      execute true none true
        (message 400)
        (codes "send_msg")
        (sends_at 0)
        (sends_at 500 ∷ [])
        after_leave in
    (x.0 ≡ after_leave)
    × (x.1.calls ≡ 0)
    × ((e : GoError) × (x.2 ≡ some (failed e)) × (is_group_unavailable e ≡ true))
unfolding everything
gone_refuses_example =
    gone_refuses short none false true true (message 5) (message 400) send (codes "send_msg")
      (codes "42") (gone_at 0) (sends_at 0) (gone_at 7 ∷ []) (sends_at 500 ∷ []) fresh
      (outbound (codes "42") (codes "timeout") true false) (in_group_42 5) (in_group_42 400) refl
      (tt, tt) refl refl
