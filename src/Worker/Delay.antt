-- ===== src/Worker/Delay.antt =====
-- When a message is tried again, and when it is too old to be answered.
use diana_qq_bot.Prelude.{
  ℕ, zero, suc, ◌-◌, ◌*◌, ◌^◌, ◌≡◌, ap, ◌∙◌, Bool, false, inl, inr, if◌then◌else◌, ltb, min, arith,
  Bool-cases,
}
use diana_qq_bot.Prelude.Int64.{pos, negsuc, ltz, sub_time}
use diana_qq_bot.Prelude.Backoff.{pow-pos}
use native.Mathlib.Nat.{pow-suc, mul-le-mul_left}
use diana_qq_bot.Event.{MessageEvent}

abbrev pub second : ℕ
second = 10 ^ 9

abbrev pub first_delay : ℕ
first_delay = 5 * second

abbrev pub last_delay : ℕ
last_delay = 300 * second

-- The loop, with so many rounds to go.
unfoldable pub doubled_while_short : ℕ → ℕ → ℕ
doubled_while_short zero delay = delay
doubled_while_short (suc rounds) delay =
    let rest = doubled_while_short rounds (delay * 2) in
    if ltb delay last_delay then rest else delay

-- The numbers stay below twice the last delay.
unfoldable pub inbound_retry_delay : ℕ → ℕ
unfolding doubled_while_short
inbound_retry_delay attempts =
    let attempts' = if ltb attempts 1 then 1 else attempts in
    let delay = doubled_while_short (attempts' - 1) first_delay in
    if ltb last_delay delay then last_delay else delay

abbrev pub inbound_replay_window : ℕ
inbound_replay_window = 7200 * second

unfoldable pub inbound_event_is_stale : MessageEvent → ℕ → Bool
inbound_event_is_stale event now = elim event.time [
  | negsuc _ ↦ false
  | pos seconds ↦
      if ltb 0 seconds
      then ltz (pos inbound_replay_window) (sub_time now (seconds * second))
      else false
]

regroup : (delay p q : ℕ) → q ≡ p * 2 → delay * 2 * p ≡ delay * q
regroup delay p q e = grind arith

min_doubled :
    (rounds delay : ℕ)
    → min last_delay (doubled_while_short rounds delay) ≡ min last_delay (delay * 2 ^ rounds)
unfolding doubled_while_short
min_doubled zero delay = omega arith
min_doubled (suc rounds) delay = elim (Bool-cases (ltb delay last_delay)) [
  | inl e ↦
      rw (e, doubled_while_short)
        (min_doubled rounds (delay * 2)
          ∙ ap (λ t. min last_delay t)
              (regroup delay (2 ^ rounds) (2 ^ suc rounds) (pow-suc 2 rounds)))
  | inr e ↦
      let grown = mul-le-mul_left delay (pow-pos (suc rounds)) in
      rw (e, doubled_while_short) (ground (arith, grown))
]

-- The loop that computes the delay of a retry gives five seconds, doubled for each attempt after the
-- first, or five minutes where that is less.
pub inbound_retry_delay_closed :
    (attempts : ℕ)
    → inbound_retry_delay attempts ≡ min last_delay (first_delay * 2 ^ (attempts - 1))
unfolding inbound_retry_delay
inbound_retry_delay_closed attempts =
    let closed = min_doubled (attempts - 1) first_delay in
    let same : (if ltb attempts 1 then 1 else attempts) - 1 ≡ attempts - 1 = ground arith in
    rw (same, inbound_retry_delay) (ground (arith, closed))
