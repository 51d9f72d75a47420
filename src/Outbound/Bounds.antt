-- ===== src/Outbound/Bounds.antt =====
-- The bounds of the retry delays.
use diana_qq_bot.Prelude.{
  ℕ, ◌+◌, ◌-◌, ◌*◌, ◌/◌, ◌%◌, ◌^◌, ◌≤◌, ◌≡◌, refl, true, false, Option, arith, min, inl, inr,
  Bool-cases,
}
use native.Mathlib.Nat.{mul-le-mul_left}
use diana_qq_bot.Prelude.Text.{Text}
use diana_qq_bot.Prelude.Int64.{ℤ, pos, ltz, i64_max}
use diana_qq_bot.Prelude.Backoff.{double_up-pos, jitter-pos}
use diana_qq_bot.Event.{MessageEvent}
use diana_qq_bot.Outbound.Policy.{
  DeliveryPolicy, default_policy, policy_from_context, positive_or, given_or_zero, backoff_delay,
  backoff_hash, at_least_one,
}

-- A policy of positive durations whose delays can grow.
pub record IsSound (p : DeliveryPolicy) : Type 0 where
  pub initial_positive : ltz (pos 0) p.initial_delay ≡ true
  pub initial_capped : ltz p.maximum_delay p.initial_delay ≡ false
  pub window_positive : ltz (pos 0) p.failure_window ≡ true
  pub cooldown_positive : ltz (pos 0) p.drop_cooldown ≡ true

positive_or_positive :
    (value fallback : ℤ)
    → ltz (pos 0) fallback ≡ true
    → ltz (pos 0) (positive_or value fallback) ≡ true
positive_or_positive value fallback h = ground arith

ltz_irrefl : (a : ℤ) → ltz a a ≡ false
ltz_irrefl a = ground arith

-- Whatever policy a context carries, or none, the deliveries run under positive delays, window and
-- cooldown, and a maximum delay that is not below the initial one.
pub policy_from_context-IsSound :
    (given : Option DeliveryPolicy) → IsSound (policy_from_context given)
unfolding policy_from_context
policy_from_context-IsSound given = record {
  initial_positive =
      positive_or_positive (given_or_zero given).initial_delay default_policy.initial_delay refl;
  initial_capped = elim (Bool-cases (ltz maximum initial)) [
    | inl e ↦ rw e (ltz_irrefl initial)
    | inr e ↦ rw e e
  ];
  window_positive =
      positive_or_positive (given_or_zero given).failure_window default_policy.failure_window refl;
  cooldown_positive =
      positive_or_positive (given_or_zero given).drop_cooldown default_policy.drop_cooldown refl;
}
  where
    initial : ℤ
    initial = positive_or (given_or_zero given).initial_delay default_policy.initial_delay

    maximum : ℤ
    maximum = positive_or (given_or_zero given).maximum_delay default_policy.maximum_delay

permille_bounds : (hash : ℕ) → (1000 ≤ 1000 + hash % 201) × (1000 + hash % 201 ≤ 1200)
permille_bounds hash = omega arith

scaled_bounds :
    (base k : ℕ) → 1000 ≤ k → k ≤ 1200 → (base ≤ base * k / 1000) × (base * k / 1000 * 5 ≤ base * 6)
scaled_bounds base k h g =
    (omega (arith, mul-le-mul_left base h), omega (arith, mul-le-mul_left base g))

-- Where the initial delay is at most the maximum and 1200 times the maximum fits into 63 bits, the
-- delay after some failures is at least the initial one doubled for each failure after the first and
-- capped at the maximum, at most a fifth more than that, and never above the maximum.
pub backoff_delay_bounds :
    (event : MessageEvent) (action : Text) (failures : ℕ) (p : DeliveryPolicy) (initial maximum : ℕ)
    → p.initial_delay ≡ pos initial
    → p.maximum_delay ≡ pos maximum
    → initial ≤ maximum
    → maximum * 1200 ≤ i64_max
    → let base = min maximum (initial * 2 ^ (at_least_one failures - 1)) in
      (delay : ℕ) × (backoff_delay event action failures p ≡ pos delay)
      × (base ≤ delay)
      × (delay ≤ maximum)
      × (delay * 5 ≤ base * 6)
unfolding backoff_delay
backoff_delay_bounds event action failures p initial maximum ei em le small = (
  min maximum (base * (1000 + hash % 201) / 1000),
  rw
      (
        ei,
        em,
        double_up-pos (at_least_one failures - 1) maximum initial (omega arith) le,
        jitter-pos hash maximum base small (omega arith),
      )
      refl,
  omega (arith, jittered.0),
  omega arith,
  omega (arith, jittered.1),
)
  where
    hash : ℕ
    hash = backoff_hash event action (at_least_one failures)

    base : ℕ
    base = min maximum (initial * 2 ^ (at_least_one failures - 1))

    jittered :
        (base ≤ base * (1000 + hash % 201) / 1000)
        × (base * (1000 + hash % 201) / 1000 * 5 ≤ base * 6)
    jittered =
        scaled_bounds base (1000 + hash % 201) (permille_bounds hash).0 (permille_bounds hash).1
