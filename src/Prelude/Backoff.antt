-- ===== src/Prelude/Backoff.antt =====
-- The delay that the bot's retries share: doubled for each failure up to a maximum, then lengthened
-- by a hashed jitter of 0 to 20 percent that never passes the maximum.
use Prim.Native.Nat.{ℕ, zero, suc, ◌+◌, ◌*◌, ◌/◌, ◌%◌, ◌^◌, ◌≤◌, min}
use native.Mathlib.Nat.{pow-suc, mul-le-mul_right, mul-le-mul_left}
use mathlib.Core.Path.{◌≡◌, sym, ap, ◌∙◌}
use mathlib.Core.Logic.{◌⊎◌, inl, inr}
use native.Mathlib.Omega.{arith}
use package.diana_qq_bot.Prelude.Tests.{ltb, if◌then◌else◌, Bool-cases}
use package.diana_qq_bot.Prelude.Int64.{ℤ, pos, ltz, mul64, mul64_small, quo64, i64_max}

-- The loop's body: `delay *= 2; if delay > maximum { delay = maximum }`.
unfoldable pub doubled : ℤ → ℤ → ℤ
doubled maximum delay = let d = mul64 delay 2 in if ltz maximum d then maximum else d

-- At most `rounds` rounds, while the delay is below the maximum.
unfoldable pub double_up : ℕ → ℤ → ℤ → ℤ
double_up zero maximum delay = delay
double_up (suc rounds) maximum delay =
    let rest = double_up rounds maximum (doubled maximum delay) in
    if ltz delay maximum then rest else delay

-- `hash % 201` permille on top of the delay.
unfoldable pub jitter : ℕ → ℤ → ℤ → ℤ
jitter hash maximum delay =
    let jittered = quo64 (mul64 delay (1000 + hash % 201)) 1000 in
    if ltz maximum jittered then maximum else jittered

pub pow-pos : (n : ℕ) → 1 ≤ 2 ^ n
pow-pos zero = omega arith
pow-pos (suc n) = rw (pow-suc 2 n) (omega (arith, pow-pos n))

le_total : (a b : ℕ) → (a ≤ b) ⊎ (b ≤ a)
le_total a b = ground arith

min_double :
    (maximum delay p : ℕ)
    → 1 ≤ p
    → min maximum (min maximum (delay * 2) * p) ≡ min maximum (delay * (p * 2))
min_double maximum delay p h = elim (le_total maximum (delay * 2)) [
  | inl over ↦
      let capped : min maximum (delay * 2) ≡ maximum = omega arith in
      rw capped (omega (arith, mul-le-mul_right p over, mul-le-mul_left maximum h))
  | inr under ↦
      let kept : min maximum (delay * 2) ≡ delay * 2 = omega arith in rw kept (omega arith)
]

min_full : (maximum delay p : ℕ) → 1 ≤ p → delay ≡ maximum → delay ≡ min maximum (delay * p)
min_full maximum delay p h e = grind arith

scaled_bound : (maximum delay k : ℕ) → delay ≤ maximum → k ≤ 1200 → delay * k ≤ maximum * 1200
scaled_bound maximum delay k h g = grind arith

doubled-pos :
    (maximum delay : ℕ)
    → maximum * 2 ≤ i64_max
    → delay ≤ maximum
    → doubled (pos maximum) (pos delay) ≡ pos (min maximum (delay * 2))
unfolding doubled
doubled-pos maximum delay h le = rw (mul64_small delay 2 (omega arith)) (ground arith)

-- The loop doubles `rounds` times, and stops at the maximum.
pub double_up-pos :
    (rounds maximum delay : ℕ)
    → maximum * 2 ≤ i64_max
    → delay ≤ maximum
    → double_up rounds (pos maximum) (pos delay) ≡ pos (min maximum (delay * 2 ^ rounds))
unfolding double_up
double_up-pos zero maximum delay h le = ap pos (omega arith)
double_up-pos (suc rounds) maximum delay h le = elim (Bool-cases (ltb delay maximum)) [
  | inl more ↦
      rw (more, double_up, doubled-pos maximum delay h le)
        (double_up-pos rounds maximum (min maximum (delay * 2)) h (omega arith)
          ∙ ap pos (
              min_double maximum delay (2 ^ rounds) (pow-pos rounds)
              ∙ ap (λ t. min maximum (delay * t)) (sym (pow-suc 2 rounds))))
  | inr full ↦
      rw (full, double_up)
        (ap pos (min_full maximum delay (2 ^ suc rounds) (pow-pos (suc rounds)) (ground arith)))
]

pub jitter-pos :
    (hash maximum delay : ℕ)
    → maximum * 1200 ≤ i64_max
    → delay ≤ maximum
    → jitter hash (pos maximum) (pos delay) ≡ pos (min maximum (delay * (1000 + hash % 201) / 1000))
unfolding jitter quo64
jitter-pos hash maximum delay h le =
    rw
      (mul64_small delay (1000 + hash % 201)
        (omega (arith, scaled_bound maximum delay (1000 + hash % 201) le (omega arith))))
      (ground arith)
