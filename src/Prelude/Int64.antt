-- ===== src/Prelude/Int64.antt =====
-- Go's int64, which time.Duration is, as integers with the wrap-around written out.
use Prim.Native.Nat.{ℕ, suc, ◌+◌, ◌-◌, ◌*◌, ◌/◌, ◌%◌, ◌^◌, ◌≤◌}
use mathlib.Core.Path.{◌≡◌}
use mathlib.Core.Bool.{Bool, true, false}
use native.Mathlib.Omega.{arith}
use package.diana_qq_bot.Prelude.Tests.{ltb, leb, if◌then◌else◌}

-- `negsuc n` is -(n + 1).
pub data ℤ : Type 0 where
  pos : ℕ → ℤ
  negsuc : ℕ → ℤ

abbrev pub ltz : ℤ → ℤ → Bool
ltz (pos a) (pos b) = ltb a b
ltz (pos a) (negsuc b) = false
ltz (negsuc a) (pos b) = true
ltz (negsuc a) (negsuc b) = ltb b a

abbrev pub pos_part : ℤ → ℕ
pos_part (pos n) = n
pos_part (negsuc n) = 0

abbrev pub u64_mod : ℕ
u64_mod = 2 ^ 64

abbrev pub i64_max : ℕ
i64_max = 2 ^ 63 - 1

-- The signed value of the low 64 bits.
unfoldable pub wrap64 : ℕ → ℤ
wrap64 n = let r = n % u64_mod in if leb r i64_max then pos r else negsuc (u64_mod - 1 - r)

-- A product with a constant that is not negative.
unfoldable pub mul64 : ℤ → ℕ → ℤ
unfolding wrap64
mul64 (pos a) k = wrap64 (a * k)
mul64 (negsuc a) k = wrap64 (u64_mod - (suc a * k) % u64_mod)

-- The quotient by a positive constant, towards zero.
unfoldable pub quo64 : ℤ → ℕ → ℤ
quo64 (pos a) k = pos (a / k)
quo64 (negsuc a) k = let q = suc a / k in if leb q 0 then pos 0 else negsuc (q - 1)

pub wrap64_small : (n : ℕ) → n ≤ i64_max → wrap64 n ≡ pos n
unfolding wrap64
wrap64_small n h = ground arith

pub mul64_small : (a k : ℕ) → a * k ≤ i64_max → mul64 (pos a) k ≡ pos (a * k)
unfolding mul64
mul64_small a k h = wrap64_small (a * k) h

-- Durations are compared by `<`, so `a <= b` is `not (b < a)`.
abbrev pub lez : ℤ → ℤ → Bool
lez a b = if ltz b a then false else true

-- A point in time, as Unix nanoseconds, moved by a duration, and the duration between two.
abbrev pub add_time : ℕ → ℤ → ℕ
add_time t (pos d) = t + d
add_time t (negsuc d) = t - suc d

abbrev pub sub_time : ℕ → ℕ → ℤ
sub_time a b = if leb b a then pos (a - b) else negsuc (b - a - 1)

-- The low 64 bits, and sums and differences on them.
unfoldable pub bits64 : ℤ → ℕ
bits64 (pos n) = n % u64_mod
bits64 (negsuc n) = u64_mod - 1 - n % u64_mod

unfoldable pub add64 : ℤ → ℤ → ℤ
unfolding wrap64 bits64
add64 a b = wrap64 (bits64 a + bits64 b)

unfoldable pub sub64 : ℤ → ℤ → ℤ
unfolding wrap64 bits64
sub64 a b = wrap64 (bits64 a + (u64_mod - bits64 b))

pub add64_small : (a b : ℕ) → a + b ≤ i64_max → add64 (pos a) (pos b) ≡ pos (a + b)
unfolding add64
add64_small a b h = ground arith

pub sub64_small : (a b : ℕ) → b ≤ a → a ≤ i64_max → sub64 (pos a) (pos b) ≡ pos (a - b)
unfolding sub64
sub64_small a b h le = ground arith
