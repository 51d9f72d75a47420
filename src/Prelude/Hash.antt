-- ===== src/Prelude/Hash.antt =====
-- hash/fnv's New32a over the UTF-8 bytes of a string, and fmt's %d, for the retry jitter.
use Prim.Native.Nat.{ℕ, zero, suc, ◌+◌, ◌*◌, ◌/◌, ◌%◌, ◌^◌, ◌-◌, ◌<◌, bit_xor}
use mathlib.Core.Bool.{Bool, true, ◌&&◌}
use mathlib.Core.Path.{◌≡◌, refl, ap, ◌∙◌}
use mathlib.Core.Logic.{inl, inr}
use native.Mathlib.Omega.{arith}
use mathlib.Core.List.{List, [], ◌∷◌, ◌++◌}
use package.diana_qq_bot.Prelude.Tests.{ltb, leb, if◌then◌else◌, if_elim, Bool-cases}
use package.diana_qq_bot.Prelude.Text.{Text}

utf8_char : ℕ → List ℕ
utf8_char c =
    if ltb c 0x80
    then c ∷ []
    else if ltb c 0x800
    then (0xc0 + c / 0x40) ∷ (0x80 + c % 0x40) ∷ []
    else if ltb c 0x10000
    then (0xe0 + c / 0x1000) ∷ (0x80 + c / 0x40 % 0x40) ∷ (0x80 + c % 0x40) ∷ []
    else (0xf0 + c / 0x40000)
      ∷ (0x80 + c / 0x1000 % 0x40)
      ∷ (0x80 + c / 0x40 % 0x40)
      ∷ (0x80 + c % 0x40)
      ∷ []

unfoldable pub utf8 : Text → List ℕ
unfolding utf8_char
utf8 [] = []
utf8 (c ∷ cs) = utf8_char c ++ utf8 cs

-- The digits of `n` before `acc`; the fuel bounds their number.
digits_before : ℕ → ℕ → Text → Text
digits_before zero n acc = acc
digits_before (suc fuel) n acc =
    let rest = digits_before fuel (n / 10) ((48 + n % 10) ∷ acc) in
    if ltb n 10 then (48 + n) ∷ acc else rest

-- A number has fewer digits than its value and one.
unfoldable pub decimal : ℕ → Text
unfolding digits_before
decimal n = digits_before (suc n) n []

fnv32a_from : ℕ → List ℕ → ℕ
fnv32a_from h [] = h
fnv32a_from h (b ∷ bs) = fnv32a_from (bit_xor h b * 16777619 % 2 ^ 32) bs

unfoldable pub fnv32a : List ℕ → ℕ
unfolding fnv32a_from
fnv32a bs = fnv32a_from 2166136261 bs

abbrev pub is_digit : ℕ → Bool
is_digit c = leb 48 c && leb c 57

unfoldable pub all_digits : Text → Bool
all_digits [] = true
all_digits (c ∷ cs) = is_digit c && all_digits cs

-- The number that the digits of a text go on from another.
unfoldable pub number_from : ℕ → Text → ℕ
number_from n [] = n
number_from n (c ∷ cs) = number_from (n * 10 + (c - 48)) cs

number-digits_before :
    (fuel n : ℕ) (acc : Text)
    → n < fuel
    → number_from 0 (digits_before fuel n acc) ≡ number_from n acc
unfolding digits_before number_from
number-digits_before zero n acc h = absurd (omega arith)
number-digits_before (suc fuel) n acc h = elim (Bool-cases (ltb n 10)) [
  | inl e ↦
      let same : 0 * 10 + (48 + n - 48) ≡ n = omega arith in
      rw (e, digits_before, number_from) (ap (λ m. number_from m acc) same)
  | inr e ↦
      let same : n / 10 * 10 + (48 + n % 10 - 48) ≡ n = grind arith in
      rw (e, digits_before)
        (number-digits_before fuel (n / 10) ((48 + n % 10) ∷ acc) (ground (arith, h))
          ∙ ap (λ m. number_from m acc) same)
]

all_digits-digits_before :
    (fuel n : ℕ) (acc : Text) → all_digits acc ≡ true → all_digits (digits_before fuel n acc) ≡ true
unfolding digits_before all_digits
all_digits-digits_before zero n acc h = h
all_digits-digits_before (suc fuel) n acc h =
    if_elim (λ t. all_digits t ≡ true) (ltb n 10) (λ e. ground (arith, h, e))
      (λ e. all_digits-digits_before fuel (n / 10) ((48 + n % 10) ∷ acc) (ground (arith, h)))

-- The digits of a number are the number's.
pub number-decimal : (n : ℕ) → number_from 0 (decimal n) ≡ n
unfolding decimal number_from
number-decimal n = number-digits_before (suc n) n [] (omega arith)

pub all_digits-decimal : (n : ℕ) → all_digits (decimal n) ≡ true
unfolding decimal all_digits
all_digits-decimal n = all_digits-digits_before (suc n) n [] refl

digits_before-cons :
    (fuel n : ℕ) (acc : Text)
    → n < fuel
    → (c : ℕ) × (cs : Text) × (digits_before fuel n acc ≡ c ∷ cs)
unfolding digits_before
digits_before-cons zero n acc h = absurd (omega arith)
digits_before-cons (suc fuel) n acc h = elim (Bool-cases (ltb n 10)) [
  | inl e ↦ rw (e, digits_before) (48 + n, acc, refl)
  | inr e ↦
      rw (e, digits_before)
        (digits_before-cons fuel (n / 10) ((48 + n % 10) ∷ acc) (ground (arith, h)))
]

pub decimal-cons : (n : ℕ) → (c : ℕ) × (cs : Text) × (decimal n ≡ c ∷ cs)
unfolding decimal
decimal-cons n = digits_before-cons (suc n) n [] (omega arith)
