-- ===== src/GroupReply/Level.antt =====
-- The level of a member, as OneBot writes it.
use diana_qq_bot.Prelude.{
  ℕ, ◌≤◌, ◌≡◌, refl, Bool, true, false, ◌&&◌, ◌||◌, not, [], ◌∷◌, ◌++◌, Option, none, some,
  if◌then◌else◌, leb, ◌==◌, arith,
}
use diana_qq_bot.Prelude.Text.{Text, codes, is_empty, is_space, trim_left, trim_right, trim_space}
use diana_qq_bot.Prelude.Int64.{i64_max}
use diana_qq_bot.Prelude.Hash.{
  decimal, all_digits, number_from, number-decimal, all_digits-decimal, decimal-cons,
}

abbrev is_letter : (small large : ℕ) → ℕ → Bool
is_letter small large c = (c == small) || (c == large)

-- The text after a "lv" in either case, if it begins with one: no other code points fold to these.
unfoldable pub after_lv : Text → Option Text
after_lv (c ∷ d ∷ cs) = if is_letter 108 76 c && is_letter 118 86 d then some cs else none
after_lv _ = none

-- strconv.Atoi of digits: an int has 64 bits.
unfoldable pub level_of_digits : Text → Option ℕ
unfolding all_digits number_from
level_of_digits digits =
    if is_empty digits
    then none
    else if not (all_digits digits)
    then none
    else if leb (number_from 0 digits) i64_max
    then some (number_from 0 digits)
    else none

unfoldable pub parse_qq_group_level : Text → Option ℕ
unfolding after_lv level_of_digits
parse_qq_group_level raw = elim (after_lv (trim_space raw)) [
  | some rest ↦ level_of_digits (trim_space rest)
  | none ↦ level_of_digits (trim_space raw)
]

trim_right-digits : (t : Text) → all_digits t ≡ true → trim_right t ≡ t
unfolding trim_right is_space all_digits
trim_right-digits [] h = refl
trim_right-digits (c ∷ cs) h = ground (arith, trim_right-digits cs, h)

trim_left-digits : (t : Text) → all_digits t ≡ true → trim_left t ≡ t
unfolding trim_left is_space all_digits
trim_left-digits [] h = refl
trim_left-digits (c ∷ cs) h = ground (arith, h)

trim_space-digits : (t : Text) → all_digits t ≡ true → trim_space t ≡ t
unfolding trim_space
trim_space-digits t h = rw (trim_left-digits t h) (trim_right-digits t h)

after_lv-digits : (t : Text) → all_digits t ≡ true → after_lv t ≡ none
unfolding after_lv all_digits
after_lv-digits [] h = refl
after_lv-digits (c ∷ []) h = refl
after_lv-digits (c ∷ d ∷ cs) h = ground (arith, h)

decimal_filled : (n : ℕ) → is_empty (decimal n) ≡ false
decimal_filled n = let (c, cs, e) = decimal-cons n in rw e refl

level_of-decimal : (n : ℕ) → n ≤ i64_max → level_of_digits (decimal n) ≡ some n
unfolding level_of_digits
level_of-decimal n h =
    rw (decimal_filled n, all_digits-decimal n, number-decimal n) (ground (arith, h))

trim-decimal : (n : ℕ) → trim_space (decimal n) ≡ decimal n
trim-decimal n = trim_space-digits (decimal n) (all_digits-decimal n)

trim-lv : (n : ℕ) → trim_space (codes "Lv" ++ decimal n) ≡ codes "Lv" ++ decimal n
unfolding trim_space trim_left trim_right is_space
trim-lv n = rw (trim_right-digits (decimal n) (all_digits-decimal n)) refl

trim-lv_space : (n : ℕ) → trim_space (codes "LV " ++ decimal n) ≡ codes "LV " ++ decimal n
unfolding trim_space trim_left trim_right is_space
trim-lv_space n = rw (trim_right-digits (decimal n) (all_digits-decimal n), decimal_filled n) refl

trim-space_before : (n : ℕ) → trim_space (32 ∷ decimal n) ≡ decimal n
unfolding trim_space trim_left is_space
trim-space_before n = trim-decimal n

-- The levels as QQ writes them.
pub parse-decimal :
    (n : ℕ)
    → n ≤ i64_max
    → (parse_qq_group_level (decimal n) ≡ some n)
      × (parse_qq_group_level (codes "Lv" ++ decimal n) ≡ some n)
      × (parse_qq_group_level (codes "LV " ++ decimal n) ≡ some n)
unfolding parse_qq_group_level after_lv
parse-decimal n h =
    let plain = level_of-decimal n h in
    (
      rw
          (
            parse_qq_group_level,
            trim-decimal n,
            after_lv-digits (decimal n) (all_digits-decimal n),
            trim-decimal n,
          )
          plain,
      rw (parse_qq_group_level, trim-lv n, trim-decimal n) plain,
      rw (parse_qq_group_level, trim-lv_space n, trim-space_before n) plain,
    )
