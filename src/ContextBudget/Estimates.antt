-- ===== src/ContextBudget/Estimates.antt =====
-- estimateTextTokens on a text and on the text trimmed.
use diana_qq_bot.Prelude.{
  ℕ, ◌+◌, ◌&&◌, ◌≤◌, [], ◌∷◌, arith, if◌then◌else◌, if_elim, Bool-cases, inl, inr,
}
use diana_qq_bot.Prelude.Text.{Text, is_space, is_empty, trim_left, trim_right, trim_space}
use diana_qq_bot.ContextBudget.Messages.{
  scan, flush_ascii, is_ascii, wide_cost, estimate_text_tokens,
}

flush_ascii_mono : (r s : ℕ) → r ≤ s → flush_ascii r ≤ flush_ascii s
unfolding flush_ascii
flush_ascii_mono r s h = ground arith

scan_mono : (xs : Text) (r s t u : ℕ) → r ≤ s → t ≤ u → scan xs r t ≤ scan xs s u
unfolding scan
scan_mono [] r s t u h k = omega (arith, flush_ascii_mono r s h)
scan_mono (x ∷ xs) r s t u h k = elim (Bool-cases (is_ascii x)) [
  | inl e ↦ rw e (scan_mono xs (r + 1) (s + 1) t u (omega arith) k)
  | inr e ↦ rw e (scan_mono xs 0 0 _ _ (omega arith) (omega (arith, flush_ascii_mono r s h)))
]

flush-le-scan : (xs : Text) (r t : ℕ) → t + flush_ascii r ≤ scan xs r t
unfolding scan
flush-le-scan [] r t = omega arith
flush-le-scan (x ∷ xs) r t = elim (Bool-cases (is_ascii x)) [
  | inl e ↦
      rw e (omega (arith, flush-le-scan xs (r + 1) t, flush_ascii_mono r (r + 1) (omega arith)))
  | inr e ↦ rw e (omega (arith, flush-le-scan xs 0 (t + flush_ascii r + wide_cost x)))
]

scan-tail : (x : ℕ) (xs : Text) → scan xs 0 0 ≤ scan (x ∷ xs) 0 0
unfolding scan
scan-tail x xs = scan_mono xs 0 _ 0 _ (omega arith) (omega arith)

trim_left-le : (t : Text) → scan (trim_left t) 0 0 ≤ scan t 0 0
unfolding trim_left
trim_left-le [] = omega arith
trim_left-le (c ∷ cs) = elim (Bool-cases (is_space c)) [
  | inl e ↦ rw e (omega (arith, trim_left-le cs, scan-tail c cs))
  | inr e ↦ rw e (omega arith)
]

trim_right-le : (xs : Text) (r t : ℕ) → scan (trim_right xs) r t ≤ scan xs r t
unfolding trim_right scan
trim_right-le [] r t = omega arith
trim_right-le (c ∷ cs) r t =
    if_elim (λ (z : Text). scan z r t ≤ scan (c ∷ cs) r t) (is_space c && is_empty (trim_right cs))
      (λ e. flush-le-scan (c ∷ cs) r t)
      (λ e.
        trim_right-le cs (if is_ascii c then r + 1 else 0)
          (if is_ascii c then t else t + flush_ascii r + wide_cost c))

-- A trimmed text costs no more than the text.
pub trim_space-le : (t : Text) → estimate_text_tokens (trim_space t) ≤ estimate_text_tokens t
unfolding estimate_text_tokens trim_space
trim_space-le t = omega (arith, trim_right-le (trim_left t) 0 0, trim_left-le t)
