-- ===== src/ContextBudget/Cuts.antt =====
-- The cost of the texts and messages that trimTextToTokenBudget and trimMessageToTokenBudget return.
use diana_qq_bot.Prelude.{
  ℕ, zero, suc, ◌+◌, ◌-◌, ◌/◌, ◌||◌, ◌≤◌, ◌≡◌, refl, ◌∙◌, Bool, true, false, [], Option, none, some,
  arith, if◌then◌else◌, if_elim, if_either, leb, Bool-cases, inl, inr, length, ◌==◌,
}
use diana_qq_bot.Prelude.Text.{Text, is_empty, is_blank, trim_space}
use diana_qq_bot.ContextBudget.Messages.{
  Message, message_token_overhead, estimate_text_tokens, estimate_parts, estimate_message_tokens,
  scan, flush_ascii,
}
use diana_qq_bot.ContextBudget.Trim.{
  clipped_text, search, trim_text_to_token_budget, preserve_message_prefix,
  trim_message_to_token_budget,
}
use diana_qq_bot.ContextBudget.Estimates.{trim_space-le}

-- What the search ends with: a text within the budget.
abbrev Found : ℕ → Option Text → Type 0
Found budget o = (best : Text) × (o ≡ some best) × (estimate_text_tokens best ≤ budget)

search_over :
    (runes : Text) (budget : ℕ) (prefix_only : Bool) (fuel low high : ℕ) (best : Text)
    → leb low high ≡ false
    → search runes budget prefix_only (suc fuel) low high best ≡ some best
unfolding search
search_over runes budget prefix_only fuel low high best h = rw (h, search) refl

search_half :
    (runes : Text) (budget : ℕ) (prefix_only : Bool) (fuel low high : ℕ) (best : Text) (fits : Bool)
    → leb low high ≡ true
    → let mid = low + (high - low) / 2 in
      leb (estimate_text_tokens (clipped_text runes mid prefix_only)) budget ≡ fits
      → search runes budget prefix_only (suc fuel) low high best
        ≡ search runes budget prefix_only fuel
            (if fits then mid + 1 else low)
            (if fits then high else mid - 1)
            (if fits then clipped_text runes mid prefix_only else best)
unfolding search
search_half runes budget prefix_only fuel low high best fits h e = rw (h, e, search) refl

-- The search halves its interval, and keeps only what fits.
search_ends :
    (runes : Text) (budget : ℕ) (prefix_only : Bool) (fuel low high : ℕ) (best : Text)
    → suc high ≤ low + fuel
    → 1 ≤ low
    → estimate_text_tokens best ≤ budget
    → Found budget (search runes budget prefix_only (suc fuel) low high best)
search_ends runes budget prefix_only zero low high best enough one fits =
    (best, search_over runes budget prefix_only zero low high best (ground arith), fits)
search_ends runes budget prefix_only (suc n) low high best enough one fits =
    elim (Bool-cases (leb low high)) [
      | inr over ↦ (best, search_over runes budget prefix_only (suc n) low high best over, fits)
      | inl inside ↦ elim (Bool-cases (leb (estimate_text_tokens candidate) budget)) [
        | inl e ↦
            let rest =
              search_ends runes budget prefix_only n (low + (high - low) / 2 + 1) high candidate
                (omega arith) (omega arith) (ground arith) in
            (
              rest.0,
              search_half runes budget prefix_only (suc n) low high best true inside e ∙ rest.1,
              rest.2,
            )
        | inr e ↦
            let rest =
              search_ends runes budget prefix_only n low (low + (high - low) / 2 - 1) best
                (ground arith) one fits in
            (
              rest.0,
              search_half runes budget prefix_only (suc n) low high best false inside e ∙ rest.1,
              rest.2,
            )
      ]
    ]
  where
    candidate : Text
    candidate = clipped_text runes (low + (high - low) / 2) prefix_only

-- The binary search for the longest cut of a text ends within one step more than the text has code
-- points, with a text that is estimated to cost no more than the budget.
pub search_fits :
    (runes : Text) (budget : ℕ) (prefix_only : Bool)
    → (best : Text) × (search runes budget prefix_only (suc (length runes)) 1 (length runes) []
        ≡ some best)
      × (estimate_text_tokens best ≤ budget)
unfolding estimate_text_tokens scan flush_ascii
search_fits runes budget prefix_only =
    search_ends runes budget prefix_only (length runes) 1 (length runes) [] (omega arith)
      (omega arith) (omega arith)

empty_fits : (n : ℕ) → estimate_text_tokens [] ≤ n
unfolding estimate_text_tokens scan flush_ascii
empty_fits n = omega arith

-- A cut text costs no more than its budget.
pub trim_text-le :
    (text : Text) (budget : ℕ) (prefix_only : Bool)
    → estimate_text_tokens (trim_text_to_token_budget text budget prefix_only) ≤ budget
unfolding trim_text_to_token_budget
trim_text-le text budget prefix_only =
    if_either P (is_empty (trim_space text) || (budget == 0)) (empty_fits budget) (
      if_elim P (leb (estimate_text_tokens (trim_space text)) budget) (λ e. ground arith)
        (λ e.
          let (best, found, fits) = search_fits (trim_space text) budget prefix_only in
          rw found (omega (arith, trim_space-le best, fits))))
  where
    P : Text → Type 0
    P t = estimate_text_tokens t ≤ budget

-- A message of text alone.
abbrev pub TextOnly : Message → Type 0
TextOnly m = m.parts ≡ []

-- A cut message of text alone costs no more than its budget, and is one of text alone.
abbrev pub FitsCut : ℕ → Option Message → Type 0
FitsCut budget none = Unit
FitsCut budget (some m) = estimate_message_tokens m ≤ budget

TextOnly-cost :
    (m : Message)
    → TextOnly m
    → estimate_message_tokens m ≡ message_token_overhead + estimate_text_tokens m.content
unfolding estimate_message_tokens estimate_parts
TextOnly-cost m h = rw h (omega arith)

pub trim_message-FitsCut :
    (m : Message) (budget : ℕ) → TextOnly m → FitsCut budget (trim_message_to_token_budget m budget)
unfolding trim_message_to_token_budget
trim_message-FitsCut m budget h =
    if_elim (FitsCut budget) (leb budget message_token_overhead) (λ e. tt)
      (λ e. rw h (if_either (FitsCut budget) (is_blank content) tt (small (ground arith))))
  where
    content : Text
    content =
        trim_text_to_token_budget m.content (budget - message_token_overhead)
          (preserve_message_prefix m)

    small : 8 ≤ budget → estimate_message_tokens (record m { content = content }) ≤ budget
    small le = omega (
      arith,
      TextOnly-cost (record m { content = content }) h,
      trim_text-le m.content (budget - message_token_overhead) (preserve_message_prefix m),
    )
