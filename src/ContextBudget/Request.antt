-- ===== src/ContextBudget/Request.antt =====
-- The cost of the messages that fitMessagesToTokenBudget and applyContextBudget return.
use diana_qq_bot.Prelude.{
  ℕ, suc, ◌+◌, ◌-◌, ◌≤◌, ◌<◌, ◌≡◌, refl, subst, false, List, [], ◌∷◌, Option, none, some, arith,
  if_elim, if_either, leb, Bool-cases, Option-cases, inl, inr, length, ◌==◌, All,
}
use diana_qq_bot.Prelude.Int64.{pos}
use diana_qq_bot.ContextBudget.Messages.{Message, estimate_message_tokens, estimate_messages_tokens}
use diana_qq_bot.ContextBudget.Trim.{trim_message_to_token_budget}
use diana_qq_bot.ContextBudget.Cuts.{TextOnly, FitsCut, trim_message-FitsCut}
use diana_qq_bot.ContextBudget.Fit.{
  Candidate, candidates_from, sort_by, more_urgent, Selection, selected_at, select_required,
  select_others, last_message, or_last, collect, fit_messages_to_token_budget,
}
use diana_qq_bot.Llm.Config.{ProviderConfig, max_context_tokens_with_default}
use diana_qq_bot.ContextBudget.Limit.{
  GenerateRequest, output_reserve, input_budget, fit_request, apply_context_budget,
}
use diana_qq_bot.ContextBudget.Selection.{
  Priced, All-sort_by, candidates_from-Priced, spent, Paid, select_required-Paid,
  select_others-Paid,
}

-- An entry for an index that the walk has passed, or has not reached, adds at most its own cost.
collect_passed :
    (i j : ℕ) (m : Message) (ms : List Message) (sel : List (ℕ × Message))
    → j < i
    → estimate_messages_tokens (collect i ms ((j, m) ∷ sel))
      ≡ estimate_messages_tokens (collect i ms sel)
unfolding collect selected_at estimate_messages_tokens
collect_passed i j m [] sel h = refl
collect_passed i j m (n ∷ ms) sel h = elim (Option-cases (selected_at i sel)) [
  | inl e ↦ rw (differ, e, collect, selected_at) (collect_passed (suc i) j m ms sel (omega arith))
  | inr (kept, e) ↦
      rw (differ, e, collect, selected_at)
        (omega (arith, collect_passed (suc i) j m ms sel (omega arith)))
]
  where
    differ : (i == j) ≡ false
    differ = ground arith

collect_more :
    (i : ℕ) (n : Message) (ms : List Message) (sel : List (ℕ × Message))
    → estimate_messages_tokens (collect (suc i) ms sel)
      ≤ estimate_messages_tokens (collect i (n ∷ ms) sel)
unfolding collect estimate_messages_tokens
collect_more i n ms sel = elim (Option-cases (selected_at i sel)) [
  | inl e ↦ rw (e, collect) (omega arith)
  | inr (kept, e) ↦ rw (e, collect) (omega arith)
]

collect_entry :
    (i j : ℕ) (m : Message) (ms : List Message) (sel : List (ℕ × Message))
    → estimate_messages_tokens (collect i ms ((j, m) ∷ sel))
      ≤ estimate_message_tokens m + estimate_messages_tokens (collect i ms sel)
unfolding collect selected_at estimate_messages_tokens
collect_entry i j m [] sel = omega arith
collect_entry i j m (n ∷ ms) sel = elim (Bool-cases (i == j)) [
  | inl e ↦
      rw (e, collect, selected_at)
        (omega (arith, collect_passed (suc i) j m ms sel (ground arith), collect_more i n ms sel))
  | inr e ↦ elim (Option-cases (selected_at i sel)) [
    | inl f ↦ rw (e, f, collect, selected_at) (collect_entry (suc i) j m ms sel)
    | inr (kept, f) ↦
        rw (e, f, collect, selected_at) (omega (arith, collect_entry (suc i) j m ms sel))
  ]
]

collect_none : (i : ℕ) (ms : List Message) → estimate_messages_tokens (collect i ms []) ≡ 0
unfolding collect selected_at estimate_messages_tokens
collect_none i [] = refl
collect_none i (m ∷ ms) = collect_none (suc i) ms

-- The messages that are kept cost no more than the selected entries.
collect-le :
    (i : ℕ) (ms : List Message) (sel : List (ℕ × Message))
    → estimate_messages_tokens (collect i ms sel) ≤ spent sel
unfolding spent
collect-le i ms [] = omega (arith, collect_none i ms)
collect-le i ms ((j, m) ∷ sel) = omega (arith, collect_entry i j m ms sel, collect-le i ms sel)

last_message-TextOnly :
    (ms : List Message) (m : Message) → All TextOnly ms → last_message ms ≡ some m → TextOnly m
unfolding last_message
last_message-TextOnly [] m h e = cc
last_message-TextOnly (x ∷ []) m h e = let same : x ≡ m = ground arith in subst TextOnly same h.0
last_message-TextOnly (x ∷ y ∷ ms) m h e = last_message-TextOnly (y ∷ ms) m h.1 e

last_cut :
    (budget : ℕ) (i : ℕ) (o : Option Message)
    → FitsCut budget o
    → spent (elim o [ none ↦ [] | some cut ↦ (i, cut) ∷ [] ]) ≤ budget
unfolding spent
last_cut budget i none f = omega arith
last_cut budget i (some cut) f = omega arith

or_last-le :
    (messages : List Message) (budget : ℕ) (sel : List (ℕ × Message))
    → All TextOnly messages
    → spent sel ≤ budget
    → spent (or_last messages budget sel) ≤ budget
unfolding or_last
or_last-le messages budget (x ∷ xs) h le = le
or_last-le messages budget [] h le = elim (Option-cases (last_message messages)) [
  | inl e ↦ rw (e, or_last) le
  | inr (m, e) ↦
      rw (e, or_last)
        (last_cut budget (length messages - 1) (trim_message_to_token_budget m budget)
          (trim_message-FitsCut m budget (last_message-TextOnly messages m h e)))
]

nothing : (n : ℕ) → estimate_messages_tokens [] ≤ n
unfolding estimate_messages_tokens
nothing n = omega arith

begin : (n : ℕ) → Paid n (record { selected = []; remaining = n })
unfolding spent
begin n = omega arith

-- Messages of text alone, fitted to a budget.
pub fit_messages-le :
    (messages : List Message) (budget : ℕ)
    → All TextOnly messages
    → estimate_messages_tokens (fit_messages_to_token_budget messages budget) ≤ budget
unfolding fit_messages_to_token_budget
fit_messages-le messages budget h = if_either P (budget == 0) (nothing budget) (
    if_elim P (leb (estimate_messages_tokens messages) budget) (λ e. ground arith)
      (λ _. omega (
        arith,
        collect-le 0 messages (or_last messages budget selected),
        or_last-le messages budget selected h (omega (arith, paid)),
      )))
  where
    P : List Message → Type 0
    P ms = estimate_messages_tokens ms ≤ budget

    candidates : List Candidate
    candidates = sort_by more_urgent (candidates_from 0 messages)

    priced : All Priced candidates
    priced =
        All-sort_by Priced more_urgent (candidates_from 0 messages)
          (candidates_from-Priced 0 messages h)

    start : Selection
    start = record { selected = []; remaining = budget }

    selected : List (ℕ × Message)
    selected = (select_others candidates (select_required candidates start)).selected

    paid : Paid budget (select_others candidates (select_required candidates start))
    paid =
        select_others-Paid budget candidates (select_required candidates start) priced
          (select_required-Paid budget candidates start priced (begin budget))

-- Where the token limit of the configuration is above the reserve for the output and the messages are
-- of text alone, the messages that the budget lets through are estimated to cost, together with the
-- reserve, no more than the limit.
pub apply_context_budget_fits :
    (req : GenerateRequest) (cfg : ProviderConfig) (limit : ℕ)
    → max_context_tokens_with_default cfg ≡ pos limit
    → output_reserve req.max_output_tokens < limit
    → All TextOnly req.messages
    → estimate_messages_tokens (apply_context_budget req cfg).messages
        + output_reserve req.max_output_tokens
      ≤ limit
unfolding apply_context_budget fit_request input_budget
apply_context_budget_fits req cfg limit e le h =
    rw (e, positive, apply_context_budget)
      (ground (
        arith,
        fit_messages-le req.messages (input_budget limit (output_reserve req.max_output_tokens)) h,
      ))
  where
    positive : (limit == 0) ≡ false
    positive = ground arith
