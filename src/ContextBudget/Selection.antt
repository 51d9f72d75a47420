-- ===== src/ContextBudget/Selection.antt =====
-- The remaining budget of fitMessagesToTokenBudget, as messages are selected.
use diana_qq_bot.Prelude.{
  ℕ, suc, ◌+◌, ◌-◌, ◌*◌, ◌≤◌, ◌≡◌, refl, ◌||◌, Bool, List, [], ◌∷◌, Option, none, some, arith,
  if_elim, if_either, ltb, leb, Bool-cases, inl, inr, length, ◌==◌, All, keep,
}
use diana_qq_bot.ContextBudget.Messages.{
  Message, message_token_overhead, minimum_required_message_cost, estimate_message_tokens,
  summary_priority,
}
use diana_qq_bot.ContextBudget.Cuts.{TextOnly, FitsCut, trim_message-FitsCut}
use diana_qq_bot.ContextBudget.Fit.{
  Candidate, candidates_from, insert_by, sort_by, comes_earlier, Selection, select, select_cut,
  select_whole, total_cost, allocation_of, select_proportionally, is_required, is_flexible,
  is_protected, select_required, select_other, is_selected, select_others,
}

-- A candidate of text alone that knows its cost.
abbrev pub Priced : Candidate → Type 0
Priced c = (c.cost ≡ estimate_message_tokens c.message) × TextOnly c.message

module _ (P : Candidate → Type 0) where
  All-insert_by :
      (before : Candidate → Candidate → Bool) (c : Candidate) (cs : List Candidate)
      → P c
      → All P cs
      → All P (insert_by before c cs)
  unfolding insert_by
  All-insert_by before c [] p h = (p, tt)
  All-insert_by before c (d ∷ ds) p h =
      if_either (All P) (before d c) (h.0, All-insert_by before c ds p h.1) (p, h)

  pub All-sort_by :
      (before : Candidate → Candidate → Bool) (cs : List Candidate)
      → All P cs
      → All P (sort_by before cs)
  unfolding sort_by
  All-sort_by before [] h = tt
  All-sort_by before (c ∷ cs) h =
      All-insert_by before c (sort_by before cs) h.0 (All-sort_by before cs h.1)

  All-keep : (p : Candidate → Bool) (cs : List Candidate) → All P cs → All P (keep p cs)
  All-keep p [] h = tt
  All-keep p (c ∷ cs) h = if_either (All P) (p c) (h.0, All-keep p cs h.1) (All-keep p cs h.1)

pub candidates_from-Priced :
    (i : ℕ) (ms : List Message) → All TextOnly ms → All Priced (candidates_from i ms)
unfolding candidates_from
candidates_from-Priced i [] h = tt
candidates_from-Priced i (m ∷ ms) h = ((refl, h.0), candidates_from-Priced (suc i) ms h.1)

unfoldable pub spent : List (ℕ × Message) → ℕ
spent [] = 0
spent ((i, m) ∷ rest) = estimate_message_tokens m + spent rest

abbrev pub Paid : ℕ → Selection → Type 0
Paid budget s = spent s.selected + s.remaining ≤ budget

select-Paid :
    (budget i : ℕ) (m : Message) (cost : ℕ) (s : Selection)
    → cost ≡ estimate_message_tokens m
    → cost ≤ s.remaining
    → Paid budget s
    → Paid budget (select i m cost s)
unfolding select spent
select-Paid budget i m cost s e le h = omega arith

select_cut-Paid :
    (budget i share : ℕ) (o : Option Message) (s : Selection)
    → FitsCut share o
    → share ≤ s.remaining
    → Paid budget s
    → Paid budget (select_cut i o s)
unfolding select_cut
select_cut-Paid budget i share none s f le h = h
select_cut-Paid budget i share (some m) s f le h =
    select-Paid budget i m (estimate_message_tokens m) s refl (omega arith) h

select_whole-Paid :
    (budget : ℕ) (cs : List Candidate) (s : Selection)
    → All Priced cs
    → total_cost cs ≤ s.remaining
    → Paid budget s
    → Paid budget (select_whole cs s)
unfolding select_whole total_cost select
select_whole-Paid budget [] s p le h = h
select_whole-Paid budget (c ∷ cs) s p le h =
    select_whole-Paid budget cs (select c.index c.message c.cost s) p.1 (omega arith)
      (select-Paid budget c.index c.message c.cost s (p.0).0 (omega arith) h)

allocation_of-le : (budget cost rest slots : ℕ) → allocation_of budget cost rest slots ≤ budget
unfolding allocation_of
allocation_of-le budget cost rest slots = omega arith

select_proportionally-Paid :
    (budget rest : ℕ) (cs : List Candidate) (s : Selection)
    → All Priced cs
    → Paid budget s
    → Paid budget (select_proportionally cs rest s)
unfolding select_proportionally
select_proportionally-Paid budget rest [] s p h = h
select_proportionally-Paid budget rest (c ∷ cs) s p h =
    elim (Bool-cases (leb s.remaining message_token_overhead)) [
      | inl e ↦ rw (e, select_proportionally) h
      | inr e ↦
          rw (e, select_proportionally)
            (select_proportionally-Paid budget (rest - c.cost) cs _ p.1 (
              select_cut-Paid budget c.index share _ s
                (trim_message-FitsCut c.message share (p.0).1) (allocation_of-le _ _ _ _) h))
    ]
  where
    share : ℕ
    share = allocation_of s.remaining c.cost rest (length cs)

pub select_required-Paid :
    (budget : ℕ) (cs : List Candidate) (s : Selection)
    → All Priced cs
    → Paid budget s
    → Paid budget (select_required cs s)
unfolding select_required
select_required-Paid budget cs s p h =
    if_elim (Paid budget) (leb (total_cost required) s.remaining)
      (λ e. select_whole-Paid budget required s priced (ground arith) h)
      (λ _.
        if_elim (Paid budget)
          (leb (total_cost protected + length flexible * minimum_required_message_cost) s.remaining)
          (λ e.
            select_proportionally-Paid budget (total_cost flexible) flexible
              (select_whole protected s) (All-keep Priced is_flexible required priced)
              (select_whole-Paid budget protected s (All-keep Priced is_protected required priced)
                (ground arith) h))
          (λ _. select_proportionally-Paid budget (total_cost required) required s priced h))
  where
    required : List Candidate
    required = sort_by comes_earlier (keep is_required cs)

    protected : List Candidate
    protected = keep is_protected required

    flexible : List Candidate
    flexible = keep is_flexible required

    priced : All Priced required
    priced =
        All-sort_by Priced comes_earlier (keep is_required cs) (All-keep Priced is_required cs p)

select_other-Paid :
    (budget : ℕ) (c : Candidate) (s : Selection)
    → Priced c
    → Paid budget s
    → Paid budget (select_other c s)
unfolding select_other
select_other-Paid budget c s p h =
    if_elim (Paid budget) (leb c.cost s.remaining)
      (λ e. select-Paid budget c.index c.message c.cost s p.0 (ground arith) h)
      (λ _. if_either (Paid budget) (ltb c.priority summary_priority) h (
        select_cut-Paid budget c.index s.remaining _ s
          (trim_message-FitsCut c.message s.remaining p.1) (omega arith) h))

pub select_others-Paid :
    (budget : ℕ) (cs : List Candidate) (s : Selection)
    → All Priced cs
    → Paid budget s
    → Paid budget (select_others cs s)
unfolding select_others
select_others-Paid budget [] s p h = h
select_others-Paid budget (c ∷ cs) s p h = if_either (Paid budget) (s.remaining == 0) h (
    select_others-Paid budget cs _ p.1 (
      if_either (Paid budget) (is_selected c.index s.selected || is_required c) h
        (select_other-Paid budget c s p.0 h)))
