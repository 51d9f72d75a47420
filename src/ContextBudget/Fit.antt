-- ===== src/ContextBudget/Fit.antt =====
-- Which messages of a request are kept, whole or cut. Go's remaining budget can fall below 0, where
-- every test of it answers as at 0: here it stops at 0.
use diana_qq_bot.Prelude.{
  ℕ, suc, ◌+◌, ◌-◌, ◌*◌, ◌&&◌, ◌||◌, Bool, true, false, not, List, [], ◌∷◌, Option, none, some,
  if◌then◌else◌, ltb, leb, ◌==◌, length, keep, max, min,
}
use diana_qq_bot.Prelude.Text.{codes, text_eq}
use diana_qq_bot.Prelude.Int64.{pos, pos_part, mul64, quo64}
use diana_qq_bot.ContextBudget.Messages.{
  Message, history_priority, summary_priority, system_priority, plugin_priority, current_priority,
  message_token_overhead, minimum_required_message_cost, estimate_message_tokens,
  estimate_messages_tokens,
}
use diana_qq_bot.ContextBudget.Trim.{trim_message_to_token_budget}

-- A candidate, with the message that its index names.
pub record Candidate : Type 0 where
  pub index : ℕ
  pub message : Message
  pub priority : ℕ
  pub cost : ℕ

unfoldable pub effective_message_priority : Message → Bool → ℕ
effective_message_priority m current =
    let p = if m.priority == 0 then history_priority else m.priority in
    let q =
      if text_eq m.role (codes "system") && ltb p system_priority then system_priority else p in
    if current && ltb q current_priority then current_priority else q

is_last : List Message → Bool
is_last [] = true
is_last (m ∷ ms) = false

unfoldable pub candidates_from : ℕ → List Message → List Candidate
unfolding effective_message_priority is_last
candidates_from i [] = []
candidates_from i (m ∷ ms) =
    record {
      index = i;
      message = m;
      priority = effective_message_priority m (is_last ms);
      cost = estimate_message_tokens m;
    }
    ∷ candidates_from (suc i) ms

-- The two orders: higher priority first and later first, and by index.
abbrev pub more_urgent : Candidate → Candidate → Bool
more_urgent a b =
    if a.priority == b.priority then ltb b.index a.index else ltb b.priority a.priority

abbrev pub comes_earlier : Candidate → Candidate → Bool
comes_earlier a b = ltb a.index b.index

-- sort.Slice: the indices differ, so that there is one sorted order.
unfoldable pub insert_by :
    (Candidate → Candidate → Bool) → Candidate → List Candidate → List Candidate
insert_by before c [] = c ∷ []
insert_by before c (d ∷ ds) =
    let rest = insert_by before c ds in if before d c then d ∷ rest else c ∷ d ∷ ds

unfoldable pub sort_by : (Candidate → Candidate → Bool) → List Candidate → List Candidate
unfolding insert_by
sort_by before [] = []
sort_by before (c ∷ cs) = insert_by before c (sort_by before cs)

-- The map `selected`, the latest entry first, with the remaining budget.
pub record Selection : Type 0 where
  pub selected : List (ℕ × Message)
  pub remaining : ℕ

unfoldable pub selected_at : ℕ → List (ℕ × Message) → Option Message
selected_at i [] = none
selected_at i ((j, m) ∷ rest) = let others = selected_at i rest in if i == j then some m else others

-- `selected[index] = m`, paid for.
unfoldable pub select : ℕ → Message → ℕ → Selection → Selection
select i m cost s = record { selected = (i, m) ∷ s.selected; remaining = s.remaining - cost }

unfoldable pub select_cut : ℕ → Option Message → Selection → Selection
unfolding select
select_cut i none s = s
select_cut i (some m) s = select i m (estimate_message_tokens m) s

unfoldable pub select_whole : List Candidate → Selection → Selection
unfolding select
select_whole [] s = s
select_whole (c ∷ cs) s = select_whole cs (select c.index c.message c.cost s)

unfoldable pub total_cost : List Candidate → ℕ
total_cost [] = 0
total_cost (c ∷ cs) = c.cost + total_cost cs

-- budget * cost / remainingCost in int64, a negative one read as 0: it is raised to the minimum next.
unfoldable pub allocation_of : ℕ → ℕ → ℕ → ℕ → ℕ
allocation_of budget cost remaining_cost slots_after =
    let share =
      if ltb 0 remaining_cost
      then pos_part (quo64 (mul64 (pos budget) cost) remaining_cost)
      else budget in
    let capped = min share (budget - slots_after * minimum_required_message_cost) in
    min (max capped minimum_required_message_cost) budget

unfoldable pub select_proportionally : List Candidate → ℕ → Selection → Selection
unfolding allocation_of select_cut
select_proportionally [] remaining_cost s = s
select_proportionally (c ∷ cs) remaining_cost s =
    let cut =
      trim_message_to_token_budget c.message
        (allocation_of s.remaining c.cost remaining_cost (length cs)) in
    elim (leb s.remaining message_token_overhead) [
      | true ↦ s
      | false ↦ select_proportionally cs (remaining_cost - c.cost) (select_cut c.index cut s)
    ]

abbrev pub is_required : Candidate → Bool
is_required c = not (ltb c.priority system_priority)

abbrev pub is_flexible : Candidate → Bool
is_flexible c = ltb c.priority plugin_priority

abbrev pub is_protected : Candidate → Bool
is_protected c = not (is_flexible c)

unfoldable pub select_required : List Candidate → Selection → Selection
unfolding sort_by total_cost select_whole select_proportionally
select_required candidates s =
    let required = sort_by comes_earlier (keep is_required candidates) in
    let protected = keep is_protected required in
    let flexible = keep is_flexible required in
    if leb (total_cost required) s.remaining
    then select_whole required s
    else if leb (total_cost protected + length flexible * minimum_required_message_cost) s.remaining
    then select_proportionally flexible (total_cost flexible) (select_whole protected s)
    else select_proportionally required (total_cost required) s

-- The other candidates, while there is a budget.
unfoldable pub select_other : Candidate → Selection → Selection
unfolding select select_cut
select_other c s =
    if leb c.cost s.remaining
    then select c.index c.message c.cost s
    else if ltb c.priority summary_priority
    then s
    else select_cut c.index (trim_message_to_token_budget c.message s.remaining) s

unfoldable pub is_selected : ℕ → List (ℕ × Message) → Bool
is_selected i selected = elim (selected_at i selected) [ none ↦ false | some m ↦ true ]

unfoldable pub select_others : List Candidate → Selection → Selection
unfolding select_other is_selected selected_at
select_others [] s = s
select_others (c ∷ cs) s =
    let taken = is_selected c.index s.selected || is_required c in
    let next = if taken then s else select_other c s in
    if s.remaining == 0 then s else select_others cs next

unfoldable pub last_message : List Message → Option Message
last_message [] = none
last_message (m ∷ []) = some m
last_message (m ∷ n ∷ ms) = last_message (n ∷ ms)

-- Where nothing is selected, the last message, cut to the whole budget.
unfoldable pub or_last : List Message → ℕ → List (ℕ × Message) → List (ℕ × Message)
unfolding last_message
or_last messages budget (x ∷ xs) = x ∷ xs
or_last messages budget [] = elim (last_message messages) [
  | none ↦ []
  | some m ↦ elim (trim_message_to_token_budget m budget) [
    | none ↦ []
    | some cut ↦ (length messages - 1, cut) ∷ []
  ]
]

-- The selected messages in the order of the request.
unfoldable pub collect : ℕ → List Message → List (ℕ × Message) → List Message
unfolding selected_at
collect i [] selected = []
collect i (m ∷ ms) selected =
    let rest = collect (suc i) ms selected in
    elim (selected_at i selected) [ none ↦ rest | some kept ↦ kept ∷ rest ]

unfoldable pub fit_messages_to_token_budget : List Message → ℕ → List Message
unfolding candidates_from sort_by select_required select_others or_last collect
fit_messages_to_token_budget messages budget =
    let candidates = sort_by more_urgent (candidates_from 0 messages) in
    let required = select_required candidates (record { selected = []; remaining = budget }) in
    let all = select_others candidates required in
    if budget == 0
    then []
    else if leb (estimate_messages_tokens messages) budget
    then messages
    else collect 0 messages (or_last messages budget all.selected)
