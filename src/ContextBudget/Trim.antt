-- ===== src/ContextBudget/Trim.antt =====
-- Cutting a text, and a message, down to a budget.
use diana_qq_bot.Prelude.{
  ℕ, zero, suc, ◌+◌, ◌-◌, ◌/◌, ◌&&◌, ◌||◌, Bool, true, false, not, List, [], ◌∷◌, ◌++◌, Option,
  none, some, if◌then◌else◌, ltb, leb, ◌==◌, length, take, drop,
}
use diana_qq_bot.Prelude.Text.{Text, codes, is_blank, is_empty, trim_space}
use diana_qq_bot.ContextBudget.Messages.{
  ContentPart, text_part, image_part, other_part, Message, message_token_overhead, summary_priority,
  memory_priority, estimate_text_tokens, estimated_image_tokens,
}

-- "\n...[上下文已按 token 预算裁剪]...\n"
abbrev pub truncation_marker : Text
truncation_marker = 10 ∷ (codes "...[上下文已按 token 预算裁剪]..." ++ (10 ∷ []))

unfoldable pub clipped_text : Text → ℕ → Bool → Text
clipped_text runes keep prefix_only =
    let content = keep - length truncation_marker in
    let head = (content + 1) / 2 in
    let tail = content - head in
    if leb (length runes) keep
    then runes
    else if leb keep (length truncation_marker + 2)
    then if prefix_only then take keep runes else drop (length runes - keep) runes
    else if prefix_only
    then take content runes ++ truncation_marker
    else take head runes ++ (truncation_marker ++ drop (length runes - tail) runes)

-- The binary search, on fuel: no result where the fuel ends before the search.
unfoldable pub search : Text → ℕ → Bool → ℕ → ℕ → ℕ → Text → Option Text
unfolding clipped_text estimate_text_tokens
search runes budget prefix_only zero low high best = none
search runes budget prefix_only (suc fuel) low high best =
    let mid = low + (high - low) / 2 in
    let candidate = clipped_text runes mid prefix_only in
    let fits = leb (estimate_text_tokens candidate) budget in
    elim (leb low high) [
      | true ↦
          search runes budget prefix_only fuel (if fits then mid + 1 else low)
            (if fits then high else mid - 1) (if fits then candidate else best)
      | false ↦ some best
    ]

abbrev pub found_or_empty : Option Text → Text
found_or_empty none = []
found_or_empty (some best) = trim_space best

unfoldable pub trim_text_to_token_budget : Text → ℕ → Bool → Text
unfolding search
trim_text_to_token_budget text budget prefix_only =
    let runes = trim_space text in
    if is_empty runes || (budget == 0)
    then []
    else if leb (estimate_text_tokens runes) budget
    then runes
    else found_or_empty (search runes budget prefix_only (suc (length runes)) 1 (length runes) [])

unfoldable pub preserve_message_prefix : Message → Bool
preserve_message_prefix m = (m.priority == memory_priority) || (m.priority == summary_priority)

-- One part: what is kept of it, and what remains. No subtraction here goes below 0.
unfoldable pub trim_part : Bool → ContentPart → ℕ → Option ContentPart × ℕ
unfolding trim_text_to_token_budget
trim_part prefix_only p remaining = elim p.part_type [
  | text_part ↦
      let text = trim_space p.text in
      let cut =
        if ltb (remaining - 2) (estimate_text_tokens text)
        then trim_text_to_token_budget text (remaining - 2) prefix_only
        else text in
      if leb remaining 2 || is_empty text || is_empty cut
      then (none, remaining)
      else (some (record p { text = cut }), remaining - (estimate_text_tokens cut + 2))
  | image_part ↦
      let cost = estimated_image_tokens p.detail in
      if is_blank p.image_url || ltb remaining cost
      then (none, remaining)
      else (some p, remaining - cost)
  | other_part ↦ (none, remaining)
]

abbrev pub is_text_part : ContentPart → Bool
is_text_part p = elim p.part_type [ text_part ↦ true | image_part ↦ false | other_part ↦ false ]

-- The kept parts, what remains, and whether one of them is text.
unfoldable pub trim_parts : Bool → List ContentPart → ℕ → List ContentPart × ℕ × Bool
unfolding trim_part
trim_parts prefix_only [] remaining = ([], remaining, false)
trim_parts prefix_only (p ∷ ps) remaining =
    let (kept, after) = trim_part prefix_only p remaining in
    let (rest, last, has_text) = trim_parts prefix_only ps after in
    elim kept [
      | none ↦ (rest, last, has_text)
      | some q ↦ (q ∷ rest, last, is_text_part q || has_text)
    ]

abbrev pub plain_part : Text → ContentPart
plain_part t = record { part_type = text_part; text = t; image_url = []; detail = [] }

unfoldable pub trim_message_to_token_budget : Message → ℕ → Option Message
unfolding trim_text_to_token_budget trim_parts
trim_message_to_token_budget m budget =
    let prefix_only = preserve_message_prefix m in
    let text_budget = budget - message_token_overhead in
    let content = trim_text_to_token_budget m.content text_budget prefix_only in
    let (kept, remaining, has_text) = trim_parts prefix_only m.parts text_budget in
    let text = trim_text_to_token_budget m.content remaining prefix_only in
    if leb budget message_token_overhead then none else elim m.parts [
      | [] ↦ if is_blank content then none else some (record m { content = content })
      | _ ∷ _ ↦
          if not has_text && not (is_empty text)
          then some (record m { content = text; parts = plain_part text ∷ kept })
          else elim kept [ [] ↦ none | q ∷ qs ↦ some (record m { parts = q ∷ qs }) ]
    ]
