-- ===== src/ContextBudget/Messages.antt =====
-- Messages, their parts, and the estimates of their tokens.
use diana_qq_bot.Prelude.{
  ℕ, ◌+◌, ◌/◌, ◌||◌, Bool, false, not, List, [], ◌∷◌, if◌then◌else◌, ltb, leb,
}
use diana_qq_bot.Prelude.Search.{lower}
use diana_qq_bot.Prelude.Text.{Text, codes, text_eq, is_blank, trim_space}

-- MessagePriority; the constants are not negative.
abbrev pub history_priority : ℕ
history_priority = 20

abbrev pub summary_priority : ℕ
summary_priority = 60

abbrev pub memory_priority : ℕ
memory_priority = 80

abbrev pub system_priority : ℕ
system_priority = 120

abbrev pub plugin_priority : ℕ
plugin_priority = 130

abbrev pub current_priority : ℕ
current_priority = 140

-- A type that is neither of the two has no case in the source's switches.
pub data ContentPartType : Type 0 where
  text_part image_part other_part : ContentPartType

pub record ContentPart : Type 0 where
  pub part_type : ContentPartType
  pub text : Text
  pub image_url : Text
  pub detail : Text

pub record Message : Type 0 where
  pub role : Text
  pub content : Text
  pub parts : List ContentPart
  pub priority : ℕ

abbrev pub message_token_overhead : ℕ
message_token_overhead = 8

abbrev pub minimum_required_message_cost : ℕ
minimum_required_message_cost = message_token_overhead + 8

-- What a run of ASCII costs.
unfoldable pub flush_ascii : ℕ → ℕ
flush_ascii run = if ltb 0 run then (run + 2) / 3 else 0

abbrev pub is_ascii : ℕ → Bool
is_ascii c = leb c 127

abbrev pub wide_cost : ℕ → ℕ
wide_cost c = if ltb 0xffff c then 4 else 2

-- The loop of the estimate, with its asciiRun and total.
unfoldable pub scan : Text → ℕ → ℕ → ℕ
unfolding flush_ascii
scan [] run total = total + flush_ascii run
scan (c ∷ cs) run total =
    scan cs (if is_ascii c then run + 1 else 0)
      (if is_ascii c then total else total + flush_ascii run + wide_cost c)

unfoldable pub estimate_text_tokens : Text → ℕ
unfolding scan
estimate_text_tokens t = scan t 0 0

unfoldable pub estimated_image_tokens : Text → ℕ
estimated_image_tokens detail =
    let d = lower (trim_space detail) in
    if text_eq d (codes "low")
    then 1024
    else if text_eq d (codes "high")
    then 8192
    else if text_eq d (codes "original")
    then 16384
    else 4096

-- Whether the part counts as text, and what the part costs.
abbrev pub counts_as_text : ContentPart → Bool
counts_as_text p = elim p.part_type [
  | text_part ↦ not (is_blank p.text)
  | image_part ↦ false
  | other_part ↦ false
]

unfoldable pub estimate_part_tokens : ContentPart → ℕ
unfolding estimate_text_tokens estimated_image_tokens
estimate_part_tokens p = elim p.part_type [
  | text_part ↦ if is_blank p.text then 0 else estimate_text_tokens p.text + 2
  | image_part ↦ if is_blank p.image_url then 0 else estimated_image_tokens p.detail
  | other_part ↦ 0
]

unfoldable pub estimate_parts : List ContentPart → ℕ
unfolding estimate_part_tokens
estimate_parts [] = 0
estimate_parts (p ∷ ps) = estimate_part_tokens p + estimate_parts ps

abbrev pub some_text : List ContentPart → Bool
some_text [] = false
some_text (p ∷ ps) = counts_as_text p || some_text ps

-- Without parts the two sums below are 0 and the content is counted, as in the source's early return.
unfoldable pub estimate_message_tokens : Message → ℕ
unfolding estimate_parts estimate_text_tokens
estimate_message_tokens m =
    message_token_overhead
    + estimate_parts m.parts
    + (if some_text m.parts then 0 else estimate_text_tokens m.content)

unfoldable pub estimate_messages_tokens : List Message → ℕ
unfolding estimate_message_tokens
estimate_messages_tokens [] = 0
estimate_messages_tokens (m ∷ ms) = estimate_message_tokens m + estimate_messages_tokens ms
