-- ===== src/ContextBudget/Tests.antt =====
-- The context budget on concrete requests.
use diana_qq_bot.Prelude.{◌+◌, ◌≤◌, ◌≡◌, refl, true, [], ◌∷◌, some, arith}
use diana_qq_bot.Prelude.Text.{Text, codes, text_eq, is_space, trim_space}
use diana_qq_bot.Prelude.Int64.{pos, wrap64}
use diana_qq_bot.ContextBudget.Messages.{
  ContentPart, text_part, image_part, Message, estimate_text_tokens, estimate_message_tokens,
  estimate_messages_tokens, estimated_image_tokens, scan, flush_ascii,
}
use diana_qq_bot.ContextBudget.Trim.{
  search, clipped_text, trim_text_to_token_budget, trim_message_to_token_budget,
  preserve_message_prefix,
}
use diana_qq_bot.ContextBudget.Cuts.{search_fits}
use diana_qq_bot.ContextBudget.Fit.{fit_messages_to_token_budget, effective_message_priority}
use diana_qq_bot.Llm.Config.{ProviderConfig, max_context_tokens_with_default}
use diana_qq_bot.ContextBudget.Limit.{GenerateRequest, apply_context_budget, fit_request}
use diana_qq_bot.ContextBudget.Request.{apply_context_budget_fits}

everything : Unit {0}
unfolding text_eq is_space trim_space estimate_text_tokens scan flush_ascii estimate_messages_tokens
    estimated_image_tokens clipped_text search trim_text_to_token_budget
    trim_message_to_token_budget preserve_message_prefix max_context_tokens_with_default wrap64
    fit_messages_to_token_budget fit_request apply_context_budget effective_message_priority
everything = tt

-- Two wide characters and a run of four ASCII ones.
estimate_test : estimate_text_tokens (codes "你好abcd") ≡ 6
unfolding everything
estimate_test = refl

abbrev user : Text → Message
user t = record { role = codes "user"; content = t; parts = []; priority = 0 }

abbrev system : Text → Message
system t = record { role = codes "system"; content = t; parts = []; priority = 0 }

-- Twenty-five tokens of budget: the current turn and the system's rule stay, the history goes.
fit_test :
    fit_messages_to_token_budget
      (system (codes "rule") ∷ user (codes "an older message") ∷ user (codes "hello") ∷ [])
      25
    ≡ system (codes "rule") ∷ user (codes "hello") ∷ []
unfolding everything
fit_test = refl

search_fits_example :
    (best : Text) × (search (codes "abcdefgh") 2 true 9 1 8 [] ≡ some best)
    × (estimate_text_tokens best ≤ 2)
search_fits_example = search_fits (codes "abcdefgh") 2 true

trim_test : trim_text_to_token_budget (codes "abcdefgh") 2 true ≡ codes "abcdef"
unfolding everything
trim_test = refl

abbrev limited : ProviderConfig
limited = record {
  provider = codes "gemini";
  api_key = [];
  base_url = [];
  api_format = [];
  model = [];
  image_model = [];
  image_base_url = [];
  image_origin = [];
  image_timeout = pos 0;
  user_agent = [];
  headers = [];
  reasoning_effort = [];
  context_window_tokens = pos 0;
  max_context_tokens = pos 1025;
  max_output_tokens = pos 0;
  timeout = pos 0;
}

abbrev small_request : GenerateRequest
small_request = record {
  messages = system (codes "rule") ∷ user (codes "an older message") ∷ user (codes "hello") ∷ [];
  max_output_tokens = pos 1000;
}

apply_context_budget_fits_example :
    estimate_messages_tokens (apply_context_budget small_request limited).messages + 1000 ≤ 1025
unfolding everything
apply_context_budget_fits_example =
    apply_context_budget_fits small_request limited 1025 refl (omega arith)
      (refl, (refl, (refl, tt)))

-- A blank text part beside a long content: the part that takes the content's place costs two tokens
-- that the cut has not kept back.
abbrev blank_part : ContentPart
blank_part = record { part_type = text_part; text = codes " "; image_url = []; detail = [] }

over_budget :
    (cut : Message) × (trim_message_to_token_budget
        (record {
          role = codes "user";
          content = codes "abcdefghi";
          parts = blank_part ∷ [];
          priority = 0;
        })
        10
      ≡ some cut)
    × (estimate_message_tokens cut ≡ 12)
unfolding everything
over_budget = (
  record {
    role = codes "user";
    content = codes "defghi";
    parts =
        record { part_type = text_part; text = codes "defghi"; image_url = []; detail = [] } ∷ [];
    priority = 0;
  },
  refl,
  refl,
)

-- An image that fills the budget: the content, which no part holds, stays whole beside it.
over_budget_image :
    (cut : Message) × (trim_message_to_token_budget
        (record {
          role = codes "user";
          content = codes "abcdefghi";
          parts =
              record {
                part_type = image_part;
                text = [];
                image_url = codes "u";
                detail = codes "low";
              }
              ∷ [];
          priority = 0;
        })
        1032
      ≡ some cut)
    × (estimate_message_tokens cut ≡ 1035)
unfolding everything
over_budget_image = (
  record {
    role = codes "user";
    content = codes "abcdefghi";
    parts =
        record { part_type = image_part; text = []; image_url = codes "u"; detail = codes "low" }
        ∷ [];
    priority = 0;
  },
  refl,
  refl,
)
