-- ===== src/ContextBudget/Limit.antt =====
-- applyContextBudget, with the token limits of the configuration (model/llm/types.go).
use diana_qq_bot.Prelude.{ℕ, ◌-◌, List, if◌then◌else◌, ltb, ◌==◌}
use diana_qq_bot.Prelude.Int64.{ℤ, pos, negsuc}
use diana_qq_bot.Llm.Config.{ProviderConfig, max_context_tokens_with_default}
use diana_qq_bot.ContextBudget.Messages.{Message}
use diana_qq_bot.ContextBudget.Fit.{fit_messages_to_token_budget}

-- The fields of GenerateRequest that the budget reads.
pub record GenerateRequest : Type 0 where
  pub messages : List Message
  pub max_output_tokens : ℤ

abbrev pub output_reserve : ℤ → ℕ
output_reserve (pos n) = if n == 0 then 1024 else n
output_reserve (negsuc n) = 1024

-- A difference below 0 is read as 0: either becomes 1.
unfoldable pub input_budget : ℕ → ℕ → ℕ
input_budget limit reserve =
    let rest = limit - reserve in
    let spared = if ltb 128 rest then rest - 128 else rest in if ltb spared 1 then 1 else spared

unfoldable pub fit_request : GenerateRequest → ℕ → GenerateRequest
unfolding input_budget
fit_request req limit = record req {
  messages =
      fit_messages_to_token_budget req.messages
        (input_budget limit (output_reserve req.max_output_tokens));
}

-- No messages are left as they are by the fit, too.
unfoldable pub apply_context_budget : GenerateRequest → ProviderConfig → GenerateRequest
unfolding fit_request
apply_context_budget req cfg = elim (max_context_tokens_with_default cfg) [
  | negsuc n ↦ req
  | pos n ↦ if n == 0 then req else fit_request req n
]
