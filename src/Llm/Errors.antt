-- ===== src/Llm/Errors.antt =====
-- The errors of a model call, and what they lead to (shouldRetryTransientLLMError,
-- shouldFailoverLLMError and shouldFailoverWithoutSameProfileRetry).
use diana_qq_bot.Prelude.{Bool, true, false, ◌||◌, List, [], ◌∷◌, if◌then◌else◌}
use diana_qq_bot.Prelude.Text.{Text, codes}
use diana_qq_bot.Prelude.Search.{lower, contains_any}

-- An error by its text and by what errors.Is finds in it.
pub record LlmError : Type 0 where
  pub text : Text
  pub has_no_text : Bool  -- llm.ErrCompletionHasNoText
  pub truncated_no_text : Bool  -- llm.ErrCompletionTruncatedNoText
  pub is_empty_completion : Bool  -- llm.ErrCompletionEmpty
  pub deadline_exceeded : Bool  -- context.DeadlineExceeded

abbrev pub transient_markers : List Text
transient_markers =
    codes "502"
    ∷ codes "503"
    ∷ codes "504"
    ∷ codes "bad gateway"
    ∷ codes "service unavailable"
    ∷ codes "gateway timeout"
    ∷ codes "cloudflare"
    ∷ codes "context deadline exceeded"
    ∷ codes "client.timeout exceeded"
    ∷ codes "timeout awaiting response headers"
    ∷ codes "eof"
    ∷ codes "connection reset"
    ∷ codes "connection refused"
    ∷ codes "connection aborted"
    ∷ codes "unexpected end of file"
    ∷ codes "server closed idle connection"
    ∷ []

unfoldable pub should_retry_transient : LlmError → Bool
should_retry_transient e =
    if e.has_no_text || e.truncated_no_text
    then false
    else if e.is_empty_completion
    then true
    else if e.deadline_exceeded
    then true
    else contains_any transient_markers (lower e.text)

abbrev pub failover_markers : List Text
failover_markers =
    codes "401"
    ∷ codes "403"
    ∷ codes "429"
    ∷ codes "unauthorized"
    ∷ codes "forbidden"
    ∷ codes "too many requests"
    ∷ codes "api key"
    ∷ codes "apikey"
    ∷ codes "authentication"
    ∷ codes "auth"
    ∷ codes "permission"
    ∷ codes "permission_error"
    ∷ codes "quota"
    ∷ codes "insufficient_quota"
    ∷ codes "billing"
    ∷ codes "credit"
    ∷ codes "rate limit"
    ∷ codes "rate_limit"
    ∷ codes "未授权"
    ∷ codes "无权限"
    ∷ codes "额度"
    ∷ codes "限流"
    ∷ codes "失效"
    ∷ codes "无效"
    ∷ []

unfoldable pub should_failover : LlmError → Bool
unfolding should_retry_transient
should_failover e =
    if e.has_no_text
    then false
    else if e.truncated_no_text
    then true
    else if e.is_empty_completion
    then true
    else if should_retry_transient e
    then true
    else contains_any failover_markers (lower e.text)

abbrev pub timeout_markers : List Text
timeout_markers =
    codes "response header timeout"
    ∷ codes "response body idle timeout"
    ∷ codes "stream idle timeout"
    ∷ []

unfoldable pub should_failover_without_retry : LlmError → Bool
should_failover_without_retry e = contains_any timeout_markers (lower e.text)
