-- ===== src/Llm/Retry.antt =====
-- generateWithTransientRetryPolicy: the attempts of one call on one profile.
use diana_qq_bot.Prelude.{ℕ, zero, suc, Bool, true, ◌||◌, not, Option, none, some, if◌then◌else◌}
use diana_qq_bot.Prelude.Text.{Text}
use diana_qq_bot.Prelude.Int64.{ℤ, pos, pos_part, ltz}
use diana_qq_bot.Llm.Errors.{LlmError, should_retry_transient, should_failover_without_retry}

-- What the provider answers: a response, by its text, or an error.
pub data Answer : Type 0 where
  response : Text → Answer
  failed : LlmError → Answer

-- One attempt: the provider's answer, ctx.Err() after it, and ctx.Err() where the context ends before
-- the timer of the wait.
pub record Attempt : Type 0 where
  pub answer : Answer
  pub ended : Option LlmError
  pub ended_waiting : Option LlmError

-- `if maxRetries < 0 { maxRetries = 0 }`, and no retries where they are not enabled.
unfoldable pub retries_of : Bool → ℤ → ℕ
retries_of enabled max_retries = if enabled then pos_part max_retries else 0

-- Whether the loop returns with this answer, whatever attempts are left.
unfoldable pub is_final : Bool → Answer → Bool
is_final enabled (response text) = true
is_final enabled (failed e) =
    not enabled || not (should_retry_transient e) || should_failover_without_retry e

-- The context's error before the next attempt, if any. A delay that is not positive does not wait.
unfoldable pub ends_before_next : ℤ → Attempt → Option LlmError
ends_before_next retry_delay a = elim a.ended [
  | some e ↦ some e
  | none ↦ if ltz (pos 0) retry_delay then a.ended_waiting else none
]

-- The loop from an attempt on, with so many retries left: the answer, and how many attempts it took.
unfoldable pub attempt_from : Bool → ℤ → ℕ → (ℕ → Attempt) → ℕ → Answer × ℕ
unfolding is_final ends_before_next
attempt_from enabled retry_delay zero script attempt = ((script attempt).answer, 1)
attempt_from enabled retry_delay (suc left) script attempt =
    let a = script attempt in
    let (reply, calls) = attempt_from enabled retry_delay left script (suc attempt) in
    if is_final enabled a.answer then (a.answer, 1) else elim (ends_before_next retry_delay a) [
      | some e ↦ (failed e, 1)
      | none ↦ (reply, suc calls)
    ]

-- `script` says how each attempt goes. The provider is configured.
unfoldable pub generate_with_retry : Bool → ℤ → ℤ → (ℕ → Attempt) → Answer × ℕ
unfolding retries_of attempt_from
generate_with_retry enabled max_retries retry_delay script =
    attempt_from enabled retry_delay (retries_of enabled max_retries) script 0
