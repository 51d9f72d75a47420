-- ===== src/Outbound/Policy.antt =====
-- The retry policy of a delivery and the delay before its next attempt.
use diana_qq_bot.Prelude.{ℕ, ◌-◌, ◌++◌, ◌∷◌, Option, none, some, ltb, if◌then◌else◌}
use diana_qq_bot.Prelude.Text.{Text}
use diana_qq_bot.Prelude.Int64.{ℤ, pos, ltz, lez}
use diana_qq_bot.Prelude.Hash.{utf8, decimal, fnv32a}
use diana_qq_bot.Prelude.Backoff.{double_up, jitter}
use diana_qq_bot.Event.{MessageEvent, session_key}

pub record DeliveryPolicy : Type 0 where
  pub initial_delay : ℤ
  pub maximum_delay : ℤ
  pub failure_window : ℤ
  pub drop_cooldown : ℤ

abbrev pub minute : ℕ
minute = 60000000000

unfoldable pub default_policy : DeliveryPolicy
default_policy = record {
  initial_delay = pos minute;
  maximum_delay = pos 900000000000;
  failure_window = pos 1800000000000;
  drop_cooldown = pos 1800000000000;
}

abbrev pub zero_policy : DeliveryPolicy
zero_policy = record {
  initial_delay = pos 0;
  maximum_delay = pos 0;
  failure_window = pos 0;
  drop_cooldown = pos 0;
}

-- `if value <= 0 { value = fallback }`.
abbrev pub positive_or : ℤ → ℤ → ℤ
positive_or value fallback = if lez value (pos 0) then fallback else value

abbrev pub given_or_zero : Option DeliveryPolicy → DeliveryPolicy
given_or_zero none = zero_policy
given_or_zero (some p) = p

-- A context without a policy reads as the zero policy.
unfoldable pub policy_from_context : Option DeliveryPolicy → DeliveryPolicy
unfolding default_policy
policy_from_context given =
    let p = given_or_zero given in
    let initial = positive_or p.initial_delay default_policy.initial_delay in
    let maximum = positive_or p.maximum_delay default_policy.maximum_delay in
    record {
      initial_delay = initial;
      maximum_delay = if ltz maximum initial then initial else maximum;
      failure_window = positive_or p.failure_window default_policy.failure_window;
      drop_cooldown = positive_or p.drop_cooldown default_policy.drop_cooldown;
    }

-- The hashed bytes: the session, a zero, the action, a zero and the number of failures.
unfoldable pub backoff_hash : MessageEvent → Text → ℕ → ℕ
backoff_hash event action failures =
    fnv32a (utf8 (session_key event ++ (0 ∷ (action ++ (0 ∷ decimal failures)))))

abbrev pub at_least_one : ℕ → ℕ
at_least_one n = if ltb n 1 then 1 else n

unfoldable pub backoff_delay : MessageEvent → Text → ℕ → DeliveryPolicy → ℤ
unfolding backoff_hash
backoff_delay event action failures p =
    let attempts = at_least_one failures in
    jitter (backoff_hash event action attempts) p.maximum_delay
      (double_up (attempts - 1) p.maximum_delay p.initial_delay)
