-- ===== src/Reminder.antt =====
-- When a durable reminder is tried again (model/qqbot/reminder_retry.go).
use diana_qq_bot.Prelude.{
  ℕ, ◌+◌, ◌-◌, ◌*◌, ◌/◌, ◌%◌, ◌^◌, ◌≤◌, ◌≡◌, Bool, ◌∷◌, ◌++◌, if◌then◌else◌, ltb, min, arith,
}
use diana_qq_bot.Prelude.Text.{Text}
use diana_qq_bot.Prelude.Hash.{utf8, fnv32a, decimal}
use diana_qq_bot.Prelude.Int64.{ℤ, pos}
use diana_qq_bot.Prelude.Backoff.{double_up, jitter, double_up-pos, jitter-pos}

abbrev minute : ℕ
minute = 60 * 10 ^ 9

abbrev pub reminder_query_retry_initial_delay : ℕ
reminder_query_retry_initial_delay = 5 * minute

abbrev pub reminder_delivery_retry_initial_delay : ℕ
reminder_delivery_retry_initial_delay = 30 * minute

abbrev pub reminder_retry_maximum_delay : ℕ
reminder_retry_maximum_delay = 360 * minute

-- The hashed bytes: the id, a zero and the number of failures.
unfoldable pub reminder_hash : Text → ℕ → ℕ
reminder_hash id failures = fnv32a (utf8 (id ++ (0 ∷ decimal failures)))

abbrev pub initial_delay_of : Bool → ℕ
initial_delay_of delivery_failed =
    if delivery_failed
    then reminder_delivery_retry_initial_delay
    else reminder_query_retry_initial_delay

abbrev pub failures_of : ℕ → ℕ
failures_of failures = if ltb failures 1 then 1 else failures

-- `delivery_failed` is whether the cause is errOutboundSend.
unfoldable pub durable_reminder_retry_delay : Text → Bool → ℕ → ℤ
unfolding reminder_hash
durable_reminder_retry_delay id delivery_failed failures =
    let attempts = failures_of failures in
    jitter (reminder_hash id attempts) (pos reminder_retry_maximum_delay) (
      double_up (attempts - 1) (pos reminder_retry_maximum_delay)
        (pos (initial_delay_of delivery_failed)))

-- The initial delay doubled for each failure after the first and capped, with the jitter, and capped
-- again: the products never wrap.
pub durable_reminder_retry_delay_closed :
    (id : Text) (delivery_failed : Bool) (failures : ℕ)
    → durable_reminder_retry_delay id delivery_failed failures
      ≡ pos (
          min reminder_retry_maximum_delay (
            min reminder_retry_maximum_delay (initial_delay_of delivery_failed * 2 ^ (failures - 1))
            * (1000 + reminder_hash id (failures_of failures) % 201)
            / 1000))
unfolding durable_reminder_retry_delay
durable_reminder_retry_delay_closed id delivery_failed failures =
    let same : failures_of failures - 1 ≡ failures - 1 = ground arith in
    let capped : initial_delay_of delivery_failed ≤ reminder_retry_maximum_delay = ground arith in
    rw
      (
        durable_reminder_retry_delay,
        same,
        double_up-pos (failures - 1) reminder_retry_maximum_delay (initial_delay_of delivery_failed)
            (omega arith) capped,
      )
      (jitter-pos (reminder_hash id (failures_of failures)) reminder_retry_maximum_delay
        (min reminder_retry_maximum_delay (initial_delay_of delivery_failed * 2 ^ (failures - 1)))
        (omega arith) (omega arith))
