-- ===== src/Llm/Timeout.antt =====
-- The timeout of each attempt, such that all of them fit before the caller's deadline
-- (boundedInitialRetryTimeout and llmRetryBudget).
use diana_qq_bot.Prelude.{
  ℕ, ◌+◌, ◌-◌, ◌*◌, ◌/◌, ◌≤◌, ◌<◌, ◌≡◌, refl, ap, ◌∙◌, false, Option, none, some, if◌then◌else◌,
  if_elim, arith, ltb,
}
use diana_qq_bot.Prelude.Int64.{
  ℤ, pos, ltz, lez, mul64, mul64_small, quo64, add64, add64_small, sub64, sub64_small, i64_max,
}

unfoldable pub llm_retry_budget : ℤ → ℕ → ℤ → ℤ
llm_retry_budget timeout max_retries retry_delay =
    let total = mul64 timeout (max_retries + 1) in
    if ltb 0 max_retries then add64 total (mul64 retry_delay max_retries) else total

-- `remaining` is the time until the context's deadline, none where it has no deadline.
unfoldable pub bounded_initial_retry_timeout : Option ℤ → ℤ → ℕ → ℤ → ℤ
unfolding llm_retry_budget
bounded_initial_retry_timeout deadline configured max_retries retry_delay =
    if lez configured (pos 0) then pos 0 else elim deadline [
      | none ↦ configured
      | some remaining ↦
          let available = sub64 remaining (mul64 retry_delay max_retries) in
          let bounded = quo64 available (max_retries + 1) in
          if lez remaining (pos 0)
          then pos 1
          else if lez (llm_retry_budget configured max_retries retry_delay) remaining
          then configured
          else if lez available (pos 0)
          then remaining
          else if lez bounded (pos 0)
          then pos 1
          else if ltz bounded configured
          then bounded
          else configured
    ]

-- A timeout, and the attempts and waits that it allows.
abbrev Fits : (configured remaining n delay : ℕ) → ℤ → Type 0
Fits configured remaining n delay t =
    (time : ℕ) × (t ≡ pos time)
    × (0 < time)
    × (time ≤ configured)
    × ((n + 1) * time + n * delay ≤ remaining)

no_retries :
    (configured n delay : ℕ) → n ≡ 0 → configured * (n + 1) ≡ (n + 1) * configured + n * delay
no_retries configured n delay h = rw h (omega arith)

budget_small :
    (configured n delay : ℕ)
    → (n + 1) * configured + n * delay ≤ i64_max
    → llm_retry_budget (pos configured) n (pos delay) ≡ pos ((n + 1) * configured + n * delay)
unfolding llm_retry_budget
budget_small configured n delay h =
    let first : mul64 (pos configured) (n + 1) ≡ pos (configured * (n + 1)) =
      mul64_small configured (n + 1) (grind arith) in
    let second : mul64 (pos delay) n ≡ pos (delay * n) = mul64_small delay n (grind arith) in
    let sum : add64 (pos (configured * (n + 1))) (pos (delay * n))
        ≡ pos (configured * (n + 1) + delay * n) =
      add64_small (configured * (n + 1)) (delay * n) (grind arith) in
    rw (first, second)
      (if_elim (λ (z : ℤ). z ≡ pos ((n + 1) * configured + n * delay)) (ltb 0 n)
        (λ _. sum ∙ ap pos (grind arith))
        (λ e. ap pos (no_retries configured n delay (ground arith))))

div-pos : (available n : ℕ) → n + 1 ≤ available → 0 < available / (n + 1)
div-pos available n h = grind arith

share_fits :
    (available n delay remaining time : ℕ)
    → time ≤ available / (n + 1)
    → available + n * delay ≤ remaining
    → (n + 1) * time + n * delay ≤ remaining
share_fits available n delay remaining time le h = grind arith

-- Let the configured timeout be positive, let the deadline and the configured budget of attempts and
-- waits fit into 63 bits, and let the time to the deadline cover the waits and a nanosecond for each
-- attempt. Then the timeout of an attempt is positive and at most the configured one, and all attempts
-- with all waits fit before the deadline.
pub attempts_fit :
    (configured remaining n delay : ℕ)
    → 0 < configured
    → remaining ≤ i64_max
    → (n + 1) * configured + n * delay ≤ i64_max
    → n * delay + n + 1 ≤ remaining
    → (time : ℕ) × (bounded_initial_retry_timeout
          (some (pos remaining))
          (pos configured)
          n
          (pos delay)
        ≡ pos time)
      × (0 < time)
      × (time ≤ configured)
      × ((n + 1) * time + n * delay ≤ remaining)
unfolding bounded_initial_retry_timeout quo64
attempts_fit configured remaining n delay pos_c small no_wrap room =
    rw (no_c, no_r, budget, wait, left, bounded_initial_retry_timeout)
      (if_elim P (lez (pos ((n + 1) * configured + n * delay)) (pos remaining))
        (λ e. (configured, refl, pos_c, omega arith, ground arith))
        (λ _.
          rw (some_left, some_share)
            (if_elim P (ltz (pos share) (pos configured))
              (λ e. (
                share,
                refl,
                share_pos,
                ground arith,
                share_fits available n delay remaining share (omega arith) room_left,
              ))
              (λ e. (
                configured,
                refl,
                pos_c,
                omega arith,
                share_fits available n delay remaining configured (ground arith) room_left,
              )))))
  where
    P : ℤ → Type 0
    P = Fits configured remaining n delay

    no_c : lez (pos configured) (pos 0) ≡ false
    no_c = ground arith

    no_r : lez (pos remaining) (pos 0) ≡ false
    no_r = ground arith

    budget :
        llm_retry_budget (pos configured) n (pos delay) ≡ pos ((n + 1) * configured + n * delay)
    budget = budget_small configured n delay no_wrap

    wait : mul64 (pos delay) n ≡ pos (delay * n)
    wait = mul64_small delay n (grind arith)

    left : sub64 (pos remaining) (pos (delay * n)) ≡ pos (remaining - delay * n)
    left = sub64_small remaining (delay * n) (grind arith) small

    available : ℕ
    available = remaining - delay * n

    share : ℕ
    share = available / (n + 1)

    room_left : available + n * delay ≤ remaining
    room_left = grind arith

    share_pos : 0 < share
    share_pos = div-pos available n (grind arith)

    some_left : lez (pos available) (pos 0) ≡ false
    some_left = ground (arith, share_pos)

    some_share : lez (pos share) (pos 0) ≡ false
    some_share = ground (arith, share_pos)
