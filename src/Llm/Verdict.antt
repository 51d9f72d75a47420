-- ===== src/Llm/Verdict.antt =====
-- The answer of a call with retries, by the answers of its attempts.
use diana_qq_bot.Prelude.{
  ℕ, zero, suc, ◌+◌, ◌≤◌, ◌<◌, ◌≡◌, ◌⊎◌, inl, inr, refl, Bool, true, false, none, some, arith,
  Option-cases, if_elim,
}
use diana_qq_bot.Prelude.Int64.{ℤ}
use diana_qq_bot.Llm.Errors.{LlmError}
use diana_qq_bot.Llm.Retry.{
  Answer, failed, Attempt, retries_of, is_final, ends_before_next, attempt_from,
  generate_with_retry,
}

-- An attempt after which the loop goes on.
abbrev pub GoesOn : Bool → ℤ → Attempt → Type 0
GoesOn enabled retry_delay a =
    (is_final enabled a.answer ≡ false) × (ends_before_next retry_delay a ≡ none)

-- The attempts from `from` up to, but not with, `from + n` all let the loop go on.
abbrev pub AllGoOn : Bool → ℤ → (ℕ → Attempt) → ℕ → ℕ → Type 0
AllGoOn enabled retry_delay script from zero = Unit
AllGoOn enabled retry_delay script from (suc n) =
    GoesOn enabled retry_delay (script from) × AllGoOn enabled retry_delay script (suc from) n

-- How the last attempt ends the loop: with its answer, because it is final or there are no retries
-- left, or with the error of the context.
abbrev pub EndsWith : Bool → ℤ → (left before : ℕ) → Attempt → Answer → Type 0
EndsWith enabled retry_delay left before a reply =
    ((reply ≡ a.answer) × ((is_final enabled a.answer ≡ true) ⊎ (before ≡ left)))
    ⊎ ((is_final enabled a.answer ≡ false)
        × (before < left)
        × ((e : LlmError) × (ends_before_next retry_delay a ≡ some e) × (reply ≡ failed e)))

-- A call whose first `before` attempts, from `from` on, let it go on, and whose next one ends it.
pub record Verdict (enabled : Bool) (retry_delay : ℤ) (left : ℕ) (script : ℕ → Attempt) (from : ℕ)
    (reply : Answer) (calls : ℕ) : Type 0 where
  pub before : ℕ
  pub calls_is : calls ≡ suc before
  pub within : before ≤ left
  pub went_on : AllGoOn enabled retry_delay script from before
  pub last : ℕ
  pub last_is : last ≡ from + before
  pub ends : EndsWith enabled retry_delay left before (script last) reply

-- The loop ends at once.
stops :
    (enabled : Bool) (retry_delay : ℤ) (left : ℕ) (script : ℕ → Attempt) (from : ℕ) (reply : Answer)
    → EndsWith enabled retry_delay left 0 (script from) reply
    → Verdict enabled retry_delay left script from reply 1
stops enabled retry_delay left script from reply e = record {
  before = 0;
  calls_is = refl;
  within = omega arith;
  went_on = tt;
  last = from;
  last_is = omega arith;
  ends = e;
}

later_ends :
    (enabled : Bool) (retry_delay : ℤ) (left before : ℕ) (a : Attempt) (reply : Answer)
    → EndsWith enabled retry_delay left before a reply
    → EndsWith enabled retry_delay (suc left) (suc before) a reply
later_ends enabled retry_delay left before a reply (inl (e, inl f)) = inl (e, inl f)
later_ends enabled retry_delay left before a reply (inl (e, inr s)) = inl (e, inr (omega arith))
later_ends enabled retry_delay left before a reply (inr (f, l, x)) = inr (f, omega arith, x)

goes_on :
    (enabled : Bool) (retry_delay : ℤ) (left : ℕ) (script : ℕ → Attempt) (from : ℕ) (reply : Answer)
    (calls : ℕ)
    → GoesOn enabled retry_delay (script from)
    → Verdict enabled retry_delay left script (suc from) reply calls
    → Verdict enabled retry_delay (suc left) script from reply (suc calls)
goes_on enabled retry_delay left script from reply calls g v = record {
  before = suc v.before;
  calls_is = omega (arith, v.calls_is);
  within = omega (arith, v.within);
  went_on = (g, v.went_on);
  last = v.last;
  last_is = omega (arith, v.last_is);
  ends = later_ends enabled retry_delay left v.before (script v.last) reply v.ends;
}

attempt_from-Verdict :
    (enabled : Bool) (retry_delay : ℤ) (left : ℕ) (script : ℕ → Attempt) (from : ℕ)
    → let x = attempt_from enabled retry_delay left script from in
      Verdict enabled retry_delay left script from x.0 x.1
unfolding attempt_from
attempt_from-Verdict enabled retry_delay zero script from =
    stops enabled retry_delay 0 script from (script from).answer (inl (refl, inr refl))
attempt_from-Verdict enabled retry_delay (suc left) script from =
    if_elim (λ (x : Answer × ℕ). Verdict enabled retry_delay (suc left) script from x.0 x.1)
      (is_final enabled (script from).answer)
      (λ f.
        stops enabled retry_delay (suc left) script from (script from).answer (inl (refl, inl f)))
      (λ f. elim (Option-cases (ends_before_next retry_delay (script from))) [
        | inr (e, h) ↦ rw h (
            stops enabled retry_delay (suc left) script from (failed e)
              (inr (f, omega arith, (e, h, refl))))
        | inl h ↦ rw h (
            goes_on enabled retry_delay left script from _ _ (f, h)
              (attempt_from-Verdict enabled retry_delay left script (suc from)))
      ])

-- A call with retries ends after at most one attempt more than it has retries. Every attempt before
-- the last has an answer that is not final and a context that goes on. The result is either the last
-- answer, which is final or for which no retry is left, or the error of a context that ended after a
-- last answer that is not final.
pub generate-Verdict :
    (enabled : Bool) (max_retries retry_delay : ℤ) (script : ℕ → Attempt)
    → let x = generate_with_retry enabled max_retries retry_delay script in
      Verdict enabled retry_delay (retries_of enabled max_retries) script 0 x.0 x.1
unfolding generate_with_retry
generate-Verdict enabled max_retries retry_delay script =
    attempt_from-Verdict enabled retry_delay (retries_of enabled max_retries) script 0
