-- ===== src/Suppression/Threshold.antt =====
-- How many refusals a suppression takes.
use diana_qq_bot.Prelude.{
  ℕ, ◌≤◌, ◌≡◌, refl, Bool, true, ◌&&◌, List, [], ◌∷◌, Option, arith, length, length-append, keep,
  count_if,
}
use diana_qq_bot.Prelude.Text.{trim_space}
use diana_qq_bot.Prelude.Assoc.{lookup}
use diana_qq_bot.Event.{MessageEvent}
use diana_qq_bot.Suppression.State.{
  Roles, ReplySuppression, RefusalHit, Suppressions, reply_refusal_window,
}
use diana_qq_bot.Suppression.Active.{start_suppressions}
use diana_qq_bot.Suppression.Hits.{
  in_window, hits_of, recent_refusals, message_key, count_refusal, register_reply_refusal,
}
use diana_qq_bot.Suppression.History.{Call, run}
use diana_qq_bot.Suppression.Refusals.{asks, hits_at, run-hits}

length-keep : (q : RefusalHit → Bool) (hs : List RefusalHit) → length (keep q hs) ≡ count_if q hs
length-keep q [] = refl
length-keep q (h ∷ hs) = ground (arith, length-keep q hs)

-- A refusal that reaches the threshold has two hits in the window before it.
reached-hits :
    (roles : Roles) (event : MessageEvent) (now : ℕ) (s : Suppressions)
    → (register_reply_refusal roles event now s).3 ≡ true
    → 2 ≤ hits_at (in_window reply_refusal_window now) (trim_space event.user_id) s
unfolding register_reply_refusal count_refusal
reached-hits roles event now s h =
    let old = hits_of (lookup (trim_space event.user_id) s.refusals) in
    let new : List RefusalHit =
      record { message_key = message_key event; observed_at = now } ∷ [] in
    let sizes = length-append (recent_refusals now old) new in
    let kept = length-keep (λ x. in_window reply_refusal_window now x.observed_at) old in
    ground (arith, sizes, kept, h)

-- After any calls since a start, a refusal that reaches the threshold comes after at least two other
-- calls that may count as a refusal by the same user, at times within the window before it.
pub threshold_asks :
    (roles : MessageEvent → Roles) (begin : ℕ) (store : Option (List ReplySuppression))
    (cs : List Call) (event : MessageEvent) (now : ℕ)
    → (register_reply_refusal
        (roles event)
        event
        now
        (run roles cs (start_suppressions begin store))).3
      ≡ true
    → 2
      ≤ count_if
          (λ c.
            asks (trim_space event.user_id) c.action && in_window reply_refusal_window now c.now)
          cs
unfolding start_suppressions lookup
threshold_asks roles begin store cs event now h =
    let s = start_suppressions begin store in
    let reached = reached-hits (roles event) event now (run roles cs s) h in
    let few = run-hits (in_window reply_refusal_window now) (trim_space event.user_id) roles cs s in
    omega arith
