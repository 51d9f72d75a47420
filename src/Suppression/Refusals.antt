-- ===== src/Suppression/Refusals.antt =====
-- The hits of a user come of that user's refusals.
use diana_qq_bot.Prelude.{
  ℕ, ◌+◌, ◌≤◌, ◌≡◌, ap, Bool, false, ◌||◌, ◌&&◌, not, List, [], ◌∷◌, ◌++◌, Option, if◌then◌else◌,
  subst, ltb, if_either, arith, Bool-cases, Option-cases, inl, inr, keep, count_if,
}
use diana_qq_bot.Prelude.Text.{Text, text_eq, text_eq_iff, is_empty, trim_space}
use diana_qq_bot.Prelude.Assoc.{lookup, insert, delete, lookup-insert, lookup-delete}
use diana_qq_bot.Event.{MessageEvent}
use diana_qq_bot.Suppression.State.{
  Roles, ReplySuppression, RefusalHit, Suppressions, LoopCandidate, LoopDecision,
  reply_refusal_window,
}
use diana_qq_bot.Suppression.Intent.{ReplyControlIntent}
use diana_qq_bot.Suppression.Active.{
  persist, reset_user, reset_bot_reply_loop_user, reset_reply_refusal_user, put_suppression,
  new_reply_suppression, activate_reply_suppression, looked, active_reply_suppression,
  clear_reply_suppression, list_reply_suppressions, start_suppressions,
}
use diana_qq_bot.Suppression.Hits.{
  in_window, hits_of, recent_refusals, has_key, message_key, count_refusal, register_reply_refusal,
  register_bot_reply_loop_decision,
}
use diana_qq_bot.Suppression.AfterSend.{refuse, apply_reply_control_after_send}
use diana_qq_bot.Suppression.Owner.{
  owner_command_kind, command_target, handle_owner_command, listing, release,
}
use diana_qq_bot.Suppression.History.{
  Action, activates, looks, clears, decides, refuses, sends, commands, lists, restarts, Call, act,
  run,
}

-- Whether an action may count as a refusal of a user.
abbrev pub asks : Text → Action → Bool
asks user (refuses event) = text_eq (trim_space event.user_id) user
asks user (sends noticed event reply intent) = text_eq (trim_space event.user_id) user
asks user _ = false

-- The hits of a user at times that `p` picks.
abbrev pub hits_at : (ℕ → Bool) → Text → Suppressions → ℕ
hits_at p user s = count_if (λ h. p h.observed_at) (hits_of (lookup user s.refusals))

count_if-keep :
    (p q : RefusalHit → Bool) (hs : List RefusalHit) → count_if p (keep q hs) ≤ count_if p hs
count_if-keep p q [] = omega arith
count_if-keep p q (h ∷ hs) = ground (arith, count_if-keep p q hs)

count_if-append :
    (p : RefusalHit → Bool) (hs ks : List RefusalHit)
    → count_if p (hs ++ ks) ≡ count_if p hs + count_if p ks
count_if-append p [] ks = omega arith
count_if-append p (h ∷ hs) ks = ground (arith, count_if-append p hs ks)

module _ (p : ℕ → Bool) (user : Text) where
  abbrev one_at : ℕ → ℕ
  one_at now = if p now then 1 else 0

  count_refusal-hits :
      (event : MessageEvent) (now : ℕ) (old : List RefusalHit)
      → count_if (λ h. p h.observed_at) (count_refusal event now old).0
        ≤ one_at now + count_if (λ h. p h.observed_at) old
  unfolding count_refusal
  count_refusal-hits event now old =
      let kept =
        count_if-keep (λ h. p h.observed_at) (λ h. in_window reply_refusal_window now h.observed_at)
          old in
      let hits = recent_refusals now old in
      let new : List RefusalHit =
        record { message_key = message_key event; observed_at = now } ∷ [] in
      let more : count_if (λ h. p h.observed_at) (hits ++ new)
          ≤ one_at now + count_if (λ h. p h.observed_at) old =
        rw (count_if-append (λ h. p h.observed_at) hits new) (ground (arith, kept)) in
      if_either
        (λ (x : List RefusalHit × Bool).
          count_if (λ h. p h.observed_at) x.0 ≤ one_at now + count_if (λ h. p h.observed_at) old)
        (not (is_empty (trim_space event.message_id)) && has_key (message_key event) hits)
        (ground (arith, kept)) more

  register-hits :
      (roles : Roles) (event : MessageEvent) (now : ℕ) (s : Suppressions)
      → hits_at p user (register_reply_refusal roles event now s).0
        ≤ (if text_eq (trim_space event.user_id) user && p now then 1 else 0) + hits_at p user s
  unfolding register_reply_refusal
  register-hits roles event now s =
      let id = trim_space event.user_id in
      let counted = count_refusal event now (hits_of (lookup id s.refusals)) in
      let more = count_refusal-hits event now (hits_of (lookup id s.refusals)) in
      elim (Bool-cases (
        is_empty id
        || text_eq id (trim_space roles.owner_id)
        || text_eq id (trim_space roles.bot_qq))) [
          | inl e ↦ rw (e, register_reply_refusal) (omega arith)
          | inr e ↦ elim (Bool-cases (text_eq id user)) [
            | inl f ↦
                let own : lookup id s.refusals ≡ lookup user s.refusals =
                  ap (λ k. lookup k s.refusals) ((text_eq_iff id user).0 f) in
                let bound : count_if (λ h. p h.observed_at) counted.0
                    ≤ one_at now + hits_at p user s =
                  subst
                    (λ o.
                      count_if (λ h. p h.observed_at) counted.0
                      ≤ one_at now + count_if (λ h. p h.observed_at) (hits_of o))
                    own more in
                rw (e, register_reply_refusal, lookup-insert id user counted.0 s.refusals, f) bound
            | inr f ↦
                rw (e, register_reply_refusal, lookup-insert id user counted.0 s.refusals, f)
                  (omega arith)
          ]
        ]

  reset_user-hits :
      (id : Text) (s : Suppressions) → hits_at p user (reset_user id s) ≤ hits_at p user s
  unfolding reset_user reset_bot_reply_loop_user reset_reply_refusal_user
  reset_user-hits id s = elim (Bool-cases (is_empty (trim_space id))) [
    | inl e ↦ rw (e, reset_user, reset_bot_reply_loop_user, reset_reply_refusal_user) (omega arith)
    | inr e ↦
        rw
          (
            e,
            reset_user,
            reset_bot_reply_loop_user,
            reset_reply_refusal_user,
            lookup-delete (trim_space id) user s.refusals,
          )
          (ground arith)
  ]

  persist-hits :
      (written : Bool) (s : Suppressions) → hits_at p user (persist written s) ≡ hits_at p user s
  unfolding persist
  persist-hits written s = ground arith

  put-hits :
      (written : Bool) (new : ReplySuppression) (s : Suppressions)
      → hits_at p user (put_suppression written new s).0 ≤ hits_at p user s
  unfolding put_suppression
  put-hits written new s =
      let stored : Suppressions = record s { by_user = insert new.user_id new s.by_user } in
      let reset = reset_user-hits new.user_id (persist written stored) in
      let fresh : hits_at p user (reset_user new.user_id (persist written stored))
          ≤ hits_at p user s =
        rw⁻¹ (persist-hits written stored) reset in
      elim (Option-cases (lookup new.user_id s.by_user)) [
        | inl e ↦ rw (e, put_suppression) fresh
        | inr (old, e) ↦
            rw (e, put_suppression)
              (if_either
                (λ (x : Suppressions × Option ReplySuppression × Bool).
                  hits_at p user x.0 ≤ hits_at p user s)
                (ltb new.created_at old.until) (omega arith) fresh)
      ]

  activate-hits :
      (roles : Roles) (written : Bool) (event : MessageEvent) (reason : Text) (now : ℕ)
      (s : Suppressions)
      → hits_at p user (activate_reply_suppression roles written event reason now s).0
        ≤ hits_at p user s
  unfolding activate_reply_suppression
  activate-hits roles written event reason now s =
      elim (Option-cases (new_reply_suppression roles event reason now)) [
        | inl e ↦ rw (e, activate_reply_suppression) (omega arith)
        | inr (new, e) ↦ rw (e, activate_reply_suppression) (put-hits written new s)
      ]

  active-hits :
      (roles : Roles) (event : MessageEvent) (now : ℕ) (s : Suppressions)
      → (active_reply_suppression roles event now s).0.refusals ≡ s.refusals
  unfolding active_reply_suppression looked
  active-hits roles event now s = ground arith

  decide-hits :
      (event : MessageEvent) (c : LoopCandidate) (d : LoopDecision) (now : ℕ) (s : Suppressions)
      → (register_bot_reply_loop_decision event c d now s).0.refusals ≡ s.refusals
  unfolding register_bot_reply_loop_decision
  decide-hits event c d now s = ground arith

  clear-hits :
      (written : Bool) (id : Text) (s : Suppressions)
      → hits_at p user (clear_reply_suppression written id s).0 ≤ hits_at p user s
  unfolding clear_reply_suppression
  clear-hits written id s =
      let stored : Suppressions = record s { by_user = delete (trim_space id) s.by_user } in
      let reset = reset_user-hits (trim_space id) (persist written stored) in
      let fresh : hits_at p user (reset_user (trim_space id) (persist written stored))
          ≤ hits_at p user s =
        rw⁻¹ (persist-hits written stored) reset in
      if_either
        (λ (x : Suppressions × Option ReplySuppression). hits_at p user x.0 ≤ hits_at p user s)
        (is_empty (trim_space id)) (omega arith) fresh

  refuse-hits :
      (roles : Roles) (written noticed : Bool) (event : MessageEvent) (now : ℕ) (s : Suppressions)
      → hits_at p user (refuse roles written noticed event now s)
        ≤ (if text_eq (trim_space event.user_id) user && p now then 1 else 0) + hits_at p user s
  unfolding refuse
  refuse-hits roles written noticed event now s =
      let x = register_reply_refusal roles event now s in
      let counted = register-hits roles event now s in
      let activated = activate-hits roles written event x.2 now x.0 in
      if_either
        (λ y.
          hits_at p user y
          ≤ (if text_eq (trim_space event.user_id) user && p now then 1 else 0) + hits_at p user s)
        (x.3 && noticed) (omega arith) counted

  send-hits :
      (roles : Roles) (written noticed : Bool) (event : MessageEvent) (reply : Text)
      (intent : ReplyControlIntent) (now : ℕ) (s : Suppressions)
      → hits_at p user
          (apply_reply_control_after_send roles written noticed event reply intent now s)
        ≤ (if text_eq (trim_space event.user_id) user && p now then 1 else 0) + hits_at p user s
  unfolding apply_reply_control_after_send
  send-hits roles written noticed event reply intent now s =
      let x = active_reply_suppression roles event now s in
      let same : hits_at p user x.0 ≡ hits_at p user s =
        ap (λ m. count_if (λ h. p h.observed_at) (hits_of (lookup user m)))
          (active-hits roles event now s) in
      let refused = refuse-hits roles written noticed event now x.0 in
      let activated = activate-hits roles written event reply now s in
      let Few : Suppressions → Type 0 = λ y.
        hits_at p user y
        ≤ (if text_eq (trim_space event.user_id) user && p now then 1 else 0) + hits_at p user s in
      if_either Few intent.suppress_current_user (omega arith) (
        if_either Few (not intent.refuse_current) (omega arith) (elim (Option-cases x.1) [
          | inl e ↦ rw e (omega arith)
          | inr (blocked, e) ↦ rw e (omega arith)
        ]))

  command-hits :
      (roles : Roles) (written : Bool) (event : MessageEvent) (text : Text) (now : ℕ)
      (s : Suppressions)
      → hits_at p user (handle_owner_command roles written event text now s).0 ≤ hits_at p user s
  unfolding handle_owner_command list_reply_suppressions
  command-hits roles written event text now s = elim (Option-cases (owner_command_kind text)) [
    | inl e ↦ rw (e, handle_owner_command) (omega arith)
    | inr (listing, e) ↦ rw (e, handle_owner_command) (omega arith)
    | inr (release, e) ↦ elim (Option-cases (command_target event text roles)) [
      | inl f ↦ rw (e, f, handle_owner_command) (omega arith)
      | inr (id, f) ↦ rw (e, f, handle_owner_command) (clear-hits written id s)
    ]
  ]

  act-hits :
      (roles : MessageEvent → Roles) (now : ℕ) (written : Bool) (a : Action) (s : Suppressions)
      → hits_at p user (act roles now written a s)
        ≤ (if asks user a && p now then 1 else 0) + hits_at p user s
  unfolding list_reply_suppressions start_suppressions lookup
  act-hits roles now written (activates event reason) s =
      let h = activate-hits (roles event) written event reason now s in omega arith
  act-hits roles now written (looks event) s =
      rw (active-hits (roles event) event now s) (omega arith)
  act-hits roles now written (clears id) s = let h = clear-hits written id s in omega arith
  act-hits roles now written (decides event c d) s = rw (decide-hits event c d now s) (omega arith)
  act-hits roles now written (refuses event) s = register-hits (roles event) event now s
  act-hits roles now written (sends noticed event reply intent) s =
      send-hits (roles event) written noticed event reply intent now s
  act-hits roles now written (commands event text) s =
      let h = command-hits (roles event) written event text now s in omega arith
  act-hits roles now written lists s = omega arith
  act-hits roles now written restarts s = omega arith

  pub run-hits :
      (roles : MessageEvent → Roles) (cs : List Call) (s : Suppressions)
      → hits_at p user (run roles cs s)
        ≤ count_if (λ c. asks user c.action && p c.now) cs + hits_at p user s
  run-hits roles [] s = omega arith
  run-hits roles (c ∷ cs) s =
      let first = act-hits roles c.now c.written c.action s in
      let rest = run-hits roles cs (act roles c.now c.written c.action s) in
      ground (arith, first, rest)
