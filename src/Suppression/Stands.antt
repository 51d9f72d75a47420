-- ===== src/Suppression/Stands.antt =====
-- The calls on the suppressions keep one that has not ended.
use diana_qq_bot.Prelude.{
  ℕ, ◌<◌, ◌≡◌, Bool, false, ◌||◌, ◌&&◌, not, List, [], ◌∷◌, Option, some, ltb, lt→ltb, if_either,
  arith, All, Bool-cases, Option-cases, inl, inr,
}
use diana_qq_bot.Prelude.Text.{Text, text_eq, text_eq_iff, is_empty, trim_space}
use diana_qq_bot.Prelude.Assoc.{lookup, insert, lookup-insert, lookup-delete}
use diana_qq_bot.Event.{MessageEvent}
use diana_qq_bot.Suppression.State.{
  Roles, ReplySuppression, Suppressions, LoopCandidate, LoopDecision,
}
use diana_qq_bot.Suppression.Intent.{ReplyControlIntent}
use diana_qq_bot.Suppression.Active.{
  persist, reset_user, reset_bot_reply_loop_user, reset_reply_refusal_user, put_suppression,
  new_reply_suppression, activate_reply_suppression, looked, active_reply_suppression,
  clear_reply_suppression, keep_active, list_reply_suppressions,
}
use diana_qq_bot.Suppression.Hits.{register_reply_refusal, register_bot_reply_loop_decision}
use diana_qq_bot.Suppression.AfterSend.{refuse, apply_reply_control_after_send}
use diana_qq_bot.Suppression.Owner.{
  owner_command_kind, command_target, handle_owner_command, listing, release,
}
use diana_qq_bot.Suppression.History.{
  Action, activates, looks, clears, decides, refuses, sends, commands, lists, restarts, Call, act,
  run, lifts,
}

pub persist-by_user : (written : Bool) (s : Suppressions) → (persist written s).by_user ≡ s.by_user
unfolding persist
persist-by_user written s = ground arith

pub reset_user-by_user : (id : Text) (s : Suppressions) → (reset_user id s).by_user ≡ s.by_user
unfolding reset_user reset_bot_reply_loop_user reset_reply_refusal_user
reset_user-by_user id s = ground arith

-- A new suppression is of the event's user, and of now.
pub new_made :
    (roles : Roles) (event : MessageEvent) (reason : Text) (now : ℕ) (new : ReplySuppression)
    → new_reply_suppression roles event reason now ≡ some new
    → (new.created_at ≡ now)
      × (new.user_id ≡ trim_space event.user_id)
      × (is_empty (trim_space event.user_id) ≡ false)
unfolding new_reply_suppression
new_made roles event reason now new e = ground (arith, e)

module _ (user : Text) (item : ReplySuppression) where
  -- The item is what the user is suppressed by.
  abbrev pub Stands : Suppressions → Type 0
  Stands s = lookup user s.by_user ≡ some item

  insert-Stands :
      (new : ReplySuppression) (m : List (Text × ReplySuppression))
      → text_eq new.user_id user ≡ false
      → lookup user m ≡ some item
      → lookup user (insert new.user_id new m) ≡ some item
  insert-Stands new m ne h = rw (lookup-insert new.user_id user new m, ne) h

  -- The new suppression has its place where its user has none, or one that has ended.
  taken-Stands :
      (written : Bool) (new : ReplySuppression) (s : Suppressions)
      → text_eq new.user_id user ≡ false
      → Stands s
      → Stands (
          reset_user new.user_id
            (persist written (record s { by_user = insert new.user_id new s.by_user })))
  taken-Stands written new s ne h =
      rw (reset_user-by_user, persist-by_user) (insert-Stands new s.by_user ne h)

  put-Stands :
      (written : Bool) (new : ReplySuppression) (s : Suppressions)
      → new.created_at < item.until
      → Stands s
      → Stands (put_suppression written new s).0
  unfolding put_suppression
  put-Stands written new s lt h = elim (Bool-cases (text_eq new.user_id user)) [
    | inl e ↦
        let found : lookup new.user_id s.by_user ≡ some item =
          rw ((text_eq_iff new.user_id user).0 e) h in
        rw (found, lt→ltb new.created_at item.until lt, put_suppression) h
    | inr ne ↦ elim (Option-cases (lookup new.user_id s.by_user)) [
      | inl none_yet ↦ rw (none_yet, put_suppression) (taken-Stands written new s ne h)
      | inr (old, found) ↦
          rw (found, put_suppression)
            (if_either (λ (x : Suppressions × Option ReplySuppression × Bool). Stands x.0)
              (ltb new.created_at old.until) h (taken-Stands written new s ne h))
    ]
  ]

  activate-Stands :
      (roles : Roles) (written : Bool) (event : MessageEvent) (reason : Text) (now : ℕ)
      (s : Suppressions)
      → now < item.until
      → Stands s
      → Stands (activate_reply_suppression roles written event reason now s).0
  unfolding activate_reply_suppression
  activate-Stands roles written event reason now s lt h =
      elim (Option-cases (new_reply_suppression roles event reason now)) [
        | inl e ↦ rw (e, activate_reply_suppression) h
        | inr (new, e) ↦
            rw (e, activate_reply_suppression)
              (put-Stands written new s (rw (new_made roles event reason now new e).0 lt) h)
      ]

  keep_active-Stands :
      (now : ℕ) (m : List (Text × ReplySuppression))
      → now < item.until
      → lookup user m ≡ some item
      → lookup user (keep_active now m) ≡ some item
  unfolding lookup
  keep_active-Stands now [] lt h = h
  keep_active-Stands now ((k, x) ∷ m) lt h = ground (arith, keep_active-Stands now m lt)

  -- What a look-up of a key makes of the map.
  looked-Stands :
      (key : Text) (now : ℕ) (s : Suppressions)
      → now < item.until
      → Stands s
      → Stands (looked key now s).0
  unfolding looked
  looked-Stands key now s lt h = elim (Bool-cases (text_eq key user)) [
    | inl e ↦
        let found : lookup key s.by_user ≡ some item = rw ((text_eq_iff key user).0 e) h in
        rw (found, lt→ltb now item.until lt, looked) h
    | inr ne ↦ elim (Option-cases (lookup key s.by_user)) [
      | inl none_there ↦ rw (none_there, looked) h
      | inr (old, found) ↦
          rw (found, looked)
            (if_either (λ (x : Suppressions × Option ReplySuppression). Stands x.0)
              (ltb now old.until) h (rw (lookup-delete key user s.by_user, ne) h))
    ]
  ]

  active-Stands :
      (roles : Roles) (event : MessageEvent) (now : ℕ) (s : Suppressions)
      → now < item.until
      → Stands s
      → Stands (active_reply_suppression roles event now s).0
  unfolding active_reply_suppression
  active-Stands roles event now s lt h =
      if_either (λ (x : Suppressions × Option ReplySuppression). Stands x.0)
        (is_empty (trim_space event.user_id)
          || text_eq (trim_space event.user_id) (trim_space roles.owner_id))
        h (looked-Stands (trim_space event.user_id) now s lt h)

  clear-Stands :
      (written : Bool) (id : Text) (s : Suppressions)
      → text_eq (trim_space id) user ≡ false
      → Stands s
      → Stands (clear_reply_suppression written id s).0
  unfolding clear_reply_suppression
  clear-Stands written id s ne h =
      if_either (λ (x : Suppressions × Option ReplySuppression). Stands x.0)
        (is_empty (trim_space id)) h
        (rw (reset_user-by_user, persist-by_user, lookup-delete (trim_space id) user s.by_user, ne)
          h)

  register-Stands :
      (roles : Roles) (event : MessageEvent) (now : ℕ) (s : Suppressions)
      → Stands s
      → Stands (register_reply_refusal roles event now s).0
  unfolding register_reply_refusal
  register-Stands roles event now s h = ground (arith, h)

  decide-Stands :
      (event : MessageEvent) (c : LoopCandidate) (d : LoopDecision) (now : ℕ) (s : Suppressions)
      → Stands s
      → Stands (register_bot_reply_loop_decision event c d now s).0
  unfolding register_bot_reply_loop_decision
  decide-Stands event c d now s h = ground (arith, h)

  refuse-Stands :
      (roles : Roles) (written noticed : Bool) (event : MessageEvent) (now : ℕ) (s : Suppressions)
      → now < item.until
      → Stands s
      → Stands (refuse roles written noticed event now s)
  unfolding refuse
  refuse-Stands roles written noticed event now s lt h =
      let x = register_reply_refusal roles event now s in
      let counted : Stands x.0 = register-Stands roles event now s h in
      if_either Stands (x.3 && noticed) (activate-Stands roles written event x.2 now x.0 lt counted)
        counted

  send-Stands :
      (roles : Roles) (written noticed : Bool) (event : MessageEvent) (reply : Text)
      (intent : ReplyControlIntent) (now : ℕ) (s : Suppressions)
      → now < item.until
      → Stands s
      → Stands (apply_reply_control_after_send roles written noticed event reply intent now s)
  unfolding apply_reply_control_after_send
  send-Stands roles written noticed event reply intent now s lt h =
      let x = active_reply_suppression roles event now s in
      let looked : Stands x.0 = active-Stands roles event now s lt h in
      if_either Stands intent.suppress_current_user
        (activate-Stands roles written event reply now s lt h)
        (if_either Stands (not intent.refuse_current) h (elim (Option-cases x.1) [
          | inl e ↦ rw e (refuse-Stands roles written noticed event now x.0 lt looked)
          | inr (blocked, e) ↦ rw e looked
        ]))

  list-Stands :
      (now : ℕ) (s : Suppressions)
      → now < item.until
      → Stands s
      → Stands (list_reply_suppressions now s).0
  unfolding list_reply_suppressions
  list-Stands now s lt h = keep_active-Stands now s.by_user lt h

  command-Stands :
      (roles : MessageEvent → Roles) (written : Bool) (event : MessageEvent) (text : Text) (now : ℕ)
      (s : Suppressions)
      → now < item.until
      → lifts roles user (commands event text) ≡ false
      → Stands s
      → Stands (handle_owner_command (roles event) written event text now s).0
  unfolding handle_owner_command
  command-Stands roles written event text now s lt stays h =
      elim (Option-cases (owner_command_kind text)) [
        | inl e ↦ rw (e, handle_owner_command) h
        | inr (listing, e) ↦ rw (e, handle_owner_command) (list-Stands now s lt h)
        | inr (release, e) ↦ elim (Option-cases (command_target event text (roles event))) [
          | inl f ↦ rw (e, f, handle_owner_command) h
          | inr (id, f) ↦
              let other : text_eq (trim_space id) user ≡ false = ground (arith, e, f, stays) in
              rw (e, f, handle_owner_command) (clear-Stands written id s other h)
        ]
      ]

  act-Stands :
      (roles : MessageEvent → Roles) (now : ℕ) (written : Bool) (a : Action) (s : Suppressions)
      → now < item.until
      → lifts roles user a ≡ false
      → Stands s
      → Stands (act roles now written a s)
  act-Stands roles now written (activates event reason) s lt stays h =
      activate-Stands (roles event) written event reason now s lt h
  act-Stands roles now written (looks event) s lt stays h =
      active-Stands (roles event) event now s lt h
  act-Stands roles now written (clears id) s lt stays h = clear-Stands written id s stays h
  act-Stands roles now written (decides event c d) s lt stays h = decide-Stands event c d now s h
  act-Stands roles now written (refuses event) s lt stays h =
      register-Stands (roles event) event now s h
  act-Stands roles now written (sends noticed event reply intent) s lt stays h =
      send-Stands (roles event) written noticed event reply intent now s lt h
  act-Stands roles now written (commands event text) s lt stays h =
      command-Stands roles written event text now s lt stays h
  act-Stands roles now written lists s lt stays h = list-Stands now s lt h
  act-Stands roles now written restarts s lt stays h = cc

  pub run-Stands :
      (roles : MessageEvent → Roles) (cs : List Call) (s : Suppressions)
      → All (λ c. (c.now < item.until) × (lifts roles user c.action ≡ false)) cs
      → Stands s
      → Stands (run roles cs s)
  run-Stands roles [] s within h = h
  run-Stands roles (c ∷ cs) s within h =
      run-Stands roles cs (act roles c.now c.written c.action s) within.1
        (act-Stands roles c.now c.written c.action s within.0.0 within.0.1 h)
