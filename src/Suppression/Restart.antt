-- ===== src/Suppression/Restart.antt =====
-- What the store holds is enough for a start of the runtime.
use diana_qq_bot.Prelude.{
  ℕ, ◌≤◌, ◌≡◌, refl, sym, ◌∙◌, ◌||◌, List, [], some, ltb, arith, Bool-cases, Option-cases, inl, inr,
}
use diana_qq_bot.Prelude.Text.{Text, text_eq, is_empty, trim_space}
use diana_qq_bot.Prelude.Assoc.{lookup}
use diana_qq_bot.Event.{MessageEvent}
use diana_qq_bot.Suppression.State.{Roles, ReplySuppression, Suppressions}
use diana_qq_bot.Suppression.Active.{looked, active_reply_suppression, start_suppressions}
use diana_qq_bot.Suppression.Table.{pick, HaveUsers}
use diana_qq_bot.Suppression.Rows.{answer, lookup-load_items}
use diana_qq_bot.Suppression.History.{Call, run, Timely, last_time}
use diana_qq_bot.Suppression.Step.{loaded_later}
use diana_qq_bot.Suppression.Synced.{run-Synced, start-Synced}

looked-answer :
    (key : Text) (now : ℕ) (s : Suppressions)
    → (looked key now s).1 ≡ answer now (lookup key s.by_user)
unfolding looked
looked-answer key now s = elim (Option-cases (lookup key s.by_user)) [
  | inl e ↦ rw (e, looked) refl
  | inr (x, e) ↦ elim (Bool-cases (ltb now x.until)) [
    | inl f ↦ rw (e, f, looked) refl
    | inr f ↦ rw (e, f, looked) refl
  ]
]

-- A look-up answers by the row of the user.
active-answer :
    (roles : Roles) (event : MessageEvent) (now : ℕ) (s s' : Suppressions)
    → ((user : Text) → answer now (lookup user s.by_user) ≡ answer now (lookup user s'.by_user))
    → (active_reply_suppression roles event now s).1
      ≡ (active_reply_suppression roles event now s').1
unfolding active_reply_suppression looked
active-answer roles event now s s' same =
    elim (Bool-cases (
      is_empty (trim_space event.user_id)
      || text_eq (trim_space event.user_id) (trim_space roles.owner_id))) [
        | inl e ↦ rw (e, active_reply_suppression) refl
        | inr e ↦
            rw (e, active_reply_suppression)
              (looked-answer (trim_space event.user_id) now s
                ∙ same (trim_space event.user_id)
                ∙ sym (looked-answer (trim_space event.user_id) now s'))
      ]

loaded-answer :
    (user : Text) (now : ℕ) (s : Suppressions) (rows : List ReplySuppression)
    → s.saved ≡ some rows
    → HaveUsers rows
    → answer now (lookup user (start_suppressions now s.saved).by_user)
      ≡ answer now (pick user rows)
unfolding start_suppressions lookup
loaded-answer user now s rows e users =
    rw (e, lookup-load_items user now rows [] users)
      (sym (loaded_later now now (pick user rows) (omega arith)))

-- After any timed history of calls since a start with an empty store, in which the store takes
-- everything it is given, a start at a later time from what the store holds answers every look-up at
-- that time as the running state does.
pub restart_answers :
    (roles : MessageEvent → Roles) (begin : ℕ) (cs : List Call) (event : MessageEvent) (now : ℕ)
    → Timely begin cs
    → last_time begin cs ≤ now
    → let s = run roles cs (start_suppressions begin (some [])) in
      (active_reply_suppression (roles event) event now (start_suppressions now s.saved)).1
      ≡ (active_reply_suppression (roles event) event now s).1
restart_answers roles begin cs event now timely late =
    let s = run roles cs (start_suppressions begin (some [])) in
    let h =
      run-Synced roles begin cs (start_suppressions begin (some [])) timely (start-Synced begin) in
    active-answer (roles event) event now (start_suppressions now s.saved) s
      (λ user. loaded-answer user now s h.rows h.saved_is h.users ∙ h.same user now late)
