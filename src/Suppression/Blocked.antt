-- ===== src/Suppression/Blocked.antt =====
-- A suppressed user stays so until the time is over.
use diana_qq_bot.Prelude.{
  ℕ, ◌<◌, ◌≡◌, refl, sym, ap, ◌∙◌, Bool, false, List, some, ltb, lt→ltb, All, Bool-cases,
  Option-cases, inl, inr,
}
use diana_qq_bot.Prelude.Text.{Text, text_eq, is_empty, trim_space}
use diana_qq_bot.Prelude.Assoc.{lookup, lookup-insert_self}
use diana_qq_bot.Event.{MessageEvent}
use diana_qq_bot.Suppression.State.{Roles, ReplySuppression, Suppressions}
use diana_qq_bot.Suppression.Active.{
  put_suppression, new_reply_suppression, activate_reply_suppression, looked,
  active_reply_suppression,
}
use diana_qq_bot.Suppression.History.{Call, run, lifts}
use diana_qq_bot.Suppression.Stands.{
  Stands, run-Stands, new_made, persist-by_user, reset_user-by_user,
}

-- What a suppression that is in force answers to a look-up.
Stands-answer :
    (user : Text) (item : ReplySuppression) (roles : Roles) (event : MessageEvent) (now : ℕ)
    (s : Suppressions)
    → trim_space event.user_id ≡ user
    → is_empty user ≡ false
    → text_eq user (trim_space roles.owner_id) ≡ false
    → now < item.until
    → Stands user item s
    → active_reply_suppression roles event now s ≡ (s, some item)
unfolding active_reply_suppression looked
Stands-answer user item roles event now s e filled other lt h =
    rw (e, filled, other, h, lt→ltb now item.until lt, active_reply_suppression, looked) refl

-- What a new suppression or an old one in force gives is what its user is suppressed by.
put-gives :
    (written : Bool) (new : ReplySuppression) (s : Suppressions) (item : ReplySuppression)
    → (put_suppression written new s).1 ≡ some item
    → Stands new.user_id item (put_suppression written new s).0
unfolding put_suppression
put-gives written new s item = elim (Option-cases (lookup new.user_id s.by_user)) [
  | inl e ↦
      rw (e, put_suppression) (λ f. rw (reset_user-by_user, persist-by_user, lookup-insert_self) f)
  | inr (old, e) ↦ elim (Bool-cases (ltb new.created_at old.until)) [
    | inl f ↦ rw (e, f, put_suppression) (λ g. e ∙ g)
    | inr f ↦
        rw (e, f, put_suppression)
          (λ g. rw (reset_user-by_user, persist-by_user, lookup-insert_self) g)
  ]
]

-- What an activation gives is what its user is suppressed by.
activate-gives :
    (roles : Roles) (written : Bool) (event : MessageEvent) (reason : Text) (now : ℕ)
    (s : Suppressions) (item : ReplySuppression)
    → (activate_reply_suppression roles written event reason now s).1 ≡ some item
    → Stands
        (trim_space event.user_id)
        item
        (activate_reply_suppression roles written event reason now s).0
      × (is_empty (trim_space event.user_id) ≡ false)
unfolding activate_reply_suppression
activate-gives roles written event reason now s item =
    elim (Option-cases (new_reply_suppression roles event reason now)) [
      | inl e ↦ rw (e, activate_reply_suppression) (λ f. cc)
      | inr (new, e) ↦
          let (_, same, filled) = new_made roles event reason now new e in
          rw (e, activate_reply_suppression, sym same)
            (λ f. (put-gives written new s item f, rw same filled))
    ]

-- Once an activation has given a suppression, a later event by the same user at a time before its end
-- finds that very suppression, unless the user is the owner for that event. This holds after any calls
-- before the end that neither lift the suppression of the user nor start the runtime anew, whether or
-- not the store takes what they save.
pub suppressed_until :
    (roles : MessageEvent → Roles) (written : Bool) (event : MessageEvent) (reason : Text)
    (begin : ℕ) (s : Suppressions) (item : ReplySuppression) (cs : List Call) (later : MessageEvent)
    (now : ℕ)
    → let x = activate_reply_suppression (roles event) written event reason begin s in
      let user = trim_space event.user_id in
      x.1 ≡ some item
      → All (λ c. (c.now < item.until) × (lifts roles user c.action ≡ false)) cs
      → trim_space later.user_id ≡ user
      → text_eq user (trim_space (roles later).owner_id) ≡ false
      → now < item.until
      → (active_reply_suppression (roles later) later now (run roles cs x.0)).1 ≡ some item
suppressed_until roles written event reason begin s item cs later now e within same other lt =
    let user = trim_space event.user_id in
    let x = activate_reply_suppression (roles event) written event reason begin s in
    let (stands, filled) = activate-gives (roles event) written event reason begin s item e in
    let still = run-Stands user item roles cs x.0 within stands in
    ap (λ y. y.1)
      (Stands-answer user item (roles later) later now (run roles cs x.0) same filled other lt
        still)
