-- ===== src/Suppression/Synced.antt =====
-- The calls on the suppressions keep the store in step with the map.
use diana_qq_bot.Prelude.{
  ℕ, ◌≤◌, ◌≡◌, refl, ◌∙◌, Bool, true, false, ◌||◌, ◌&&◌, not, List, [], ◌∷◌, Option, some, ltb,
  if_either, arith, Bool-cases, Option-cases, inl, inr,
}
use diana_qq_bot.Prelude.Text.{Text, text_eq, is_empty, trim_space, trim_space_twice}
use diana_qq_bot.Prelude.Assoc.{lookup, insert, delete}
use diana_qq_bot.Event.{MessageEvent}
use diana_qq_bot.Suppression.State.{
  Roles, ReplySuppression, Suppressions, LoopCandidate, LoopDecision,
}
use diana_qq_bot.Suppression.Intent.{ReplyControlIntent}
use diana_qq_bot.Suppression.Active.{
  persist, reset_user, put_suppression, new_reply_suppression, activate_reply_suppression, looked,
  active_reply_suppression, clear_reply_suppression, list_reply_suppressions, load_items,
  start_suppressions,
}
use diana_qq_bot.Suppression.Hits.{register_reply_refusal, register_bot_reply_loop_decision}
use diana_qq_bot.Suppression.AfterSend.{refuse, apply_reply_control_after_send}
use diana_qq_bot.Suppression.Owner.{
  owner_command_kind, command_target, handle_owner_command, listing, release,
}
use diana_qq_bot.Suppression.Table.{pick}
use diana_qq_bot.Suppression.Rows.{
  insert-IsTable, delete-IsTable, keep_active-IsTable, lookup-keep_active, load_items-IsTable,
  lookup-load_items,
}
use diana_qq_bot.Suppression.Stands.{new_made}
use diana_qq_bot.Suppression.History.{
  Action, activates, looks, clears, decides, refuses, sends, commands, lists, restarts, Call, act,
  run, Timely, last_time,
}
use diana_qq_bot.Suppression.Step.{
  Synced, Synced-alike, Synced-later, persist-Synced, reset_user-Synced, answer_later, loaded_later,
  forgotten,
}

module _ (from : ℕ) where
  put-Synced :
      (new : ReplySuppression) (s : Suppressions)
      → trim_space new.user_id ≡ new.user_id
      → is_empty new.user_id ≡ false
      → Synced from s
      → Synced from (put_suppression true new s).0
  unfolding put_suppression
  put-Synced new s trimmed filled h =
      let stored : Suppressions = record s { by_user = insert new.user_id new s.by_user } in
      let fresh : Synced from (reset_user new.user_id (persist true stored)) =
        reset_user-Synced from new.user_id (persist true stored) (
          persist-Synced from stored h.rows (insert-IsTable new s.by_user trimmed filled h.table)
            h.saved_is) in
      elim (Option-cases (lookup new.user_id s.by_user)) [
        | inl e ↦ rw (e, put_suppression) fresh
        | inr (old, e) ↦
            rw (e, put_suppression)
              (if_either (λ (x : Suppressions × Option ReplySuppression × Bool). Synced from x.0)
                (ltb new.created_at old.until) h fresh)
      ]

  activate-Synced :
      (roles : Roles) (event : MessageEvent) (reason : Text) (now : ℕ) (s : Suppressions)
      → Synced from s
      → Synced from (activate_reply_suppression roles true event reason now s).0
  unfolding activate_reply_suppression
  activate-Synced roles event reason now s h =
      elim (Option-cases (new_reply_suppression roles event reason now)) [
        | inl e ↦ rw (e, activate_reply_suppression) h
        | inr (new, e) ↦
            let (_, named, filled) = new_made roles event reason now new e in
            rw (e, activate_reply_suppression)
              (put-Synced new s (rw named (trim_space_twice event.user_id)) (rw named filled) h)
      ]

  looked-Synced :
      (key : Text) (now : ℕ) (s : Suppressions)
      → now ≤ from
      → Synced from s
      → Synced from (looked key now s).0
  unfolding looked
  looked-Synced key now s le h = elim (Option-cases (lookup key s.by_user)) [
    | inl e ↦ rw (e, looked) h
    | inr (old, e) ↦ elim (Bool-cases (ltb now old.until)) [
      | inl f ↦ rw (e, f, looked) h
      | inr f ↦
          rw (e, f, looked)
            (record {
              table = delete-IsTable key s.by_user h.table;
              rows = h.rows;
              saved_is = h.saved_is;
              users = h.users;
              same = λ user later le'.
                  h.same user later le' ∙ forgotten key user later old s.by_user e (ground arith);
            })
    ]
  ]

  clear-Synced :
      (id : Text) (s : Suppressions)
      → Synced from s
      → Synced from (clear_reply_suppression true id s).0
  unfolding clear_reply_suppression
  clear-Synced id s h =
      let stored : Suppressions = record s { by_user = delete (trim_space id) s.by_user } in
      if_either (λ (x : Suppressions × Option ReplySuppression). Synced from x.0)
        (is_empty (trim_space id)) h
        (reset_user-Synced from (trim_space id) (persist true stored) (
          persist-Synced from stored h.rows (delete-IsTable (trim_space id) s.by_user h.table)
            h.saved_is))

  list-Synced :
      (now : ℕ) (s : Suppressions)
      → now ≤ from
      → Synced from s
      → Synced from (list_reply_suppressions now s).0
  unfolding list_reply_suppressions
  list-Synced now s le h = record {
    table = keep_active-IsTable now s.by_user h.table;
    rows = h.rows;
    saved_is = h.saved_is;
    users = h.users;
    same = λ user later le'.
        h.same user later le'
        ∙ rw (lookup-keep_active user now s.by_user h.table)
            (answer_later now later (lookup user s.by_user) (omega arith));
  }

  active-Synced :
      (roles : Roles) (event : MessageEvent) (now : ℕ) (s : Suppressions)
      → now ≤ from
      → Synced from s
      → Synced from (active_reply_suppression roles event now s).0
  unfolding active_reply_suppression
  active-Synced roles event now s le h =
      if_either (λ (x : Suppressions × Option ReplySuppression). Synced from x.0)
        (is_empty (trim_space event.user_id)
          || text_eq (trim_space event.user_id) (trim_space roles.owner_id))
        h (looked-Synced (trim_space event.user_id) now s le h)

  register-Synced :
      (roles : Roles) (event : MessageEvent) (now : ℕ) (s : Suppressions)
      → Synced from s
      → Synced from (register_reply_refusal roles event now s).0
  unfolding register_reply_refusal
  register-Synced roles event now s h =
      let x = (register_reply_refusal roles event now s).0 in
      let maps : x.by_user ≡ s.by_user = ground arith in
      let rows : x.saved ≡ s.saved = ground arith in Synced-alike from s x maps rows h

  decide-Synced :
      (event : MessageEvent) (c : LoopCandidate) (d : LoopDecision) (now : ℕ) (s : Suppressions)
      → Synced from s
      → Synced from (register_bot_reply_loop_decision event c d now s).0
  unfolding register_bot_reply_loop_decision
  decide-Synced event c d now s h =
      let x = (register_bot_reply_loop_decision event c d now s).0 in
      let maps : x.by_user ≡ s.by_user = ground arith in
      let rows : x.saved ≡ s.saved = ground arith in Synced-alike from s x maps rows h

  refuse-Synced :
      (roles : Roles) (noticed : Bool) (event : MessageEvent) (now : ℕ) (s : Suppressions)
      → Synced from s
      → Synced from (refuse roles true noticed event now s)
  unfolding refuse
  refuse-Synced roles noticed event now s h =
      let x = register_reply_refusal roles event now s in
      let counted : Synced from x.0 = register-Synced roles event now s h in
      if_either (Synced from) (x.3 && noticed) (activate-Synced roles event x.2 now x.0 counted)
        counted

  send-Synced :
      (roles : Roles) (noticed : Bool) (event : MessageEvent) (reply : Text)
      (intent : ReplyControlIntent) (now : ℕ) (s : Suppressions)
      → now ≤ from
      → Synced from s
      → Synced from (apply_reply_control_after_send roles true noticed event reply intent now s)
  unfolding apply_reply_control_after_send
  send-Synced roles noticed event reply intent now s le h =
      let x = active_reply_suppression roles event now s in
      let looked : Synced from x.0 = active-Synced roles event now s le h in
      if_either (Synced from) intent.suppress_current_user
        (activate-Synced roles event reply now s h)
        (if_either (Synced from) (not intent.refuse_current) h (elim (Option-cases x.1) [
          | inl e ↦ rw e (refuse-Synced roles noticed event now x.0 looked)
          | inr (blocked, e) ↦ rw e looked
        ]))

  command-Synced :
      (roles : Roles) (event : MessageEvent) (text : Text) (now : ℕ) (s : Suppressions)
      → now ≤ from
      → Synced from s
      → Synced from (handle_owner_command roles true event text now s).0
  unfolding handle_owner_command
  command-Synced roles event text now s le h = elim (Option-cases (owner_command_kind text)) [
    | inl e ↦ rw (e, handle_owner_command) h
    | inr (listing, e) ↦ rw (e, handle_owner_command) (list-Synced now s le h)
    | inr (release, e) ↦ elim (Option-cases (command_target event text roles)) [
      | inl f ↦ rw (e, f, handle_owner_command) h
      | inr (id, f) ↦ rw (e, f, handle_owner_command) (clear-Synced id s h)
    ]
  ]

  restart-Synced :
      (now : ℕ) (s : Suppressions)
      → now ≤ from
      → Synced from s
      → Synced from (start_suppressions now s.saved)
  unfolding start_suppressions lookup
  restart-Synced now s le h = rw h.saved_is (record {
    table = load_items-IsTable now h.rows [] h.users (tt, tt);
    rows = h.rows;
    saved_is = refl;
    users = h.users;
    same = λ user later le'.
        rw (lookup-load_items user now h.rows [] h.users)
          (loaded_later now later (pick user h.rows) (omega arith));
  })

  act-Synced :
      (roles : MessageEvent → Roles) (now : ℕ) (a : Action) (s : Suppressions)
      → now ≤ from
      → Synced from s
      → Synced from (act roles now true a s)
  act-Synced roles now (activates event reason) s le h =
      activate-Synced (roles event) event reason now s h
  act-Synced roles now (looks event) s le h = active-Synced (roles event) event now s le h
  act-Synced roles now (clears id) s le h = clear-Synced id s h
  act-Synced roles now (decides event c d) s le h = decide-Synced event c d now s h
  act-Synced roles now (refuses event) s le h = register-Synced (roles event) event now s h
  act-Synced roles now (sends noticed event reply intent) s le h =
      send-Synced (roles event) noticed event reply intent now s le h
  act-Synced roles now (commands event text) s le h =
      command-Synced (roles event) event text now s le h
  act-Synced roles now lists s le h = list-Synced now s le h
  act-Synced roles now restarts s le h = restart-Synced now s le h

pub run-Synced :
    (roles : MessageEvent → Roles) (from : ℕ) (cs : List Call) (s : Suppressions)
    → Timely from cs
    → Synced from s
    → Synced (last_time from cs) (run roles cs s)
run-Synced roles from [] s timely h = h
run-Synced roles from (c ∷ cs) s (later, written, timely) h =
    run-Synced roles c.now cs (act roles c.now c.written c.action s) timely (
      rw written
        (act-Synced c.now roles c.now c.action s (omega arith) (Synced-later from c.now s later h)))

pub start-Synced : (now : ℕ) → Synced now (start_suppressions now (some []))
unfolding start_suppressions load_items lookup pick
start-Synced now = record {
  table = (tt, tt);
  rows = [];
  saved_is = refl;
  users = tt;
  same = λ user later le. refl;
}
