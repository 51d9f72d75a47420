-- ===== src/Suppression/Step.antt =====
-- The store and the map in step, and the updates that keep them so.
use diana_qq_bot.Prelude.{
  ℕ, ◌≤◌, ◌≡◌, refl, ◌∙◌, true, false, List, Option, none, some, ltb, arith, Bool-cases, inl, inr,
}
use diana_qq_bot.Prelude.Text.{Text, text_eq, text_eq_iff}
use diana_qq_bot.Prelude.Assoc.{lookup, delete, lookup-delete}
use diana_qq_bot.Suppression.State.{ReplySuppression, Suppressions}
use diana_qq_bot.Suppression.Active.{
  values, sort_by_until, persist, reset_user, reset_bot_reply_loop_user, reset_reply_refusal_user,
}
use diana_qq_bot.Suppression.Table.{pick, HaveUsers, lookup-pick, pick-sort_by, sort_by-HaveUsers}
use diana_qq_bot.Suppression.Rows.{answer, or_else, IsTable}
use diana_qq_bot.Suppression.Stands.{persist-by_user, reset_user-by_user}

-- The map is a table, and so are the rows of the store, which answer as the map does from a time on.
pub record Synced (from : ℕ) (s : Suppressions) : Type 0 where
  pub table : IsTable s.by_user
  pub rows : List ReplySuppression
  pub saved_is : s.saved ≡ some rows
  pub users : HaveUsers rows
  pub same :
      (user : Text) (now : ℕ)
      → from ≤ now
      → answer now (pick user rows) ≡ answer now (lookup user s.by_user)

-- Only the map and the store count.
pub Synced-alike :
    (from : ℕ) (s s' : Suppressions)
    → s'.by_user ≡ s.by_user
    → s'.saved ≡ s.saved
    → Synced from s
    → Synced from s'
Synced-alike from s s' same_map same_store h = record {
  table = rw same_map h.table;
  rows = h.rows;
  saved_is = same_store ∙ h.saved_is;
  users = h.users;
  same = λ user now le. rw same_map (h.same user now le);
}

pub Synced-later :
    (from later : ℕ) (s : Suppressions) → from ≤ later → Synced from s → Synced later s
Synced-later from later s le h = record {
  table = h.table;
  rows = h.rows;
  saved_is = h.saved_is;
  users = h.users;
  same = λ user now le'. h.same user now (omega arith);
}

persist-saved :
    (s : Suppressions) (rows : List ReplySuppression)
    → s.saved ≡ some rows
    → (persist true s).saved ≡ some (sort_by_until (values s.by_user))
unfolding persist
persist-saved s rows e = rw (e, persist) refl

-- A save, whatever the store held.
pub persist-Synced :
    (from : ℕ) (s : Suppressions) (rows : List ReplySuppression)
    → IsTable s.by_user
    → s.saved ≡ some rows
    → Synced from (persist true s)
persist-Synced from s rows t e = record {
  table = rw (persist-by_user true s) t;
  rows = sort_by_until (values s.by_user);
  saved_is = persist-saved s rows e;
  users = sort_by-HaveUsers (values s.by_user) t.1;
  same = λ user now le.
      rw
        (
          persist-by_user true s,
          pick-sort_by user (values s.by_user) t.1,
          lookup-pick user s.by_user t.0,
        )
        refl;
}

reset_user-saved : (id : Text) (s : Suppressions) → (reset_user id s).saved ≡ s.saved
unfolding reset_user reset_bot_reply_loop_user reset_reply_refusal_user
reset_user-saved id s = ground arith

pub reset_user-Synced :
    (from : ℕ) (id : Text) (s : Suppressions) → Synced from s → Synced from (reset_user id s)
reset_user-Synced from id s h =
    Synced-alike from s (reset_user id s) (reset_user-by_user id s) (reset_user-saved id s) h

pub answer_later :
    (now later : ℕ) (o : Option ReplySuppression)
    → now ≤ later
    → answer later o ≡ answer later (answer now o)
answer_later now later none le = refl
answer_later now later (some x) le = ground arith

pub loaded_later :
    (now later : ℕ) (o : Option ReplySuppression)
    → now ≤ later
    → answer later o ≡ answer later (or_else (answer now o) none)
loaded_later now later none le = refl
loaded_later now later (some x) le = ground arith

-- A row that has ended is not missed.
pub forgotten :
    (key user : Text) (later : ℕ) (old : ReplySuppression) (m : List (Text × ReplySuppression))
    → lookup key m ≡ some old
    → ltb later old.until ≡ false
    → answer later (lookup user m) ≡ answer later (lookup user (delete key m))
forgotten key user later old m e ended = elim (Bool-cases (text_eq key user)) [
  | inl f ↦
      let found : lookup user m ≡ some old = rw⁻¹ ((text_eq_iff key user).0 f) e in
      rw (lookup-delete key user m, f, found, ended) refl
  | inr f ↦ rw (lookup-delete key user m, f) refl
]
