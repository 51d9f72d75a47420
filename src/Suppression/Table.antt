-- ===== src/Suppression/Table.antt =====
-- The suppressions as a table: one row for each user, in a list and in its sorted form.
use diana_qq_bot.Prelude.{
  ◌≡◌, refl, sym, ◌∙◌, Bool, false, ◌||◌, List, [], ◌∷◌, Option, none, some, if◌then◌else◌, ltb,
  if_either, arith, All,
}
use diana_qq_bot.Prelude.Text.{Text, text_eq, text_eq_iff, is_empty, trim_space}
use diana_qq_bot.Prelude.Assoc.{lookup}
use diana_qq_bot.Suppression.State.{ReplySuppression}
use diana_qq_bot.Suppression.Active.{values, insert_by_until, sort_by_until}

-- The first row of a user.
unfoldable pub pick : Text → List ReplySuppression → Option ReplySuppression
pick user [] = none
pick user (x ∷ xs) = if text_eq x.user_id user then some x else pick user xs

abbrev pub knows : Text → List ReplySuppression → Bool
knows user [] = false
knows user (x ∷ xs) = text_eq x.user_id user || knows user xs

-- Each row has a user of its own, whose id is trimmed and not empty.
abbrev pub HaveUsers : List ReplySuppression → Type 0
HaveUsers [] = Unit
HaveUsers (x ∷ xs) =
    (knows x.user_id xs ≡ false)
    × (trim_space x.user_id ≡ x.user_id)
    × (is_empty x.user_id ≡ false)
    × HaveUsers xs

-- The keys of a map are the users of its rows.
abbrev pub KeyedByUser : List (Text × ReplySuppression) → Type 0
KeyedByUser m = All (λ e. e.0 ≡ e.1.user_id) m

pub lookup-pick :
    (user : Text) (m : List (Text × ReplySuppression))
    → KeyedByUser m
    → lookup user m ≡ pick user (values m)
unfolding lookup pick
lookup-pick user [] h = refl
lookup-pick user ((k, x) ∷ m) h = rw (sym h.0, lookup-pick user m h.1) refl

knows-insert_by :
    (user : Text) (x : ReplySuppression) (xs : List ReplySuppression)
    → knows user (insert_by_until x xs) ≡ (text_eq x.user_id user || knows user xs)
unfolding insert_by_until
knows-insert_by user x [] = refl
knows-insert_by user x (y ∷ ys) = ground (arith, knows-insert_by user x ys)

insert_by-HaveUsers :
    (x : ReplySuppression) (xs : List ReplySuppression)
    → HaveUsers (x ∷ xs)
    → HaveUsers (insert_by_until x xs)
unfolding insert_by_until
insert_by-HaveUsers x [] h = h
insert_by-HaveUsers x (y ∷ ys) (new, tx, fx, (other, ty, fy, rest)) =
    let apart : (text_eq x.user_id y.user_id || knows y.user_id ys) ≡ false =
      ground
        (arith, new, other, text_eq_iff x.user_id y.user_id, text_eq_iff y.user_id x.user_id) in
    let later : knows x.user_id ys ≡ false = ground (arith, new) in
    if_either HaveUsers (ltb y.until x.until)
      (
        knows-insert_by y.user_id x ys ∙ apart,
        ty,
        fy,
        insert_by-HaveUsers x ys (later, tx, fx, rest),
      )
      (new, tx, fx, (other, ty, fy, rest))

pick-insert_by :
    (user : Text) (x : ReplySuppression) (xs : List ReplySuppression)
    → knows x.user_id xs ≡ false
    → pick user (insert_by_until x xs) ≡ pick user (x ∷ xs)
unfolding insert_by_until pick
pick-insert_by user x [] h = refl
pick-insert_by user x (y ∷ ys) h =
    ground (arith, pick-insert_by user x ys, text_eq_iff x.user_id user, text_eq_iff y.user_id user)

knows-sort_by :
    (user : Text) (xs : List ReplySuppression) → knows user (sort_by_until xs) ≡ knows user xs
unfolding sort_by_until
knows-sort_by user [] = refl
knows-sort_by user (x ∷ xs) =
    rw (knows-insert_by user x (sort_by_until xs), knows-sort_by user xs) refl

pub sort_by-HaveUsers : (xs : List ReplySuppression) → HaveUsers xs → HaveUsers (sort_by_until xs)
unfolding sort_by_until
sort_by-HaveUsers [] h = h
sort_by-HaveUsers (x ∷ xs) (new, trimmed, filled, rest) =
    insert_by-HaveUsers x (sort_by_until xs)
      (rw (knows-sort_by x.user_id xs) new, trimmed, filled, sort_by-HaveUsers xs rest)

pub pick-sort_by :
    (user : Text) (xs : List ReplySuppression)
    → HaveUsers xs
    → pick user (sort_by_until xs) ≡ pick user xs
unfolding sort_by_until pick
pick-sort_by user [] h = refl
pick-sort_by user (x ∷ xs) (new, trimmed, filled, rest) =
    pick-insert_by user x (sort_by_until xs) (rw (knows-sort_by x.user_id xs) new)
    ∙ rw (pick-sort_by user xs rest, pick) refl
