-- ===== src/Suppression/Rows.antt =====
-- The table of the suppressions through the updates of the map and the load.
use diana_qq_bot.Prelude.{
  ℕ, ◌≡◌, refl, sym, ◌∙◌, true, false, ◌||◌, ◌&&◌, not, List, [], ◌∷◌, Option, none, some,
  if◌then◌else◌, subst, if_either, arith, Bool-cases, inl, inr,
}
use diana_qq_bot.Prelude.Text.{Text, text_eq, text_eq_iff, is_empty, trim_space}
use diana_qq_bot.Prelude.Assoc.{lookup, insert, delete, lookup-insert}
use diana_qq_bot.Suppression.State.{ReplySuppression}
use diana_qq_bot.Suppression.Active.{is_active, values, load_item, load_items, keep_active}
use diana_qq_bot.Suppression.Table.{pick, knows, HaveUsers, KeyedByUser, lookup-pick}

pub pick-unknown :
    (user : Text) (xs : List ReplySuppression) → knows user xs ≡ false → pick user xs ≡ none
unfolding pick
pick-unknown user [] h = refl
pick-unknown user (x ∷ xs) h = ground (arith, pick-unknown user xs)

-- What a look-up at a time makes of a row.
abbrev pub answer : ℕ → Option ReplySuppression → Option ReplySuppression
answer now none = none
answer now (some x) = if is_active now x then some x else none

-- A map that is a table.
abbrev pub IsTable : List (Text × ReplySuppression) → Type 0
IsTable m = KeyedByUser m × HaveUsers (values m)

knows-insert :
    (user : Text) (x : ReplySuppression) (m : List (Text × ReplySuppression))
    → KeyedByUser m
    → knows user (values (insert x.user_id x m)) ≡ (text_eq x.user_id user || knows user (values m))
unfolding insert
knows-insert user x [] h = refl
knows-insert user x ((k, y) ∷ m) h = ground (
  arith,
  knows-insert user x m h.1,
  h.0,
  text_eq_iff k x.user_id,
  text_eq_iff k user,
  text_eq_iff x.user_id user,
)

pub insert-IsTable :
    (x : ReplySuppression) (m : List (Text × ReplySuppression))
    → trim_space x.user_id ≡ x.user_id
    → is_empty x.user_id ≡ false
    → IsTable m
    → IsTable (insert x.user_id x m)
unfolding insert
insert-IsTable x [] trimmed filled h = ((refl, tt), (refl, trimmed, filled, tt))
insert-IsTable x ((k, y) ∷ m) trimmed filled (keyed, (new, ty, fy, rest)) =
    elim (Bool-cases (text_eq k x.user_id)) [
      | inl e ↦
          let same : y.user_id ≡ x.user_id = sym keyed.0 ∙ (text_eq_iff k x.user_id).0 e in
          let unknown : knows x.user_id (values m) ≡ false =
            subst (λ u. knows u (values m) ≡ false) same new in
          rw (e, insert) ((refl, keyed.1), (unknown, trimmed, filled, rest))
      | inr e ↦
          let later = insert-IsTable x m trimmed filled (keyed.1, rest) in
          let apart : (text_eq x.user_id y.user_id || knows y.user_id (values m)) ≡ false =
            ground
              (arith, new, e, keyed.0, text_eq_iff x.user_id y.user_id, text_eq_iff k x.user_id) in
          rw (e, insert)
            ((keyed.0, later.0), (knows-insert y.user_id x m keyed.1 ∙ apart, ty, fy, later.1))
    ]

knows-delete :
    (user key : Text) (m : List (Text × ReplySuppression))
    → knows user (values m) ≡ false
    → knows user (values (delete key m)) ≡ false
unfolding delete
knows-delete user key [] h = h
knows-delete user key ((k, y) ∷ m) h = ground (arith, knows-delete user key m)

pub delete-IsTable :
    (key : Text) (m : List (Text × ReplySuppression)) → IsTable m → IsTable (delete key m)
unfolding delete
delete-IsTable key [] h = h
delete-IsTable key ((k, y) ∷ m) (keyed, (new, ty, fy, rest)) =
    let later = delete-IsTable key m (keyed.1, rest) in
    if_either IsTable (text_eq k key) later
      ((keyed.0, later.0), (knows-delete y.user_id key m new, ty, fy, later.1))

knows-keep_active :
    (user : Text) (now : ℕ) (m : List (Text × ReplySuppression))
    → knows user (values m) ≡ false
    → knows user (values (keep_active now m)) ≡ false
knows-keep_active user now [] h = h
knows-keep_active user now ((k, y) ∷ m) h = ground (arith, knows-keep_active user now m)

pub keep_active-IsTable :
    (now : ℕ) (m : List (Text × ReplySuppression)) → IsTable m → IsTable (keep_active now m)
keep_active-IsTable now [] h = h
keep_active-IsTable now ((k, y) ∷ m) (keyed, (new, ty, fy, rest)) =
    let later = keep_active-IsTable now m (keyed.1, rest) in
    if_either IsTable (is_active now y)
      ((keyed.0, later.0), (knows-keep_active y.user_id now m new, ty, fy, later.1)) later

pub lookup-keep_active :
    (user : Text) (now : ℕ) (m : List (Text × ReplySuppression))
    → IsTable m
    → lookup user (keep_active now m) ≡ answer now (lookup user m)
unfolding lookup
lookup-keep_active user now [] h = refl
lookup-keep_active user now ((k, y) ∷ m) (keyed, (new, ty, fy, rest)) =
    let gone : text_eq k user ≡ true → lookup user m ≡ none = λ e.
      lookup-pick user m keyed.1
      ∙ pick-unknown user (values m)
          (subst (λ u. knows u (values m) ≡ false) (sym keyed.0 ∙ (text_eq_iff k user).0 e) new) in
    ground (arith, lookup-keep_active user now m (keyed.1, rest), gone)

load_item-IsTable :
    (now : ℕ) (x : ReplySuppression) (m : List (Text × ReplySuppression))
    → trim_space x.user_id ≡ x.user_id
    → IsTable m
    → IsTable (load_item now x m)
unfolding load_item
load_item-IsTable now x m trimmed h = elim (Bool-cases (is_empty x.user_id)) [
  | inl e ↦ rw (trimmed, e, load_item) h
  | inr e ↦
      rw (trimmed, e, load_item)
        (if_either IsTable (not (is_active now x)) h (insert-IsTable x m trimmed e h))
]

pub load_items-IsTable :
    (now : ℕ) (rows : List ReplySuppression) (m : List (Text × ReplySuppression))
    → HaveUsers rows
    → IsTable m
    → IsTable (load_items now rows m)
unfolding load_items
load_items-IsTable now [] m users h = h
load_items-IsTable now (x ∷ xs) m (new, trimmed, filled, rest) h =
    load_items-IsTable now xs (load_item now x m) rest (load_item-IsTable now x m trimmed h)

lookup-load_item :
    (user : Text) (now : ℕ) (x : ReplySuppression) (m : List (Text × ReplySuppression))
    → trim_space x.user_id ≡ x.user_id
    → is_empty x.user_id ≡ false
    → lookup user (load_item now x m)
      ≡ (if is_active now x && text_eq x.user_id user then some x else lookup user m)
unfolding load_item
lookup-load_item user now x m trimmed filled =
    rw (trimmed, filled, load_item) (ground (arith, lookup-insert x.user_id user x m))

abbrev pub or_else : Option ReplySuppression → Option ReplySuppression → Option ReplySuppression
or_else none o = o
or_else (some x) o = some x

pub lookup-load_items :
    (user : Text) (now : ℕ) (rows : List ReplySuppression) (m : List (Text × ReplySuppression))
    → HaveUsers rows
    → lookup user (load_items now rows m) ≡ or_else (answer now (pick user rows)) (lookup user m)
unfolding load_items pick
lookup-load_items user now [] m users = refl
lookup-load_items user now (x ∷ xs) m (new, trimmed, filled, rest) =
    let gone : text_eq x.user_id user ≡ true → pick user xs ≡ none = λ e.
      pick-unknown user xs
        (subst (λ u. knows u xs ≡ false) ((text_eq_iff x.user_id user).0 e) new) in
    lookup-load_items user now xs (load_item now x m) rest
    ∙ rw (lookup-load_item user now x m trimmed filled) (ground (arith, gone))
