-- ===== src/InboundQueue/Counts.antt =====
-- Counting rows through the updates of the tables.
use diana_qq_bot.Prelude.{
  ℕ, ◌+◌, ◌≤◌, ◌<◌, ◌≡◌, refl, sym, subst, inl, inr, Bool, true, false, List, [], ◌∷◌, ◌++◌, arith,
  ap, Bool-cases, count_if, All, In,
}
use diana_qq_bot.Prelude.Text.{Text, text_eq, text_eq_iff, text_eq_refl}
use diana_qq_bot.InboundQueue.Table.{InboundRow, update_where, has_id, holds_lease, active_leases}

module _ {A : Type 0} where
  pub count_if-append :
      (p : A → Bool) (xs ys : List A) → count_if p (xs ++ ys) ≡ count_if p xs + count_if p ys
  count_if-append p [] ys = omega arith
  count_if-append p (x ∷ xs) ys = ground (arith, count_if-append p xs ys)

  -- An update adds at most the rows that it touches.
  pub count_if-update-le :
      (p q : A → Bool) (f : A → A) (xs : List A)
      → count_if p (update_where q f xs) ≤ count_if p xs + count_if q xs
  count_if-update-le p q f [] = omega arith
  count_if-update-le p q f (x ∷ xs) = ground (arith, count_if-update-le p q f xs)

  -- One that makes no row pass adds none.
  pub count_if-update_kept :
      (p q : A → Bool) (f : A → A) (xs : List A)
      → All (λ x. q x ≡ true → p (f x) ≡ true → p x ≡ true) xs
      → count_if p (update_where q f xs) ≤ count_if p xs
  count_if-update_kept p q f [] h = omega arith
  count_if-update_kept p q f (x ∷ xs) h = ground (arith, count_if-update_kept p q f xs h.1, h.0)

  pub count_if-update_same :
      (p q : A → Bool) (f : A → A) (xs : List A)
      → ((x : A) → p (f x) ≡ p x)
      → count_if p (update_where q f xs) ≡ count_if p xs
  count_if-update_same p q f [] h = refl
  count_if-update_same p q f (x ∷ xs) h = ground (arith, count_if-update_same p q f xs h, h x)

  pub count_if_mono :
      (p q : A → Bool) (xs : List A)
      → ((x : A) → p x ≡ true → q x ≡ true)
      → count_if p xs ≤ count_if q xs
  count_if_mono p q [] h = omega arith
  count_if_mono p q (x ∷ xs) h = ground (arith, count_if_mono p q xs h, h x)

  pub All-of : {P : A → Type 0} (xs : List A) → ((x : A) → P x) → All P xs
  All-of [] h = tt
  All-of (x ∷ xs) h = (h x, All-of xs h)

  pub All-imp : {P Q : A → Type 0} (xs : List A) → ((x : A) → P x → Q x) → All P xs → All Q xs
  All-imp [] h a = tt
  All-imp (x ∷ xs) h a = (h x a.0, All-imp xs h a.1)

  pub count_if-In : (p : A → Bool) (a : A) (xs : List A) → In a xs → p a ≡ true → 0 < count_if p xs
  count_if-In p a [] i h = absurd i
  count_if-In p a (x ∷ xs) (inl e) h = ground arith
  count_if-In p a (x ∷ xs) (inr i) h = ground (arith, count_if-In p a xs i h)

  -- An update leaves a row that its test refuses.
  pub In-update :
      (q : A → Bool) (f : A → A) (a : A) (xs : List A)
      → q a ≡ false
      → In a xs
      → In a (update_where q f xs)
  In-update q f a [] h i = i
  In-update q f a (x ∷ xs) h (inl e) = inl (ground arith)
  In-update q f a (x ∷ xs) h (inr i) = inr (In-update q f a xs h i)

  pub In-append : (a : A) (xs ys : List A) → In a xs → In a (xs ++ ys)
  In-append a [] ys i = absurd i
  In-append a (x ∷ xs) ys (inl e) = inl e
  In-append a (x ∷ xs) ys (inr i) = inr (In-append a xs ys i)

  pub All-In : (P : A → Type 0) (a : A) (xs : List A) → All P xs → In a xs → P a
  All-In P a [] h i = absurd i
  All-In P a (x ∷ xs) h (inl e) = subst P (sym e) h.0
  All-In P a (x ∷ xs) h (inr i) = All-In P a xs h.1 i

  -- Rows that an update takes out of a test, and that another test still counts.
  pub count_if-update_out :
      (p q h : A → Bool) (f : A → A) (xs : List A)
      → ((x : A) → p x ≡ true → h x ≡ true)
      → ((x : A) → q x ≡ true → h x ≡ true)
      → ((x : A) → p (f x) ≡ false)
      → count_if p (update_where q f xs) + count_if q xs ≤ count_if h xs
  count_if-update_out p q h f [] a b c = omega arith
  count_if-update_out p q h f (x ∷ xs) a b c =
      ground (arith, count_if-update_out p q h f xs a b c, a x, b x, c x)

  pub count_if-update_leave :
      (p q : A → Bool) (f : A → A) (xs : List A)
      → ((x : A) → q x ≡ true → p x ≡ true)
      → ((x : A) → p (f x) ≡ false)
      → count_if p (update_where q f xs) + count_if q xs ≡ count_if p xs
  count_if-update_leave p q f [] b c = refl
  count_if-update_leave p q f (x ∷ xs) b c =
      ground (arith, count_if-update_leave p q f xs b c, b x, c x)

-- No id stands in two rows.
abbrev pub UniqueIds : List InboundRow → Type 0
UniqueIds rows = (id : Text) → count_if (has_id id) rows ≤ 1

UniqueIds-tail : (x : InboundRow) (rows : List InboundRow) → UniqueIds (x ∷ rows) → UniqueIds rows
UniqueIds-tail x rows u id = ground (arith, u id)

no_other :
    (id : Text) (r : InboundRow) (rows : List InboundRow)
    → count_if (has_id id) rows ≡ 0
    → All (λ x. has_id id x ≡ true → x ≡ r) rows
no_other id r [] h = tt
no_other id r (x ∷ rows) h = (λ e. absurd (ground arith), no_other id r rows (ground arith))

-- The row that an id names.
pub only_row :
    (r : InboundRow) (rows : List InboundRow)
    → UniqueIds rows
    → In r rows
    → All (λ x. has_id r.id x ≡ true → x ≡ r) rows
only_row r [] u i = tt
only_row r (x ∷ rows) u (inl e) =
    (λ _. cc, no_other r.id r rows (ground (arith, u r.id, text_eq_refl r.id)))
only_row r (x ∷ rows) u (inr i) = (
  λ e. absurd (ground (arith, u r.id, count_if-In (has_id r.id) r rows i (text_eq_refl r.id))),
  only_row r rows (UniqueIds-tail x rows u) i,
)

pub UniqueIds-update :
    (q : InboundRow → Bool) (f : InboundRow → InboundRow) (rows : List InboundRow)
    → ((r : InboundRow) → (f r).id ≡ r.id)
    → UniqueIds rows
    → UniqueIds (update_where q f rows)
UniqueIds-update q f rows keep u id =
    rw (count_if-update_same (has_id id) q f rows (λ r. rw (keep r))) (u id)

pub UniqueIds-append :
    (rows : List InboundRow) (r : InboundRow)
    → count_if (has_id r.id) rows ≡ 0
    → UniqueIds rows
    → UniqueIds (rows ++ (r ∷ []))
UniqueIds-append rows r new u id = elim (Bool-cases (text_eq r.id id)) [
  | inl e ↦
      let same : r.id ≡ id = (text_eq_iff r.id id).0 e in
      ground (
        arith,
        count_if-append (has_id id) rows (r ∷ []),
        u id,
        ap (λ t. count_if (has_id t) rows) same,
      )
  | inr e ↦ ground (arith, count_if-append (has_id id) rows (r ∷ []), u id)
]

-- Leases only run out as time goes by.
pub active_leases_mono :
    (session : Text) (now later : ℕ) (rows : List InboundRow)
    → now ≤ later
    → active_leases session later rows ≤ active_leases session now rows
unfolding active_leases
active_leases_mono session now later rows h =
    count_if_mono (holds_lease session later) (holds_lease session now) rows (λ r e. ground arith)
