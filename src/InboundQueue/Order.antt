-- ===== src/InboundQueue/Order.antt =====
-- The claim's ORDER BY as an order on the rows.
use diana_qq_bot.Prelude.{
  ◌≡◌, refl, ◌⊎◌, inl, inr, Bool, true, false, ◌&&◌, List, [], ◌∷◌, none, some, arith, Bool-cases,
  Option-cases, All, In, subst,
}
use diana_qq_bot.Prelude.Text.{Text, text_lt}
use diana_qq_bot.InboundQueue.Table.{InboundRow}
use diana_qq_bot.InboundQueue.Lease.{precedes, first_where}

text_lt_asymm : (x y : Text) → text_lt x y ≡ true → text_lt y x ≡ false
unfolding text_lt
text_lt_asymm [] [] h = cc
text_lt_asymm [] (b ∷ y) h = refl
text_lt_asymm (a ∷ x) [] h = cc
text_lt_asymm (a ∷ x) (b ∷ y) h = ground (arith, text_lt_asymm x y)

text_lt_irrefl : (x : Text) → text_lt x x ≡ false
unfolding text_lt
text_lt_irrefl [] = refl
text_lt_irrefl (a ∷ x) = ground (arith, text_lt_irrefl x)

-- Whatever is neither before `x` nor after `y` does not stand between.
text_lt_split : (x y z : Text) → text_lt y x ≡ true → (text_lt z x ≡ true) ⊎ (text_lt y z ≡ true)
unfolding text_lt
text_lt_split [] [] z h = cc
text_lt_split [] (b ∷ y) z h = cc
text_lt_split (a ∷ x) [] [] h = inl refl
text_lt_split (a ∷ x) [] (c ∷ z) h = inr refl
text_lt_split (a ∷ x) (b ∷ y) [] h = inl refl
text_lt_split (a ∷ x) (b ∷ y) (c ∷ z) h = ground (arith, text_lt_split x y z)

precedes_asymm : (a b : InboundRow) → precedes a b ≡ true → precedes b a ≡ false
unfolding precedes
precedes_asymm a b h = ground (arith, text_lt_asymm a.id b.id)

precedes_irrefl : (a : InboundRow) → precedes a a ≡ false
unfolding precedes
precedes_irrefl a = ground (arith, text_lt_irrefl a.id)

precedes_split :
    (x y z : InboundRow) → precedes y x ≡ true → (precedes z x ≡ true) ⊎ (precedes y z ≡ true)
unfolding precedes
precedes_split x y z h = ground (arith, text_lt_split x.id y.id z.id)

-- Nothing that passes the test goes before `r`.
abbrev pub IsFirst : (InboundRow → Bool) → InboundRow → List InboundRow → Type 0
IsFirst p r rows = All (λ x. p x ≡ true → precedes x r ≡ false) rows

IsFirst-weaken :
    (p : InboundRow → Bool) (best r : InboundRow) (rows : List InboundRow)
    → precedes best r ≡ false
    → IsFirst p best rows
    → IsFirst p r rows
IsFirst-weaken p best r [] h f = tt
IsFirst-weaken p best r (x ∷ rows) h f = (
  λ px. elim (Bool-cases (precedes x r)) [
    | inl before ↦ elim (precedes_split r x best before) [ inl e ↦ cc | inr e ↦ cc (f.0 px) ]
    | inr after ↦ after
  ],
  IsFirst-weaken p best r rows h f.1,
)

pub first_where-none :
    (p : InboundRow → Bool) (rows : List InboundRow)
    → first_where p rows ≡ none
    → All (λ x. p x ≡ false) rows
unfolding first_where
first_where-none p [] h = tt
first_where-none p (x ∷ rows) h = elim (Option-cases (first_where p rows)) [
  | inl e ↦ (ground arith, first_where-none p rows e)
  | inr (b, e) ↦ absurd (ground arith)
]

IsFirst-none :
    (p : InboundRow → Bool) (r : InboundRow) (rows : List InboundRow)
    → All (λ x. p x ≡ false) rows
    → IsFirst p r rows
IsFirst-none p r [] h = tt
IsFirst-none p r (x ∷ rows) h = (λ e. cc (h.0), IsFirst-none p r rows h.1)

abbrev Chosen : (InboundRow → Bool) → InboundRow → List InboundRow → Type 0
Chosen p r rows = (p r ≡ true) × In r rows × IsFirst p r rows

choice_here :
    (p : InboundRow → Bool) (x : InboundRow) (rows : List InboundRow)
    → p x ≡ true
    → IsFirst p x rows
    → Chosen p x (x ∷ rows)
choice_here p x rows px f = (px, inl refl, (λ _. precedes_irrefl x, f))

choice_there :
    (p : InboundRow → Bool) (x b : InboundRow) (rows : List InboundRow)
    → (p x ≡ true → precedes x b ≡ false)
    → Chosen p b rows
    → Chosen p b (x ∷ rows)
choice_there p x b rows h c = (c.0, inr c.1, (h, c.2))

first_where-Chosen :
    (p : InboundRow → Bool) (rows : List InboundRow) (r : InboundRow)
    → first_where p rows ≡ some r
    → Chosen p r rows
unfolding first_where
first_where-Chosen p [] r h = cc
first_where-Chosen p (x ∷ rows) r h = elim (Bool-cases (p x)) [
  | inr out ↦ choice_there p x r rows (λ e. cc) (first_where-Chosen p rows r (ground arith))
  | inl px ↦ elim (Option-cases (first_where p rows)) [
    | inl e ↦
        let same : x ≡ r = ground arith in
        subst (λ y. Chosen p y (x ∷ rows)) same
          (choice_here p x rows px (IsFirst-none p x rows (first_where-none p rows e)))
    | inr (b, e) ↦
        let c : Chosen p b rows = first_where-Chosen p rows b e in
        elim (Bool-cases (precedes b x)) [
          | inl before ↦
              let same : b ≡ r = ground arith in
              subst (λ y. Chosen p y (x ∷ rows)) same
                (choice_there p x b rows (λ _. precedes_asymm b x before) c)
          | inr after ↦
              let same : x ≡ r = ground arith in
              subst (λ y. Chosen p y (x ∷ rows)) same
                (choice_here p x rows px (IsFirst-weaken p b x rows after c.2))
        ]
  ]
]

-- `r` is a row of the table that passes the test, and no such row goes before it.
abbrev pub IsChoice : (InboundRow → Bool) → InboundRow → List InboundRow → Type 0
IsChoice p r rows = (p r ≡ true) × In r rows × All (λ x. p x && precedes x r ≡ false) rows

none_before :
    (p : InboundRow → Bool) (r : InboundRow) (rows : List InboundRow)
    → IsFirst p r rows
    → All (λ x. p x && precedes x r ≡ false) rows
none_before p r [] f = tt
none_before p r (x ∷ rows) f = (
  elim (Bool-cases (p x)) [ inl e ↦ ground (arith, f.0 e) | inr e ↦ ground arith ],
  none_before p r rows f.1,
)

pub first_where-some :
    (p : InboundRow → Bool) (rows : List InboundRow) (r : InboundRow)
    → first_where p rows ≡ some r
    → IsChoice p r rows
first_where-some p rows r h =
    let c = first_where-Chosen p rows r h in (c.0, c.1, none_before p r rows c.2)
