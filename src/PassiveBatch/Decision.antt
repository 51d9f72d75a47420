-- ===== src/PassiveBatch/Decision.antt =====
-- Which candidates a decision looks at.
use diana_qq_bot.Prelude.{
  ℕ, zero, suc, ◌+◌, ◌-◌, ◌*◌, ◌≤◌, ◌≡◌, inl, inr, refl, sym, ◌∙◌, min, Bool, true, List, [], ◌∷◌,
  Option, none, some, if◌then◌else◌, if_either, ltb, leb, length, drop, arith, Option-cases,
  length-drop,
}
use diana_qq_bot.PassiveBatch.Batch.{second, Candidate, candidate_time, Batch}

abbrev pub decision_max_items : ℕ
decision_max_items = 3

abbrev pub decision_window : ℕ
decision_window = 15 * second

last_time : List Candidate → Option ℕ
unfolding candidate_time
last_time [] = none
last_time (c ∷ []) = candidate_time c
last_time (c ∷ d ∷ cs) = last_time (d ∷ cs)

-- `candidateAt.IsZero() || latestAt.Sub(candidateAt) <= passiveReplyDecisionWindow`.
unfoldable pub in_window : ℕ → Option ℕ → Bool
in_window latest none = true
in_window latest (some t) = leb latest (t + decision_window)

-- The loop over `first`: the items from the first one in the window, or the last.
unfoldable pub from_window : ℕ → List Candidate → List Candidate
unfolding in_window candidate_time
from_window latest [] = []
from_window latest (c ∷ []) = c ∷ []
from_window latest (c ∷ d ∷ cs) =
    let rest = from_window latest (d ∷ cs) in
    if in_window latest (candidate_time c) then c ∷ d ∷ cs else rest

unfoldable pub decision_candidates : List Candidate → List Candidate
unfolding last_time from_window
decision_candidates items =
    let recent = drop (length items - decision_max_items) items in
    elim (last_time recent) [
      | none ↦ recent
      | some latest ↦ if ltb (length recent) 2 then recent else from_window latest recent
    ]

-- The snapshot of a batch in process.
unfoldable pub snapshot : Option Batch → Option (List Candidate × ℕ)
unfolding decision_candidates
snapshot none = none
snapshot (some b) = if b.processing then some (decision_candidates b.items, b.generation) else none

-- A final stretch of the list, empty only where the list is.
record Suffix (xs ys : List Candidate) : Type 0 where
  from : ℕ
  same : ys ≡ drop from xs
  no_longer : length ys ≤ length xs
  not_lost : min 1 (length xs) ≤ length ys

suffix_self : (xs : List Candidate) → Suffix xs xs
suffix_self xs = record { from = 0; same = refl; no_longer = omega arith; not_lost = omega arith }

from_window-Suffix : (latest : ℕ) (xs : List Candidate) → Suffix xs (from_window latest xs)
unfolding from_window
from_window-Suffix latest [] = suffix_self []
from_window-Suffix latest (c ∷ []) = suffix_self (c ∷ [])
from_window-Suffix latest (c ∷ d ∷ cs) =
    if_either (Suffix (c ∷ d ∷ cs)) (in_window latest (candidate_time c)) (suffix_self (c ∷ d ∷ cs))
      (let r = from_window-Suffix latest (d ∷ cs) in
        record {
          from = suc r.from;
          same = r.same;
          no_longer = omega (arith, r.no_longer);
          not_lost = omega (arith, r.not_lost);
        })

drop_empty : (n : ℕ) → drop {A = Candidate} n [] ≡ []
drop_empty zero = refl
drop_empty (suc n) = refl

drop-drop : (j k : ℕ) (xs : List Candidate) → drop k (drop j xs) ≡ drop (j + k) xs
drop-drop zero k xs = let e : 0 + k ≡ k = omega arith in rw e refl
drop-drop (suc j) k [] = drop_empty k ∙ sym (drop_empty (suc j + k))
drop-drop (suc j) k (x ∷ xs) =
    let e : suc j + k ≡ suc (j + k) = omega arith in rw e (drop-drop j k xs)

-- A decision looks at a final stretch of the candidates in their order, at three of them at most, and
-- at none only where there is none.
pub decision_candidates_suffix :
    (items : List Candidate)
    → (k : ℕ) × (decision_candidates items ≡ drop k items)
      × (length (decision_candidates items) ≤ 3)
      × (min 1 (length items) ≤ length (decision_candidates items))
unfolding decision_candidates
decision_candidates_suffix items = (
  j + chosen.from,
  chosen.same ∙ drop-drop j chosen.from items,
  omega (arith, chosen.no_longer, length-drop j items),
  omega (arith, chosen.not_lost, length-drop j items),
)
  where
    j : ℕ
    j = length items - decision_max_items

    recent : List Candidate
    recent = drop j items

    chosen : Suffix recent (decision_candidates items)
    chosen = elim (Option-cases (last_time recent)) [
      | inl e ↦ rw (e, decision_candidates) (suffix_self recent)
      | inr (latest, e) ↦
          rw (e, decision_candidates)
            (if_either (Suffix recent) (ltb (length recent) 2) (suffix_self recent)
              (from_window-Suffix latest recent))
    ]
