-- ===== src/Worker/Settled.antt =====
-- What a round makes of the message that it has claimed.
use diana_qq_bot.Prelude.{
  ℕ, ◌+◌, ◌≡◌, refl, sym, ap, ◌∙◌, subst, Bool, true, false, List, [], ◌∷◌, Option, none, some,
  arith, All, In, Bool-cases, ◌⊎◌, inl, inr,
}
use diana_qq_bot.Prelude.Text.{Text, text_eq, text_eq_refl, is_empty, trim_space}
use diana_qq_bot.InboundQueue.Table.{InboundRow, Store, Result, ok, err, Item, update_where, has_id}
use diana_qq_bot.InboundQueue.Lease.{
  claim, complete, retry, completed, retried, leased, item_of, update_leased, is_leased_to,
  inbound_group_concurrency_value,
}
use diana_qq_bot.Prelude.Int64.{ℤ}
use diana_qq_bot.InboundQueue.Claim.{TakesFirst, claim_first}
use diana_qq_bot.Worker.Round.{
  Processed, outcome_is, failed_with, Reading, claim_of, after_claim, process_item, next_attempt,
  commit, round_among, worker_round, inbound_lease_duration, inbound_group_concurrency,
}

-- What comes of a row: done with an outcome, or due again.
abbrev pub settled : Reading → Item → Processed → InboundRow → InboundRow
settled r item (outcome_is outcome) row = completed (trim_space outcome) r.store_committed_at row
settled r item (failed_with e) row =
    retried (next_attempt r item) (trim_space e) r.store_committed_at row

-- The row that a worker has leased is the one that it updates.
update_twice :
    (id owner : Text) (until now : ℕ) (f : InboundRow → InboundRow) (rows : List InboundRow)
    → update_where
        (is_leased_to id owner)
        f
        (update_where (has_id id) (leased owner until now) rows)
      ≡ update_where (has_id id) (λ x. f (leased owner until now x)) rows
unfolding leased
update_twice id owner until now f [] = refl
update_twice id owner until now f (x ∷ rows) =
    let rest = update_twice id owner until now f rows in
    elim (Bool-cases (text_eq x.id id)) [
      | inl e ↦ rw (e, text_eq_refl owner, rest, e) refl
      | inr e ↦ rw (e, rest, e) refl
    ]

update_leased-events :
    (id owner : Text) (f : InboundRow → InboundRow) (s : Store)
    → is_empty id ≡ false
    → is_empty owner ≡ false
    → (update_leased true id owner f s).0.events ≡ update_where (is_leased_to id owner) f s.events
unfolding update_leased
update_leased-events id owner f s named owned = ground arith

Processed-cases :
    (p : Processed) → ((o : Text) × (p ≡ outcome_is o)) ⊎ ((e : Text) × (p ≡ failed_with e))
Processed-cases (outcome_is o) = inl (o, refl)
Processed-cases (failed_with e) = inr (e, refl)

-- A commit updates the row of the item, if the worker holds it.
commit-events :
    (owner : Text) (r : Reading) (item : Item) (s : Store)
    → r.commit_answers ≡ true
    → is_empty (trim_space item.id) ≡ false
    → is_empty (trim_space owner) ≡ false
    → (commit owner r item s).events
      ≡ update_where
          (is_leased_to (trim_space item.id) (trim_space owner))
          (settled r item (process_item r item))
          s.events
unfolding commit complete retry
commit-events owner r item s answers named owned = elim (Processed-cases (process_item r item)) [
  | inl (o, e) ↦
      rw (e, answers, commit, complete)
        (update_leased-events (trim_space item.id) (trim_space owner)
          (settled r item (outcome_is o)) s named owned)
  | inr (o, e) ↦
      rw (e, answers, commit, retry)
        (update_leased-events (trim_space item.id) (trim_space owner)
          (settled r item (failed_with o)) s named owned)
]

-- A round that has an item has claimed it and committed what came of it.
after_claim-some :
    (owner : Text) (r : Reading) (claimed s' : Store) (item : Item) (found : Result (Option Item))
    → after_claim owner r claimed found ≡ (s', some item)
    → (found ≡ ok (some item)) × (s' ≡ commit owner r item claimed)
unfolding after_claim
after_claim-some owner r claimed s' item (err e) h = absurd (ground arith)
after_claim-some owner r claimed s' item (ok none) h = absurd (ground arith)
after_claim-some owner r claimed s' item (ok (some i)) h = (ground arith, ground arith)

claim_owned :
    (answers : Bool) (now : ℕ) (owner : Text) (until : ℕ) (concurrency : List ℤ) (s s' : Store)
    (item : Item)
    → claim answers now owner (some until) concurrency s ≡ (s', ok (some item))
    → is_empty (trim_space owner) ≡ false
unfolding claim
claim_owned answers now owner until concurrency s s' item h = ground arith

All-In :
    (P : InboundRow → Type 0) (rows : List InboundRow) (row : InboundRow)
    → In row rows
    → All P rows
    → P row
All-In P [] row i h = absurd i
All-In P (x ∷ rows) row (inl e) h = subst P (sym e) h.0
All-In P (x ∷ rows) row (inr i) h = All-In P rows row i h.1

first_taken :
    (owner : Text) (r : Reading) (s claimed : Store) (item : Item)
    → r.claim_answers ≡ true
    → claim_of owner r s ≡ (claimed, ok (some item))
    → TakesFirst
        (inbound_group_concurrency_value (inbound_group_concurrency ∷ []))
        r.store_claimed_at
        (r.claimed_at + inbound_lease_duration)
        (trim_space owner)
        s
        claimed
        item
first_taken owner r s claimed item claims h =
    claim_first r.store_claimed_at (r.claimed_at + inbound_lease_duration) owner
      (inbound_group_concurrency ∷ []) s claimed item (rw⁻¹ claims h)

-- Let every row have a trimmed id that is not empty, let the database answer, and let other calls do
-- anything to the store between the claim of a worker's round and its commit. A round that claims an
-- item takes it from a row of the store, and the claim leases the rows of that id to the worker and no
-- others; its commit takes the store as the other calls left it and leaves exactly the rows of that id
-- that are still leased to this worker done with the outcome of the processing, or pending with the
-- error and due at the next attempt, and every other row as it was.
pub round_among_settles :
    (owner : Text) (r : Reading) (others : Store → Store) (s s' : Store) (item : Item)
    → r.claim_answers ≡ true
    → r.commit_answers ≡ true
    → All (λ x. (trim_space x.id ≡ x.id) × (is_empty x.id ≡ false)) s.events
    → round_among owner r others s ≡ (s', some item)
    → let lease =
        leased (trim_space owner) (r.claimed_at + inbound_lease_duration) r.store_claimed_at in
      (row : InboundRow) × In row s.events
      × (item ≡ item_of (lease row))
      × ((claim_of owner r s).0.events ≡ update_where (has_id row.id) lease s.events)
      × (s'.events
          ≡ update_where
              (is_leased_to row.id (trim_space owner))
              (settled r item (process_item r item))
              (others (claim_of owner r s).0).events)
unfolding round_among item_of leased
round_among_settles owner r others s s' item claims commits ids h =
    let x = claim_of owner r s in
    let (found, committed) = after_claim-some owner r (others x.0) s' item x.1 h in
    let (row, choice, _, returned, leases, _) =
      first_taken owner r s x.0 item claims (ap (λ f. (x.0, f)) found) in
    let (trimmed, named) =
      All-In (λ x. (trim_space x.id ≡ x.id) × (is_empty x.id ≡ false)) s.events row choice.1 ids in
    let same_id : trim_space item.id ≡ row.id =
      ap (λ (i : Item). trim_space i.id) returned ∙ trimmed in
    let owned =
      claim_owned r.claim_answers r.store_claimed_at owner (r.claimed_at + inbound_lease_duration)
        (inbound_group_concurrency ∷ []) s x.0 item (ap (λ f. (x.0, f)) found) in
    let updated = commit-events owner r item (others x.0) commits (rw same_id named) owned in
    (
      row,
      choice.1,
      returned,
      leases,
      ap (λ (y : Store). y.events) committed ∙ updated ∙ rw same_id refl,
    )

-- Let every row have a trimmed id that is not empty, and let the database answer. A round of a worker
-- that claims an item, with no other call on the store before its commit, takes it from a row of the
-- store, and leaves that row either done with the outcome of its processing, or pending with the error
-- and due at the next attempt, in both cases with no lease; every other row is as it was.
pub round_settles :
    (owner : Text) (r : Reading) (s s' : Store) (item : Item)
    → r.claim_answers ≡ true
    → r.commit_answers ≡ true
    → All (λ x. (trim_space x.id ≡ x.id) × (is_empty x.id ≡ false)) s.events
    → worker_round owner r s ≡ (s', some item)
    → (row : InboundRow) × In row s.events
      × (item
          ≡ item_of (
              leased
                (trim_space owner)
                (r.claimed_at + inbound_lease_duration)
                r.store_claimed_at
                row))
      × (s'.events
          ≡ update_where
              (has_id row.id)
              (λ x. settled r item (process_item r item) (
                leased
                  (trim_space owner)
                  (r.claimed_at + inbound_lease_duration)
                  r.store_claimed_at
                  x))
              s.events)
unfolding worker_round
round_settles owner r s s' item claims commits ids h =
    let (row, member, returned, leases, settles) =
      round_among_settles owner r (λ x. x) s s' item claims commits ids h in
    (
      row,
      member,
      returned,
      settles
          ∙ rw leases (
              update_twice row.id (trim_space owner) (r.claimed_at + inbound_lease_duration)
                r.store_claimed_at (settled r item (process_item r item)) s.events),
    )
