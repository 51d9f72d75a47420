-- ===== src/Worker/Round.antt =====
-- One round of a worker: claim a message, process it, and commit what came of it.
use diana_qq_bot.Prelude.{ℕ, ◌+◌, ◌*◌, Bool, [], ◌∷◌, Option, none, some, if◌then◌else◌}
use diana_qq_bot.Prelude.Text.{Text, codes}
use diana_qq_bot.Prelude.Int64.{ℤ, pos}
use diana_qq_bot.InboundQueue.Table.{Store, Result, ok, err, Item}
use diana_qq_bot.InboundQueue.Lease.{claim, complete, retry}
use diana_qq_bot.Worker.Delay.{second, inbound_retry_delay, inbound_event_is_stale}

abbrev pub inbound_lease_duration : ℕ
inbound_lease_duration = 600 * second

abbrev pub inbound_group_concurrency : ℤ
inbound_group_concurrency = pos 3

-- What processing gives: an outcome, or an error by its text.
pub data Processed : Type 0 where
  outcome_is : Text → Processed
  failed_with : Text → Processed

-- What a round reads: the clock at the claim, at the processing, at the commit and in the store's
-- update, what the answer to an event that is not stale comes to, whether the database answers the
-- claim and the commit, and whether the context has ended at the commit.
pub record Reading : Type 0 where
  pub claimed_at : ℕ
  pub store_claimed_at : ℕ
  pub processed_at : ℕ
  pub committed_at : ℕ
  pub store_committed_at : ℕ
  pub answered : Item → Processed
  pub claim_answers : Bool
  pub commit_answers : Bool
  pub context_ended : Bool

unfoldable pub process_item : Reading → Item → Processed
unfolding inbound_event_is_stale
process_item r item =
    if inbound_event_is_stale item.event r.processed_at
    then outcome_is (codes "ignored_stale")
    else r.answered item

unfoldable pub next_attempt : Reading → Item → ℕ
unfolding inbound_retry_delay
next_attempt r item =
    if r.context_ended then r.committed_at else r.committed_at + inbound_retry_delay item.attempts

unfoldable pub commit : Text → Reading → Item → Store → Store
unfolding complete retry process_item next_attempt
commit owner r item s = elim (process_item r item) [
  | outcome_is outcome ↦ (complete r.commit_answers r.store_committed_at item.id owner outcome s).0
  | failed_with e ↦
      (retry r.commit_answers r.store_committed_at item.id owner (some (next_attempt r item)) e s).0
]

-- What follows a claim, by what it gives.
unfoldable pub after_claim : Text → Reading → Store → Result (Option Item) → Store × Option Item
unfolding commit
after_claim owner r claimed (err e) = (claimed, none)
after_claim owner r claimed (ok none) = (claimed, none)
after_claim owner r claimed (ok (some item)) = (commit owner r item claimed, some item)

abbrev pub claim_of : Text → Reading → Store → Store × Result (Option Item)
claim_of owner r s =
    claim r.claim_answers r.store_claimed_at owner (some (r.claimed_at + inbound_lease_duration))
      (inbound_group_concurrency ∷ []) s

-- The store after the round, and the item, if there was one. `others` is what the calls of other
-- workers, and of whatever else uses the store, do to it between the claim and the commit.
unfoldable pub round_among : Text → Reading → (Store → Store) → Store → Store × Option Item
unfolding after_claim
round_among owner r others s = let x = claim_of owner r s in after_claim owner r (others x.0) x.1

-- A round with no call of another worker in between.
unfoldable pub worker_round : Text → Reading → Store → Store × Option Item
unfolding round_among
worker_round owner r s = round_among owner r (λ x. x) s
