-- ===== src/InboundQueue/Terminal.antt =====
-- The end of a message in the queue: CompleteInboundEvent, and what comes after it.
use diana_qq_bot.Prelude.{
  ℕ, ◌+◌, ◌≤◌, ◌≡◌, refl, ap, inl, inr, Bool, true, false, ◌||◌, not, List, [], ◌∷◌, Option, none,
  some, arith, if_either, Bool-cases, Option-cases, count_if, All, In, ltb, ◌==◌,
}
use diana_qq_bot.Prelude.Text.{Text, trim_space, is_empty}
use diana_qq_bot.Event.{MessageEvent}
use diana_qq_bot.InboundQueue.Table.{
  done, InboundRow, Store, Result, ok, err, lease_not_held, Item, update_where, has_id,
  history_has_id,
}
use diana_qq_bot.InboundQueue.Enqueue.{
  Canonical, enqueue, store_event, refresh_row, pending_with_id,
}
use diana_qq_bot.InboundQueue.Lease.{
  inbound_group_concurrency_value, is_candidate, first_where, leased, claim, claim_row, complete,
  retry, release, pending_count, is_open, completed, released, update_leased, is_leased_to,
  is_releasable,
}
use diana_qq_bot.InboundQueue.Counts.{
  UniqueIds, only_row, In-update, In-append, All-In, count_if_mono, count_if-update_out,
  count_if-update_leave,
}
use diana_qq_bot.InboundQueue.Order.{IsChoice, first_where-some}
use diana_qq_bot.InboundQueue.History.{
  Call, enqueues, claims, completes, retries, releases, restores, step, run, Inv, step-Inv,
  AsksAtMost, Timed, time_of,
}

-- A call that reopens no finished row.
abbrev pub ReopensNothing : Call → Type 0
ReopensNothing (restores _ _) = ⊥
ReopensNothing _ = Unit

done-claim :
    (owner : Text) (until now limit : ℕ) (s : Store) (r : InboundRow)
    → UniqueIds s.events
    → In r s.events
    → r.status ≡ done
    → In r (claim_row owner until now limit s).0.events
unfolding claim_row is_candidate
done-claim owner until now limit s r u i d =
    elim (Option-cases (first_where (is_candidate now limit s.events) s.events)) [
      | inl e ↦ rw (e, claim_row) i
      | inr (b, e) ↦
          let c : IsChoice (is_candidate now limit s.events) b s.events =
            first_where-some (is_candidate now limit s.events) s.events b e in
          rw (e, claim_row)
            (In-update (has_id b.id) (leased owner until now) r s.events
              (elim (Bool-cases (has_id b.id r)) [
                | inl same ↦ absurd (
                    ground (
                      arith,
                      ap (λ (y : InboundRow). y.status)
                          (All-In (λ x. has_id b.id x ≡ true → x ≡ b) r s.events
                            (only_row b s.events u c.1) i same),
                      c.0,
                    ))
                | inr other ↦ other
              ])
              i)
    ]

done-store_event :
    (id session : Text) (event : MessageEvent) (seconds priority now : ℕ) (s : Store)
    (r : InboundRow)
    → In r s.events
    → r.status ≡ done
    → In r (store_event id session event seconds priority now s).0.events
unfolding store_event
done-store_event id session event seconds priority now s r i d =
    if_either P (not (count_if (history_has_id id) s.history == 0))
      (In-update (pending_with_id id) (refresh_row event priority now) r s.events (ground arith) i)
      (if_either P (not (count_if (has_id id) s.events == 0)) i (In-append r s.events _ i))
  where
    P : Store × Bool → Type 0
    P x = In r x.0.events

done-update_leased :
    (answers : Bool) (id owner : Text) (f : InboundRow → InboundRow) (s : Store) (r : InboundRow)
    → In r s.events
    → r.status ≡ done
    → In r (update_leased answers id owner f s).0.events
unfolding update_leased
done-update_leased answers id owner f s r i d = if_either P (is_empty id || is_empty owner) i (
    if_either P (not answers) i
      (if_either P (count_if (is_leased_to id owner) s.events == 0) kept kept))
  where
    P : Store × Result (Unit {0}) → Type 0
    P x = In r x.0.events

    kept : In r (update_where (is_leased_to id owner) f s.events)
    kept = In-update (is_leased_to id owner) f r s.events (ground arith) i

-- A finished row stays as it is through any call but the reopening at the start of the store.
pub step_done :
    (digest : Canonical → Text) (c : Call) (s : Store) (r : InboundRow)
    → ReopensNothing c
    → UniqueIds s.events
    → In r s.events
    → r.status ≡ done
    → In r (step digest c s).events
unfolding step enqueue claim complete retry release
step_done digest (enqueues answers t session event priorities) s r n u i d =
    if_either P (is_empty (trim_space session)) i
      (if_either P answers (done-store_event _ _ _ _ _ t s r i d) i)
  where
    P : Store × Result (Text × Bool) → Type 0
    P x = In r x.0.events
step_done digest (claims answers t owner none concurrency) s r n u i d =
    if_either (λ (x : Store × Result (Option Item)). In r x.0.events) (is_empty (trim_space owner))
      i i
step_done digest (claims answers t owner (some until) concurrency) s r n u i d =
    if_either P (is_empty (trim_space owner)) i (
      if_either P (not (ltb t until)) i (
        if_either P answers
          (done-claim (trim_space owner) until t (inbound_group_concurrency_value concurrency) s r u
            i d)
          i))
  where
    P : Store × Result (Option Item) → Type 0
    P x = In r x.0.events
step_done digest (completes answers t id owner outcome) s r n u i d =
    done-update_leased answers _ _ _ s r i d
step_done digest (retries answers t id owner available last_error) s r n u i d =
    done-update_leased answers _ _ _ s r i d
step_done digest (releases answers t owner) s r n u i d =
    if_either (λ (x : Store × Result (Unit {0})). In r x.0.events) answers
      (In-update (is_releasable (trim_space owner)) (released t) r s.events (ground arith) i) i
step_done digest (restores t cutoff) s r n u i d = absurd n

-- A row that is done stays in the table unchanged through any timed history that does not reopen the
-- store, where the claims ask for at most the limit of leases, at least 1, and the first store has
-- unique ids and no session over the limit.
pub run_done :
    (limit now : ℕ) (digest : Canonical → Text) (cs : List Call) (s : Store) (r : InboundRow)
    → 1 ≤ limit
    → All (AsksAtMost limit) cs
    → Timed now cs
    → All ReopensNothing cs
    → Inv limit now s.events
    → In r s.events
    → r.status ≡ done
    → In r (run digest cs s).events
unfolding run
run_done limit now digest [] s r one asks timed n v i d = i
run_done limit now digest (c ∷ cs) s r one asks timed n v i d =
    run_done limit (time_of c) digest cs (step digest c s) r one asks.1 timed.1 n.1
      (step-Inv limit now digest c s one asks.0 timed.0 v) (step_done digest c s r n.0 v.unique i d)
      d

-- With unique ids, after a completion that succeeded another completion of the same id fails as not
-- held, for any owner that is not blank, at any time.
pub complete_once :
    (now later : ℕ) (id owner outcome : Text) (s s' : Store) (owner' outcome' : Text)
    → UniqueIds s.events
    → complete true now id owner outcome s ≡ (s', ok tt)
    → is_empty (trim_space owner') ≡ false
    → (complete true later id owner' outcome' s').1 ≡ err lease_not_held
unfolding complete update_leased completed
complete_once now later id owner outcome s s' owner' outcome' u h o = ground (
  arith,
  count_if-update_out (is_leased_to (trim_space id) (trim_space owner'))
      (is_leased_to (trim_space id) (trim_space owner)) (has_id (trim_space id))
      (completed (trim_space outcome) now) s.events (λ x e. ground arith) (λ x e. ground arith)
      (λ x. ground arith),
  u (trim_space id),
)

-- With unique ids, a completion that succeeds takes exactly one message off the open ones.
pub pending_count-complete :
    (now : ℕ) (id owner outcome : Text) (s s' : Store)
    → UniqueIds s.events
    → complete true now id owner outcome s ≡ (s', ok tt)
    → pending_count s' + 1 ≡ pending_count s
unfolding complete update_leased completed pending_count
pending_count-complete now id owner outcome s s' u h = ground (
  arith,
  count_if-update_leave is_open (is_leased_to (trim_space id) (trim_space owner))
      (completed (trim_space outcome) now) s.events (λ x e. ground arith) (λ x. refl),
  u (trim_space id),
  count_if_mono (is_leased_to (trim_space id) (trim_space owner)) (has_id (trim_space id)) s.events
      (λ x e. ground arith),
)
