-- ===== src/InboundQueue/History.antt =====
-- Histories of calls on the queue, and what every one of them keeps.
use diana_qq_bot.Prelude.{
  ℕ, ◌≤◌, ◌≡◌, refl, Bool, true, false, ◌||◌, not, ltb, ◌==◌, if_either, if_elim, List, [], ◌∷◌,
  ◌++◌, Option, none, some, arith, count_if, All,
}
use diana_qq_bot.Prelude.Text.{Text, trim_space, is_empty}
use diana_qq_bot.Prelude.Int64.{ℤ}
use diana_qq_bot.Event.{MessageEvent}
use diana_qq_bot.InboundQueue.Table.{
  pending, is_processing, history_has_id, Item, InboundRow, Store, Result, update_where, has_id,
  holds_lease, active_leases,
}
use diana_qq_bot.InboundQueue.Enqueue.{
  Canonical, enqueue, store_event, queue_row, refresh_row, pending_with_id,
}
use diana_qq_bot.InboundQueue.Lease.{
  inbound_group_concurrency_value, claim, claim_row, complete, retry, release, restore_stale,
  released, restored, update_leased, is_leased_to, is_releasable, is_restorable,
}
use diana_qq_bot.InboundQueue.Counts.{
  UniqueIds, UniqueIds-update, UniqueIds-append, count_if-append, count_if-update_kept, All-of,
  active_leases_mono,
}
use diana_qq_bot.InboundQueue.Claim.{claim_row-leases, claim_row-UniqueIds}

-- A call with its arguments: first whether SQLite answers, then the time.
pub data Call : Type 0 where
  enqueues : Bool → ℕ → Text → MessageEvent → List ℤ → Call
  claims : Bool → ℕ → Text → Option ℕ → List ℤ → Call
  completes : Bool → ℕ → Text → Text → Text → Call
  retries : Bool → ℕ → Text → Text → Option ℕ → Text → Call
  releases : Bool → ℕ → Text → Call
  restores : ℕ → ℕ → Call

abbrev pub time_of : Call → ℕ
time_of (enqueues _ now _ _ _) = now
time_of (claims _ now _ _ _) = now
time_of (completes _ now _ _ _) = now
time_of (retries _ now _ _ _ _) = now
time_of (releases _ now _) = now
time_of (restores now _) = now

module _ (digest : Canonical → Text) where
  unfoldable pub step : Call → Store → Store
  step (enqueues answers now session event priorities) s =
      (enqueue digest answers now session event priorities s).0
  step (claims answers now owner until concurrency) s =
      (claim answers now owner until concurrency s).0
  step (completes answers now id owner outcome) s = (complete answers now id owner outcome s).0
  step (retries answers now id owner available last_error) s =
      (retry answers now id owner available last_error s).0
  step (releases answers now owner) s = (release answers now owner s).0
  step (restores now cutoff) s = restore_stale now cutoff s

  unfoldable pub run : List Call → Store → Store
  unfolding step
  run [] s = s
  run (c ∷ cs) s = run cs (step c s)

-- The calls' clock does not go back.
abbrev pub Timed : ℕ → List Call → Type 0
Timed now [] = Unit
Timed now (c ∷ cs) = (now ≤ time_of c) × Timed (time_of c) cs

abbrev pub end_time : ℕ → List Call → ℕ
end_time now [] = now
end_time now (c ∷ cs) = end_time (time_of c) cs

-- No claim asks for more than `n` leases in a group.
abbrev pub AsksAtMost : ℕ → Call → Type 0
AsksAtMost n (claims _ _ _ _ concurrency) = inbound_group_concurrency_value concurrency ≤ n
AsksAtMost n _ = Unit

pub record Inv (n now : ℕ) (rows : List InboundRow) : Type 0 where
  pub unique : UniqueIds rows
  pub bounded : (session : Text) → active_leases session now rows ≤ n

Inv-later :
    (n now later : ℕ) (rows : List InboundRow) → now ≤ later → Inv n now rows → Inv n later rows
Inv-later n now later rows h v = record {
  unique = v.unique;
  bounded =
      λ session. omega (arith, active_leases_mono session now later rows h, v.bounded session);
}

-- An update that keeps the ids and leases nothing keeps the invariant.
Inv-update :
    (n now : ℕ) (q : InboundRow → Bool) (f : InboundRow → InboundRow) (rows : List InboundRow)
    → ((r : InboundRow) → (f r).id ≡ r.id)
    → ((session : Text) (r : InboundRow)
        → q r ≡ true
        → holds_lease session now (f r) ≡ true
        → holds_lease session now r ≡ true)
    → Inv n now rows
    → Inv n now (update_where q f rows)
unfolding active_leases
Inv-update n now q f rows ids leases v = record {
  unique = UniqueIds-update q f rows ids v.unique;
  bounded = λ session. omega (
    arith,
    count_if-update_kept (holds_lease session now) q f rows (All-of rows (leases session)),
    v.bounded session,
  );
}

Inv-append :
    (n now : ℕ) (rows : List InboundRow) (r : InboundRow)
    → count_if (has_id r.id) rows ≡ 0
    → r.status ≡ pending
    → Inv n now rows
    → Inv n now (rows ++ (r ∷ []))
unfolding active_leases
Inv-append n now rows r new free v = record {
  unique = UniqueIds-append rows r new v.unique;
  bounded = λ session.
      ground (arith, count_if-append (holds_lease session now) rows (r ∷ []), v.bounded session);
}

Inv-store_event :
    (n now seconds priority : ℕ) (id session : Text) (event : MessageEvent) (s : Store)
    → Inv n now s.events
    → Inv n now (store_event id session event seconds priority now s).0.events
unfolding store_event
Inv-store_event n now seconds priority id session event s v =
    if_either P (not (count_if (history_has_id id) s.history == 0))
      (Inv-update n now (pending_with_id id) (refresh_row event priority now) s.events (λ r. refl)
        (λ t r q h. ground arith) v)
      (if_elim P (not (count_if (has_id id) s.events == 0)) (λ _. v)
        (λ e.
          Inv-append n now s.events (queue_row id session event seconds priority now) (ground arith)
            refl v))
  where
    P : Store × Bool → Type 0
    P x = Inv n now x.0.events

Inv-enqueue :
    (n now : ℕ) (digest : Canonical → Text) (answers : Bool) (session : Text) (event : MessageEvent)
    (priorities : List ℤ) (s : Store)
    → Inv n now s.events
    → Inv n now (enqueue digest answers now session event priorities s).0.events
unfolding enqueue
Inv-enqueue n now digest answers session event priorities s v =
    if_either P (is_empty (trim_space session)) v
      (if_either P answers (Inv-store_event n now _ _ _ _ _ s v) v)
  where
    P : Store × Result (Text × Bool) → Type 0
    P x = Inv n now x.0.events

Inv-claim :
    (n now : ℕ) (answers : Bool) (owner : Text) (until : Option ℕ) (concurrency : List ℤ)
    (s : Store)
    → 1 ≤ n
    → inbound_group_concurrency_value concurrency ≤ n
    → Inv n now s.events
    → Inv n now (claim answers now owner until concurrency s).0.events
unfolding claim
Inv-claim n now answers owner none concurrency s one le v =
    if_either (λ (x : Store × Result (Option Item)). Inv n now x.0.events)
      (is_empty (trim_space owner)) v v
Inv-claim n now answers owner (some until) concurrency s one le v =
    if_either P (is_empty (trim_space owner)) v
      (if_either P (not (ltb now until)) v (if_either P answers claimed v))
  where
    P : Store × Result (Option Item) → Type 0
    P x = Inv n now x.0.events

    limit : ℕ
    limit = inbound_group_concurrency_value concurrency

    claimed : Inv n now (claim_row (trim_space owner) until now limit s).0.events
    claimed = record {
      unique = claim_row-UniqueIds (trim_space owner) until now limit s v.unique;
      bounded = λ session.
          claim_row-leases (trim_space owner) session until now limit n s v.unique le one
            (v.bounded session);
    }

Inv-update_leased :
    (n now : ℕ) (answers : Bool) (id owner : Text) (f : InboundRow → InboundRow) (s : Store)
    → ((r : InboundRow) → (f r).id ≡ r.id)
    → ((r : InboundRow) → is_processing (f r).status ≡ false)
    → Inv n now s.events
    → Inv n now (update_leased answers id owner f s).0.events
unfolding update_leased
Inv-update_leased n now answers id owner f s ids idle v =
    if_either P (is_empty id || is_empty owner) v (
      if_either P (not answers) v
        (if_either P (count_if (is_leased_to id owner) s.events == 0) updated updated))
  where
    P : Store × Result (Unit {0}) → Type 0
    P x = Inv n now x.0.events

    updated : Inv n now (update_where (is_leased_to id owner) f s.events)
    updated =
        Inv-update n now (is_leased_to id owner) f s.events ids
          (λ session r q h. ground (arith, idle r)) v

-- Every call keeps the ids distinct and every session within the limit.
pub step-Inv :
    (n now : ℕ) (digest : Canonical → Text) (c : Call) (s : Store)
    → 1 ≤ n
    → AsksAtMost n c
    → now ≤ time_of c
    → Inv n now s.events
    → Inv n (time_of c) (step digest c s).events
unfolding step complete retry release restore_stale
step-Inv n now digest (enqueues answers t session event priorities) s one asks le v =
    Inv-enqueue n t digest answers session event priorities s (Inv-later n now t s.events le v)
step-Inv n now digest (claims answers t owner until concurrency) s one asks le v =
    Inv-claim n t answers owner until concurrency s one asks (Inv-later n now t s.events le v)
step-Inv n now digest (completes answers t id owner outcome) s one asks le v =
    Inv-update_leased n t answers _ _ _ s (λ r. refl) (λ r. refl) (Inv-later n now t s.events le v)
step-Inv n now digest (retries answers t id owner available last_error) s one asks le v =
    Inv-update_leased n t answers _ _ _ s (λ r. refl) (λ r. refl) (Inv-later n now t s.events le v)
step-Inv n now digest (releases answers t owner) s one asks le v =
    if_either (λ (x : Store × Result (Unit {0})). Inv n t x.0.events) answers
      (Inv-update n t (is_releasable (trim_space owner)) (released t) s.events (λ r. refl)
        (λ session r q h. ground arith) (Inv-later n now t s.events le v))
      (Inv-later n now t s.events le v)
step-Inv n now digest (restores t cutoff) s one asks le v =
    Inv-update n t (is_restorable cutoff) (restored t) s.events (λ r. refl)
      (λ session r q h. ground arith) (Inv-later n now t s.events le v)

-- Let no claim of a timed history ask for more than n leases in a group, n at least 1, and let the
-- first store have unique row ids and at most n live leases in each session. Then so does the store
-- after the history: whatever calls enqueue, claim, complete, retry, release and restore it makes, in
-- any order and with any failures of the database.
pub run-Inv :
    (n now : ℕ) (digest : Canonical → Text) (cs : List Call) (s : Store)
    → 1 ≤ n
    → All (AsksAtMost n) cs
    → Timed now cs
    → Inv n now s.events
    → Inv n (end_time now cs) (run digest cs s).events
unfolding run
run-Inv n now digest [] s one asks timed v = v
run-Inv n now digest (c ∷ cs) s one asks timed v =
    run-Inv n (time_of c) digest cs (step digest c s) one asks.1 timed.1
      (step-Inv n now digest c s one asks.0 timed.0 v)
