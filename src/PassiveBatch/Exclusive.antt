-- ===== src/PassiveBatch/Exclusive.antt =====
-- A batch that a run has: what the calls do to it until the run is over.
use diana_qq_bot.Prelude.{
  ℕ, ◌≡◌, refl, ◌||◌, Bool, true, false, not, List, [], ◌∷◌, Option, none, some, if_either, ◌==◌,
  All, Bool-cases, inl, inr, subst, sym, arith,
}
use diana_qq_bot.Prelude.Text.{is_blank}
use diana_qq_bot.Event.{is_group}
use diana_qq_bot.PassiveBatch.Batch.{
  Batch, Waits, schedule, add_candidate, enqueue_passive_reply, begin_flush,
}
use diana_qq_bot.PassiveBatch.Runs.{Call, enqueues, fires, finishes, cancels, clears, step, run}

-- The calls that may come while a run has the batch, and neither end the run nor drop the batch.
abbrev pub Meanwhile : Call → Type 0
Meanwhile (enqueues running now event text) = Unit
Meanwhile (fires generation) = Unit
Meanwhile (finishes now through) = ⊥
Meanwhile (cancels event) = ⊥
Meanwhile clears = ⊥

abbrev Taken : Option Batch → Type 0
Taken none = ⊥
Taken (some b) = b.processing ≡ true

begin_flush-Taken :
    (generation : ℕ) (s : Option Batch)
    → (begin_flush generation s).0 ≡ true
    → Taken (begin_flush generation s).1
unfolding begin_flush
begin_flush-Taken generation none h = absurd (cc (h))
begin_flush-Taken generation (some b) h =
    elim (Bool-cases (not (b.generation == generation) || b.processing)) [
      | inl e ↦ absurd (ground (arith, h))
      | inr e ↦ rw (e, begin_flush) refl
    ]

-- A timer that fires for a batch that a run has changes nothing.
pub begin_flush_taken :
    (generation : ℕ) (b : Batch)
    → b.processing ≡ true
    → begin_flush generation (some b) ≡ (false, some b)
unfolding begin_flush
begin_flush_taken generation b h = ground arith

step-Taken : (w : Waits) (c : Call) (s : Option Batch) → Meanwhile c → Taken s → Taken (step w c s)
unfolding step enqueue_passive_reply add_candidate schedule
step-Taken w c none m h = absurd h
step-Taken w (enqueues running now event text) (some b) m h =
    if_either (λ (x : Bool × Option Batch). Taken x.1)
      (not running || not (is_group event.kind) || is_blank event.group_id) h
      (if_either (λ (x : Batch). x.processing ≡ true) b.processing h h)
step-Taken w (fires generation) (some b) m h =
    subst (λ (x : Bool × Option Batch). Taken x.1) (sym (begin_flush_taken generation b h)) h
step-Taken w (finishes now through) (some b) m h = absurd m
step-Taken w (cancels event) (some b) m h = absurd m
step-Taken w clears (some b) m h = absurd m

run-Taken :
    (w : Waits) (cs : List Call) (s : Option Batch)
    → All Meanwhile cs
    → Taken s
    → Taken (run w cs s)
unfolding run
run-Taken w [] s m h = h
run-Taken w (c ∷ cs) s m h = run-Taken w cs (step w c s) m.1 (step-Taken w c s m.0 h)

-- Once a timer's run has taken the batch, then after any calls that enqueue or fire a timer the batch
-- is still there, and a timer of whatever generation that fires is turned away and leaves it as it is.
pub begin_flush_once :
    (w : Waits) (generation later : ℕ) (cs : List Call) (s : Option Batch)
    → (begin_flush generation s).0 ≡ true
    → All Meanwhile cs
    → (b : Batch) × (run w cs (begin_flush generation s).1 ≡ some b)
      × (begin_flush later (some b) ≡ (false, some b))
begin_flush_once w generation later cs s h m =
    untaken (run w cs (begin_flush generation s).1)
      (run-Taken w cs (begin_flush generation s).1 m (begin_flush-Taken generation s h))
  where
    untaken :
        (o : Option Batch)
        → Taken o
        → (b : Batch) × (o ≡ some b) × (begin_flush later (some b) ≡ (false, some b))
    untaken none t = absurd t
    untaken (some b) t = (b, refl, begin_flush_taken later b t)
