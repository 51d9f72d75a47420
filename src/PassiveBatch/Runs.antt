-- ===== src/PassiveBatch/Runs.antt =====
-- Any sequence of the operations on a batch, and what the timer does in it.
use diana_qq_bot.Prelude.{
  ℕ, ◌+◌, ◌%◌, ◌^◌, ◌≤◌, ◌<◌, ◌≡◌, refl, max, ◌||◌, Bool, not, List, [], ◌∷◌, Option, none, some,
  if_either, ◌==◌, length, keep, arith,
}
use diana_qq_bot.Prelude.Text.{Text, is_blank}
use diana_qq_bot.Event.{MessageEvent, is_group}
use diana_qq_bot.PassiveBatch.Batch.{
  Candidate, Batch, Waits, schedule, batch_or_new, add_candidate, enqueue_passive_reply,
  begin_flush, is_newer, left_pending, finish, cancel, clear,
}
use diana_qq_bot.PassiveBatch.Invariant.{
  Sound, generation_of, enqueue-Sound, begin_flush-Sound, finish-Sound, cancel-Sound,
}

-- The calls on one session: a timer may fire for any generation, and a run may finish any.
pub data Call : Type 0 where
  enqueues : (running : Bool) (now : ℕ) (event : MessageEvent) (text : Text) → Call
  fires : (generation : ℕ) → Call
  finishes : (now through : ℕ) → Call
  cancels : (event : MessageEvent) → Call
  clears : Call

unfoldable pub step : Waits → Call → Option Batch → Option Batch
unfolding enqueue_passive_reply begin_flush finish cancel
step w (enqueues running now event text) s = (enqueue_passive_reply w running now event text s).1
step w (fires generation) s = (begin_flush generation s).1
step w (finishes now through) s = finish w now through s
step w (cancels event) s = cancel event s
step w clears s = clear s

unfoldable pub run : Waits → List Call → Option Batch → Option Batch
unfolding step
run w [] s = s
run w (c ∷ cs) s = run w cs (step w c s)

step-Sound :
    (w : Waits) (c : Call) (s : Option Batch)
    → generation_of s + 1 < 2 ^ 64
    → Sound s
    → Sound (step w c s)
unfolding step
step-Sound w (enqueues running now event text) s small h =
    enqueue-Sound w running now event text s small h
step-Sound w (fires generation) s small h = begin_flush-Sound generation s h
step-Sound w (finishes now through) s small h = finish-Sound w now through s h
step-Sound w (cancels event) s small h = cancel-Sound event s h
step-Sound w clears s small h = tt

begin_flush_generation :
    (generation : ℕ) (s : Option Batch)
    → generation_of (begin_flush generation s).1 ≤ generation_of s
unfolding begin_flush
begin_flush_generation generation none = omega arith
begin_flush_generation generation (some b) =
    if_either (λ (x : Bool × Option Batch). generation_of x.1 ≤ b.generation)
      (not (b.generation == generation) || b.processing) (omega arith) (omega arith)

left_pending_generation :
    (w : Waits) (now : ℕ) (cs : List Candidate) (b : Batch)
    → generation_of (left_pending w now cs b) ≤ b.generation
unfolding left_pending schedule
left_pending_generation w now [] b = omega arith
left_pending_generation w now (c ∷ cs) b = omega arith

enqueue_generation :
    (w : Waits) (running : Bool) (now : ℕ) (event : MessageEvent) (text : Text) (s : Option Batch)
    → generation_of (enqueue_passive_reply w running now event text s).1 ≤ generation_of s + 1
unfolding enqueue_passive_reply add_candidate schedule
enqueue_generation w running now event text s =
    if_either (λ (x : Bool × Option Batch). generation_of x.1 ≤ generation_of s + 1)
      (not running || not (is_group event.kind) || is_blank event.group_id) (omega arith)
      (if_either (λ (b : Batch). b.generation ≤ generation_of s + 1) (batch_or_new now s).processing
        (next_le s) (next_le s))
  where
    next_le :
        (o : Option Batch) → ((batch_or_new now o).generation + 1) % 2 ^ 64 ≤ generation_of o + 1
    next_le none = omega arith
    next_le (some b) = omega arith

step_generation :
    (w : Waits) (c : Call) (s : Option Batch) → generation_of (step w c s) ≤ generation_of s + 1
unfolding step finish cancel
step_generation w (enqueues running now event text) s =
    enqueue_generation w running now event text s
step_generation w (fires generation) s = omega (arith, begin_flush_generation generation s)
step_generation w (finishes now through) none = omega arith
step_generation w (finishes now through) (some b) =
    omega (arith, left_pending_generation w now (keep (is_newer through) b.items) b)
step_generation w (cancels event) s =
    if_either (λ (o : Option Batch). generation_of o ≤ generation_of s + 1)
      (not (is_group event.kind) || is_blank event.group_id) (omega arith) (omega arith)
step_generation w clears s = omega arith

-- From a sound batch or none, after any calls that enqueue, fire a timer of any generation, finish a
-- run of any generation, cancel or clear, fewer than would wrap the generation, the batch is sound or
-- none: it has 1 to 20 candidates, their generations are consecutive and end with the batch's own, and
-- either a run has it and no timer is armed, or no run has it and a timer is armed for its newest
-- generation.
pub run-Sound :
    (w : Waits) (cs : List Call) (s : Option Batch)
    → generation_of s + length cs < 2 ^ 64
    → Sound s
    → Sound (run w cs s)
unfolding run
run-Sound w [] s small h = h
run-Sound w (c ∷ cs) s small h =
    run-Sound w cs (step w c s) (omega (arith, step_generation w c s))
      (step-Sound w c s (omega arith) h)

-- A batch's timer fires not before now, within the window from now, and no later than the maximum wait
-- after the batch started unless that has passed, in which case now.
pub schedule_due :
    (w : Waits) (now : ℕ) (b : Batch)
    → (due : ℕ) × ((schedule w now b).timer
        ≡ some (record { due = due; generation = b.generation }))
      × (now ≤ due)
      × (due ≤ now + w.window)
      × (due ≤ max now (b.started_at + w.max_wait))
unfolding schedule
schedule_due w now b = (_, refl, omega arith, omega arith, omega arith)

abbrev pub items_of : Option Batch → List Candidate
items_of none = []
items_of (some b) = b.items
