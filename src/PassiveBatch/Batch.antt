-- ===== src/PassiveBatch/Batch.antt =====
-- The entry of one session in Runtime.passiveBatches, and every operation on it. Each operation holds
-- passiveBatchMu from end to end, so that the operations follow one another.
use diana_qq_bot.Prelude.{
  ℕ, ◌+◌, ◌-◌, ◌*◌, ◌%◌, ◌^◌, ◌||◌, Bool, true, false, not, List, [], ◌∷◌, ◌++◌, Option, none, some,
  if◌then◌else◌, ltb, leb, ◌==◌, length, drop, keep, min,
}
use diana_qq_bot.Prelude.Text.{Text, is_blank}
use diana_qq_bot.Prelude.Int64.{pos, negsuc}
use diana_qq_bot.Event.{MessageEvent, is_group}

abbrev pub second : ℕ
second = 1000000000

abbrev pub batch_max_items : ℕ
batch_max_items = 20

-- Times are Unix nanoseconds, and the zero time is `none`.
pub record Candidate : Type 0 where
  pub event : MessageEvent
  pub text : Text
  pub queued_at : Option ℕ
  pub generation : ℕ

-- An armed timer: when it fires, and for which generation.
pub record Timer : Type 0 where
  pub due : ℕ
  pub generation : ℕ

pub record Batch : Type 0 where
  pub items : List Candidate
  pub started_at : ℕ
  pub generation : ℕ
  pub timer : Option Timer
  pub processing : Bool

-- The two durations of the runtime.
pub record Waits : Type 0 where
  pub window : ℕ
  pub max_wait : ℕ

unfoldable pub default_waits : Waits
default_waits = record { window = 5 * second; max_wait = 10 * second }

-- schedulePassiveReplyBatchLocked; where max_wait is over, the timer fires at once.
unfoldable pub schedule : Waits → ℕ → Batch → Batch
schedule w now b = record b {
  timer = some (record {
    due = now + min w.window (w.max_wait + b.started_at - now);
    generation = b.generation;
  });
}

abbrev pub new_batch : ℕ → Batch
new_batch now = record {
  items = [];
  started_at = now;
  generation = 0;
  timer = none;
  processing = false;
}

abbrev pub batch_or_new : ℕ → Option Batch → Batch
batch_or_new now none = new_batch now
batch_or_new now (some b) = b

-- The last items, at most batch_max_items.
unfoldable pub latest_items : List Candidate → List Candidate
latest_items items = drop (length items - batch_max_items) items

unfoldable pub add_candidate : ℕ → MessageEvent → Text → Batch → Batch
unfolding latest_items
add_candidate now event text b =
    let next = (b.generation + 1) % 2 ^ 64 in
    record b {
      generation = next;
      items = latest_items (
          b.items
          ++ (record { event = event; text = text; queued_at = some now; generation = next } ∷ []));
    }

-- `running` is whether the runtime runs, with a context.
unfoldable pub enqueue_passive_reply :
    Waits → Bool → ℕ → MessageEvent → Text → Option Batch → Bool × Option Batch
unfolding add_candidate schedule
enqueue_passive_reply w running now event text s =
    let b = add_candidate now event text (batch_or_new now s) in
    if not running || not (is_group event.kind) || is_blank event.group_id
    then (false, s)
    else (true, some (if b.processing then b else schedule w now b))

-- The head of flushPassiveReplyBatch: whether the timer's run takes the batch.
unfoldable pub begin_flush : ℕ → Option Batch → Bool × Option Batch
begin_flush generation none = (false, none)
begin_flush generation (some b) =
    if not (b.generation == generation) || b.processing
    then (false, some b)
    else (true, some (record b { processing = true; timer = none }))

unfoldable pub candidate_time : Candidate → Option ℕ
candidate_time c = elim c.queued_at [
  | some t ↦ some t
  | none ↦ elim c.event.time [
    | pos n ↦ if ltb 0 n then some (n * second) else none
    | negsuc n ↦ none
  ]
]

abbrev pub time_or : ℕ → Option ℕ → ℕ
time_or now none = now
time_or now (some t) = t

abbrev pub is_newer : ℕ → Candidate → Bool
is_newer generation c = ltb generation c.generation

-- What finishPassiveReplyBatch leaves of a batch with these candidates pending.
unfoldable pub left_pending : Waits → ℕ → List Candidate → Batch → Option Batch
unfolding schedule candidate_time
left_pending w now [] b = none
left_pending w now (c ∷ cs) b = some (
    schedule w now (record b {
      items = c ∷ cs;
      processing = false;
      started_at = time_or now (candidate_time c);
    }))

unfoldable pub finish : Waits → ℕ → ℕ → Option Batch → Option Batch
unfolding left_pending
finish w now through none = none
finish w now through (some b) = left_pending w now (keep (is_newer through) b.items) b

-- cancelPassiveReplyBatch, on the entry of the event's session.
unfoldable pub cancel : MessageEvent → Option Batch → Option Batch
cancel event s = if not (is_group event.kind) || is_blank event.group_id then s else none

abbrev pub clear : Option Batch → Option Batch
clear s = none

abbrev pub last_newer : ℕ → List Candidate → Option Candidate
last_newer generation [] = none
last_newer generation (c ∷ cs) = elim (last_newer generation cs) [
  | some d ↦ some d
  | none ↦ if is_newer generation c then some c else none
]

-- passiveReplyBatchChanged: whether the batch has changed, and the newest candidate since.
unfoldable pub batch_changed : ℕ → Option Batch → Bool × Option Candidate
batch_changed generation none = (true, none)
batch_changed generation (some b) =
    if not b.processing
    then (true, none)
    else if leb b.generation generation
    then (false, none)
    else (true, last_newer generation b.items)
