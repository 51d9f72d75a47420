-- ===== src/PassiveBatch/Tests.antt =====
-- Batches on concrete messages.
use diana_qq_bot.Prelude.{
  ℕ, ◌*◌, ◌≤◌, ◌≡◌, inr, refl, true, false, List, [], ◌∷◌, none, some, length, drop, arith, map,
}
use diana_qq_bot.Prelude.Text.{Text, codes, text_eq, trim_space}
use diana_qq_bot.Prelude.Assoc.{lookup}
use diana_qq_bot.Prelude.Int64.{pos}
use diana_qq_bot.Event.{EventKind, MessageEvent, session_key}
use diana_qq_bot.PassiveBatch.Batch.{
  second, Candidate, Batch, default_waits, schedule, begin_flush, finish, batch_changed,
}
use diana_qq_bot.PassiveBatch.Decision.{decision_candidates, decision_candidates_suffix, snapshot}
use diana_qq_bot.PassiveBatch.Invariant.{IsSound, Sound}
use diana_qq_bot.PassiveBatch.Runs.{Call, enqueues, fires, finishes, run, run-Sound, schedule_due}
use diana_qq_bot.PassiveBatch.Exclusive.{begin_flush_once}
use diana_qq_bot.PassiveBatch.Pending.{Message, queues, content, items_of, finish-run}
use diana_qq_bot.PassiveBatch.Sessions.{enqueue_in, finish_in, cancel_in}
use diana_qq_bot.PassiveBatch.Stale.{stale_finish}

abbrev chat : MessageEvent
chat = record {
  kind = EventKind.group;
  sub_type = [];
  time = pos 0;
  original_time = pos 0;
  self_id = [];
  user_id = codes "7";
  operator_id = [];
  operator_name = [];
  operator_role = [];
  group_id = codes "42";
  message_id = [];
  message_seq = [];
  message_type = [];
  raw_message = [];
  segments = [];
  sender_name = [];
  sender_role = [];
  sender_level = [];
  to_me = false;
  quoted = none;
  semantic_source_message_id = [];
}

-- Three messages, a run that takes them, a fourth, and the end of the run.
abbrev talk : List Call
talk =
    enqueues true 0 chat (codes "a")
    ∷ enqueues true second chat (codes "b")
    ∷ enqueues true (2 * second) chat (codes "c")
    ∷ fires 3
    ∷ enqueues true (8 * second) chat (codes "d")
    ∷ finishes (9 * second) 3
    ∷ []

everything : Unit {0}
unfolding run trim_space default_waits decision_candidates snapshot batch_changed
everything = tt

talk_test :
    map (λ (c : Candidate). c.text) (items_of (run default_waits talk none)) ≡ codes "d" ∷ []
unfolding everything
talk_test = refl

run-Sound_example : Sound (run default_waits talk none)
run-Sound_example = run-Sound default_waits talk none (omega arith) tt

abbrev held : Batch
held = record {
  items = record { event = chat; text = codes "a"; queued_at = some 0; generation = 1 } ∷ [];
  started_at = 0;
  generation = 1;
  timer = some (record { due = 5 * second; generation = 1 });
  processing = false;
}

held-IsSound : IsSound held
held-IsSound = record {
  low = 0;
  numbered = (refl, refl);
  not_empty = omega arith;
  bounded = omega arith;
  attended = inr (refl, (5 * second, refl));
}

-- A message and a timer of its generation, while the run of the first timer has the batch.
abbrev interrupted : List Call
interrupted = enqueues true (8 * second) chat (codes "d") ∷ fires 2 ∷ []

begin_flush_once_example :
    (b : Batch) × (run default_waits interrupted (begin_flush 1 (some held)).1 ≡ some b)
    × (begin_flush 2 (some b) ≡ (false, some b))
unfolding everything begin_flush
begin_flush_once_example =
    begin_flush_once default_waits 1 2 interrupted (some held) refl (tt, (tt, tt))

abbrev arrived : List Message
arrived =
    record { at = 8 * second; event = chat; text = codes "d" }
    ∷ record { at = 9 * second; event = chat; text = codes "e" }
    ∷ []

finish-run_example :
    map content (
      items_of (
        finish default_waits
          (10 * second)
          1
          (run default_waits (map queues arrived) (begin_flush 1 (some held)).1)))
    ≡ (some (8 * second), chat, codes "d") ∷ (some (9 * second), chat, codes "e") ∷ []
unfolding everything begin_flush
finish-run_example =
    finish-run default_waits 1 (10 * second) held arrived held-IsSound refl
      ((refl, refl), ((refl, refl), tt)) (omega arith) (omega arith)

schedule_due_example :
    (due : ℕ) × ((schedule default_waits (7 * second) held).timer
      ≡ some (record { due = due; generation = 1 }))
    × (7 * second ≤ due)
    × (due ≤ 12 * second)
    × (due ≤ 10 * second)
unfolding default_waits
schedule_due_example = schedule_due default_waits (7 * second) held

decision_candidates_suffix_example :
    (k : ℕ) × (decision_candidates held.items ≡ drop k held.items)
    × (length (decision_candidates held.items) ≤ 3)
    × (1 ≤ length (decision_candidates held.items))
decision_candidates_suffix_example = decision_candidates_suffix held.items

-- Two groups with a batch each; the first group's is cancelled by a mention.
abbrev batches : List (Text × Batch)
batches = (codes "group:42", held) ∷ (codes "group:43", held) ∷ []

stale_finish_example :
    let queued =
      enqueue_in default_waits true (8 * second) chat (codes "d") (cancel_in chat batches) in
    let finished = finish_in default_waits (9 * second) (codes "group:42") 1 queued.1 in
    (queued.0 ≡ true)
    × (lookup (codes "group:42") finished ≡ none)
    × (lookup (codes "group:43") finished ≡ some held)
unfolding everything session_key lookup text_eq
stale_finish_example =
    stale_finish default_waits (8 * second) (9 * second) 1 chat chat (codes "group:43") (codes "d")
      batches refl refl refl refl refl refl (omega arith)
