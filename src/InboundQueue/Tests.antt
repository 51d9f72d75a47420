-- ===== src/InboundQueue/Tests.antt =====
-- The queue on a small history: two messages of one group, a claim, a completion.
use diana_qq_bot.Prelude.{ℕ, ◌+◌, ◌≡◌, refl, inl, inr, true, false, [], ◌∷◌, none, some, arith, In}
use diana_qq_bot.Prelude.Text.{Text, codes, text_eq, trim_space}
use diana_qq_bot.Prelude.Int64.{pos}
use diana_qq_bot.Event.{MessageEvent, EventKind, plain_text}
use diana_qq_bot.InboundQueue.Table.{
  Status, Store, InboundRow, ok, err, lease_not_held, active_leases, Item,
}
use diana_qq_bot.InboundQueue.Enqueue.{Canonical, stable_inbound_event_id, enqueue}
use diana_qq_bot.InboundQueue.Lease.{
  claim, claim_row, inbound_group_concurrency_value, complete, pending_count, first_where, precedes,
  is_candidate,
}
use diana_qq_bot.InboundQueue.Claim.{TakesFirst, claim_first, claim_nothing}
use diana_qq_bot.InboundQueue.History.{
  Call, enqueues, claims, completes, run, step, step-Inv, run-Inv, Inv,
}
use diana_qq_bot.InboundQueue.Terminal.{run_done, complete_once, pending_count-complete}
use diana_qq_bot.InboundQueue.Dedupe.{enqueue_again}
use diana_qq_bot.InboundQueue.Claimable.{claim-enqueue}

abbrev no_digest : Canonical → Text
no_digest _ = []

abbrev message : Text → ℕ → MessageEvent
message id seconds = record {
  kind = EventKind.group;
  sub_type = [];
  time = pos seconds;
  original_time = pos 0;
  self_id = [];
  user_id = codes "7";
  operator_id = [];
  operator_name = [];
  operator_role = [];
  group_id = codes "1";
  message_id = id;
  message_seq = [];
  message_type = [];
  raw_message = codes "hi";
  segments = [];
  sender_name = [];
  sender_role = [];
  sender_level = [];
  to_me = false;
  quoted = none;
  semantic_source_message_id = [];
}

abbrev empty : Store
empty = record { history = []; events = [] }

abbrev first_call : Call
first_call = enqueues true 10 (codes "group:1") (message (codes "a") 5) (pos 0 ∷ [])

abbrev second_call : Call
second_call = enqueues true 11 (codes "group:1") (message (codes "b") 6) (pos 80 ∷ [])

abbrev claim_call : Call
claim_call = claims true 12 (codes "w") (some 600) (pos 3 ∷ [])

abbrev queued : Store
queued = run no_digest (first_call ∷ second_call ∷ []) empty

abbrev first : Store
first = run no_digest (first_call ∷ []) empty

abbrev working : Store
working = run no_digest (first_call ∷ second_call ∷ claim_call ∷ []) empty

abbrev finished : Store
finished = (complete true 13 (codes "group:1:b") (codes "w") (codes "replied") working).0

-- What the tests compute with.
everything : Unit {0}
unfolding run enqueue claim claim_row first_where precedes is_candidate text_eq trim_space
    plain_text complete active_leases pending_count stable_inbound_event_id
    inbound_group_concurrency_value
everything = tt

after_claim : active_leases (codes "group:1") 12 working.events ≡ 1
unfolding everything
after_claim = refl

empty-Inv : Inv 3 0 empty.events
unfolding active_leases
empty-Inv = record { unique = λ id. omega arith; bounded = λ session. omega arith }

run-Inv_example : Inv 3 12 working.events
unfolding inbound_group_concurrency_value
run-Inv_example =
    run-Inv 3 0 no_digest (first_call ∷ second_call ∷ claim_call ∷ []) empty (omega arith)
      (tt, (tt, (omega arith, tt))) (omega arith, (omega arith, (omega arith, tt))) empty-Inv

-- The message of the higher priority, though it came later.
abbrev claimed : Item
claimed = record {
  id = codes "group:1:b";
  session = codes "group:1";
  event = message (codes "b") 6;
  attempts = 1;
  priority = 80;
}

claim_first_example : TakesFirst 3 12 600 (codes "w") queued working claimed
unfolding everything
claim_first_example = claim_first 12 600 (codes "w") (pos 3 ∷ []) queued working claimed refl

claim_nothing_example : (empty ≡ empty) × Unit {0}
unfolding everything
claim_nothing_example = claim_nothing 12 600 (codes "w") [] empty empty refl

working-Inv : Inv 3 12 working.events
working-Inv = run-Inv_example

complete_once_example :
    (complete true 14 (codes "group:1:b") (codes "v") [] finished).1 ≡ err lease_not_held
unfolding everything
complete_once_example =
    complete_once 13 14 (codes "group:1:b") (codes "w") (codes "replied") working finished
      (codes "v") [] working-Inv.unique refl refl

pending_count-complete_example : pending_count finished + 1 ≡ pending_count working
unfolding everything
pending_count-complete_example =
    pending_count-complete 13 (codes "group:1:b") (codes "w") (codes "replied") working finished
      working-Inv.unique refl

enqueue_again_example :
    (enqueue no_digest true 20 (codes "group:1") (message (codes "a") 5) [] first).1
    ≡ ok (codes "group:1:a", false)
unfolding everything
enqueue_again_example =
    (enqueue_again no_digest 10 20 (codes "group:1") (message (codes "a") 5) (pos 0 ∷ []) [] empty
      first (codes "group:1:a") true refl).0

claim-enqueue_example :
    (item : Item) × ((claim true 12 (codes "w") (some 600) (pos 3 ∷ []) first).1 ≡ ok (some item))
unfolding everything
claim-enqueue_example =
    claim-enqueue no_digest 10 12 600 (codes "group:1") (codes "w") (message (codes "a") 5)
      (pos 0 ∷ []) (pos 3 ∷ []) empty first (codes "group:1:a") refl refl (omega arith)
      (omega arith) refl

abbrev complete_call : Call
complete_call = completes true 13 (codes "group:1:b") (codes "w") (codes "replied")

finished-Inv : Inv 3 13 finished.events
unfolding step
finished-Inv =
    step-Inv 3 12 no_digest complete_call working (omega arith) tt (omega arith) working-Inv

abbrev finished_row : InboundRow
finished_row = record {
  id = codes "group:1:b";
  session = codes "group:1";
  kind = EventKind.group;
  group_id = codes "1";
  user_id = codes "7";
  message_id = codes "b";
  event_time = 6;
  payload = message (codes "b") 6;
  priority = 80;
  status = Status.done;
  attempts = 1;
  available_at = 11;
  lease_owner = none;
  lease_until = none;
  outcome = some (codes "replied");
  last_error = none;
  created_at = 11;
  updated_at = 13;
  completed_at = some 13;
}

-- The finished message comes again and the worker looks for work: the row stays.
run_done_example :
    In finished_row
      (run no_digest
        (enqueues true 14 (codes "group:1") (message (codes "b") 6) (pos 100 ∷ [])
          ∷ claims true 15 (codes "w") (some 600) (pos 3 ∷ [])
          ∷ [])
        finished).events
unfolding everything
run_done_example =
    run_done 3 13 no_digest
      (enqueues true 14 (codes "group:1") (message (codes "b") 6) (pos 100 ∷ [])
        ∷ claims true 15 (codes "w") (some 600) (pos 3 ∷ [])
        ∷ [])
      finished finished_row (omega arith) (tt, (omega arith, tt)) (omega arith, (omega arith, tt))
      (tt, (tt, tt)) finished-Inv (inr (inl refl)) refl
