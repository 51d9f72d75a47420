-- ===== src/Worker/Tests.antt =====
-- The workers at concrete inputs.
use diana_qq_bot.Prelude.{◌+◌, ◌*◌, ◌^◌, ◌-◌, ◌≡◌, refl, true, false, [], ◌∷◌, none, some, In, min}
use diana_qq_bot.Prelude.Text.{Text, codes, text_eq, trim_space}
use diana_qq_bot.Prelude.Int64.{pos}
use diana_qq_bot.Event.{MessageEvent, group}
use diana_qq_bot.InboundQueue.Table.{
  pending, InboundRow, Store, Item, update_where, has_id, active_leases,
}
use diana_qq_bot.InboundQueue.Lease.{
  item_of, leased, claim, claim_row, first_where, is_candidate, is_leased_to,
}
use diana_qq_bot.Worker.Delay.{
  second, first_delay, last_delay, inbound_retry_delay, inbound_retry_delay_closed,
}
use diana_qq_bot.Worker.Round.{
  failed_with, Reading, process_item, claim_of, round_among, worker_round, inbound_lease_duration,
}
use diana_qq_bot.Worker.Settled.{settled, round_settles, round_among_settles}

inbound_retry_delay_closed_example :
    inbound_retry_delay 4 ≡ min last_delay (first_delay * 2 ^ (4 - 1))
inbound_retry_delay_closed_example = inbound_retry_delay_closed 4

fourth_delay : inbound_retry_delay 4 ≡ 40 * second
unfolding inbound_retry_delay
fourth_delay = refl

abbrev waiting_message : MessageEvent
waiting_message = record {
  kind = group;
  sub_type = [];
  time = pos 0;
  original_time = pos 0;
  self_id = [];
  user_id = codes "7";
  operator_id = [];
  operator_name = [];
  operator_role = [];
  group_id = codes "1";
  message_id = codes "b";
  message_seq = [];
  message_type = [];
  raw_message = [];
  segments = [];
  sender_name = [];
  sender_role = [];
  sender_level = [];
  to_me = false;
  quoted = none;
  semantic_source_message_id = [];
}

abbrev waiting_row : InboundRow
waiting_row = record {
  id = codes "b";
  session = codes "group:1";
  kind = group;
  group_id = codes "1";
  user_id = codes "7";
  message_id = codes "b";
  event_time = 6;
  payload = waiting_message;
  priority = 80;
  status = pending;
  attempts = 1;
  available_at = 11;
  lease_owner = none;
  lease_until = none;
  outcome = none;
  last_error = some (codes "timeout");
  created_at = 11;
  updated_at = 13;
  completed_at = none;
}

abbrev waiting : Store
waiting = record { history = []; events = waiting_row ∷ [] }

abbrev worker : Text
worker = codes "w1"

abbrev failing : Reading
failing = record {
  claimed_at = 20;
  store_claimed_at = 21;
  processed_at = 22;
  committed_at = 30;
  store_committed_at = 31;
  answered = λ item. failed_with (codes "no model");
  claim_answers = true;
  commit_answers = true;
  context_ended = false;
}

abbrev waiting_item : Item
waiting_item = item_of (leased worker (20 + inbound_lease_duration) 21 waiting_row)

claims_waiting :
    worker_round worker failing waiting
    ≡ ((worker_round worker failing waiting).0, some waiting_item)
unfolding worker_round claim trim_space claim_row first_where is_candidate active_leases text_eq
claims_waiting = refl

round_settles_example :
    (row : InboundRow) × In row waiting.events
    × (waiting_item ≡ item_of (leased (trim_space worker) (20 + inbound_lease_duration) 21 row))
    × ((worker_round worker failing waiting).0.events
        ≡ update_where
            (has_id row.id)
            (λ x.
              settled failing waiting_item
                (process_item failing waiting_item)
                (leased (trim_space worker) (20 + inbound_lease_duration) 21 x))
            waiting.events)
unfolding trim_space
round_settles_example =
    round_settles worker failing waiting (worker_round worker failing waiting).0 waiting_item refl
      refl ((refl, refl), tt) claims_waiting

-- Another worker asks for an item while the first one is busy with its own.
abbrev asks_meanwhile : Store → Store
asks_meanwhile s = (claim true 30 (codes "other worker") (some 60) (pos 3 ∷ []) s).0

claims_among :
    round_among worker failing asks_meanwhile waiting
    ≡ ((round_among worker failing asks_meanwhile waiting).0, some waiting_item)
unfolding round_among claim trim_space claim_row first_where is_candidate active_leases text_eq
claims_among = refl

round_among_settles_example :
    (row : InboundRow) × In row waiting.events
    × (waiting_item ≡ item_of (leased (trim_space worker) (20 + inbound_lease_duration) 21 row))
    × ((claim_of worker failing waiting).0.events
        ≡ update_where
            (has_id row.id)
            (leased (trim_space worker) (20 + inbound_lease_duration) 21)
            waiting.events)
    × ((round_among worker failing asks_meanwhile waiting).0.events
        ≡ update_where
            (is_leased_to row.id (trim_space worker))
            (settled failing waiting_item (process_item failing waiting_item))
            (asks_meanwhile (claim_of worker failing waiting).0).events)
unfolding trim_space
round_among_settles_example =
    round_among_settles worker failing asks_meanwhile waiting
      (round_among worker failing asks_meanwhile waiting).0 waiting_item refl refl
      ((refl, refl), tt) claims_among
