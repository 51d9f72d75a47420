-- ===== src/InboundQueue/Lease.antt =====
-- ClaimNextInboundEvent, CompleteInboundEvent, RetryInboundEvent, ReleaseInboundLeases,
-- PendingInboundCount, and the restore of stale rows when the store opens.
use diana_qq_bot.Prelude.{
  ℕ, ◌+◌, Bool, true, ◌&&◌, ◌||◌, not, List, [], ◌∷◌, Option, none, some, if◌then◌else◌, ltb, leb,
  ◌==◌, count_if,
}
use diana_qq_bot.Prelude.Text.{Text, codes, text_eq, text_lt, is_empty, trim_space}
use diana_qq_bot.Prelude.Int64.{ℤ, pos, negsuc}
use diana_qq_bot.Event.{is_group}
use diana_qq_bot.InboundQueue.Table.{
  pending, processing, done, is_pending, is_processing, is_done, InboundRow, Store, owner_required,
  lease_in_past, id_and_owner_required, database, lease_not_held, Result, ok, err, Item, null_eq,
  null_le, update_where, has_id, active_leases,
}

unfoldable pub inbound_group_concurrency_value : List ℤ → ℕ
inbound_group_concurrency_value [] = 1
inbound_group_concurrency_value (pos n ∷ _) = if n == 0 then 1 else n
inbound_group_concurrency_value (negsuc n ∷ _) = 1

-- How many leases the session of this row may have at once.
unfoldable pub session_limit : ℕ → InboundRow → ℕ
session_limit group_limit r = if is_group r.kind then group_limit else 1

-- The WHERE of the candidate: due, or abandoned, in a session that is not full.
unfoldable pub is_candidate : ℕ → ℕ → List InboundRow → InboundRow → Bool
unfolding session_limit
is_candidate now group_limit rows r =
    ((is_pending r.status && leb r.available_at now)
      || (is_processing r.status && null_le r.lease_until now))
    && ltb (active_leases r.session now rows) (session_limit group_limit r)

-- The ORDER BY: the first row goes first.
unfoldable pub precedes : InboundRow → InboundRow → Bool
precedes a b =
    ltb b.priority a.priority
    || ((a.priority == b.priority)
        && (ltb a.event_time b.event_time
            || ((a.event_time == b.event_time)
                && (ltb a.created_at b.created_at
                    || ((a.created_at == b.created_at) && text_lt a.id b.id)))))

-- The first row, by `precedes`, of those that pass the test: ORDER BY … LIMIT 1.
unfoldable pub first_where : (InboundRow → Bool) → List InboundRow → Option InboundRow
first_where p [] = none
first_where p (r ∷ rs) =
    let rest = first_where p rs in
    if p r
    then elim rest [ none ↦ some r | some best ↦ if precedes best r then some best else some r ]
    else rest

unfoldable pub leased : Text → ℕ → ℕ → InboundRow → InboundRow
leased owner until now r = record r {
  status = processing;
  lease_owner = some owner;
  lease_until = some until;
  attempts = r.attempts + 1;
  updated_at = now;
}

-- RETURNING: the row as updated.
unfoldable pub item_of : InboundRow → Item
item_of r = record {
  id = r.id;
  session = r.session;
  event = r.payload;
  attempts = r.attempts;
  priority = r.priority;
}

unfoldable pub claim_row : Text → ℕ → ℕ → ℕ → Store → Store × Option Item
unfolding leased item_of
claim_row owner until now group_limit s =
    elim (first_where (is_candidate now group_limit s.events) s.events) [
      | none ↦ (s, none)
      | some r ↦ (
        record s { events = update_where (has_id r.id) (leased owner until now) s.events },
        some (item_of (leased owner until now r)),
      )
    ]

-- The zero time is `none`. The event's payload always decodes.
unfoldable pub claim : Bool → ℕ → Text → Option ℕ → List ℤ → Store → Store × Result (Option Item)
unfolding inbound_group_concurrency_value
claim answers now owner lease_until concurrency s =
    let owner' = trim_space owner in
    if is_empty owner' then (s, err owner_required) else elim lease_until [
      | none ↦ (s, err lease_in_past)
      | some until ↦
          let (s', item) =
            claim_row owner' until now (inbound_group_concurrency_value concurrency) s in
          if not (ltb now until)
          then (s, err lease_in_past)
          else if answers
          then (s', ok item)
          else (s, err database)
    ]

-- WHERE id = ? AND status = 'processing' AND lease_owner = ?.
abbrev pub is_leased_to : Text → Text → InboundRow → Bool
is_leased_to id owner r = text_eq r.id id && is_processing r.status && null_eq r.lease_owner owner

unfoldable pub completed : Text → ℕ → InboundRow → InboundRow
completed outcome now r = record r {
  status = done;
  outcome = some outcome;
  last_error = none;
  lease_owner = none;
  lease_until = none;
  completed_at = some now;
  updated_at = now;
}

unfoldable pub retried : ℕ → Text → ℕ → InboundRow → InboundRow
retried available last_error now r = record r {
  status = pending;
  available_at = available;
  last_error = some last_error;
  outcome = none;
  lease_owner = none;
  lease_until = none;
  completed_at = none;
  updated_at = now;
}

-- An update of the row that a worker holds, and requireInboundLeaseUpdate.
unfoldable pub update_leased :
    Bool → Text → Text → (InboundRow → InboundRow) → Store → Store × Result (Unit {0})
update_leased answers id owner f s =
    let s' = record s { events = update_where (is_leased_to id owner) f s.events } in
    if is_empty id || is_empty owner
    then (s, err id_and_owner_required)
    else if not answers
    then (s, err database)
    else if count_if (is_leased_to id owner) s.events == 0
    then (s', err lease_not_held)
    else (s', ok tt)

unfoldable pub complete : Bool → ℕ → Text → Text → Text → Store → Store × Result (Unit {0})
unfolding completed update_leased
complete answers now id owner outcome s =
    update_leased answers (trim_space id) (trim_space owner) (completed (trim_space outcome) now) s

abbrev or_now : Option ℕ → ℕ → ℕ
or_now none now = now
or_now (some t) now = t

unfoldable pub retry : Bool → ℕ → Text → Text → Option ℕ → Text → Store → Store × Result (Unit {0})
unfolding retried update_leased
retry answers now id owner available_at last_error s =
    update_leased answers (trim_space id) (trim_space owner)
      (retried (or_now available_at now) (trim_space last_error) now) s

unfoldable pub released : ℕ → InboundRow → InboundRow
released now r = record r {
  status = pending;
  available_at = now;
  lease_owner = none;
  lease_until = none;
  updated_at = now;
}

-- No owner releases every lease.
abbrev pub is_releasable : Text → InboundRow → Bool
is_releasable owner r =
    is_processing r.status && (if is_empty owner then true else null_eq r.lease_owner owner)

unfoldable pub release : Bool → ℕ → Text → Store → Store × Result (Unit {0})
unfolding released
release answers now owner s =
    if answers
    then (
      record s { events = update_where (is_releasable (trim_space owner)) (released now) s.events },
      ok tt,
    )
    else (s, err database)

abbrev pub is_open : InboundRow → Bool
is_open r = is_pending r.status || is_processing r.status

unfoldable pub pending_count : Store → ℕ
pending_count s = count_if is_open s.events

-- The end of the migration: stale rows that the present replay window still covers.
abbrev pub is_restorable : ℕ → InboundRow → Bool
is_restorable cutoff r =
    is_done r.status && null_eq r.outcome (codes "ignored_stale") && leb cutoff r.event_time

unfoldable pub restored : ℕ → InboundRow → InboundRow
restored now r = record r {
  status = pending;
  available_at = now;
  lease_owner = none;
  lease_until = none;
  outcome = none;
  last_error = none;
  completed_at = none;
  updated_at = now;
}

unfoldable pub restore_stale : ℕ → ℕ → Store → Store
unfolding restored
restore_stale now cutoff s = record s {
  events = update_where (is_restorable cutoff) (restored now) s.events;
}
