-- ===== src/InboundQueue/Dedupe.antt =====
-- EnqueueInboundEvent on a message that is delivered again.
use diana_qq_bot.Prelude.{
  ℕ, ◌≡◌, refl, inl, inr, Bool, true, false, List, [], ◌∷◌, map, Option, arith, Bool-cases,
  count_if, ◌==◌, subst,
}
use diana_qq_bot.Prelude.Text.{Text, text_eq_refl, trim_space, is_empty}
use diana_qq_bot.Prelude.Int64.{ℤ, pos}
use diana_qq_bot.Event.{MessageEvent}
use diana_qq_bot.InboundQueue.Table.{Status, InboundRow, Store, ok, update_where, history_has_id}
use diana_qq_bot.InboundQueue.Enqueue.{
  Canonical, enqueue, store_event, stable_inbound_event_id, inbound_priority_value, event_seconds,
  refresh_row, refresh_history, history_row, pending_with_id,
}
use diana_qq_bot.InboundQueue.Counts.{count_if-append, count_if-update_same}

-- What a worker's progress on a row is, as opposed to its content and its priority.
pub record Progress : Type 0 where
  pub id : Text
  pub status : Status
  pub attempts : ℕ
  pub available_at : ℕ
  pub lease_owner : Option Text
  pub lease_until : Option ℕ
  pub outcome : Option Text
  pub completed_at : Option ℕ

abbrev pub progress : InboundRow → Progress
progress r = record {
  id = r.id;
  status = r.status;
  attempts = r.attempts;
  available_at = r.available_at;
  lease_owner = r.lease_owner;
  lease_until = r.lease_until;
  outcome = r.outcome;
  completed_at = r.completed_at;
}

progress-refresh :
    (id : Text) (event : MessageEvent) (priority now : ℕ) (rows : List InboundRow)
    → map progress (update_where (pending_with_id id) (refresh_row event priority now) rows)
      ≡ map progress rows
unfolding refresh_row
progress-refresh id event priority now [] = refl
progress-refresh id event priority now (r ∷ rows) =
    ground (arith, progress-refresh id event priority now rows)

-- What has been stored is in the history.
store_event-known :
    (id session : Text) (event : MessageEvent) (seconds priority now : ℕ) (s : Store)
    → (count_if (history_has_id id) (store_event id session event seconds priority now s).0.history
        == 0)
      ≡ false
unfolding store_event history_row refresh_history
store_event-known id session event seconds priority now s = ground (
  arith,
  count_if-append (history_has_id id) s.history (history_row id session event seconds now ∷ []),
  count_if-update_same (history_has_id id) (history_has_id id)
      (refresh_history (history_row id session event seconds now)) s.history (λ r. refl),
  text_eq_refl id,
)

store_event-again :
    (id session : Text) (event : MessageEvent) (seconds priority now : ℕ) (s : Store)
    → (count_if (history_has_id id) s.history == 0) ≡ false
    → ((store_event id session event seconds priority now s).1 ≡ false)
      × (map progress (store_event id session event seconds priority now s).0.events
          ≡ map progress s.events)
unfolding store_event
store_event-again id session event seconds priority now s h =
    rw h (refl, progress-refresh id event priority now s.events)

-- The same event enqueued again after a success, at any time and priority, succeeds with the same id
-- and as not inserted; it adds no row and moves no row's status, attempts, lease or due time.
pub enqueue_again :
    (digest : Canonical → Text) (now later : ℕ) (session : Text) (event : MessageEvent)
    (ps qs : List ℤ) (s s' : Store) (id : Text) (inserted : Bool)
    → enqueue digest true now session event ps s ≡ (s', ok (id, inserted))
    → let again = enqueue digest true later session event qs s' in
      (again.1 ≡ ok (id, false)) × (map progress again.0.events ≡ map progress s'.events)
unfolding enqueue
enqueue_again digest now later session event ps qs s s' id inserted h =
    elim (Bool-cases (is_empty (trim_space session))) [
      | inl blank ↦ absurd (ground arith)
      | inr full ↦
          let stored : first.0 ≡ s' = ground arith in
          let named : stable ≡ id = ground arith in
          let known : (count_if (history_has_id stable) s'.history == 0) ≡ false =
            subst (λ (t : Store). (count_if (history_has_id stable) t.history == 0) ≡ false) stored
              (store_event-known stable (trim_space session) _ _ _ now s) in
          let kept =
            store_event-again stable (trim_space session)
              (record event { time = pos (event_seconds event.time later) })
              (event_seconds event.time later) (inbound_priority_value qs) later s' known in
          rw (full, enqueue) (cc (kept.0, named), kept.1)
    ]
  where
    stable : Text
    stable = stable_inbound_event_id digest (trim_space session) event

    first : Store × Bool
    first =
        store_event stable (trim_space session)
          (record event { time = pos (event_seconds event.time now) })
          (event_seconds event.time now) (inbound_priority_value ps) now s
