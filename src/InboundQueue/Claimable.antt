-- ===== src/InboundQueue/Claimable.antt =====
-- A message that has been inserted can be claimed.
use diana_qq_bot.Prelude.{
  ℕ, ◌≤◌, ◌<◌, ◌≡◌, ap, sym, ◌∙◌, subst, Bool, true, false, List, [], ◌∷◌, ◌++◌, Option, some,
  arith, All, Option-cases, inl, inr,
}
use diana_qq_bot.Prelude.Text.{Text, trim_space, is_empty}
use diana_qq_bot.Prelude.Int64.{ℤ, pos, negsuc}
use diana_qq_bot.Event.{MessageEvent}
use diana_qq_bot.InboundQueue.Table.{
  InboundRow, Store, Result, ok, Item, active_leases, holds_lease,
}
use diana_qq_bot.InboundQueue.Enqueue.{
  Canonical, enqueue, store_event, queue_row, stable_inbound_event_id, event_seconds,
  inbound_priority_value,
}
use diana_qq_bot.InboundQueue.Lease.{
  claim, claim_row, is_candidate, session_limit, inbound_group_concurrency_value,
}
use diana_qq_bot.InboundQueue.Claim.{claim_nothing}
use diana_qq_bot.InboundQueue.Counts.{count_if-append}

-- What is inserted is put at the end, due at once.
store_event-inserted :
    (id session : Text) (event : MessageEvent) (seconds priority now : ℕ) (s : Store)
    → (store_event id session event seconds priority now s).1 ≡ true
    → (store_event id session event seconds priority now s).0.events
      ≡ s.events ++ (queue_row id session event seconds priority now ∷ [])
unfolding store_event
store_event-inserted id session event seconds priority now s h = ground (arith, h)

All-last {ℓ κ} : {A : Type ℓ} (P : A → Type κ) (xs : List A) (x : A) → All P (xs ++ (x ∷ [])) → P x
All-last P [] x h = h.0
All-last P (y ∷ xs) x h = All-last P xs x h.1

group_limit_positive : (ps : List ℤ) → 1 ≤ inbound_group_concurrency_value ps
unfolding inbound_group_concurrency_value
group_limit_positive [] = omega arith
group_limit_positive (pos n ∷ ps) = ground arith
group_limit_positive (negsuc n ∷ ps) = omega arith

session_limit_positive : (limit : ℕ) (r : InboundRow) → 1 ≤ limit → 1 ≤ session_limit limit r
unfolding session_limit
session_limit_positive limit r h = ground arith

-- A row that has just been queued takes no lease, and is a candidate where its session has none.
queued-is_candidate :
    (id session : Text) (event : MessageEvent) (seconds priority now later limit : ℕ)
    (rows : List InboundRow)
    → 1 ≤ limit
    → now ≤ later
    → active_leases session later rows ≡ 0
    → is_candidate later limit
        (rows ++ (queue_row id session event seconds priority now ∷ []))
        (queue_row id session event seconds priority now)
      ≡ true
unfolding is_candidate active_leases queue_row
queued-is_candidate id session event seconds priority now later limit rows h le free = ground (
  arith,
  count_if-append (holds_lease session later) rows
      (queue_row id session event seconds priority now ∷ []),
  session_limit_positive limit (queue_row id session event seconds priority now) h,
)

claim-answers :
    (now until : ℕ) (owner : Text) (concurrency : List ℤ) (s : Store)
    → is_empty (trim_space owner) ≡ false
    → now < until
    → (found : Option Item) × ((claim true now owner (some until) concurrency s).1 ≡ ok found)
unfolding claim
claim-answers now until owner concurrency s named h = (
  (claim_row (trim_space owner) until now (inbound_group_concurrency_value concurrency) s).1,
  ground arith,
)

-- Where an enqueue reports that it has inserted a message, and no row of the store before it holds a
-- lease in the session of the message that is live at some time from then on, a claim at that time by
-- an owner with a name and with a lease that ends later gives an item, whatever limit of concurrency
-- it is given and whatever else the queue holds.
pub claim-enqueue :
    (digest : Canonical → Text) (now later until : ℕ) (session owner : Text) (event : MessageEvent)
    (ps limits : List ℤ) (s s' : Store) (id : Text)
    → enqueue digest true now session event ps s ≡ (s', ok (id, true))
    → active_leases (trim_space session) later s.events ≡ 0
    → now ≤ later
    → later < until
    → is_empty (trim_space owner) ≡ false
    → (item : Item) × ((claim true later owner (some until) limits s').1 ≡ ok (some item))
unfolding enqueue
claim-enqueue digest now later until session owner event ps limits s s' id h free le lt named =
    let inserted : stored.1 ≡ true = ground (arith, h) in
    let kept : stored.0 ≡ s' = ground (arith, h) in
    let queue : s'.events ≡ s.events ++ (row ∷ []) =
      ap (λ (t : Store). t.events) (sym kept)
      ∙ store_event-inserted stable (trim_space session) _ _ _ now s inserted in
    let (found, answer) = claim-answers later until owner limits s' named lt in
    elim (Option-cases found) [
      | inr (item, e) ↦ (item, answer ∙ ap ok e)
      | inl e ↦
          let (_, idle) =
            claim_nothing later until owner limits s'
              (claim true later owner (some until) limits s').0
              (ap
                (λ (r : Result (Option Item)).
                  ((claim true later owner (some until) limits s').0, r))
                (answer ∙ ap ok e)) in
          let passed =
            All-last
              (λ (r : InboundRow).
                is_candidate later (inbound_group_concurrency_value limits) (s.events ++ (row ∷ []))
                  r
                ≡ false)
              s.events row
              (subst
                (λ (rows : List InboundRow).
                  All
                    (λ (r : InboundRow).
                      is_candidate later (inbound_group_concurrency_value limits) rows r ≡ false)
                    rows)
                queue idle) in
          absurd (
            cc (
              passed,
              queued-is_candidate stable (trim_space session)
                  (record event { time = pos (event_seconds event.time now) })
                  (event_seconds event.time now) (inbound_priority_value ps) now later
                  (inbound_group_concurrency_value limits) s.events (group_limit_positive limits) le
                  free,
            ))
    ]
  where
    stable : Text
    stable = stable_inbound_event_id digest (trim_space session) event

    row : InboundRow
    row =
        queue_row stable (trim_space session)
          (record event { time = pos (event_seconds event.time now) })
          (event_seconds event.time now) (inbound_priority_value ps) now

    stored : Store × Bool
    stored =
        store_event stable (trim_space session)
          (record event { time = pos (event_seconds event.time now) })
          (event_seconds event.time now) (inbound_priority_value ps) now s
