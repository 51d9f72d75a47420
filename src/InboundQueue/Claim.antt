-- ===== src/InboundQueue/Claim.antt =====
-- What a claim returns, and what it does to the leases of the sessions.
use diana_qq_bot.Prelude.{
  ℕ, ◌≤◌, ◌<◌, ◌≡◌, refl, ap, subst, inl, inr, true, false, List, none, some, arith, Bool-cases,
  Option-cases, All, In, max,
}
use diana_qq_bot.Prelude.Text.{Text, text_eq, text_eq_iff, trim_space}
use diana_qq_bot.Prelude.Int64.{ℤ}
use diana_qq_bot.InboundQueue.Table.{
  InboundRow, Store, ok, Item, update_where, has_id, holds_lease, active_leases,
}
use diana_qq_bot.InboundQueue.Lease.{
  inbound_group_concurrency_value, is_candidate, first_where, leased, item_of, claim_row, claim,
}
use diana_qq_bot.InboundQueue.Order.{IsChoice, first_where-some, first_where-none}
use diana_qq_bot.InboundQueue.Counts.{
  UniqueIds, UniqueIds-update, only_row, count_if-update-le, count_if-update_kept, All-imp,
}

-- What a claim of an item comes from.
pub record ClaimOf (owner : Text) (until now limit : ℕ) (s s' : Store) (item : Item) : Type 0 where
  pub row : InboundRow
  pub choice : IsChoice (is_candidate now limit s.events) row s.events
  pub returned : item ≡ item_of (leased owner until now row)
  pub history_kept : s'.history ≡ s.history
  pub updated : s'.events ≡ update_where (has_id row.id) (leased owner until now) s.events

pub claim_row-some :
    (owner : Text) (until now limit : ℕ) (s s' : Store) (item : Item)
    → claim_row owner until now limit s ≡ (s', some item)
    → ClaimOf owner until now limit s s' item
unfolding claim_row
claim_row-some owner until now limit s s' item h =
    elim (Option-cases (first_where (is_candidate now limit s.events) s.events)) [
      | inl e ↦ absurd (ground arith)
      | inr (r, e) ↦ record {
        row = r;
        choice = first_where-some (is_candidate now limit s.events) s.events r e;
        returned = ground arith;
        history_kept = ground arith;
        updated = ground arith;
      }
    ]

-- A claim that finds nothing leaves the store as it was, and had no candidate.
pub claim_row-none :
    (owner : Text) (until now limit : ℕ) (s s' : Store)
    → claim_row owner until now limit s ≡ (s', none)
    → (s' ≡ s) × All (λ r. is_candidate now limit s.events r ≡ false) s.events
unfolding claim_row
claim_row-none owner until now limit s s' h =
    elim (Option-cases (first_where (is_candidate now limit s.events) s.events)) [
      | inl e ↦ (ground arith, first_where-none (is_candidate now limit s.events) s.events e)
      | inr (r, e) ↦ absurd (ground arith)
    ]

candidate_room :
    (now limit : ℕ) (rows : List InboundRow) (r : InboundRow)
    → is_candidate now limit rows r ≡ true
    → active_leases r.session now rows < max limit 1
unfolding is_candidate
candidate_room now limit rows r h = ground arith

-- A row whose lease has not run out is no candidate.
pub candidate_free :
    (now limit : ℕ) (rows : List InboundRow) (r : InboundRow)
    → is_candidate now limit rows r ≡ true
    → holds_lease r.session now r ≡ false
unfolding is_candidate
candidate_free now limit rows r h = ground arith

-- Leasing the chosen row leaves its session within the limit.
same_session_bound :
    (owner session : Text) (until now limit : ℕ) (rows : List InboundRow) (r : InboundRow)
    → UniqueIds rows
    → is_candidate now limit rows r ≡ true
    → r.session ≡ session
    → active_leases session now (update_where (has_id r.id) (leased owner until now) rows)
      ≤ max limit 1
unfolding active_leases
same_session_bound owner session until now limit rows r u c e = omega (
  arith,
  count_if-update-le (holds_lease session now) (has_id r.id) (leased owner until now) rows,
  u r.id,
  subst (λ t. active_leases t now rows < max limit 1) e (candidate_room now limit rows r c),
)

-- The other sessions get no lease.
other_session_kept :
    (owner session : Text) (until now : ℕ) (rows : List InboundRow) (r : InboundRow)
    → UniqueIds rows
    → In r rows
    → text_eq r.session session ≡ false
    → active_leases session now (update_where (has_id r.id) (leased owner until now) rows)
      ≤ active_leases session now rows
unfolding active_leases leased
other_session_kept owner session until now rows r u i ne =
    count_if-update_kept (holds_lease session now) (has_id r.id) (leased owner until now) rows
      (All-imp rows (λ x same hit held. absurd (other x (same hit) held)) (only_row r rows u i))
  where
    other : (x : InboundRow) → x ≡ r → holds_lease session now (leased owner until now x) ≡ true → ⊥
    other x same held = ground (arith, ap (λ (y : InboundRow). y.session) same)

-- A claim keeps every session within a limit that is at least the claim's own.
pub claim_row-leases :
    (owner session : Text) (until now limit n : ℕ) (s : Store)
    → UniqueIds s.events
    → limit ≤ n
    → 1 ≤ n
    → active_leases session now s.events ≤ n
    → active_leases session now (claim_row owner until now limit s).0.events ≤ n
unfolding claim_row
claim_row-leases owner session until now limit n s u le pos h =
    elim (Option-cases (first_where (is_candidate now limit s.events) s.events)) [
      | inl e ↦ rw (e, claim_row) h
      | inr (r, e) ↦
          let c : IsChoice (is_candidate now limit s.events) r s.events =
            first_where-some (is_candidate now limit s.events) s.events r e in
          rw (e, claim_row)
            (elim (Bool-cases (text_eq r.session session)) [
              | inl same ↦ omega (
                arith,
                same_session_bound owner session until now limit s.events r u c.0
                    ((text_eq_iff r.session session).0 same),
              )
              | inr other ↦
                  omega (arith, other_session_kept owner session until now s.events r u c.1 other)
            ])
    ]

pub claim_row-UniqueIds :
    (owner : Text) (until now limit : ℕ) (s : Store)
    → UniqueIds s.events
    → UniqueIds (claim_row owner until now limit s).0.events
unfolding claim_row leased
claim_row-UniqueIds owner until now limit s u =
    elim (Option-cases (first_where (is_candidate now limit s.events) s.events)) [
      | inl e ↦ rw (e, claim_row) u
      | inr (r, e) ↦
          rw (e, claim_row)
            (UniqueIds-update (has_id r.id) (leased owner until now) s.events (λ x. refl) u)
    ]

-- `item` is a due or abandoned row of a session with room, no such row goes before it, and no worker
-- held it; that row, and no other, is leased until the given time.
abbrev pub TakesFirst : ℕ → ℕ → ℕ → Text → Store → Store → Item → Type 0
TakesFirst limit now until owner s s' item =
    (r : InboundRow) × IsChoice (is_candidate now limit s.events) r s.events
    × (holds_lease r.session now r ≡ false)
    × (item ≡ item_of (leased owner until now r))
    × (s'.events ≡ update_where (has_id r.id) (leased owner until now) s.events)
    × (now < until)

-- A claim that returns an item took a due or abandoned row of a session with room; no such row goes
-- before it in the order of priority, event time, arrival and id; no worker held it. That row, and no
-- other, is leased until the given time, which lies ahead.
pub claim_first :
    (now until : ℕ) (owner : Text) (concurrency : List ℤ) (s s' : Store) (item : Item)
    → claim true now owner (some until) concurrency s ≡ (s', ok (some item))
    → TakesFirst
        (inbound_group_concurrency_value concurrency)
        now
        until
        (trim_space owner)
        s
        s'
        item
unfolding claim
claim_first now until owner concurrency s s' item h = (
  c.row,
  c.choice,
  candidate_free now limit s.events c.row c.choice.0,
  c.returned,
  c.updated,
  ground arith,
)
  where
    limit : ℕ
    limit = inbound_group_concurrency_value concurrency

    c : ClaimOf (trim_space owner) until now limit s s' item
    c = claim_row-some (trim_space owner) until now limit s s' item (ground arith)

-- A claim with a lease end that returns no item leaves the store as it was, and no row of it is due or
-- abandoned in a session with room.
pub claim_nothing :
    (now until : ℕ) (owner : Text) (concurrency : List ℤ) (s s' : Store)
    → claim true now owner (some until) concurrency s ≡ (s', ok none)
    → (s' ≡ s)
      × All
          (λ r. is_candidate now (inbound_group_concurrency_value concurrency) s.events r ≡ false)
          s.events
unfolding claim
claim_nothing now until owner concurrency s s' h =
    claim_row-none (trim_space owner) until now (inbound_group_concurrency_value concurrency) s s'
      (ground arith)
