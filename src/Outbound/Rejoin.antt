-- ===== src/Outbound/Rejoin.antt =====
-- ignoreUnavailableGroupEvent: events of a group that the bot has left.
use diana_qq_bot.Prelude.{
  ℕ, ◌*◌, ◌≡◌, refl, ap, ◌∙◌, ◌||◌, Bool, not, true, false, List, Option-cases, none, some, leb,
  ◌==◌, Bool-cases, inl, inr, if◌then◌else◌, arith,
}
use diana_qq_bot.Prelude.Text.{Text, text_eq, text_eq_refl, is_empty, trim_space}
use diana_qq_bot.Prelude.Int64.{ℤ, pos, negsuc}
use diana_qq_bot.Prelude.Assoc.{lookup, insert, lookup-insert, lookup-insert_self, lookup-delete}
use diana_qq_bot.Event.{MessageEvent, is_group}
use diana_qq_bot.Outbound.Groups.{
  UnavailableGroup, GoError, Delivery, is_some, emit, error_text, block_reason, mark_unavailable,
  blocked_error, unblock, ignore_event, is_newer,
}
use diana_qq_bot.Outbound.Calls.{OfGroup}

-- The time of an event in nanoseconds since 1970, and 0 before.
abbrev pub nanoseconds : ℤ → ℕ
nanoseconds (pos n) = n * 1000000000
nanoseconds (negsuc n) = 0

is_newer-nanoseconds :
    (t : ℤ) (blocked : ℕ) → is_newer t blocked ≡ not (leb (nanoseconds t) blocked)
is_newer-nanoseconds (pos n) blocked = ground arith
is_newer-nanoseconds (negsuc n) blocked = ground arith

marked :
    (now : ℕ) (event : MessageEvent) (group_id : Text) (cause : GoError) (d : Delivery)
    → OfGroup group_id event
    → lookup group_id d.groups ≡ none
    → (reason : Text) × ((mark_unavailable now event cause d).groups
        ≡ insert group_id (record { blocked_at = now; reason = reason }) d.groups)
unfolding mark_unavailable emit
marked now event group_id cause d o h =
    (block_reason (error_text cause), rw (o.named, o.not_blank, h, mark_unavailable) refl)

refused :
    (event : MessageEvent) (group_id : Text) (m : List (Text × UnavailableGroup))
    → OfGroup group_id event
    → is_some (blocked_error event m) ≡ is_some (lookup group_id m)
unfolding blocked_error
refused event group_id m o = elim (Option-cases (lookup group_id m)) [
  | inl e ↦ rw (o.of_group, o.named, o.not_blank, e, blocked_error) refl
  | inr (u, e) ↦ rw (o.of_group, o.named, o.not_blank, e, blocked_error) refl
]

ignore_event-blocked :
    (event : MessageEvent) (seen current : List (Text × UnavailableGroup)) (u : UnavailableGroup)
    → is_group event.kind ≡ true
    → is_empty (trim_space event.group_id) ≡ false
    → lookup (trim_space event.group_id) seen ≡ some u
    → ignore_event event seen current ≡ (
        if is_newer event.time u.blocked_at
        then (false, unblock (trim_space event.group_id) u current)
        else (true, current))
unfolding ignore_event
ignore_event-blocked event seen current u k e h = rw (k, e, h, ignore_event) refl

-- The same by the name of the group, and by the times in nanoseconds.
ignore_event-named :
    (event : MessageEvent) (group_id : Text) (seen current : List (Text × UnavailableGroup))
    (u : UnavailableGroup)
    → OfGroup group_id event
    → lookup group_id seen ≡ some u
    → ignore_event event seen current ≡ (
        if not (leb (nanoseconds event.time) u.blocked_at)
        then (false, unblock group_id u current)
        else (true, current))
ignore_event-named event group_id seen current u o h =
    ignore_event-blocked event seen current u o.of_group (ap is_empty o.named ∙ o.not_blank)
      (ap (λ (t : Text). lookup t seen) o.named ∙ h)
    ∙ ap
        (λ (t : Text).
          if is_newer event.time u.blocked_at
          then (false, unblock t u current)
          else (true, current))
        o.named
    ∙ ap (λ (b : Bool). if b then (false, unblock group_id u current) else (true, current))
        (is_newer-nanoseconds event.time u.blocked_at)

-- The lift takes away the block that was read, and no other.
unblock-lookup :
    (group_id other : Text) (u c : UnavailableGroup) (m : List (Text × UnavailableGroup))
    → text_eq group_id other ≡ false
    → lookup group_id m ≡ some c
    → (is_some (lookup group_id (unblock group_id u m)) ≡ not (c.blocked_at == u.blocked_at))
      × (lookup other (unblock group_id u m) ≡ lookup other m)
unfolding unblock
unblock-lookup group_id other u c m ne h = elim (Bool-cases (c.blocked_at == u.blocked_at)) [
  | inl e ↦
      rw (h, e, unblock) (rw lookup-delete (rw text_eq_refl refl), rw lookup-delete (rw ne refl))
  | inr e ↦ rw (h, e, unblock) (rw h refl, refl)
]

-- What an event does to the block that is read and to the one that stands at the lift.
lifts :
    (sent event : MessageEvent) (group_id other : Text)
    (seen current : List (Text × UnavailableGroup)) (u c : UnavailableGroup)
    → OfGroup group_id sent
    → OfGroup group_id event
    → text_eq group_id other ≡ false
    → lookup group_id seen ≡ some u
    → lookup group_id current ≡ some c
    → let result = ignore_event event seen current in
      (result.0 ≡ leb (nanoseconds event.time) u.blocked_at)
      × (is_some (blocked_error sent result.1)
          ≡ (leb (nanoseconds event.time) u.blocked_at || not (c.blocked_at == u.blocked_at)))
      × (lookup other result.1 ≡ lookup other current)
lifts sent event group_id other seen current u c os oe ne h h' =
    let same = ignore_event-named event group_id seen current u oe h in
    elim (Bool-cases (leb (nanoseconds event.time) u.blocked_at)) [
      | inl old ↦ rw same (rw old (refl, refused sent group_id current os ∙ ap is_some h', refl))
      | inr new ↦
          let (mine, others) = unblock-lookup group_id other u c current ne h' in
          rw same
            (rw new (refl, refused sent group_id (unblock group_id u current) os ∙ mine, others))
    ]

-- A failed send blocks a group that was not blocked at some time; an event of the group reads this
-- block, and when it comes to lift it the group has a block of a second time, which another send may
-- have put there. Then the event is ignored exactly if its own time, taken as the start of 1970 where
-- it is earlier, is not after the first block; sends to the group are still refused exactly if the
-- event is ignored or the two blocks differ in time; and any other group is blocked or free as it was
-- before the second block.
pub ignore_event-mark_unavailable :
    (t t' : ℕ) (sent event : MessageEvent) (group_id other : Text) (cause cause' : GoError)
    (d d' : Delivery)
    → OfGroup group_id sent
    → OfGroup group_id event
    → text_eq group_id other ≡ false
    → lookup group_id d.groups ≡ none
    → lookup group_id d'.groups ≡ none
    → let seen = (mark_unavailable t sent cause d).groups in
      let current = (mark_unavailable t' sent cause' d').groups in
      let result = ignore_event event seen current in
      (result.0 ≡ leb (nanoseconds event.time) t)
      × (is_some (blocked_error sent result.1) ≡ (leb (nanoseconds event.time) t || not (t' == t)))
      × (lookup other result.1 ≡ lookup other d'.groups)
ignore_event-mark_unavailable t t' sent event group_id other cause cause' d d' os oe ne h h' =
    let (reason, e) = marked t sent group_id cause d os h in
    let (reason', e') = marked t' sent group_id cause' d' os h' in
    let fresh : UnavailableGroup = record { blocked_at = t'; reason = reason' } in
    let known : lookup other (insert group_id fresh d'.groups) ≡ lookup other d'.groups =
      rw lookup-insert (rw ne refl) in
    let (ignored, sends, others) =
      (lifts sent event group_id other
        (insert group_id (record { blocked_at = t; reason = reason }) d.groups)
        (insert group_id (record { blocked_at = t'; reason = reason' }) d'.groups)
        (record { blocked_at = t; reason = reason }) (record { blocked_at = t'; reason = reason' })
        os oe ne (lookup-insert_self group_id (record { blocked_at = t; reason = reason }) d.groups)
        (lookup-insert_self group_id (record { blocked_at = t'; reason = reason' }) d'.groups)) in
    rw (e, e') (ignored, sends, others ∙ known)
