-- ===== src/Outbound/Gone.antt =====
-- After the API has said that the bot has left a group: the block of the group.
use diana_qq_bot.Prelude.{
  ℕ, ◌≡◌, refl, sym, ap, ◌∙◌, inl, inr, Bool, true, false, List, Option, none, some, arith,
  Bool-cases, Option-cases, All,
}
use diana_qq_bot.Prelude.Text.{Text, is_empty, trim_space}
use diana_qq_bot.Prelude.Assoc.{lookup, lookup-insert_self}
use diana_qq_bot.Event.{MessageEvent}
use diana_qq_bot.Outbound.Policy.{DeliveryPolicy}
use diana_qq_bot.Outbound.Groups.{
  UnavailableGroup, GoError, plain, outbound, is_group_unavailable, Delivery, GroupList, wrap_error,
  mark_unavailable, blocked_error, is_some, emit,
}
use diana_qq_bot.Outbound.Gate.{
  request, Turn, Reply, failed, Request, group_of, drop_delivery, deliver, Guard, gate_of, start,
  execute,
}
use diana_qq_bot.Outbound.Replies.{IsForeign, TurnForeign, deliver_rule}
use diana_qq_bot.Outbound.Calls.{OfGroup, execute-retrying, execute-blocked}

-- A reply that a group is gone leaves the group blocked.
abbrev Blocks : Text → Delivery × Option Reply → Type 0
Blocks group_id x =
    (e : GoError)
    → x.1 ≡ some (failed e)
    → is_group_unavailable e ≡ true
    → is_some (lookup group_id x.0.groups) ≡ true

mark_unavailable-Blocks :
    (now : ℕ) (event : MessageEvent) (e : GoError) (d : Delivery)
    → is_empty (trim_space event.group_id) ≡ false
    → is_some (lookup (trim_space event.group_id) (mark_unavailable now event e d).groups) ≡ true
unfolding mark_unavailable emit
mark_unavailable-Blocks now event e d full =
    elim (Bool-cases (is_some (lookup (trim_space event.group_id) d.groups))) [
      | inl old ↦ rw (full, old, mark_unavailable) old
      | inr new ↦ rw (full, new, mark_unavailable, lookup-insert_self) refl
    ]

wrap_error-Blocks :
    (now : ℕ) (event : MessageEvent) (answer : GroupList) (e : GoError) (d : Delivery)
    → IsForeign e
    → is_group_unavailable (wrap_error now event answer e d).1 ≡ true
    → is_some (lookup (trim_space event.group_id) (wrap_error now event answer e d).0.groups) ≡ true
unfolding wrap_error
wrap_error-Blocks now event answer (outbound g c u dr) d f h = absurd f
wrap_error-Blocks now event answer (plain t) d f h =
    ground (arith, mark_unavailable-Blocks now event (plain t) d)

deliver-Blocks :
    (q : Request) (ts : List Turn) (d : Delivery)
    → All TurnForeign ts
    → Blocks (group_of q) (deliver q ts d)
unfolding drop_delivery emit
deliver-Blocks q =
    deliver_rule q (Blocks (group_of q)) (λ now d e h k. absurd (ground arith))
      (λ d g c until u e h k. absurd (ground arith)) (λ d w a b e h k. absurd (ground arith))
      (λ now answer w d f e h k. wrap_error-Blocks now q.event answer w d f (ground arith))
      (λ d r o e h k. absurd (ground arith)) (λ d e h k. absurd (ground arith))

blocked_of_lookup :
    (event : MessageEvent) (group_id : Text) (m : List (Text × UnavailableGroup))
    → OfGroup group_id event
    → is_some (lookup group_id m) ≡ true
    → (e : GoError) × (blocked_error event m ≡ some e) × (is_group_unavailable e ≡ true)
unfolding blocked_error
blocked_of_lookup event group_id m o h = elim (Option-cases (lookup group_id m)) [
  | inl e ↦ absurd (ground arith)
  | inr (u, e) ↦ elim (Option-cases (blocked_error event m)) [
    | inl f ↦ absurd (ground (arith, ap (λ (t : Text). lookup t m) o.named, ap is_empty o.named))
    | inr (x, f) ↦
        (x, f, ground (arith, ap (λ (t : Text). lookup t m) o.named, ap is_empty o.named))
  ]
]

-- Once a message to a group that was not blocked has been told that the group is gone, any message to
-- the group right after it leaves the guard as it was, does not call the API and is refused as
-- unavailable. This is for a network whose errors are not the guard's own.
pub gone_refuses :
    (p p' : Option DeliveryPolicy) (alt alt' retries : Bool) (event event' : MessageEvent)
    (action action' group_id : Text) (once once' : Turn) (ts ts' : List Turn) (g : Guard)
    (e : GoError)
    → OfGroup group_id event
    → OfGroup group_id event'
    → blocked_error event g.groups ≡ none
    → All TurnForeign ts
    → (execute true p alt event action once ts g).2 ≡ some (failed e)
    → is_group_unavailable e ≡ true
    → let g' = (execute true p alt event action once ts g).0 in
      let x = execute retries p' alt' event' action' once' ts' g' in
      (x.0 ≡ g')
      × (x.1.calls ≡ 0)
      × ((e' : GoError) × (x.2 ≡ some (failed e')) × (is_group_unavailable e' ≡ true))
gone_refuses p p' alt alt' retries event event' action action' group_id once once' ts ts' g e o o' b
      f h k =
    let runs = execute-retrying p alt event action group_id once ts g o b in
    let marked =
      deliver-Blocks (request p alt event action) ts (start (gate_of group_id g) g) f e
        (sym (runs.3) ∙ h) k in
    let known : is_some (lookup group_id (execute true p alt event action once ts g).0.groups)
        ≡ true =
      rw (runs.1) (rw (o.named) at marked) in
    let (e', said, gone) =
      blocked_of_lookup event' group_id (execute true p alt event action once ts g).0.groups o'
        known in
    let still =
      execute-blocked retries p' alt' event' action' once' ts'
        (execute true p alt event action once ts g).0 e' said in
    (still.0, still.1, (e', still.2, gone))
