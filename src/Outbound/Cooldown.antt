-- ===== src/Outbound/Cooldown.antt =====
-- After a dropped delivery: the cooldown of its group.
use diana_qq_bot.Prelude.{
  ℕ, ◌≤◌, ◌≡◌, refl, sym, ap, ◌∙◌, ◌⊎◌, inl, inr, Bool, true, List, ◌∷◌, Option, none, some, arith,
  ltb, Bool-cases, Option-cases, All,
}
use diana_qq_bot.Prelude.Text.{Text}
use diana_qq_bot.Prelude.Int64.{add_time}
use diana_qq_bot.Prelude.Assoc.{lookup, insert, lookup-insert_self}
use diana_qq_bot.Event.{MessageEvent}
use diana_qq_bot.Outbound.Policy.{DeliveryPolicy}
use diana_qq_bot.Outbound.Groups.{GoError, is_delivery_dropped, Gate, Delivery, blocked_error, emit}
use diana_qq_bot.Outbound.Gate.{
  request, Turn, Reply, failed, Request, drop_delivery, turn, deliver, Guard, gate_of, start,
  execute,
}
use diana_qq_bot.Outbound.Replies.{TurnForeign, wrap_error-undropped, deliver_rule}
use diana_qq_bot.Outbound.Calls.{OfGroup, execute-retrying, execute-blocked}

-- A reply that says the delivery was dropped leaves the gate in its cooldown.
abbrev Cools : Delivery × Option Reply → Type 0
Cools x =
    (e : GoError)
    → x.1 ≡ some (failed e)
    → is_delivery_dropped e ≡ true
    → (until : ℕ) × (x.0.gate.drop_until ≡ some until)

deliver-Cools :
    (q : Request) (ts : List Turn) (d : Delivery) → All TurnForeign ts → Cools (deliver q ts d)
unfolding drop_delivery emit
deliver-Cools q =
    deliver_rule q Cools (λ now d e h k. (add_time now q.policy.drop_cooldown, refl))
      (λ d g c until u e h k. (until, u)) (λ d w a b e h k. absurd (ground arith))
      (λ now answer w d f e h k.
        absurd (ground (arith, wrap_error-undropped now q.event answer w d f)))
      (λ d r o e h k. absurd (ground arith)) (λ d e h k. absurd (ground arith))

-- The gate's cooldown: a round that starts inside it calls nothing and changes nothing.
deliver_cooling :
    (q : Request) (t : Turn) (ts : List Turn) (d : Delivery) (until : ℕ)
    → t.ctx_error ≡ none
    → d.gate.drop_until ≡ some until
    → ltb t.now until ≡ true
    → (deliver q (t ∷ ts) d).0 ≡ d
unfolding deliver turn
deliver_cooling q t ts d until e u h = ground arith

gate_of-insert :
    (group_id : Text) (gate : Gate) (m : List (Text × Gate)) (g : Guard)
    → g.deliveries ≡ insert group_id gate m
    → gate_of group_id g ≡ gate
gate_of-insert group_id gate m g h =
    ground (arith, ap (lookup group_id) h, lookup-insert_self group_id gate m)

-- What a message to a group meets after one was dropped: the gate keeps its cooldown, and until that is
-- over nothing is sent.
abbrev pub Refuses : Text → Guard → ℕ → ℕ → Type 0
Refuses group_id g now calls =
    (until : ℕ) × ((gate_of group_id g).drop_until ≡ some until) × ((until ≤ now) ⊎ (calls ≡ 0))

second_call :
    (policy : Option DeliveryPolicy) (alternative : Bool) (event : MessageEvent)
    (action group_id : Text) (once t : Turn) (ts : List Turn) (g : Guard) (until : ℕ)
    → OfGroup group_id event
    → t.ctx_error ≡ none
    → (gate_of group_id g).drop_until ≡ some until
    → (until ≤ t.now) ⊎ ((execute true policy alternative event action once (t ∷ ts) g).1.calls ≡ 0)
second_call policy alternative event action group_id once t ts g until o c u =
    elim (Bool-cases (ltb t.now until)) [
      | inr over ↦ inl (ground arith)
      | inl cooling ↦ elim (Option-cases (blocked_error event g.groups)) [
        | inr (e, b) ↦
            inr (execute-blocked true policy alternative event action once (t ∷ ts) g e b).1
        | inl b ↦
            let runs =
              execute-retrying policy alternative event action group_id once (t ∷ ts) g o b in
            let idle =
              deliver_cooling (request policy alternative event action) t ts
                (start (gate_of group_id g) g) until c u cooling in
            inr (ap (λ (d : Delivery). d.calls) (runs.2 ∙ idle))
      ]
    ]

-- Once a message to a group that is not blocked has been dropped, the gate of the group keeps a
-- cooldown, and the next message to the group, under any policy and action and with a live context,
-- calls the API only when the cooldown is over. This is for a network whose errors are not the guard's
-- own.
pub cooldown-Refuses :
    (p p' : Option DeliveryPolicy) (alt alt' : Bool) (event event' : MessageEvent)
    (action action' group_id : Text) (once once' t' : Turn) (ts ts' : List Turn) (g : Guard)
    (e : GoError)
    → OfGroup group_id event
    → OfGroup group_id event'
    → blocked_error event g.groups ≡ none
    → All TurnForeign ts
    → (execute true p alt event action once ts g).2 ≡ some (failed e)
    → is_delivery_dropped e ≡ true
    → t'.ctx_error ≡ none
    → let g' = (execute true p alt event action once ts g).0 in
      Refuses group_id g' t'.now (execute true p' alt' event' action' once' (t' ∷ ts') g').1.calls
cooldown-Refuses p p' alt alt' event event' action action' group_id once once' t' ts ts' g e o o' b
      f h k c =
    let runs = execute-retrying p alt event action group_id once ts g o b in
    let cooled =
      deliver-Cools (request p alt event action) ts (start (gate_of group_id g) g) f e
        (sym (runs.3) ∙ h) k in
    let kept =
      gate_of-insert group_id _ g.deliveries (execute true p alt event action once ts g).0
        (runs.0) in
    let until_is = ap (λ (x : Gate). x.drop_until) kept ∙ cooled.1 in
    (
      cooled.0,
      until_is,
      second_call p' alt' event' action' group_id once' t' ts'
          (execute true p alt event action once ts g).0 cooled.0 o' c until_is,
    )
