-- ===== src/Outbound/Calls.antt =====
-- executeOutboundCall as a whole, by whether the group is blocked.
use diana_qq_bot.Prelude.{◌≡◌, refl, Bool, true, false, List, Option, none, some}
use diana_qq_bot.Prelude.Text.{Text, is_empty, trim_space}
use diana_qq_bot.Prelude.Assoc.{insert}
use diana_qq_bot.Event.{MessageEvent, is_group}
use diana_qq_bot.Outbound.Policy.{DeliveryPolicy}
use diana_qq_bot.Outbound.Groups.{GoError, blocked_error}
use diana_qq_bot.Outbound.Gate.{request, Turn, failed, deliver, Guard, gate_of, start, execute}

-- An event of a group, by its trimmed id.
pub record OfGroup (group_id : Text) (event : MessageEvent) : Type 0 where
  pub of_group : is_group event.kind ≡ true
  pub named : trim_space event.group_id ≡ group_id
  pub not_blank : is_empty group_id ≡ false

pub execute-retrying :
    (policy : Option DeliveryPolicy) (alternative : Bool) (event : MessageEvent)
    (action group_id : Text) (once : Turn) (ts : List Turn) (g : Guard)
    → OfGroup group_id event
    → blocked_error event g.groups ≡ none
    → let x = execute true policy alternative event action once ts g in
      let y = deliver (request policy alternative event action) ts (start (gate_of group_id g) g) in
      (x.0.deliveries ≡ insert group_id y.0.gate g.deliveries)
      × (x.0.groups ≡ y.0.groups)
      × (x.1 ≡ y.0)
      × (x.2 ≡ y.1)
unfolding execute
execute-retrying policy alternative event action group_id once ts g o b =
    rw (b, o.of_group, o.named, o.not_blank, execute) (refl, refl, refl, refl)

pub execute-blocked :
    (retries : Bool) (policy : Option DeliveryPolicy) (alternative : Bool) (event : MessageEvent)
    (action : Text) (once : Turn) (ts : List Turn) (g : Guard) (e : GoError)
    → blocked_error event g.groups ≡ some e
    → let x = execute retries policy alternative event action once ts g in
      (x.0 ≡ g) × (x.1.calls ≡ 0) × (x.2 ≡ some (failed e))
unfolding execute
execute-blocked retries policy alternative event action once ts g e b =
    rw (b, execute) (refl, refl, refl)
