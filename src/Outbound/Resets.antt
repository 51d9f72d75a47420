-- ===== src/Outbound/Resets.antt =====
-- After a delivery that got through.
use diana_qq_bot.Prelude.{◌≡◌, List, Option, some, arith, All}
use diana_qq_bot.Prelude.Text.{Text}
use diana_qq_bot.Outbound.Groups.{Delivery, emit}
use diana_qq_bot.Outbound.Gate.{Turn, Reply, delivered, open_gate, Request, drop_delivery, deliver}
use diana_qq_bot.Outbound.Replies.{TurnForeign, deliver_rule}

-- A delivery that got through leaves the gate as new.
abbrev Opens : Delivery × Option Reply → Type 0
Opens x = (r : Text) → x.1 ≡ some (delivered r) → x.0.gate ≡ open_gate

deliver-Opens :
    (q : Request) (ts : List Turn) (d : Delivery) → All TurnForeign ts → Opens (deliver q ts d)
unfolding drop_delivery emit
deliver-Opens q =
    deliver_rule q Opens (λ now d r h. absurd (ground arith))
      (λ d g c until u r h. absurd (ground arith)) (λ d w a b r h. absurd (ground arith))
      (λ now answer w d f r h. absurd (ground arith)) (λ d r o r' h. o)
      (λ d r h. absurd (ground arith))

-- Where no error of the network is the guard's own, a delivery that the API answers leaves its gate as
-- new: no failures counted, no attempt due, no cooldown, no error kept.
pub deliver-Resets :
    (q : Request) (ts : List Turn) (d : Delivery) (r : Text)
    → All TurnForeign ts
    → (deliver q ts d).1 ≡ some (delivered r)
    → (deliver q ts d).0.gate ≡ open_gate
deliver-Resets q ts d r f h = deliver-Opens q ts d f r h
