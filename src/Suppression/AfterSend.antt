-- ===== src/Suppression/AfterSend.antt =====
-- What follows from the control tokens of a reply that has been sent.
use diana_qq_bot.Prelude.{ℕ, Bool, ◌&&◌, none, some, not, if◌then◌else◌}
use diana_qq_bot.Prelude.Text.{Text}
use diana_qq_bot.Event.{MessageEvent}
use diana_qq_bot.Suppression.State.{Roles, Suppressions}
use diana_qq_bot.Suppression.Intent.{ReplyControlIntent}
use diana_qq_bot.Suppression.Active.{active_reply_suppression, activate_reply_suppression}
use diana_qq_bot.Suppression.Hits.{register_reply_refusal}

-- A refusal by a user that is not suppressed. `noticed` is whether the notice of the pause gets out.
unfoldable pub refuse : Roles → Bool → Bool → MessageEvent → ℕ → Suppressions → Suppressions
unfolding register_reply_refusal activate_reply_suppression
refuse roles written noticed event now s =
    let (counted, _, reason, reached) = register_reply_refusal roles event now s in
    if reached && noticed
    then (activate_reply_suppression roles written event reason now counted).0
    else counted

unfoldable pub apply_reply_control_after_send :
    Roles → Bool → Bool → MessageEvent → Text → ReplyControlIntent → ℕ → Suppressions → Suppressions
unfolding activate_reply_suppression active_reply_suppression refuse
apply_reply_control_after_send roles written noticed event reply intent now s =
    let (looked, blocked) = active_reply_suppression roles event now s in
    if intent.suppress_current_user
    then (activate_reply_suppression roles written event reply now s).0
    else if not intent.refuse_current
    then s
    else elim blocked [ some item ↦ looked | none ↦ refuse roles written noticed event now looked ]
