-- ===== src/Suppression/History.antt =====
-- Sequences of calls on the suppressions.
use diana_qq_bot.Prelude.{ℕ, ◌≤◌, Bool, true, false, List, [], ◌∷◌, Option, none, some, ◌≡◌}
use diana_qq_bot.Prelude.Text.{Text, text_eq, trim_space}
use diana_qq_bot.Event.{MessageEvent}
use diana_qq_bot.Suppression.State.{Roles, LoopCandidate, LoopDecision, Suppressions}
use diana_qq_bot.Suppression.Intent.{ReplyControlIntent}
use diana_qq_bot.Suppression.Active.{
  activate_reply_suppression, active_reply_suppression, clear_reply_suppression,
  list_reply_suppressions, start_suppressions,
}
use diana_qq_bot.Suppression.Hits.{register_reply_refusal, register_bot_reply_loop_decision}
use diana_qq_bot.Suppression.AfterSend.{apply_reply_control_after_send}
use diana_qq_bot.Suppression.Owner.{
  owner_command_kind, command_target, handle_owner_command, listing, release,
}

pub data Action : Type 0 where
  activates : MessageEvent → (reason : Text) → Action
  looks : MessageEvent → Action
  clears : (user_id : Text) → Action
  decides : MessageEvent → LoopCandidate → LoopDecision → Action
  refuses : MessageEvent → Action
  sends : (noticed : Bool) → MessageEvent → (reply : Text) → ReplyControlIntent → Action
  commands : MessageEvent → (text : Text) → Action
  lists : Action
  restarts : Action

-- An action at a time, and whether the store takes what it saves.
pub record Call : Type 0 where
  pub now : ℕ
  pub written : Bool
  pub action : Action

-- `roles` gives the configuration in effect for an event.
abbrev pub act : (MessageEvent → Roles) → ℕ → Bool → Action → Suppressions → Suppressions
act roles now written (activates event reason) s =
    (activate_reply_suppression (roles event) written event reason now s).0
act roles now written (looks event) s = (active_reply_suppression (roles event) event now s).0
act roles now written (clears user_id) s = (clear_reply_suppression written user_id s).0
act roles now written (decides event candidate decision) s =
    (register_bot_reply_loop_decision event candidate decision now s).0
act roles now written (refuses event) s = (register_reply_refusal (roles event) event now s).0
act roles now written (sends noticed event reply intent) s =
    apply_reply_control_after_send (roles event) written noticed event reply intent now s
act roles now written (commands event text) s =
    (handle_owner_command (roles event) written event text now s).0
act roles now written lists s = (list_reply_suppressions now s).0
act roles now written restarts s = start_suppressions now s.saved

abbrev pub run : (MessageEvent → Roles) → List Call → Suppressions → Suppressions
run roles [] s = s
run roles (c ∷ cs) s = run roles cs (act roles c.now c.written c.action s)

abbrev targets : Text → Option Text → Bool
targets user none = false
targets user (some id) = text_eq (trim_space id) user

-- Whether an action lifts the suppression of a user, or starts the runtime anew.
abbrev pub lifts : (MessageEvent → Roles) → Text → Action → Bool
lifts roles user (clears user_id) = text_eq (trim_space user_id) user
lifts roles user (commands event text) = elim (owner_command_kind text) [
  | none ↦ false
  | some listing ↦ false
  | some release ↦ targets user (command_target event text (roles event))
]
lifts roles user restarts = true
lifts roles user _ = false

-- The calls are in the order of their times, from a time on, and the store takes what they save.
abbrev pub Timely : ℕ → List Call → Type 0
Timely from [] = Unit
Timely from (c ∷ cs) = (from ≤ c.now) × (c.written ≡ true) × Timely c.now cs

abbrev pub last_time : ℕ → List Call → ℕ
last_time from [] = from
last_time from (c ∷ cs) = last_time c.now cs
