-- ===== src/Suppression/State.antt =====
-- The data of the reply suppression: the suppressions by user, and the hits that lead to one.
use diana_qq_bot.Prelude.{ℕ, ◌*◌, ◌^◌, Bool, ◌&&◌, List, Option}
use diana_qq_bot.Prelude.Text.{Text}

abbrev pub minute : ℕ
minute = 60 * 10 ^ 9

abbrev pub reply_suppression_duration : ℕ
reply_suppression_duration = 30 * minute

abbrev pub reply_refusal_threshold : ℕ
reply_refusal_threshold = 3

abbrev pub reply_refusal_window : ℕ
reply_refusal_window = 30 * minute

abbrev pub bot_reply_loop_threshold : ℕ
bot_reply_loop_threshold = 3

abbrev pub bot_reply_loop_window : ℕ
bot_reply_loop_window = 30 * minute

-- What the component reads of the configuration in effect for an event.
pub record Roles : Type 0 where
  pub owner_id : Text
  pub bot_qq : Text

pub record ReplySuppression : Type 0 where
  pub user_id : Text
  pub group_id : Text
  pub trigger_message_id : Text
  pub reason : Text
  pub created_at : ℕ
  pub until : ℕ

pub record RefusalHit : Type 0 where
  pub message_key : Text
  pub observed_at : ℕ

-- A confidence is a float: whether it is at least 0.90, whether it is at most 1, and its %.2f.
pub record Confidence : Type 0 where
  pub reaches_threshold : Bool
  pub at_most_one : Bool
  pub shown : Text

pub record LoopDecision : Type 0 where
  pub automated_ai_reply : Bool
  pub confidence : Confidence

unfoldable pub counts : LoopDecision → Bool
counts d = d.automated_ai_reply && d.confidence.reaches_threshold && d.confidence.at_most_one

pub record LoopCandidate : Type 0 where
  pub trigger_kind : Text
  pub quoted_message_id : Text

pub record LoopHit : Type 0 where
  pub message_id : Text
  pub quoted_message_id : Text
  pub trigger_kind : Text
  pub confidence : Confidence
  pub observed_at : ℕ

pub record LoopState : Type 0 where
  pub user_id : Text
  pub hits : List LoopHit

-- The maps of the runtime, and the rows of the store, if it has one.
pub record Suppressions : Type 0 where
  pub by_user : List (Text × ReplySuppression)
  pub refusals : List (Text × List RefusalHit)
  pub loops : List (Text × LoopState)
  pub saved : Option (List ReplySuppression)
