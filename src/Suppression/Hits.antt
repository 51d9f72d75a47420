-- ===== src/Suppression/Hits.antt =====
-- The hits that lead to a suppression: refused requests, and replies that another bot seems to write.
use diana_qq_bot.Prelude.{
  ℕ, ◌*◌, ◌/◌, ◌^◌, Bool, true, false, ◌&&◌, ◌||◌, not, List, [], ◌∷◌, ◌++◌, Option, none, some,
  if◌then◌else◌, ltb, leb, ◌==◌, length, keep,
}
use diana_qq_bot.Prelude.Text.{Text, codes, text_eq, is_empty, trim_space}
use diana_qq_bot.Prelude.Assoc.{lookup, insert, delete}
use diana_qq_bot.Prelude.Hash.{decimal}
use diana_qq_bot.Prelude.Int64.{pos, negsuc, lez, sub_time}
use diana_qq_bot.Event.{MessageEvent, session_key}
use diana_qq_bot.Suppression.State.{
  Roles, RefusalHit, LoopDecision, counts, LoopCandidate, LoopHit, LoopState, Suppressions, minute,
  reply_refusal_threshold, reply_refusal_window, bot_reply_loop_threshold, bot_reply_loop_window,
}

-- `age >= 0 && age <= window`.
unfoldable pub in_window : ℕ → ℕ → ℕ → Bool
in_window window now observed_at =
    let age = sub_time now observed_at in lez (pos 0) age && lez age (pos window)

abbrev pub hits_of : Option (List RefusalHit) → List RefusalHit
hits_of none = []
hits_of (some hits) = hits

abbrev pub recent_refusals : ℕ → List RefusalHit → List RefusalHit
recent_refusals now hits = keep (λ h. in_window reply_refusal_window now h.observed_at) hits

unfoldable pub has_key : Text → List RefusalHit → Bool
has_key key [] = false
has_key key (h ∷ hs) = text_eq h.message_key key || has_key key hs

unfoldable pub message_key : MessageEvent → Text
message_key event = session_key event ++ (0 ∷ trim_space event.message_id)

unfoldable pub refusal_reason : ℕ → Text
refusal_reason count =
    codes "通用拒答："
    ++ (decimal (reply_refusal_window / minute)
        ++ (codes " 分钟内累计 " ++ (decimal count ++ codes " 次已成功发送的当前消息拒答")))

-- The hits after a refusal, and whether the threshold is reached: a message that has been counted is
-- not counted again.
unfoldable pub count_refusal : MessageEvent → ℕ → List RefusalHit → List RefusalHit × Bool
unfolding in_window has_key message_key
count_refusal event now old =
    let hits = recent_refusals now old in
    let key = message_key event in
    let more = hits ++ (record { message_key = key; observed_at = now } ∷ []) in
    if not (is_empty (trim_space event.message_id)) && has_key key hits
    then (hits, false)
    else (more, leb reply_refusal_threshold (length more))

-- The number of hits, the reason, and whether the threshold is reached.
unfoldable pub register_reply_refusal :
    Roles → MessageEvent → ℕ → Suppressions → Suppressions × ℕ × Text × Bool
unfolding count_refusal refusal_reason
register_reply_refusal roles event now s =
    let id = trim_space event.user_id in
    let (hits, reached) = count_refusal event now (hits_of (lookup id s.refusals)) in
    if is_empty id || text_eq id (trim_space roles.owner_id) || text_eq id (trim_space roles.bot_qq)
    then (s, 0, [], false)
    else (
      record s { refusals = insert id hits s.refusals },
      length hits,
      if reached then refusal_reason (length hits) else [],
      reached,
    )

unfoldable pub bot_reply_loop_key : MessageEvent → Text → Text
bot_reply_loop_key event user_id = session_key event ++ (0 ∷ trim_space user_id)

abbrev pub loop_hits_of : Option LoopState → List LoopHit
loop_hits_of none = []
loop_hits_of (some state) = state.hits

abbrev pub recent_loop_hits : ℕ → List LoopHit → List LoopHit
recent_loop_hits now hits = keep (λ h. in_window bot_reply_loop_window now h.observed_at) hits

unfoldable pub has_message : Text → List LoopHit → Bool
has_message id [] = false
has_message id (h ∷ hs) = text_eq h.message_id id || has_message id hs

-- The time of the event, where it has one.
unfoldable pub observed_at : MessageEvent → ℕ → ℕ
observed_at event now = elim event.time [
  | pos seconds ↦ if ltb 0 seconds then seconds * 10 ^ 9 else now
  | negsuc _ ↦ now
]

unfoldable pub loop_reason : ℕ → Text → Text
loop_reason count confidence =
    codes "AI 发言检测："
    ++ (decimal (bot_reply_loop_window / minute)
        ++ (codes " 分钟内累计 " ++ (decimal count ++ (codes " 次高置信度自动 AI 回复，本次置信度 " ++ confidence))))

abbrev with_hits : Text → Text → List LoopHit → Suppressions → Suppressions
with_hits key user_id hits s = record s {
  loops = insert key (record { user_id = user_id; hits = hits }) s.loops;
}

unfoldable pub register_bot_reply_loop_decision :
    MessageEvent → LoopCandidate → LoopDecision → ℕ → Suppressions → Suppressions × ℕ × Text × Bool
unfolding bot_reply_loop_key in_window has_message observed_at loop_reason
register_bot_reply_loop_decision event candidate decision now s =
    let user_id = trim_space event.user_id in
    let key = bot_reply_loop_key event user_id in
    let at = observed_at event now in
    let hits = recent_loop_hits at (loop_hits_of (lookup key s.loops)) in
    let id = trim_space event.message_id in
    let more =
      hits
      ++ (record {
        message_id = id;
        quoted_message_id = candidate.quoted_message_id;
        trigger_kind = candidate.trigger_kind;
        confidence = decision.confidence;
        observed_at = at;
      }
          ∷ []) in
    let forgotten = record s { loops = delete key s.loops } in
    if not (counts decision)
    then (
      if length hits == 0 then forgotten else with_hits key user_id hits s,
      length hits,
      [],
      false,
    )
    else if not (is_empty id) && has_message id hits
    then (with_hits key user_id hits s, length hits, [], false)
    else if ltb (length more) bot_reply_loop_threshold
    then (with_hits key user_id more s, length more, [], false)
    else (forgotten, length more, loop_reason (length more) decision.confidence.shown, true)
