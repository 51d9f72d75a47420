-- ===== src/Suppression/Intent.antt =====
-- The control tokens at the end of a reply.
use diana_qq_bot.Prelude.{ℕ, Bool, ◌&&◌, ◌++◌, if◌then◌else◌, ltb, length, take}
use diana_qq_bot.Prelude.Text.{Text, codes, trim_space}
use diana_qq_bot.Prelude.Search.{contains, remove_all}

abbrev pub reply_suppression_marker : Text
reply_suppression_marker = codes "[[DIANA_IGNORE_CURRENT_USER_30M]]"

abbrev pub reply_refusal_marker : Text
reply_refusal_marker = codes "[[DIANA_REFUSE_CURRENT]]"

pub record ReplyControlIntent : Type 0 where
  pub refuse_current : Bool
  pub suppress_current_user : Bool

unfoldable pub intent_of : Text → ReplyControlIntent
unfolding contains
intent_of reply = record {
  refuse_current = contains reply_refusal_marker reply;
  suppress_current_user = contains reply_suppression_marker reply;
}

unfoldable pub consume_reply_control_intent : Text → Text × ReplyControlIntent
unfolding intent_of remove_all
consume_reply_control_intent reply = (
  trim_space (remove_all reply_suppression_marker (remove_all reply_refusal_marker reply)),
  intent_of reply,
)

-- No limit where `max_runes` is 0 (the source's negative ones are the same).
unfoldable pub normalize_reply : Text → ℕ → Text
normalize_reply reply max_runes =
    let text = trim_space reply in
    if ltb 0 max_runes && ltb max_runes (length text)
    then take max_runes text ++ codes "..."
    else text

abbrev pub with_marker : Bool → Text → Text → Text
with_marker b marker text = if b then text ++ marker else text

unfoldable pub normalize_reply_preserving_control_intent : Text → ℕ → Text
unfolding consume_reply_control_intent normalize_reply
normalize_reply_preserving_control_intent reply max_runes =
    let (text, intent) = consume_reply_control_intent reply in
    with_marker intent.suppress_current_user reply_suppression_marker
      (with_marker intent.refuse_current reply_refusal_marker (normalize_reply text max_runes))
