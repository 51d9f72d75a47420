-- ===== src/Suppression/Tests.antt =====
-- The suppressions at concrete inputs.
use diana_qq_bot.Prelude.{
  ◌+◌, ◌*◌, ◌^◌, ◌≤◌, ◌≡◌, refl, true, false, ◌&&◌, List, [], ◌∷◌, ◌++◌, none, some, arith,
  count_if,
}
use diana_qq_bot.Prelude.Text.{Text, codes, trim_space, text_eq}
use diana_qq_bot.Prelude.Assoc.{lookup, insert}
use diana_qq_bot.Suppression.AfterSend.{apply_reply_control_after_send}
use diana_qq_bot.Prelude.Hash.{decimal}
use diana_qq_bot.Prelude.Int64.{pos}
use diana_qq_bot.Event.{MessageEvent, group, session_key}
use diana_qq_bot.Suppression.State.{
  Roles, ReplySuppression, Suppressions, minute, reply_refusal_window,
}
use diana_qq_bot.Suppression.Intent.{
  ReplyControlIntent, reply_refusal_marker, consume_reply_control_intent,
  normalize_reply_preserving_control_intent,
}
use diana_qq_bot.Suppression.Active.{
  activate_reply_suppression, active_reply_suppression, start_suppressions,
}
use diana_qq_bot.Suppression.Hits.{in_window, register_reply_refusal}
use diana_qq_bot.Suppression.Owner.{
  owner_command_kind, listing, release, qq_numbers, format_remaining,
}
use diana_qq_bot.Suppression.History.{Call, refuses, sends, looks, clears, restarts, activates, run}
use diana_qq_bot.Suppression.Kept.{normalize-keeps_intent}
use diana_qq_bot.Suppression.Blocked.{suppressed_until}
use diana_qq_bot.Suppression.Restart.{restart_answers}
use diana_qq_bot.Suppression.Refusals.{asks}
use diana_qq_bot.Suppression.Threshold.{threshold_asks}

abbrev message_by : Text → Text → MessageEvent
message_by user_id message_id = record {
  kind = group;
  sub_type = [];
  time = pos 0;
  original_time = pos 0;
  self_id = codes "1000";
  user_id = user_id;
  operator_id = [];
  operator_name = [];
  operator_role = [];
  group_id = codes "7";
  message_id = message_id;
  message_seq = [];
  message_type = [];
  raw_message = [];
  segments = [];
  sender_name = [];
  sender_role = [];
  sender_level = [];
  to_me = false;
  quoted = none;
  semantic_source_message_id = [];
}

abbrev same_roles : MessageEvent → Roles
same_roles event = record { owner_id = codes "1"; bot_qq = codes "1000" }

abbrev nobody : Suppressions
nobody = record { by_user = []; refusals = []; loops = []; saved = some [] }

abbrev first_message : MessageEvent
first_message = message_by (codes " 20 ") (codes "m1")

abbrev the_suppression : ReplySuppression
the_suppression = record {
  user_id = codes "20";
  group_id = codes "7";
  trigger_message_id = codes "m1";
  reason = codes "r";
  created_at = 5;
  until = 5 + 30 * minute;
}

abbrev later_calls : List Call
later_calls =
    record { now = 6; written = false; action = looks (message_by (codes "20") (codes "m2")) }
    ∷ record { now = 30 * minute; written = true; action = clears (codes "21") }
    ∷ []

activates_once :
    (activate_reply_suppression
      (same_roles first_message)
      true
      first_message
      (codes " r")
      5
      nobody).1
    ≡ some the_suppression
unfolding activate_reply_suppression trim_space text_eq lookup
activates_once = refl

suppressed_until_example :
    (active_reply_suppression
      (same_roles first_message)
      (message_by (codes "20") (codes "m3"))
      (4 + 30 * minute)
      (run same_roles later_calls
        (activate_reply_suppression
          (same_roles first_message)
          true
          first_message
          (codes " r")
          5
          nobody).0)).1
    ≡ some the_suppression
unfolding trim_space text_eq
suppressed_until_example =
    suppressed_until same_roles true first_message (codes " r") 5 nobody the_suppression later_calls
      (message_by (codes "20") (codes "m3")) (4 + 30 * minute) activates_once
      ((omega arith, refl), ((omega arith, refl), tt)) refl refl (omega arith)

abbrev written_calls : List Call
written_calls =
    record { now = 6; written = true; action = activates first_message (codes "r") }
    ∷ record { now = 9; written = true; action = restarts }
    ∷ []

restart_answers_example :
    let s = run same_roles written_calls (start_suppressions 5 (some [])) in
    (active_reply_suppression
      (same_roles first_message)
      first_message
      10
      (start_suppressions 10 s.saved)).1
    ≡ (active_reply_suppression (same_roles first_message) first_message 10 s).1
restart_answers_example =
    restart_answers same_roles 5 written_calls first_message 10
      (omega arith, refl, (omega arith, refl, tt)) (omega arith)

abbrev refused : ReplyControlIntent
refused = record { refuse_current = true; suppress_current_user = false }

abbrev two_refusals : List Call
two_refusals =
    record { now = 6; written = true; action = refuses first_message }
    ∷ record {
      now = 8;
      written = true;
      action = sends true (message_by (codes "20") (codes "m2")) (codes "no") refused;
    }
    ∷ []

abbrev third_message : MessageEvent
third_message = message_by (codes "20") (codes "m3")

third_reaches :
    (register_reply_refusal
      (same_roles third_message)
      third_message
      9
      (run same_roles two_refusals (start_suppressions 5 none))).3
    ≡ true
unfolding register_reply_refusal start_suppressions trim_space text_eq lookup
    apply_reply_control_after_send insert session_key
third_reaches = refl

threshold_asks_example :
    2
    ≤ count_if
        (λ c.
          asks (trim_space third_message.user_id) c.action
          && in_window reply_refusal_window 9 c.now)
        two_refusals
threshold_asks_example = threshold_asks same_roles 5 none two_refusals third_message 9 third_reaches

abbrev refusing_reply : Text
refusing_reply = codes " no, thanks " ++ reply_refusal_marker

normalize-keeps_intent_example :
    let before = (consume_reply_control_intent refusing_reply).1 in
    let after =
      (consume_reply_control_intent
        (normalize_reply_preserving_control_intent refusing_reply 2)).1 in
    ((before.refuse_current && after.refuse_current) ≡ before.refuse_current)
    × ((before.suppress_current_user && after.suppress_current_user) ≡ before.suppress_current_user)
normalize-keeps_intent_example = normalize-keeps_intent refusing_reply 2

cut_keeps_marker :
    normalize_reply_preserving_control_intent refusing_reply 2
    ≡ codes "no..." ++ reply_refusal_marker
unfolding normalize_reply_preserving_control_intent trim_space
cut_keeps_marker = refl

lists_command : owner_command_kind (codes " 响应限制   列表 ") ≡ some listing
unfolding owner_command_kind text_eq trim_space
lists_command = refl

release_command : owner_command_kind (codes "解除 12345 响应限制") ≡ some release
unfolding owner_command_kind text_eq trim_space
release_command = refl

finds_numbers :
    qq_numbers (codes "a0123 12345 x9876543210123456789")
    ≡ codes "12345" ∷ codes "98765432101234" ∷ codes "56789" ∷ []
unfolding qq_numbers
finds_numbers = refl

rounds_minutes : format_remaining (pos (90 * 10 ^ 9)) ≡ codes "约 2 分钟"
unfolding format_remaining decimal
rounds_minutes = refl
