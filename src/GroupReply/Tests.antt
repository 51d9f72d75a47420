-- ===== src/GroupReply/Tests.antt =====
-- The reply policy of a group at concrete inputs.
use diana_qq_bot.Prelude.{◌≡◌, refl, false, [], none, some, ltb, arith}
use diana_qq_bot.Prelude.Text.{codes, text_eq, trim_space}
use diana_qq_bot.Prelude.Hash.{decimal}
use diana_qq_bot.Prelude.Int64.{pos}
use diana_qq_bot.Event.{MessageEvent, group}
use diana_qq_bot.Suppression.State.{Roles}
use diana_qq_bot.GroupReply.Level.{parse_qq_group_level}
use diana_qq_bot.GroupReply.Decision.{
  should_ignore_group_reply, event_directly_mentions_bot, role_can_configure,
  normalize_qq_group_role,
}
use diana_qq_bot.GroupReply.Decided.{level_decides}

parses_blank : parse_qq_group_level (codes " lv ") ≡ none
unfolding parse_qq_group_level trim_space
parses_blank = refl

abbrev roles_of_bot : Roles
roles_of_bot = record { owner_id = codes "1"; bot_qq = codes "1000" }

abbrev member_message : MessageEvent
member_message = record {
  kind = group;
  sub_type = [];
  time = pos 0;
  original_time = pos 0;
  self_id = codes "1000";
  user_id = codes "7";
  operator_id = [];
  operator_name = [];
  operator_role = [];
  group_id = codes "5";
  message_id = codes "b";
  message_seq = [];
  message_type = [];
  raw_message = codes "hi";
  segments = [];
  sender_name = [];
  sender_role = codes " Member";
  sender_level = decimal 9;
  to_me = false;
  quoted = none;
  semantic_source_message_id = [];
}

not_mentioned : event_directly_mentions_bot member_message roles_of_bot ≡ false
unfolding event_directly_mentions_bot trim_space
not_mentioned = refl

level_decides_example :
    (should_ignore_group_reply roles_of_bot (some (pos 10)) none member_message).0 ≡ ltb 9 10
unfolding trim_space text_eq normalize_qq_group_role role_can_configure
level_decides_example =
    level_decides roles_of_bot 10 9 none member_message (omega arith) refl refl refl not_mentioned
      refl
