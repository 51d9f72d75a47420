-- ===== src/GroupReply/Decided.antt =====
-- A member whose level is known is judged by it.
use diana_qq_bot.Prelude.{
  ℕ, ◌≤◌, ◌≡◌, ap, ◌∙◌, false, Option, some, ltb, Bool-cases, inl, inr, arith,
}
use diana_qq_bot.Prelude.Text.{Text, is_empty}
use diana_qq_bot.Prelude.Hash.{decimal}
use diana_qq_bot.Prelude.Int64.{pos, i64_max}
use diana_qq_bot.Event.{MessageEvent}
use diana_qq_bot.Suppression.State.{Roles}
use diana_qq_bot.GroupReply.Level.{parse_qq_group_level, parse-decimal}
use diana_qq_bot.GroupReply.Decision.{
  normalize_qq_group_role, role_can_configure, event_directly_mentions_bot, GroupMember, is_owner,
  compare_level, decide_by_role, should_ignore_group_reply,
}

compare_level-some :
    (minimum level : ℕ) (role : Text)
    → (compare_level minimum role (some level)).0 ≡ ltb level minimum
unfolding compare_level
compare_level-some minimum level role = ground arith

-- A message of a group member whose level is shown in decimal digits of at most 63 bits, whose role is
-- not empty and gives no privilege, who is not the owner and does not mention the bot, is ignored
-- exactly if the level is below the minimum, whatever a look-up of the member would find.
pub level_decides :
    (roles : Roles) (minimum level : ℕ) (member : Option GroupMember) (event : MessageEvent)
    → level ≤ i64_max
    → event.sender_level ≡ decimal level
    → is_empty (normalize_qq_group_role event.sender_role) ≡ false
    → role_can_configure (normalize_qq_group_role event.sender_role) ≡ false
    → event_directly_mentions_bot event roles ≡ false
    → is_owner event roles ≡ false
    → (should_ignore_group_reply roles (some (pos minimum)) member event).0 ≡ ltb level minimum
unfolding should_ignore_group_reply decide_by_role
level_decides roles minimum level member event small shown named plain unmentioned other =
    elim (Bool-cases (ltb 0 minimum)) [
      | inl e ↦
          let parsed = ap parse_qq_group_level shown ∙ (parse-decimal level small).0 in
          rw
            (should_ignore_group_reply, e, unmentioned, other, parsed, decide_by_role, plain, named)
            (compare_level-some minimum level (normalize_qq_group_role event.sender_role))
      | inr e ↦ rw (should_ignore_group_reply, e) (ground (arith, e))
    ]
