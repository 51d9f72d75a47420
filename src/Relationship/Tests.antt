-- ===== src/Relationship/Tests.antt =====
-- The policies at concrete users.
use diana_qq_bot.Prelude.{◌≡◌, refl}
use diana_qq_bot.Prelude.Text.{codes, text_eq, trim_space}
use diana_qq_bot.Prelude.Int64.{pos, negsuc}
use diana_qq_bot.Relationship.Policy.{
  Familiarity, hostile, tier_of, relationship_policy_for, personal_schedule_limit,
}
use diana_qq_bot.Relationship.Grows.{GrantsNoMore, permissions_grow}

abbrev regular : Familiarity
regular = record { favorability = pos 25; message_count = pos 40 }

abbrev dear : Familiarity
dear = record { favorability = pos 70; message_count = pos 40 }

permissions_grow_example :
    GrantsNoMore
      (relationship_policy_for regular (codes "1") (codes "7"))
      (relationship_policy_for dear (codes "1") (codes "7"))
permissions_grow_example = permissions_grow regular dear (codes "1") (codes "7") refl refl

friends_schedule_five :
    personal_schedule_limit (relationship_policy_for dear (codes "1") (codes "7")) ≡ 5
unfolding personal_schedule_limit relationship_policy_for text_eq trim_space
friends_schedule_five = refl

cold_at_minus_twenty :
    tier_of (record { favorability = negsuc 19; message_count = pos 500 }) ≡ hostile
unfolding tier_of
cold_at_minus_twenty = refl
