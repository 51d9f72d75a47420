-- ===== src/GroupReply/Decision.antt =====
-- The decision whether to leave a member's message without a reply.
use diana_qq_bot.Prelude.{
  ℕ, Bool, true, false, ◌&&◌, ◌||◌, not, List, [], ◌∷◌, ◌++◌, Option, none, some, if◌then◌else◌,
  ltb,
}
use diana_qq_bot.Prelude.Text.{Text, codes, text_eq, is_empty, trim_space}
use diana_qq_bot.Prelude.Search.{lower, contains}
use diana_qq_bot.Prelude.Int64.{ℤ, pos, negsuc}
use diana_qq_bot.Event.{MessageEvent, MessageSegment, QuotedMessage, is_group, field}
use diana_qq_bot.Suppression.State.{Roles}
use diana_qq_bot.GroupReply.Level.{parse_qq_group_level}

unfoldable pub normalize_qq_group_role : Text → Text
normalize_qq_group_role role = lower (trim_space role)

-- Of a role that is normalised already, or not.
unfoldable pub role_can_configure : Text → Bool
unfolding normalize_qq_group_role
role_can_configure role =
    text_eq (normalize_qq_group_role role) (codes "owner")
    || text_eq (normalize_qq_group_role role) (codes "admin")

unfoldable pub has_at : List MessageSegment → Text → Bool
has_at [] self_id = false
has_at (s ∷ ss) self_id =
    if is_empty self_id
    then false
    else (text_eq s.seg_type (codes "at") && text_eq (field (codes "qq") s.seg_data) self_id)
      || has_at ss self_id

abbrev mentions : MessageEvent → Text → Bool
mentions event bot_id =
    has_at event.segments bot_id
    || contains (codes "[CQ:at,qq=" ++ (bot_id ++ codes "]")) event.raw_message

abbrev mentions_if_named : MessageEvent → Text → Bool
mentions_if_named event bot_id =
    if is_empty (trim_space bot_id) then false else mentions event (trim_space bot_id)

unfoldable pub event_directly_mentions_bot : MessageEvent → Roles → Bool
unfolding has_at contains
event_directly_mentions_bot event roles =
    if not (is_group event.kind)
    then false
    else if event.to_me
    then true
    else mentions_if_named event event.self_id || mentions_if_named event roles.bot_qq

abbrev is_named : Text → Text → Bool
is_named quoted bot_id = not (is_empty (trim_space bot_id)) && text_eq quoted (trim_space bot_id)

abbrev quotes_bot : MessageEvent → Roles → Option QuotedMessage → Bool
quotes_bot event roles none = false
quotes_bot event roles (some q) =
    let user = trim_space q.user_id in
    if is_empty user then false else is_named user event.self_id || is_named user roles.bot_qq

unfoldable pub event_replies_to_bot : MessageEvent → Roles → Bool
event_replies_to_bot event roles =
    if is_group event.kind then quotes_bot event roles event.quoted else false

-- A member as QQ gives it: its role and its level.
pub record GroupMember : Type 0 where
  pub role : Text
  pub level : Text

-- The level is none where it is not known.
pub record LevelDecision : Type 0 where
  pub minimum : ℕ
  pub level : Option ℕ
  pub role : Text
  pub reason : Text
  pub lookup_failed : Bool

abbrev pub is_owner : MessageEvent → Roles → Bool
is_owner event roles =
    not (is_empty (trim_space roles.owner_id))
    && text_eq (trim_space roles.owner_id) (trim_space event.user_id)

abbrev decided : Bool → ℕ → Option ℕ → Text → Text → Bool × LevelDecision
decided ignored minimum level role reason = (
  ignored,
  record { minimum = minimum; level = level; role = role; reason = reason; lookup_failed = false },
)

-- The end of the decision, on a member who has no privilege.
unfoldable pub compare_level : ℕ → Text → Option ℕ → Bool × LevelDecision
compare_level minimum role none = decided true minimum none role (codes "member_level_unavailable")
compare_level minimum role (some level) =
    if ltb level minimum
    then decided true minimum (some level) role (codes "member_level_below_minimum")
    else decided false minimum (some level) role (codes "member_level_allowed")

unfoldable pub decide_member : ℕ → Text → Option ℕ → Bool × LevelDecision
unfolding role_can_configure compare_level
decide_member minimum role level =
    if role_can_configure role
    then decided false minimum level role (codes "privileged_role")
    else compare_level minimum role level

-- With the role and the level of the event; `member` is what GetGroupMemberInfo finds, if it does.
unfoldable pub decide_by_role : Option GroupMember → ℕ → Text → Option ℕ → Bool × LevelDecision
unfolding role_can_configure compare_level decide_member normalize_qq_group_role
    parse_qq_group_level
decide_by_role member minimum role level =
    let unknown = is_empty role || elim level [ none ↦ true | some _ ↦ false ] in
    if role_can_configure role
    then decided false minimum level role (codes "privileged_role")
    else if unknown
    then elim member [
      | none ↦ (
        true,
        record {
          minimum = minimum;
          level = level;
          role = role;
          reason = codes "member_lookup_failed";
          lookup_failed = true;
        },
      )
      | some m ↦
          decide_member minimum (normalize_qq_group_role m.role) (parse_qq_group_level m.level)
    ]
    else compare_level minimum role level

no_decision : LevelDecision
no_decision = record { minimum = 0; level = none; role = []; reason = []; lookup_failed = false }

-- `limit` is the group's minimum level, where the group has a configuration.
unfoldable pub should_ignore_group_reply :
    Roles → (limit : Option ℤ) → Option GroupMember → MessageEvent → Bool × LevelDecision
unfolding no_decision event_directly_mentions_bot decide_by_role normalize_qq_group_role
    parse_qq_group_level
should_ignore_group_reply roles limit member event = elim limit [
  | none ↦ (false, no_decision)
  | some (negsuc _) ↦ (false, no_decision)
  | some (pos minimum) ↦
      if not (ltb 0 minimum)
      then (false, no_decision)
      else if event_directly_mentions_bot event roles
      then decided false minimum none [] (codes "direct_mention")
      else if is_owner event roles
      then decided false minimum none (codes "bot_owner") (codes "privileged_role")
      else decide_by_role member minimum (normalize_qq_group_role event.sender_role)
          (parse_qq_group_level event.sender_level)
]
