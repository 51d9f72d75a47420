-- ===== src/Relationship/Policy.antt =====
-- The policy of a relationship.
use diana_qq_bot.Prelude.{
  ℕ, Bool, true, false, ◌&&◌, ◌||◌, not, List, [], ◌∷◌, ◌++◌, Option, none, some, if◌then◌else◌,
}
use diana_qq_bot.Prelude.Text.{Text, codes, text_eq, is_empty, trim_space}
use diana_qq_bot.Prelude.Int64.{ℤ, pos, negsuc, lez}

pub data RelationshipTier : Type 0 where
  hostile acquaintance familiar friend trusted owner : RelationshipTier

pub record RelationshipPolicy : Type 0 where
  pub tier : RelationshipTier
  pub name : Text
  pub tone : Text
  pub permissions : List Text
  pub score : ℤ
  pub message_count : ℤ
  pub is_owner : Bool
  pub allow_image_generation : Bool
  pub allow_image_editing : Bool
  pub allow_document_ocr : Bool
  pub allow_personal_schedule : Bool

-- What the policy reads of a user's memory.
pub record Familiarity : Type 0 where
  pub favorability : ℤ
  pub message_count : ℤ

unfoldable pub relationship_owner_policy : Familiarity → RelationshipPolicy
relationship_owner_policy profile = record {
  tier = owner;
  name = codes "主人";
  tone = codes "亲近、坦率、执行导向；可以自然接梗，但涉及风险和失败时必须如实说明。";
  permissions =
      codes "全部聊天与媒体能力"
      ∷ codes "网页与浏览器"
      ∷ codes "图片生成与编辑"
      ∷ codes "文档 OCR"
      ∷ codes "定时订阅（最多 20 个）"
      ∷ codes "机器人配置"
      ∷ codes "本地工具"
      ∷ codes "Skills/MCP"
      ∷ [];
  score = profile.favorability;
  message_count = profile.message_count;
  is_owner = true;
  allow_image_generation = true;
  allow_image_editing = true;
  allow_document_ocr = true;
  allow_personal_schedule = true;
}

unfoldable pub acquaintance_policy : Familiarity → RelationshipPolicy
acquaintance_policy profile = record {
  tier = acquaintance;
  name = codes "初识";
  tone = codes "自然、礼貌、简洁，不使用过度亲密的称呼，也不要假装已经很熟。";
  permissions =
      codes "基础聊天"
      ∷ codes "图片/视频/文件理解"
      ∷ codes "实时网页搜索"
      ∷ codes "沙盒网页渲染"
      ∷ codes "个人提醒与订阅（最多 1 个）"
      ∷ [];
  score = profile.favorability;
  message_count = profile.message_count;
  is_owner = false;
  allow_image_generation = false;
  allow_image_editing = false;
  allow_document_ocr = false;
  allow_personal_schedule = true;
}

-- The permissions of the three tiers above, which differ in the number of schedules.
abbrev known_permissions : Text → List Text
known_permissions schedules =
    codes "基础聊天"
    ∷ codes "媒体理解"
    ∷ codes "实时网页搜索"
    ∷ codes "沙盒网页渲染"
    ∷ codes "图片生成"
    ∷ codes "图片编辑"
    ∷ codes "文档 OCR"
    ∷ schedules
    ∷ []

abbrev known_policy : Familiarity → RelationshipTier → Text → Text → Text → RelationshipPolicy
known_policy profile tier name tone schedules = record {
  tier = tier;
  name = name;
  tone = tone;
  permissions = known_permissions schedules;
  score = profile.favorability;
  message_count = profile.message_count;
  is_owner = false;
  allow_image_generation = true;
  allow_image_editing = true;
  allow_document_ocr = true;
  allow_personal_schedule = true;
}

unfoldable pub hostile_policy : Familiarity → RelationshipPolicy
hostile_policy profile = record {
  tier = hostile;
  name = codes "冷淡";
  tone = codes "保持礼貌但明显疏离，只回答必要内容；面对辱骂可设边界，不争吵、不讨好。";
  permissions = codes "基础聊天" ∷ codes "图片/视频/文件理解" ∷ [];
  score = profile.favorability;
  message_count = profile.message_count;
  is_owner = false;
  allow_image_generation = false;
  allow_image_editing = false;
  allow_document_ocr = false;
  allow_personal_schedule = false;
}

-- The tier of a user who is not the owner.
unfoldable pub tier_of : Familiarity → RelationshipTier
tier_of profile =
    if lez profile.favorability (negsuc 19)
    then hostile
    else if lez (pos 100) profile.favorability && lez (pos 80) profile.message_count
    then trusted
    else if lez (pos 60) profile.favorability && lez (pos 30) profile.message_count
    then friend
    else if lez (pos 20) profile.favorability && lez (pos 10) profile.message_count
    then familiar
    else acquaintance

unfoldable pub policy_of_tier : Familiarity → RelationshipTier → RelationshipPolicy
unfolding hostile_policy acquaintance_policy relationship_owner_policy
policy_of_tier profile hostile = hostile_policy profile
policy_of_tier profile acquaintance = acquaintance_policy profile
policy_of_tier profile familiar =
    known_policy profile familiar (codes "熟悉") (codes "语气比初识更放松，可以自然使用对方昵称并结合长期偏好，但不要过分亲密。")
      (codes "个人提醒与订阅（最多 3 个）")
policy_of_tier profile friend =
    known_policy profile friend (codes "朋友") (codes "像熟悉的朋友一样温暖、轻松，可以适度接梗和调侃，仍要尊重边界。")
      (codes "个人提醒与订阅（最多 5 个）")
policy_of_tier profile trusted =
    known_policy profile trusted (codes "信赖") (codes "像长期信赖的朋友一样直接、温和、有默契，可以主动结合已知偏好，但不要编造共同经历。")
      (codes "个人提醒与订阅（最多 10 个）")
policy_of_tier profile owner = relationship_owner_policy profile

unfoldable pub relationship_policy_for :
    Familiarity → (owner_id user_id : Text) → RelationshipPolicy
unfolding relationship_owner_policy policy_of_tier tier_of
relationship_policy_for profile owner_id user_id =
    if not (is_empty (trim_space owner_id)) && text_eq (trim_space owner_id) (trim_space user_id)
    then relationship_owner_policy profile
    else policy_of_tier profile (tier_of profile)

abbrev is_hostile : RelationshipTier → Bool
is_hostile hostile = true
is_hostile _ = false

abbrev named_if : Bool → List Text → List Text
named_if b names = if b then names else []

-- None: every tool.
unfoldable pub allowed_agent_tool_names : RelationshipPolicy → Option (List Text)
allowed_agent_tool_names p =
    if p.is_owner
    then none
    else some (
        codes "diana.capabilities"
        ∷ codes "diana.chat_history"
        ∷ codes "diana.relationship"
        ∷ codes "diana.qq_group"
        ∷ codes "diana.tasks"
        ∷ codes "diana.tts"
        ∷ (named_if (not (is_hostile p.tier))
              (codes "web_search.search" ∷ codes "browser_render" ∷ [])
            ++ (named_if p.allow_personal_schedule
                  (codes "diana.reminder" ∷ codes "diana.schedule" ∷ [])
                ++ named_if (p.allow_image_generation || p.allow_image_editing)
                    (codes "diana.image" ∷ []))))

unfoldable pub allows_agent_tools : RelationshipPolicy → Bool
unfolding allowed_agent_tool_names
allows_agent_tools p = p.is_owner || elim (allowed_agent_tool_names p) [
  | none ↦ false
  | some names ↦ elim names [ [] ↦ false | _ ∷ _ ↦ true ]
]

unfoldable pub personal_schedule_limit : RelationshipPolicy → ℕ
personal_schedule_limit p = if p.is_owner then 20 else elim p.tier [
  | trusted ↦ 10
  | friend ↦ 5
  | familiar ↦ 3
  | acquaintance ↦ 1
  | hostile ↦ 0
  | owner ↦ 0
]

unfoldable pub relationship_permission_denied :
    RelationshipPolicy → (capability required : Text) → Text
relationship_permission_denied p capability required =
    codes "好感度不足：当前关系等级是“"
    ++ (p.name ++ (codes "”，尚未解锁" ++ (capability ++ (codes "；达到“" ++ (required ++ codes "”后可用。")))))
