-- ===== src/Relationship/Grows.antt =====
-- A user whom the bot knows better may do no less.
use diana_qq_bot.Prelude.{
  ℕ, ◌≤◌, ◌≡◌, refl, Bool, true, false, ◌&&◌, not, none, some, if◌then◌else◌, arith, Bool-cases,
  inl, inr,
}
use diana_qq_bot.Prelude.Text.{Text, text_eq, is_empty, trim_space}
use diana_qq_bot.Prelude.Int64.{ℤ, pos, negsuc, lez}
use diana_qq_bot.Llm.Profiles.{contains_text}
use diana_qq_bot.Relationship.Policy.{
  RelationshipTier, hostile, acquaintance, familiar, friend, trusted, owner, RelationshipPolicy,
  Familiarity, tier_of, policy_of_tier, relationship_policy_for, allowed_agent_tool_names,
  personal_schedule_limit,
}

-- How far a tier reaches.
abbrev rank : RelationshipTier → ℕ
rank hostile = 0
rank acquaintance = 1
rank familiar = 2
rank friend = 3
rank trusted = 4
rank owner = 5

lez_trans : (x y z : ℤ) → lez x y ≡ true → lez y z ≡ true → lez x z ≡ true
lez_trans (pos x) (pos y) (pos z) h g = ground (arith, h, g)
lez_trans (pos x) (pos y) (negsuc z) h g = ground (arith, h, g)
lez_trans (pos x) (negsuc y) z h g = absurd (ground (arith, h))
lez_trans (negsuc x) (pos y) (pos z) h g = refl
lez_trans (negsuc x) (pos y) (negsuc z) h g = absurd (ground (arith, g))
lez_trans (negsuc x) (negsuc y) (pos z) h g = refl
lez_trans (negsuc x) (negsuc y) (negsuc z) h g = ground (arith, h, g)

-- The ranks, by the tests.
ranks_grow :
    (cold cold' hundred hundred' sixty sixty' twenty twenty' many many' more more' some_few
      some_few' : Bool)
    → (cold' ≡ true → cold ≡ true)
    → (hundred ≡ true → hundred' ≡ true)
    → (sixty ≡ true → sixty' ≡ true)
    → (twenty ≡ true → twenty' ≡ true)
    → (many ≡ true → many' ≡ true)
    → (more ≡ true → more' ≡ true)
    → (some_few ≡ true → some_few' ≡ true)
    → rank (
        if cold
        then hostile
        else if hundred && many
        then trusted
        else if sixty && more
        then friend
        else if twenty && some_few
        then familiar
        else acquaintance)
      ≤ rank (
          if cold'
          then hostile
          else if hundred' && many'
          then trusted
          else if sixty' && more'
          then friend
          else if twenty' && some_few'
          then familiar
          else acquaintance)
ranks_grow cold cold' hundred hundred' sixty sixty' twenty twenty' many many' more more' some_few
      some_few' c h s t m n f =
    ground (arith, c, h, s, t, m, n, f)

rank-tier_of :
    (a b : Familiarity)
    → lez a.favorability b.favorability ≡ true
    → lez a.message_count b.message_count ≡ true
    → rank (tier_of a) ≤ rank (tier_of b)
unfolding tier_of
rank-tier_of a b f m =
    let up : (c : ℤ) → lez c a.favorability ≡ true → lez c b.favorability ≡ true =
      λ c e. lez_trans c a.favorability b.favorability e f in
    let longer : (c : ℤ) → lez c a.message_count ≡ true → lez c b.message_count ≡ true =
      λ c e. lez_trans c a.message_count b.message_count e m in
    ranks_grow (lez a.favorability (negsuc 19)) (lez b.favorability (negsuc 19))
      (lez (pos 100) a.favorability) (lez (pos 100) b.favorability) (lez (pos 60) a.favorability)
      (lez (pos 60) b.favorability) (lez (pos 20) a.favorability) (lez (pos 20) b.favorability)
      (lez (pos 80) a.message_count) (lez (pos 80) b.message_count) (lez (pos 30) a.message_count)
      (lez (pos 30) b.message_count) (lez (pos 10) a.message_count) (lez (pos 10) b.message_count)
      (λ e. lez_trans a.favorability b.favorability (negsuc 19) f e) (up (pos 100)) (up (pos 60))
      (up (pos 20)) (longer (pos 80)) (longer (pos 30)) (longer (pos 10))

-- Whether a policy lets a tool be used.
abbrev pub may_use : Text → RelationshipPolicy → Bool
may_use tool p = elim (allowed_agent_tool_names p) [
  | none ↦ true
  | some names ↦ contains_text tool names
]

-- What a policy grants is granted by another.
abbrev pub GrantsNoMore : RelationshipPolicy → RelationshipPolicy → Type 0
GrantsNoMore p q =
    ((tool : Text) → (may_use tool p && may_use tool q) ≡ may_use tool p)
    × (personal_schedule_limit p ≤ personal_schedule_limit q)
    × ((p.allow_image_generation && q.allow_image_generation) ≡ p.allow_image_generation)
    × ((p.allow_image_editing && q.allow_image_editing) ≡ p.allow_image_editing)
    × ((p.allow_document_ocr && q.allow_document_ocr) ≡ p.allow_document_ocr)
    × ((p.allow_personal_schedule && q.allow_personal_schedule) ≡ p.allow_personal_schedule)

both_same : (b : Bool) → (b && b) ≡ b
both_same true = refl
both_same false = refl

-- Tools by tier.
tools_grow :
    (a b : Familiarity) (s t : RelationshipTier) (tool : Text)
    → rank s ≤ rank t
    → (may_use tool (policy_of_tier a s) && may_use tool (policy_of_tier b t))
      ≡ may_use tool (policy_of_tier a s)
unfolding policy_of_tier allowed_agent_tool_names
tools_grow a b s t tool h = ground (arith, h)

policies_grow :
    (a b : Familiarity) (s t : RelationshipTier)
    → rank s ≤ rank t
    → GrantsNoMore (policy_of_tier a s) (policy_of_tier b t)
unfolding policy_of_tier personal_schedule_limit
policies_grow a b s t h = (
  λ tool. tools_grow a b s t tool h,
  ground (arith, h),
  ground (arith, h),
  ground (arith, h),
  ground (arith, h),
  ground (arith, h),
)

-- For the same owner and user, a profile with at least the favorability and at least the messages of
-- another may use every tool that the other may use, has at least its limit of schedules, and keeps
-- each of its four permissions.
pub permissions_grow :
    (a b : Familiarity) (owner_id user_id : Text)
    → lez a.favorability b.favorability ≡ true
    → lez a.message_count b.message_count ≡ true
    → GrantsNoMore
        (relationship_policy_for a owner_id user_id)
        (relationship_policy_for b owner_id user_id)
unfolding relationship_policy_for
permissions_grow a b owner_id user_id f m =
    elim (Bool-cases (
      not (is_empty (trim_space owner_id)) && text_eq (trim_space owner_id) (trim_space user_id))) [
        | inl e ↦ rw (e, relationship_policy_for) (policies_grow a b owner owner (omega arith))
        | inr e ↦
            rw (e, relationship_policy_for)
              (policies_grow a b (tier_of a) (tier_of b) (rank-tier_of a b f m))
      ]
