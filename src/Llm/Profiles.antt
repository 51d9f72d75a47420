-- ===== src/Llm/Profiles.antt =====
-- The set of profiles (model/llm/profiles.go).
use diana_qq_bot.Prelude.{
  ℕ, suc, Bool, false, ◌||◌, not, List, [], ◌∷◌, ◌++◌, Option, none, some, if◌then◌else◌, map, keep,
  take, drop,
}
use diana_qq_bot.Prelude.Text.{Text, codes, text_eq, is_empty, trim_space}
use diana_qq_bot.Llm.Config.{ProviderConfig}
use diana_qq_bot.Llm.Config

pub record Profile : Type 0 where
  pub id : Text
  pub name : Text
  pub group : Text
  pub description : Text
  pub updated_at : ℕ
  pub config : ProviderConfig

pub record ProfileSet : Type 0 where
  pub active_id : Text
  pub profiles : List Profile

abbrev pub default_profile_group : Text
default_profile_group = codes "default"

abbrev pub default_profile_name : Text
default_profile_name = codes "默认配置"

abbrev or_if_empty : Text → Text → Text
or_if_empty value fallback = if is_empty value then fallback else value

unfoldable pub normalize_profile_name : Text → Text
normalize_profile_name name = or_if_empty (trim_space name) default_profile_name

unfoldable pub normalize_profile_group : Text → Text
normalize_profile_group group = or_if_empty (trim_space group) default_profile_group

abbrev pub has_id : Text → Profile → Bool
has_id id p = text_eq p.id id

abbrev pub contains_text : Text → List Text → Bool
contains_text t [] = false
contains_text t (s ∷ ss) = text_eq s t || contains_text t ss

abbrev pub knows : Text → List Profile → Bool
knows id [] = false
knows id (p ∷ ps) = has_id id p || knows id ps

-- Profile `p` under its final id.
unfoldable pub normalized : Text → Profile → Profile
unfolding normalize_profile_name normalize_profile_group
normalized id p = record p {
  id = id;
  name = normalize_profile_name p.name;
  group = normalize_profile_group p.group;
  description = trim_space p.description;
  config = Config.with_defaults p.config;
}

-- The id that WithDefaults gives where the trimmed one is `given`, and the next call of uuid.NewString:
-- `uuid n` is what the n-th call gives, and `seen` holds the ids so far.
unfoldable pub next_id : (ℕ → Text) → ℕ → List Text → Text → Text × ℕ
next_id uuid n seen given =
    let id = if is_empty given then uuid n else given in
    let n' = if is_empty given then suc n else n in
    if contains_text id seen then (uuid n', suc n') else (id, n')

unfoldable pub normalize_from : (ℕ → Text) → ℕ → List Text → List Profile → List Profile
unfolding normalized next_id
normalize_from uuid n seen [] = []
normalize_from uuid n seen (p ∷ ps) =
    let (id, next) = next_id uuid n seen (trim_space p.id) in
    normalized id p ∷ normalize_from uuid next (id ∷ seen) ps

-- The id of the first profile where the active one is not among them.
unfoldable pub active_or_first : Text → List Profile → Text
active_or_first active [] = []
active_or_first active (p ∷ ps) = if knows active (p ∷ ps) then active else p.id

unfoldable pub with_defaults : (ℕ → Text) → ProfileSet → ProfileSet
unfolding normalize_from active_or_first
with_defaults uuid s =
    let profiles = normalize_from uuid 0 [] s.profiles in
    record { active_id = active_or_first (trim_space s.active_id) profiles; profiles = profiles }

abbrev find : Text → List Profile → Option Profile
find id [] = none
find id (p ∷ ps) = if has_id id p then some p else find id ps

abbrev first_profile : List Profile → Option Profile
first_profile [] = none
first_profile (p ∷ ps) = some p

abbrev ready : Profile → Profile
ready p = record p {
  config = Config.with_defaults p.config;
  group = normalize_profile_group p.group;
}

unfoldable pub current : ProfileSet → Option Profile
unfolding normalize_profile_group
current s = elim (find s.active_id s.profiles) [
  | some p ↦ some (ready p)
  | none ↦ elim (first_profile s.profiles) [ none ↦ none | some p ↦ some (ready p) ]
]

-- The first index of the id, or 0.
unfoldable pub index_of : Text → List Profile → Option ℕ
index_of id [] = none
index_of id (p ∷ ps) =
    let rest = index_of id ps in
    if has_id id p then some 0 else elim rest [ none ↦ none | some i ↦ some (suc i) ]

abbrev index_or_zero : Option ℕ → ℕ
index_or_zero none = 0
index_or_zero (some i) = i

abbrev same_group : Text → Profile → Bool
same_group group p = text_eq (normalize_profile_group p.group) group

-- The walk over `(currentIndex + offset) % len` is the list from the current profile on, and then its
-- beginning.
unfoldable pub active_group_profiles : (ℕ → Text) → ProfileSet → List Profile
unfolding with_defaults current index_of
active_group_profiles uuid given =
    let s = with_defaults uuid given in
    elim (current s) [
      | none ↦ []
      | some p ↦
          let index = index_or_zero (index_of p.id s.profiles) in
          map ready (
            keep (same_group (normalize_profile_group p.group))
              (drop index s.profiles ++ take index s.profiles))
    ]

unfoldable pub with_active : Text → ProfileSet → ProfileSet
with_active id s =
    let id' = trim_space id in if knows id' s.profiles then record s { active_id = id' } else s

-- What is left of a set whose active profile was `active` after the profile `id` is gone.
abbrev pub left_active : Text → Text → List Profile → ProfileSet
left_active id active [] = record { active_id = []; profiles = [] }
left_active id active (p ∷ ps) = record {
  active_id = if text_eq active id then p.id else active;
  profiles = p ∷ ps;
}

unfoldable pub delete : Text → ProfileSet → ProfileSet
delete id s =
    let id' = trim_space id in
    let left = left_active id' s.active_id (keep (λ p. not (has_id id' p)) s.profiles) in
    elim s.profiles [ [] ↦ s | _ ∷ _ ↦ left ]

-- activateLLMProfile on the stored set: the set that is saved, where one is.
unfoldable pub activate_profile : (ℕ → Text) → Text → ProfileSet → Option ProfileSet
unfolding with_defaults
activate_profile uuid id stored =
    let set = with_defaults uuid stored in
    if is_empty id
    then none
    else if text_eq set.active_id id
    then none
    else some (record set { active_id = id })
