-- ===== src/Llm/Edits.antt =====
-- The ids of a set of profiles, and its active one, through the edits of a set.
use diana_qq_bot.Prelude.{
  ℕ, suc, ◌≤◌, ◌<◌, ◌≡◌, inl, inr, refl, true, false, not, List, [], ◌∷◌, if_elim, if_either, keep,
  arith, Bool-cases, All,
}
use diana_qq_bot.Prelude.Text.{Text, text_eq, text_eq_iff, text_eq_refl, is_empty, trim_space}
use diana_qq_bot.Llm.Profiles.{
  Profile, ProfileSet, has_id, contains_text, knows, normalized, next_id, normalize_from,
  active_or_first, with_defaults, with_active, left_active, delete,
}

-- No two profiles have one id.
abbrev pub UniqueIds : List Profile → Type 0
UniqueIds [] = Unit
UniqueIds (p ∷ ps) = (knows p.id ps ≡ false) × UniqueIds ps

-- The active profile is one of them, where there is one.
abbrev pub ActiveKnown : Text → List Profile → Type 0
ActiveKnown active [] = is_empty active ≡ true
ActiveKnown active (p ∷ ps) = knows active (p ∷ ps) ≡ true

pub record IsSound (s : ProfileSet) : Type 0 where
  pub unique : UniqueIds s.profiles
  pub active : ActiveKnown s.active_id s.profiles

-- What uuid.NewString gives is never given twice, and is no id of the profiles already.
pub record Fresh (uuid : ℕ → Text) (ps : List Profile) : Type 0 where
  pub distinct : (i j : ℕ) → i < j → text_eq (uuid i) (uuid j) ≡ false
  pub new : (i : ℕ) → All (λ p. text_eq (trim_space p.id) (uuid i) ≡ false) ps

-- The calls still to come give nothing that has been seen.
abbrev Ahead : (ℕ → Text) → ℕ → List Text → Type 0
Ahead uuid n seen = (i : ℕ) → n ≤ i → contains_text (uuid i) seen ≡ false

Ahead-given :
    (uuid : ℕ → Text) (n n' : ℕ) (id : Text) (seen : List Text)
    → n ≤ n'
    → ((i : ℕ) → text_eq id (uuid i) ≡ false)
    → Ahead uuid n seen
    → Ahead uuid n' (id ∷ seen)
Ahead-given uuid n n' id seen le new h i l = rw (new i) (h i (omega arith))

Ahead-made :
    (uuid : ℕ → Text) (n m n' : ℕ) (seen : List Text)
    → ((i j : ℕ) → i < j → text_eq (uuid i) (uuid j) ≡ false)
    → n ≤ n'
    → m < n'
    → Ahead uuid n seen
    → Ahead uuid n' (uuid m ∷ seen)
Ahead-made uuid n m n' seen distinct le lt h i l =
    rw (distinct m i (omega arith)) (h i (omega arith))

-- The profiles that the loop gives have ids of their own, and none that has been seen.
abbrev Apart : List Text → List Profile → Type 0
Apart seen ps = UniqueIds ps × All (λ p. contains_text p.id seen ≡ false) ps

apart_head :
    (id : Text) (seen : List Text) (ps : List Profile)
    → All (λ p. contains_text p.id (id ∷ seen) ≡ false) ps
    → (knows id ps ≡ false) × All (λ p. contains_text p.id seen ≡ false) ps
apart_head id seen [] h = (refl, tt)
apart_head id seen (p ∷ ps) h =
    let rest = apart_head id seen ps h.1 in
    (ground (arith, text_eq_iff p.id id, text_eq_iff id p.id), (ground arith, rest.1))

-- An id that is new, with the calls still to come ahead of it.
abbrev NewId : (ℕ → Text) → List Text → Text × ℕ → Type 0
NewId uuid seen x = (contains_text x.0 seen ≡ false) × Ahead uuid x.1 (x.0 ∷ seen)

next_id-NewId :
    (uuid : ℕ → Text) (n : ℕ) (seen : List Text) (given : Text)
    → ((i j : ℕ) → i < j → text_eq (uuid i) (uuid j) ≡ false)
    → ((i : ℕ) → text_eq given (uuid i) ≡ false)
    → Ahead uuid n seen
    → NewId uuid seen (next_id uuid n seen given)
unfolding next_id
next_id-NewId uuid n seen given distinct new h = elim (Bool-cases (is_empty given)) [
  | inl e ↦
      rw (e, next_id)
        (if_elim (NewId uuid seen) (contains_text (uuid n) seen)
          (λ _. (
            h (suc n) (omega arith),
            Ahead-made uuid n (suc n) (suc (suc n)) seen distinct (omega arith) (omega arith) h,
          ))
          (λ c. (c, Ahead-made uuid n n (suc n) seen distinct (omega arith) (omega arith) h)))
  | inr e ↦
      rw (e, next_id)
        (if_elim (NewId uuid seen) (contains_text given seen)
          (λ _. (
            h n (omega arith),
            Ahead-made uuid n n (suc n) seen distinct (omega arith) (omega arith) h,
          ))
          (λ c. (c, Ahead-given uuid n n given seen (omega arith) new h)))
]

normalize_from-Apart :
    (uuid : ℕ → Text) (n : ℕ) (seen : List Text) (ps : List Profile)
    → ((i j : ℕ) → i < j → text_eq (uuid i) (uuid j) ≡ false)
    → ((i : ℕ) → All (λ p. text_eq (trim_space p.id) (uuid i) ≡ false) ps)
    → Ahead uuid n seen
    → Apart seen (normalize_from uuid n seen ps)
unfolding normalize_from normalized
normalize_from-Apart uuid n seen [] distinct new h = (tt, tt)
normalize_from-Apart uuid n seen (p ∷ ps) distinct new h =
    let (free, ahead) = next_id-NewId uuid n seen (trim_space p.id) distinct (λ i. (new i).0) h in
    let rest =
      normalize_from-Apart uuid (next_id uuid n seen (trim_space p.id)).1
        ((next_id uuid n seen (trim_space p.id)).0 ∷ seen) ps distinct (λ i. (new i).1) ahead in
    let heads =
      apart_head (next_id uuid n seen (trim_space p.id)).0 seen
        (normalize_from uuid (next_id uuid n seen (trim_space p.id)).1
          ((next_id uuid n seen (trim_space p.id)).0 ∷ seen) ps)
        rest.1 in
    ((heads.0, rest.0), (free, heads.1))

knows_first : (p : Profile) (ps : List Profile) → knows p.id (p ∷ ps) ≡ true
knows_first p ps = rw (text_eq_refl p.id) refl

active_or_first-ActiveKnown :
    (active : Text) (ps : List Profile) → ActiveKnown (active_or_first active ps) ps
unfolding active_or_first
active_or_first-ActiveKnown active [] = refl
active_or_first-ActiveKnown active (p ∷ ps) =
    if_elim (λ t. knows t (p ∷ ps) ≡ true) (knows active (p ∷ ps)) (λ e. e) (λ _. knows_first p ps)

with_defaults-IsSound :
    (uuid : ℕ → Text) (s : ProfileSet) → Fresh uuid s.profiles → IsSound (with_defaults uuid s)
unfolding with_defaults
with_defaults-IsSound uuid s f = record {
  unique = (normalize_from-Apart uuid 0 [] s.profiles f.distinct f.new (λ i l. refl)).0;
  active =
      active_or_first-ActiveKnown (trim_space s.active_id) (normalize_from uuid 0 [] s.profiles);
}

with_active-IsSound : (id : Text) (s : ProfileSet) → IsSound s → IsSound (with_active id s)
unfolding with_active
with_active-IsSound id s h =
    if_elim IsSound (knows (trim_space id) s.profiles)
      (λ k. record { unique = h.unique; active = chosen s.profiles k }) (λ _. h)
  where
    chosen : (ps : List Profile) → knows (trim_space id) ps ≡ true → ActiveKnown (trim_space id) ps
    chosen [] k = cc
    chosen (p ∷ ps) k = k

knows-keep :
    (id other : Text) (ps : List Profile)
    → knows other ps ≡ false
    → knows other (keep (λ p. not (has_id id p)) ps) ≡ false
knows-keep id other [] h = refl
knows-keep id other (p ∷ ps) h = ground (arith, knows-keep id other ps)

UniqueIds-keep :
    (id : Text) (ps : List Profile) → UniqueIds ps → UniqueIds (keep (λ p. not (has_id id p)) ps)
UniqueIds-keep id [] h = tt
UniqueIds-keep id (p ∷ ps) h =
    if_either UniqueIds (not (has_id id p)) (knows-keep id p.id ps h.0, UniqueIds-keep id ps h.1)
      (UniqueIds-keep id ps h.1)

knows-kept :
    (id other : Text) (ps : List Profile)
    → text_eq other id ≡ false
    → knows other ps ≡ true
    → knows other (keep (λ p. not (has_id id p)) ps) ≡ true
knows-kept id other [] ne h = cc
knows-kept id other (p ∷ ps) ne h = ground (
  arith,
  knows-kept id other ps ne,
  text_eq_iff p.id other,
  text_eq_iff p.id id,
  text_eq_iff other id,
)

left_active-IsSound :
    (id active : Text) (ps : List Profile)
    → UniqueIds ps
    → (text_eq active id ≡ false → knows active ps ≡ true)
    → IsSound (left_active id active ps)
left_active-IsSound id active [] u k = record { unique = tt; active = refl }
left_active-IsSound id active (p ∷ ps) u k = record {
  unique = u;
  active =
      if_elim (λ t. knows t (p ∷ ps) ≡ true) (text_eq active id) (λ _. knows_first p ps) (λ e. k e);
}

delete_from :
    (id active : Text) (ps : List Profile)
    → IsSound (record { active_id = active; profiles = ps })
    → IsSound (delete id (record { active_id = active; profiles = ps }))
unfolding delete
delete_from id active [] h = h
delete_from id active (p ∷ ps) h =
    left_active-IsSound (trim_space id) active (keep (λ q. not (has_id (trim_space id) q)) (p ∷ ps))
      (UniqueIds-keep (trim_space id) (p ∷ ps) h.unique)
      (λ e. knows-kept (trim_space id) active (p ∷ ps) e h.active)

-- The edits of a set that the web interface makes.
pub data Edit : Type 0 where
  activates : (id : Text) → Edit
  deletes : (id : Text) → Edit

abbrev pub edit : Edit → ProfileSet → ProfileSet
edit (activates id) s = with_active id s
edit (deletes id) s = delete id s

unfoldable pub edit_all : List Edit → ProfileSet → ProfileSet
edit_all [] s = s
edit_all (e ∷ es) s = edit_all es (edit e s)

edit-IsSound : (e : Edit) (s : ProfileSet) → IsSound s → IsSound (edit e s)
edit-IsSound (activates id) s h = with_active-IsSound id s h
edit-IsSound (deletes id) s h = delete_from id s.active_id s.profiles h

edit_all-kept : (es : List Edit) (s : ProfileSet) → IsSound s → IsSound (edit_all es s)
unfolding edit_all
edit_all-kept [] s h = h
edit_all-kept (e ∷ es) s h = edit_all-kept es (edit e s) (edit-IsSound e s h)

-- Let the ids that the generator makes be distinct, and none of them the trimmed id of a profile. Then
-- after the defaults and any sequence of activations and deletions the ids of the profiles are unique,
-- and the active id is one of them, or empty where no profile is left.
pub edit_all-IsSound :
    (uuid : ℕ → Text) (s : ProfileSet) (es : List Edit)
    → Fresh uuid s.profiles
    → IsSound (edit_all es (with_defaults uuid s))
edit_all-IsSound uuid s es f =
    edit_all-kept es (with_defaults uuid s) (with_defaults-IsSound uuid s f)
