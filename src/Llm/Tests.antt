-- ===== src/Llm/Tests.antt =====
-- Model calls that fail, on concrete profiles.
use diana_qq_bot.Prelude.{
  ℕ, ◌+◌, ◌*◌, ◌≤◌, ◌<◌, ◌≡◌, refl, true, false, [], ◌∷◌, none, some, if◌then◌else◌, ◌==◌, count_if,
  arith, map,
}
use diana_qq_bot.Prelude.Text.{Text, codes}
use diana_qq_bot.Prelude.Int64.{pos}
use diana_qq_bot.Prelude.Assoc.{insert}
use diana_qq_bot.Prelude.Search.{contains, contains_any, has_prefix}
use diana_qq_bot.Prelude.Text.{text_eq, trim_space}
use diana_qq_bot.Llm.Config.{ProviderConfig}
use diana_qq_bot.Llm.Config
use diana_qq_bot.Llm.Profiles.{
  Profile, ProfileSet, with_defaults, with_active, delete, active_group_profiles,
}
use diana_qq_bot.Llm.Edits.{Fresh, IsSound, activates, deletes, edit_all, edit_all-IsSound}
use diana_qq_bot.Llm.Errors.{
  LlmError, should_retry_transient, should_failover, should_failover_without_retry,
}
use diana_qq_bot.Llm.Retry.{response, failed, Attempt, retries_of, generate_with_retry}
use diana_qq_bot.Llm.Verdict.{Verdict, generate-Verdict}
use diana_qq_bot.Llm.Timeout.{bounded_initial_retry_timeout, attempts_fit}
use diana_qq_bot.Llm.Failover.{Served, Provider, answered, generate}
use diana_qq_bot.Llm.Rotation.{round_from, Ends, generate_tour}
use diana_qq_bot.Llm.Clients.{MadeOnce, generate-MadeOnce}

everything : Unit {0}
unfolding contains has_prefix contains_any should_retry_transient should_failover
    should_failover_without_retry generate_with_retry generate edit_all with_defaults
    active_group_profiles with_active delete Config.with_defaults trim_space text_eq insert
everything = tt

abbrev fault : Text → LlmError
fault text = record {
  text = text;
  has_no_text = false;
  truncated_no_text = false;
  is_empty_completion = false;
  deadline_exceeded = false;
}

retry_test :
    (should_retry_transient (fault (codes "HTTP 502 Bad Gateway")) ≡ true)
    × (should_retry_transient (fault (codes "HTTP 401 Unauthorized")) ≡ false)
    × (should_failover (fault (codes "HTTP 401 Unauthorized")) ≡ true)
    × (should_failover_without_retry (fault (codes "Stream idle timeout")) ≡ true)
unfolding everything
retry_test = (refl, refl, refl, refl)

-- The first attempt fails, the next ones answer.
abbrev second_answers : ℕ → Attempt
second_answers n = record {
  answer = if n == 0 then failed (fault (codes "unexpected EOF")) else response (codes "hi");
  ended = none;
  ended_waiting = none;
}

second_answers_test :
    generate_with_retry true (pos 1) (pos 700) second_answers ≡ (response (codes "hi"), 2)
unfolding everything
second_answers_test = refl

generate-Verdict_example :
    let x = generate_with_retry true (pos 1) (pos 700) second_answers in
    Verdict true (pos 700) (retries_of true (pos 1)) second_answers 0 x.0 x.1
generate-Verdict_example = generate-Verdict true (pos 1) (pos 700) second_answers

attempts_fit_example :
    (time : ℕ) × (bounded_initial_retry_timeout (some (pos 10000)) (pos 9000) 1 (pos 700)
      ≡ pos time)
    × (0 < time)
    × (time ≤ 9000)
    × ((1 + 1) * time + 1 * 700 ≤ 10000)
attempts_fit_example =
    attempts_fit 9000 10000 1 700 (omega arith) (omega arith) (omega arith) (omega arith)

abbrev three_profiles : Provider
three_profiles = record {
  profiles = codes "a" ∷ codes "b" ∷ codes "c" ∷ [];
  wrap_group_error = true;
  group = codes "default";
  current = 2;
  loaded = λ _. none;
  factory_calls = λ _. 0;
  activated = [];
}

-- Profile 2 is over its quota, profile 0 has a broken configuration, profile 1 answers.
abbrev third_answers : ℕ → Served
third_answers n = record {
  ended_before = none;
  factory_error = if n == 0 then some (fault (codes "invalid API key")) else none;
  answer = if n == 2 then failed (fault (codes "insufficient_quota")) else response (codes "hi");
  ended_after = none;
}

third_answers_test :
    let x = generate third_answers three_profiles in
    (x.0.current ≡ 1)
    × (x.0.activated ≡ codes "b" ∷ [])
    × (x.1 ≡ answered (codes "hi"))
    × (x.2 ≡ 2 ∷ 0 ∷ 1 ∷ [])
unfolding everything
third_answers_test = (refl, refl, refl, refl)

generate_tour_example :
    let x = generate third_answers three_profiles in
    (count : ℕ) × (count ≤ 3)
    × (x.2 ≡ round_from 3 2 0 count)
    × ((index : ℕ) → count_if (λ i. i == index) x.2 ≤ 1)
    × Ends 3 3 0 count three_profiles x.0 x.1
generate_tour_example = generate_tour third_answers three_profiles

generate-MadeOnce_example : MadeOnce (generate third_answers three_profiles).0
generate-MadeOnce_example = generate-MadeOnce third_answers three_profiles (λ index. refl)

abbrev blank_config : ProviderConfig
blank_config = record {
  provider = codes " gemini ";
  api_key = codes "k";
  base_url = [];
  api_format = codes "responses";
  model = [];
  image_model = [];
  image_base_url = [];
  image_origin = [];
  image_timeout = pos 0;
  user_agent = [];
  headers = (codes "x-trace-id", codes " 1 ") ∷ (codes "", codes "2") ∷ [];
  reasoning_effort = codes " High";
  context_window_tokens = pos 0;
  max_context_tokens = pos 0;
  max_output_tokens = pos 0;
  timeout = pos 0;
}

abbrev profile : Text → Text → Profile
profile id group = record {
  id = id;
  name = codes " ";
  group = group;
  description = [];
  updated_at = 0;
  config = blank_config;
}

-- Two profiles of one id, and one without an id; no profile has the active id.
abbrev imported : ProfileSet
imported = record {
  active_id = codes "gone";
  profiles =
      profile (codes "a") []
      ∷ profile (codes "a ") (codes "fast")
      ∷ profile [] (codes "default")
      ∷ [];
}

abbrev made : ℕ → Text
made n = 117 ∷ n ∷ []

config_test :
    let c = Config.with_defaults blank_config in
    (c.model ≡ codes "gemini-2.5-flash")
    × (c.api_format ≡ [])
    × (c.headers ≡ (codes "X-Trace-Id", codes "1") ∷ [])
    × (c.reasoning_effort ≡ codes "high")
unfolding everything
config_test = (refl, refl, refl, refl)

imported_test :
    let s =
      edit_all (activates (codes " a") ∷ deletes (codes "a") ∷ []) (with_defaults made imported) in
    (s.active_id ≡ made 0) × (map (λ (p : Profile). p.id) s.profiles ≡ made 0 ∷ made 1 ∷ [])
unfolding everything
imported_test = (refl, refl)

-- The third profile is in the group of the first one, the current.
group_test :
    map (λ (p : Profile). p.id) (active_group_profiles made (record imported { active_id = [] }))
    ≡ codes "a" ∷ made 1 ∷ []
unfolding everything
group_test = refl

made-Fresh : Fresh made imported.profiles
unfolding trim_space text_eq
made-Fresh = record { distinct = λ i j h. ground arith; new = λ i. (refl, (refl, (refl, tt))) }

edit_all-IsSound_example :
    IsSound
      (edit_all (activates (codes " a") ∷ deletes (codes "a") ∷ []) (with_defaults made imported))
edit_all-IsSound_example =
    edit_all-IsSound made imported (activates (codes " a") ∷ deletes (codes "a") ∷ []) made-Fresh
