-- ===== src/Llm/Failover.antt =====
-- profileFailoverLLMProvider: one call that goes from profile to profile of a group.
use diana_qq_bot.Prelude.{
  ℕ, zero, suc, ◌+◌, ◌%◌, Bool, false, ◌&&◌, List, [], ◌∷◌, ◌++◌, Option, none, some, if◌then◌else◌,
  ltb, ◌==◌, length, get_elem?,
}
use diana_qq_bot.Prelude.Text.{Text, codes}
use diana_qq_bot.Llm.Errors.{LlmError, should_failover}
use diana_qq_bot.Llm.Retry.{Answer, response, failed}

-- What the world answers for the profile at an index: ctx.Err() before it, the factory's error, the
-- answer of generateWithTransientRetryTimeout, and ctx.Err() after it.
pub record Served : Type 0 where
  pub ended_before : Option LlmError
  pub factory_error : Option LlmError
  pub answer : Answer
  pub ended_after : Option LlmError

-- The provider: the ids of its profiles, the current one, the outcome of the factory where it has
-- been called, how often it has been called, and the ids activated so far.
pub record Provider : Type 0 where
  pub profiles : List Text
  pub wrap_group_error : Bool
  pub group : Text
  pub current : ℕ
  pub loaded : ℕ → Option (Option LlmError)
  pub factory_calls : ℕ → ℕ
  pub activated : List Text

-- A failure of every profile is wrapped with the name of the group, or is the last error.
pub data Outcome : Type 0 where
  answered : Text → Outcome
  stopped : LlmError → Outcome
  unavailable : (group : Text) → LlmError → Outcome

abbrev pub at : {A : Type 0} → (ℕ → A) → ℕ → A → ℕ → A
at f i a j = if i == j then a else f j

-- The client of a profile, made once: its error, if any.
unfoldable pub client : Served → ℕ → Provider → Provider × Option LlmError
client served index p = elim (p.loaded index) [
  | some outcome ↦ (p, outcome)
  | none ↦ (
    record p {
      loaded = at p.loaded index (some served.factory_error);
      factory_calls = at p.factory_calls index (p.factory_calls index + 1);
    },
    served.factory_error,
  )
]

unfoldable pub answer_of : Served → Option LlmError → Answer
answer_of served none = served.answer
answer_of served (some e) = failed e

unfoldable pub index_at : Provider → ℕ → ℕ
index_at p offset = (p.current + offset) % length p.profiles

abbrev pub id_at : List Text → ℕ → Text
id_at ids index = elim (get_elem? ids index) [ none ↦ [] | some id ↦ id ]

-- A profile has answered.
unfoldable pub settle : ℕ → Provider → Provider
settle index p = record p {
  current = index;
  activated = p.activated ++ (id_at p.profiles index ∷ []);
}

unknown_error : LlmError
unknown_error = record {
  text = codes "unknown llm profile error";
  has_no_text = false;
  truncated_no_text = false;
  is_empty_completion = false;
  deadline_exceeded = false;
}

unfoldable pub give_up : Provider → Option LlmError → Outcome
unfolding unknown_error
give_up p last =
    let e : LlmError = elim last [ none ↦ unknown_error | some x ↦ x ] in
    if p.wrap_group_error && ltb 1 (length p.profiles) then unavailable p.group e else stopped e

-- What a profile's error leads to: the end of the call, or the next profile.
abbrev pub end_of : Served → LlmError → Option LlmError
end_of served e = elim served.ended_after [
  | some c ↦ some c
  | none ↦ if should_failover e then none else some e
]

-- The loop, with `left` profiles to go: the provider, the outcome and the indices tried, in order.
unfoldable pub switch_from :
    (ℕ → Served) → ℕ → ℕ → Option LlmError → Provider → Provider × Outcome × List ℕ
unfolding client answer_of index_at settle give_up
switch_from world zero offset last p = (p, give_up p last, [])
switch_from world (suc left) offset last p =
    let index = index_at p offset in
    let served = world index in
    let (p', factory_error) = client served index p in
    elim served.ended_before [
      | some c ↦ (p, stopped c, [])
      | none ↦ elim (answer_of served factory_error) [
        | response text ↦ (settle index p', answered text, index ∷ [])
        | failed e ↦ elim (end_of served e) [
          | some x ↦ (p', stopped x, index ∷ [])
          | none ↦
              let (q, outcome, tried) = switch_from world left (suc offset) (some e) p' in
              (q, outcome, index ∷ tried)
        ]
      ]
    ]

unfoldable pub generate : (ℕ → Served) → Provider → Provider × Outcome × List ℕ
unfolding switch_from
generate world p = switch_from world (length p.profiles) 0 none p
