-- ===== src/Llm/Clients.antt =====
-- The clients of a failover's profiles.
use diana_qq_bot.Prelude.{
  ℕ, zero, suc, ◌≡◌, Option, none, some, ==_iff, length, arith, Option-cases, inl, inr,
}
use diana_qq_bot.Llm.Errors.{LlmError}
use diana_qq_bot.Llm.Rotation.{Answer-cases}
use diana_qq_bot.Llm.Failover.{
  Served, Provider, client, answer_of, index_at, settle, end_of, switch_from, generate,
}

abbrev pub calls_of : Option (Option LlmError) → ℕ
calls_of none = 0
calls_of (some outcome) = 1

-- The factory has been called once for each client that is there, and for no other.
abbrev pub MadeOnce : Provider → Type 0
MadeOnce p = (index : ℕ) → p.factory_calls index ≡ calls_of (p.loaded index)

client-MadeOnce :
    (served : Served) (index : ℕ) (p : Provider) → MadeOnce p → MadeOnce (client served index p).0
unfolding client
client-MadeOnce served index p h j = elim (Option-cases (p.loaded index)) [
  | inr (o, e) ↦ rw (e, client) (h j)
  | inl e ↦ rw (e, client) (grind (arith, h index, h j, ==_iff index j, e))
]

switch_from-MadeOnce :
    (world : ℕ → Served) (left offset : ℕ) (last : Option LlmError) (p : Provider)
    → MadeOnce p
    → MadeOnce (switch_from world left offset last p).0
unfolding switch_from settle index_at
switch_from-MadeOnce world zero offset last p h = h
switch_from-MadeOnce world (suc left) offset last p h = elim (Option-cases served.ended_before) [
  | inr (c, e) ↦ rw (e, switch_from) h
  | inl e ↦ elim (Answer-cases (answer_of served (client served index p).1)) [
    | inl (text, f) ↦ rw (e, f, switch_from) made
    | inr (x, f) ↦ elim (Option-cases (end_of served x)) [
      | inr (y, g) ↦ rw (e, f, g, switch_from) made
      | inl g ↦
          rw (e, f, g, switch_from)
            (switch_from-MadeOnce world left (suc offset) (some x) (client served index p).0 made)
    ]
  ]
]
  where
    index : ℕ
    index = index_at p offset

    served : Served
    served = world index

    made : MadeOnce (client served index p).0
    made = client-MadeOnce served index p h

-- Where a provider has called its factory once for each profile it has loaded and never for another,
-- so has it after a call with failover.
pub generate-MadeOnce :
    (world : ℕ → Served) (p : Provider) → MadeOnce p → MadeOnce (generate world p).0
unfolding generate
generate-MadeOnce world p h = switch_from-MadeOnce world (length p.profiles) 0 none p h
