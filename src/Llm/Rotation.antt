-- ===== src/Llm/Rotation.antt =====
-- Which profiles a failover tries.
use diana_qq_bot.Prelude.{
  ℕ, zero, suc, ◌+◌, ◌%◌, ◌≤◌, ◌<◌, ◌≡◌, ◌≢◌, ◌⊎◌, inl, inr, refl, false, List, [], ◌∷◌, Option,
  none, some, ◌==◌, length, arith, count_if, Bool-cases, Option-cases, ap, ◌∙◌, subst,
}
use diana_qq_bot.Prelude.Text.{Text}
use diana_qq_bot.Llm.Errors.{LlmError}
use diana_qq_bot.Llm.Retry.{Answer, response, failed}
use diana_qq_bot.Llm.Failover.{
  Served, Provider, Outcome, answered, stopped, client, answer_of, index_at, settle, give_up,
  end_of, switch_from, generate,
}

-- The indices from an offset on, so many of them, round the ring of `n` profiles.
abbrev pub round_from : (n current offset count : ℕ) → List ℕ
round_from n current offset zero = []
round_from n current offset (suc count) =
    ((current + offset) % n) ∷ round_from n current (suc offset) count

mod_distinct : (n a i j : ℕ) → i < j → j < i + n → (a + i) % n ≢ (a + j) % n
mod_distinct n a i j h k e = grind arith

round_from-later :
    (n a i j count : ℕ)
    → i < j
    → j + count ≤ i + n
    → count_if (λ x. x == (a + i) % n) (round_from n a j count) ≡ 0
round_from-later n a i j zero h le = refl
round_from-later n a i j (suc count) h le =
    let other : ((a + j) % n == (a + i) % n) ≡ false =
      ground (arith, mod_distinct n a i j h (omega arith)) in
    rw other (round_from-later n a i (suc j) count (omega arith) (omega arith))

-- No index comes twice in a round that is no longer than the ring.
round_from-once :
    (n a i count x : ℕ) → count ≤ n → count_if (λ y. y == x) (round_from n a i count) ≤ 1
round_from-once n a i zero x le = omega arith
round_from-once n a i (suc count) x le = elim (Bool-cases ((a + i) % n == x)) [
  | inr e ↦ rw e (round_from-once n a (suc i) count x (omega arith))
  | inl e ↦
      let same : (a + i) % n ≡ x = ground arith in
      let none_later : count_if (λ y. y == x) (round_from n a (suc i) count) ≡ 0 =
        rw⁻¹ same (round_from-later n a i (suc i) count (omega arith) (omega arith)) in
      rw e (omega (arith, none_later))
]

-- How a failover ends: a profile answered, which was the last one tried and is current from now on; or
-- the call was stopped; or every profile failed.
abbrev pub Ends : (n left offset count : ℕ) → Provider → Provider → Outcome → Type 0
Ends n left offset count p p' outcome =
    ((text : Text) × (m : ℕ) × (outcome ≡ answered text)
      × (count ≡ suc m)
      × (p'.current ≡ (p.current + (offset + m)) % n))
    ⊎ ((p'.current ≡ p.current) × ((e : LlmError) × (outcome ≡ stopped e)))
    ⊎ ((p'.current ≡ p.current)
        × (count ≡ left)
        × ((last : Option LlmError) × (outcome ≡ give_up p' last)))

record Tour (n left offset : ℕ) (p : Provider) (x : Provider × Outcome × List ℕ) : Type 0 where
  count : ℕ
  within : count ≤ left
  round : x.2 ≡ round_from n p.current offset count
  same_profiles : x.0.profiles ≡ p.profiles
  ends : Ends n left offset count p x.0 x.1

client-same :
    (served : Served) (index : ℕ) (p : Provider)
    → ((client served index p).0.current ≡ p.current)
      × ((client served index p).0.profiles ≡ p.profiles)
unfolding client
client-same served index p = ground arith

pub Answer-cases :
    (a : Answer) → ((text : Text) × (a ≡ response text)) ⊎ ((e : LlmError) × (a ≡ failed e))
Answer-cases (response text) = inl (text, refl)
Answer-cases (failed e) = inr (e, refl)

-- The call is stopped, with `count` profiles tried.
Tour-stopped :
    (n left offset count : ℕ) (p p' : Provider) (e : LlmError)
    → count ≤ left
    → p'.current ≡ p.current
    → p'.profiles ≡ p.profiles
    → Tour n left offset p (p', stopped e, round_from n p.current offset count)
Tour-stopped n left offset count p p' e le c s = record {
  count = count;
  within = le;
  round = refl;
  same_profiles = s;
  ends = inr (inl (c, (e, refl)));
}

-- One profile fails, and the tour goes on from the next.
Tour-longer :
    (n left offset : ℕ) (p p' : Provider) (x : Provider × Outcome × List ℕ)
    → p'.current ≡ p.current
    → p'.profiles ≡ p.profiles
    → Tour n left (suc offset) p' x
    → Tour n (suc left) offset p (x.0, x.1, ((p.current + offset) % n) ∷ x.2)
Tour-longer n left offset p p' x c s t = record {
  count = suc t.count;
  within = omega (arith, t.within);
  round =
      ap (λ l. ((p.current + offset) % n) ∷ l)
        (t.round ∙ ap (λ i. round_from n i (suc offset) t.count) c);
  same_profiles = t.same_profiles ∙ s;
  ends = further t.ends;
}
  where
    moved : (m : ℕ) → (p'.current + (suc offset + m)) % n ≡ (p.current + (offset + suc m)) % n
    moved m = rw c (ap (λ i. i % n) (omega arith))

    further :
        Ends n left (suc offset) t.count p' x.0 x.1
        → Ends n (suc left) offset (suc t.count) p x.0 x.1
    further (inl (text, m, o, k, e)) = inl (text, suc m, o, omega arith, e ∙ moved m)
    further (inr (inl (e, o))) = inr (inl (e ∙ c, o))
    further (inr (inr (e, k, o))) = inr (inr (e ∙ c, omega arith, o))

switch_from-Tour :
    (world : ℕ → Served) (left offset : ℕ) (last : Option LlmError) (p : Provider)
    → Tour (length p.profiles) left offset p (switch_from world left offset last p)
unfolding switch_from settle index_at
switch_from-Tour world zero offset last p = record {
  count = 0;
  within = omega arith;
  round = refl;
  same_profiles = refl;
  ends = inr (inr (refl, refl, (last, refl)));
}
switch_from-Tour world (suc left) offset last p = elim (Option-cases served.ended_before) [
  | inr (c, e) ↦
      rw (e, switch_from) (Tour-stopped n (suc left) offset 0 p p c (omega arith) refl refl)
  | inl e ↦ elim (Answer-cases (answer_of served (client served index p).1)) [
    | inl (text, f) ↦
        rw (e, f, switch_from)
          (record {
            count = 1;
            within = omega arith;
            round = refl;
            same_profiles = kept.1;
            ends = inl (text, 0, refl, refl, ap (λ i. (p.current + i) % n) (omega arith));
          })
    | inr (x, f) ↦ elim (Option-cases (end_of served x)) [
      | inr (y, g) ↦
          rw (e, f, g, switch_from)
            (Tour-stopped n (suc left) offset 1 p (client served index p).0 y (omega arith) kept.0
              kept.1)
      | inl g ↦
          rw (e, f, g, switch_from)
            (Tour-longer n left offset p (client served index p).0 _ kept.0 kept.1 (
              subst
                (λ l.
                  Tour (length l) left (suc offset) (client served index p).0
                    (switch_from world left (suc offset) (some x) (client served index p).0))
                kept.1
                (switch_from-Tour world left (suc offset) (some x) (client served index p).0)))
    ]
  ]
]
  where
    n : ℕ
    n = length p.profiles

    index : ℕ
    index = index_at p offset

    served : Served
    served = world index

    kept :
        ((client served index p).0.current ≡ p.current)
        × ((client served index p).0.profiles ≡ p.profiles)
    kept = client-same served index p

-- A call with failover tries profiles in the order of rotation from the current one on, each at most
-- once. It ends in one of three ways: answered, with the profile tried last as the current one;
-- stopped with an error, with the current profile as it was; or given up after all profiles have been
-- tried, with the current profile as it was and the error that giving up makes.
pub generate_tour :
    (world : ℕ → Served) (p : Provider)
    → let x = generate world p in
      (count : ℕ) × (count ≤ length p.profiles)
      × (x.2 ≡ round_from (length p.profiles) p.current 0 count)
      × ((index : ℕ) → count_if (λ i. i == index) x.2 ≤ 1)
      × Ends (length p.profiles) (length p.profiles) 0 count p x.0 x.1
unfolding generate
generate_tour world p =
    let t = switch_from-Tour world (length p.profiles) 0 none p in
    (
      t.count,
      t.within,
      t.round,
      λ index.
          rw (t.round) (round_from-once (length p.profiles) p.current 0 t.count index t.within),
      t.ends,
    )
