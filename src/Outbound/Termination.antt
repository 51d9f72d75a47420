-- ===== src/Outbound/Termination.antt =====
-- The rounds of executeOutboundCall against the clock: how far its failures lie apart.
use diana_qq_bot.Prelude.{
  ℕ, suc, ◌+◌, ◌-◌, ◌*◌, ◌^◌, ◌≤◌, ◌<◌, ◌≡◌, ◌≢◌, refl, ap, ◌∙◌, ◌⊎◌, inl, inr, true, false, List,
  [], ◌∷◌, Option, none, some, arith, Bool-cases, Option-cases, length, min,
}
use native.Mathlib.Nat.{mul-le-mul_left}
use diana_qq_bot.Prelude.Backoff.{pow-pos}
use diana_qq_bot.Prelude.Int64.{pos, add_time, i64_max}
use diana_qq_bot.Outbound.Policy.{DeliveryPolicy, backoff_delay, at_least_one}
use diana_qq_bot.Outbound.Bounds.{backoff_delay_bounds}
use diana_qq_bot.Outbound.Groups.{Gate, Delivery}
use diana_qq_bot.Outbound.Gate.{
  Turn, Reply, open_gate, Request, first_or, window_over, must_wait, turn, deliver,
}
use diana_qq_bot.Outbound.Loops.{turn-loops}

-- The rounds' clocks agree: they do not go back, and a wait without an error ends when the timer
-- fires, not before the next attempt is due.
abbrev pub TimerFired : Turn → Option ℕ → Type 0
TimerFired t none = Unit
TimerFired t (some next) = t.wait_error ≡ none → next ≤ t.failed_at

abbrev pub Paced : Request → ℕ → List Turn → Delivery → Type 0
Paced q clock [] d = Unit
Paced q clock (t ∷ ts) d =
    (clock ≤ t.now)
    × (t.now ≤ t.asked_at)
    × (t.asked_at ≤ t.failed_at)
    × TimerFired t d.gate.next_attempt
    × Paced q t.failed_at ts (turn q t d).0

-- A policy in numbers: its first delay is not zero, and no delay overflows.
pub record Spans (p : DeliveryPolicy) (initial maximum window : ℕ) : Type 0 where
  pub initial_is : p.initial_delay ≡ pos initial
  pub maximum_is : p.maximum_delay ≡ pos maximum
  pub window_is : p.failure_window ≡ pos window
  pub initial_pos : 0 < initial
  pub initial_le : initial ≤ maximum
  pub maximum_small : maximum * 1200 ≤ i64_max

initial-le-base :
    (initial maximum k : ℕ) → initial ≤ maximum → initial ≤ min maximum (initial * 2 ^ k)
initial-le-base initial maximum k h = omega (arith, mul-le-mul_left initial (pow-pos k))

next_after :
    (q : Request) (initial maximum window now failures : ℕ)
    → Spans q.policy initial maximum window
    → now + initial ≤ add_time now (backoff_delay q.event q.action failures q.policy)
next_after q initial maximum window now failures s =
    let b =
      backoff_delay_bounds q.event q.action failures q.policy initial maximum s.initial_is
        s.maximum_is s.initial_le s.maximum_small in
    rw (b.1)
      (omega (arith, b.2, initial-le-base initial maximum (at_least_one failures - 1) s.initial_le))

window-lt :
    (q : Request) (initial maximum window now first : ℕ)
    → Spans q.policy initial maximum window
    → window_over q now (some first) ≡ false
    → now < first + window
window-lt q initial maximum window now first s h = ground (arith, s.window_is)

due-le :
    (t : Turn) (next : ℕ)
    → t.asked_at ≤ t.failed_at
    → TimerFired t (some next)
    → (must_wait t (some next) ≡ true → t.wait_error ≡ none)
    → next ≤ t.failed_at
due-le t next le fired waited = elim (Bool-cases (must_wait t (some next))) [
  | inl e ↦ fired (waited e)
  | inr e ↦ ground arith
]

-- A round that goes round again, from a gate whose window began at `first` and whose next attempt is
-- due at `next`.
record Again (q : Request) (t : Turn) (d : Delivery) (initial window first next : ℕ) : Type 0 where
  later : ℕ
  first_kept : (turn q t d).0.gate.first_failure ≡ some first
  undropped : (turn q t d).0.gate.drop_until ≡ none
  later_is : (turn q t d).0.gate.next_attempt ≡ some later
  not_early : next ≤ t.failed_at
  in_window : t.failed_at < first + window
  spaced : t.failed_at + initial ≤ later

turn-Again :
    (q : Request) (t : Turn) (d : Delivery) (initial maximum window first next : ℕ)
    → Spans q.policy initial maximum window
    → d.gate.drop_until ≡ none
    → d.gate.first_failure ≡ some first
    → d.gate.next_attempt ≡ some next
    → t.asked_at ≤ t.failed_at
    → TimerFired t d.gate.next_attempt
    → (turn q t d).1 ≡ none
    → Again q t d initial window first next
turn-Again q t d initial maximum window first next s un fi ne le fired h =
    let (g, r) = turn-loops q t d h in
    let same : g ≡ d.gate = elim r.origin [ inl e ↦ e | inr e ↦ absurd (e.1 un) ] in
    let g_first : g.first_failure ≡ some first = rw same fi in
    let g_next : g.next_attempt ≡ some next = rw same ne in
    let began : first_or g.first_failure t.failed_at ≡ first =
      ap (λ (o : Option ℕ). first_or o t.failed_at) g_first in
    record {
      later = add_time t.failed_at (backoff_delay q.event q.action (g.failures + 1) q.policy);
      first_kept = r.looped.first ∙ ap some began;
      undropped = r.looped.undropped ∙ r.undropped;
      later_is = r.looped.next;
      not_early = due-le t next le (rw ne at fired) (λ m. r.waited (rw g_next m));
      in_window =
          window-lt q initial maximum window t.failed_at first s (rw began at (r.looped.inside));
      spaced = next_after q initial maximum window t.failed_at (g.failures + 1) s;
    }

count_round :
    (L i first w next at later : ℕ)
    → next ≤ at
    → at < first + w
    → at + i ≤ later
    → (L ≡ 0) ⊎ (later + L * i < first + w + i)
    → next + suc L * i < first + w + i
count_round L i first w next at later a b c (inl e) =
    let one : suc L * i ≡ i = rw e (omega arith) in omega (arith, one)
count_round L i first w next at later a b c (inr e) = omega arith

-- Each round adds at least the initial delay, and the last one lies inside the window.
rounds_bound :
    (q : Request) (initial maximum window clock first next : ℕ) (ts : List Turn) (d : Delivery)
    → Spans q.policy initial maximum window
    → d.gate.drop_until ≡ none
    → d.gate.first_failure ≡ some first
    → d.gate.next_attempt ≡ some next
    → Paced q clock ts d
    → (deliver q ts d).1 ≡ none
    → (length ts ≡ 0) ⊎ (next + length ts * initial < first + window + initial)
unfolding deliver
rounds_bound q initial maximum window clock first next [] d s un fi ne paced h = inl refl
rounds_bound q initial maximum window clock first next (t ∷ ts) d s un fi ne paced h =
    elim (Option-cases (turn q t d).1) [
      | inr (r, e) ↦ absurd (ground arith)
      | inl e ↦
          let a : Again q t d initial window first next =
            turn-Again q t d initial maximum window first next s un fi ne paced.2 paced.3 e in
          let rest =
            rounds_bound q initial maximum window t.failed_at first a.later ts (turn q t d).0 s
              a.undropped a.first_kept a.later_is paced.4 (ground arith) in
          inr (
            count_round (length ts) initial first window next t.failed_at a.later a.not_early
              a.in_window a.spaced rest)
    ]

-- The window began, if it has, before the clock.
abbrev pub Began : ℕ → Option ℕ → Type 0
Began clock none = Unit
Began clock (some first) = first ≤ clock

Began-le :
    (clock at : ℕ) (d : Delivery) (g : Gate)
    → (g ≡ d.gate) ⊎ ((g ≡ open_gate) × (d.gate.drop_until ≢ none))
    → Began clock d.gate.first_failure
    → clock ≤ at
    → first_or g.first_failure at ≤ at
Began-le clock at d g (inl e) b le = ground (arith, ap (λ (x : Gate). x.first_failure) e)
Began-le clock at d g (inr e) b le = ground (arith, ap (λ (x : Gate). x.first_failure) e.0)

enough_rounds :
    (L i w first later at : ℕ)
    → (L ≡ 0) ⊎ (later + L * i < first + w + i)
    → first ≤ at
    → at < first + w
    → at + i ≤ later
    → w + i ≤ suc L * i
    → ⊥
enough_rounds L i w first later at (inl e) a b c h =
    let one : suc L * i ≡ i = rw e (omega arith) in omega (arith, one)
enough_rounds L i w first later at (inr e) a b c h = omega arith

-- Let a policy have an initial delay that is positive and at most its maximum, and let 1200 times the
-- maximum fit into 63 bits; let the clocks of the rounds not go back, let each wait without an error
-- end no earlier than the next attempt is due, and let the window of the gate, if it has begun, have
-- begun before the clock. Then a delivery has a reply within any number of rounds, at least 1, whose
-- initial delays together cover the failure window and one initial delay more.
pub deliver_returns :
    (q : Request) (initial maximum window clock : ℕ) (t : Turn) (ts : List Turn) (d : Delivery)
    → Spans q.policy initial maximum window
    → Began clock d.gate.first_failure
    → Paced q clock (t ∷ ts) d
    → window + initial ≤ length (t ∷ ts) * initial
    → (r : Reply) × ((deliver q (t ∷ ts) d).1 ≡ some r)
unfolding deliver
deliver_returns q initial maximum window clock t ts d s began paced enough =
    elim (Option-cases (deliver q (t ∷ ts) d).1) [
      | inr (r, e) ↦ (r, e)
      | inl h ↦ elim (Option-cases (turn q t d).1) [
        | inr (r, e) ↦ absurd (ground arith)
        | inl e ↦
            let (g, round) = turn-loops q t d e in
            let le : first_or g.first_failure t.failed_at ≤ t.failed_at =
              Began-le clock t.failed_at d g round.origin began (omega arith) in
            absurd (
              enough_rounds (length ts) initial window (first_or g.first_failure t.failed_at)
                (add_time t.failed_at (backoff_delay q.event q.action (g.failures + 1) q.policy))
                t.failed_at
                (rounds_bound q initial maximum window t.failed_at
                  (first_or g.first_failure t.failed_at)
                  (add_time t.failed_at (backoff_delay q.event q.action (g.failures + 1) q.policy))
                  ts (turn q t d).0 s (round.looped.undropped ∙ round.undropped) round.looped.first
                  round.looped.next paced.4 (ground arith))
                le
                (window-lt q initial maximum window t.failed_at
                  (first_or g.first_failure t.failed_at) s round.looped.inside)
                (next_after q initial maximum window t.failed_at (g.failures + 1) s) enough)
      ]
    ]
