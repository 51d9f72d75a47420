-- ===== src/Outbound/Loops.antt =====
-- What is known of a round that does not return: how it leaves the gate.
use diana_qq_bot.Prelude.{
  ℕ, ◌+◌, ◌≡◌, ◌≢◌, refl, ◌⊎◌, inl, inr, true, false, none, some, arith, ltb, Bool-cases,
  Option-cases, subst,
}
use diana_qq_bot.Prelude.Text.{Text}
use diana_qq_bot.Prelude.Int64.{add_time}
use diana_qq_bot.Outbound.Policy.{backoff_delay}
use diana_qq_bot.Outbound.Groups.{GoError, is_group_unavailable, Gate, Delivery, wrap_error}
use diana_qq_bot.Outbound.Gate.{
  CallOutcome, sent, refused, Turn, open_gate, Request, drop_delivery, first_or, window_over,
  after_failure, call_api, must_wait, wait_and_call, check_window, turn,
}
use diana_qq_bot.Outbound.Rounds.{wrap_error-gate}

-- How a round that goes round again leaves the gate that it called with.
pub record Looped (q : Request) (failed_at : ℕ) (g g' : Gate) : Type 0 where
  pub first : g'.first_failure ≡ some (first_or g.first_failure failed_at)
  pub inside : window_over q failed_at (some (first_or g.first_failure failed_at)) ≡ false
  pub next :
      g'.next_attempt
      ≡ some (add_time failed_at (backoff_delay q.event q.action (g.failures + 1) q.policy))
  pub undropped : g'.drop_until ≡ g.drop_until

after_failure-loops :
    (q : Request) (t : Turn) (e wrapped : GoError) (d : Delivery)
    → (after_failure q t e wrapped d).1 ≡ none
    → Looped q t.failed_at d.gate (after_failure q t e wrapped d).0.gate
unfolding after_failure drop_delivery
after_failure-loops q t e wrapped d h =
    elim (Bool-cases
      (window_over q t.failed_at (some (first_or d.gate.first_failure t.failed_at)))) [
        | inl over ↦ absurd (ground arith)
        | inr inside ↦
            rw (inside, after_failure)
              (record { first = refl; inside = inside; next = refl; undropped = refl })
      ]

call_api-loops :
    (q : Request) (t : Turn) (d : Delivery)
    → (call_api q t d).1 ≡ none
    → Looped q t.failed_at d.gate (call_api q t d).0.gate
unfolding call_api
call_api-loops q t d h = by_outcome t.outcome refl
  where
    called : Delivery
    called = record d { calls = d.calls + 1 }

    wrapped_of : GoError → Delivery × GoError
    wrapped_of x = wrap_error t.failed_at q.event t.group_list x called

    by_outcome :
        (o : CallOutcome) → t.outcome ≡ o → Looped q t.failed_at d.gate (call_api q t d).0.gate
    by_outcome (sent response) e = absurd (ground arith)
    by_outcome (refused x) e = elim (Bool-cases (is_group_unavailable (wrapped_of x).1)) [
      | inl gone ↦ absurd (ground arith)
      | inr there ↦
          rw (e, there, call_api)
            (subst
              (λ g.
                Looped q t.failed_at g
                  (after_failure q t x (wrapped_of x).1 (wrapped_of x).0).0.gate)
              (wrap_error-gate t.failed_at q.event t.group_list x called)
              (after_failure-loops q t x (wrapped_of x).1 (wrapped_of x).0 (ground arith)))
    ]

-- The gate that a round goes round again with: as it was, or reset after a cooldown.
pub record Round (q : Request) (t : Turn) (d : Delivery) (g : Gate) : Type 0 where
  pub undropped : g.drop_until ≡ none
  pub origin : (g ≡ d.gate) ⊎ ((g ≡ open_gate) × (d.gate.drop_until ≢ none))
  pub waited : must_wait t g.next_attempt ≡ true → t.wait_error ≡ none
  pub looped : Looped q t.failed_at g (turn q t d).0.gate

wait_and_call-loops :
    (q : Request) (t : Turn) (d : Delivery)
    → (wait_and_call q t d).1 ≡ none
    → (must_wait t d.gate.next_attempt ≡ true → t.wait_error ≡ none)
      × Looped q t.failed_at d.gate (wait_and_call q t d).0.gate
unfolding wait_and_call drop_delivery
wait_and_call-loops q t d h = elim (Bool-cases (must_wait t d.gate.next_attempt)) [
  | inr idle ↦ (λ m. cc, rw (idle, wait_and_call) (call_api-loops q t d (ground arith)))
  | inl busy ↦ elim (Option-cases t.wait_error) [
    | inl fired ↦
        (λ m. fired, rw (busy, fired, wait_and_call) (call_api-loops q t d (ground arith)))
    | inr (x, e) ↦ absurd (ground arith)
  ]
]

check_window-loops :
    (q : Request) (t : Turn) (d : Delivery)
    → (check_window q t d).1 ≡ none
    → (must_wait t d.gate.next_attempt ≡ true → t.wait_error ≡ none)
      × Looped q t.failed_at d.gate (check_window q t d).0.gate
unfolding check_window drop_delivery
check_window-loops q t d h = elim (Bool-cases (window_over q t.now d.gate.first_failure)) [
  | inl over ↦ absurd (ground arith)
  | inr inside ↦ rw (inside, check_window) (wait_and_call-loops q t d (ground arith))
]

pub turn-open :
    (q : Request) (t : Turn) (d : Delivery)
    → t.ctx_error ≡ none
    → d.gate.drop_until ≡ none
    → turn q t d ≡ check_window q t d
unfolding turn
turn-open q t d e f = ground arith

pub turn-cooled :
    (q : Request) (t : Turn) (d : Delivery) (until : ℕ)
    → t.ctx_error ≡ none
    → d.gate.drop_until ≡ some until
    → ltb t.now until ≡ false
    → turn q t d ≡ check_window q t (record d { gate = open_gate })
unfolding turn
turn-cooled q t d until e f g = ground arith

turn_cooling :
    (q : Request) (t : Turn) (d : Delivery) (until : ℕ)
    → t.ctx_error ≡ none
    → d.gate.drop_until ≡ some until
    → ltb t.now until ≡ true
    → (turn q t d).1 ≢ none
unfolding turn
turn_cooling q t d until e f g h = absurd (ground arith)

turn_cancelled :
    (q : Request) (t : Turn) (d : Delivery) (x : Text)
    → t.ctx_error ≡ some x
    → (turn q t d).1 ≢ none
unfolding turn drop_delivery
turn_cancelled q t d x e h = absurd (ground arith)

pub turn-loops :
    (q : Request) (t : Turn) (d : Delivery) → (turn q t d).1 ≡ none → (g : Gate) × Round q t d g
turn-loops q t d h = elim (Option-cases t.ctx_error) [
  | inr (x, e) ↦ absurd (turn_cancelled q t d x e h)
  | inl e ↦ elim (Option-cases d.gate.drop_until) [
    | inl f ↦
        let same = turn-open q t d e f in
        let checked = check_window-loops q t d (rw (← same) h) in
        (
          d.gate,
          record {
            undropped = f;
            origin = inl refl;
            waited = checked.0;
            looped = rw same (checked.1);
          },
        )
    | inr (until, f) ↦ elim (Bool-cases (ltb t.now until)) [
      | inl cooling ↦ absurd (turn_cooling q t d until e f cooling h)
      | inr over ↦
          let same = turn-cooled q t d until e f over in
          let checked = check_window-loops q t (record d { gate = open_gate }) (rw (← same) h) in
          (
            open_gate,
            record {
              undropped = refl;
              origin = inr (refl, λ z. cc);
              waited = checked.0;
              looped = rw same (checked.1);
            },
          )
    ]
  ]
]
