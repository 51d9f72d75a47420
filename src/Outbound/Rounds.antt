-- ===== src/Outbound/Rounds.antt =====
-- What one round of a delivery does, by its outcome; the invariant of a group's gate.
use diana_qq_bot.Prelude.{
  ℕ, ◌+◌, ◌<◌, ◌≡◌, refl, ◌⊎◌, inl, inr, true, false, ◌||◌, List, [], ◌∷◌, Option, none, some,
  arith, if_either, if_elim, ltb, ◌==◌, Bool-cases, ==_iff, Option-cases,
}
use diana_qq_bot.Event.{MessageEvent}
use diana_qq_bot.Outbound.Groups.{
  GoError, is_group_unavailable, Gate, Delivery, emit, GroupList, wrap_error, mark_unavailable,
}
use diana_qq_bot.Outbound.Gate.{
  CallOutcome, sent, refused, Turn, Reply, open_gate, Request, drop_delivery, first_or, note_error,
  window_over, after_failure, call_api, must_wait, wait_and_call, check_window, turn, deliver,
}

-- A gate without failures is open, and one with failures knows when they began.
pub record GateValid (g : Gate) : Type 0 where
  pub quiet :
      g.failures ≡ 0 → (g.first_failure ≡ none) × (g.next_attempt ≡ none) × (g.drop_until ≡ none)
  pub dated : g.first_failure ≡ none → g.failures ≡ 0

pub wrap_error-gate :
    (now : ℕ) (event : MessageEvent) (answer : GroupList) (e : GoError) (d : Delivery)
    → (wrap_error now event answer e d).0.gate ≡ d.gate
unfolding wrap_error mark_unavailable emit
wrap_error-gate now event answer e d = ground arith

pub wrap_error-calls :
    (now : ℕ) (event : MessageEvent) (answer : GroupList) (e : GoError) (d : Delivery)
    → (wrap_error now event answer e d).0.calls ≡ d.calls
unfolding wrap_error mark_unavailable emit
wrap_error-calls now event answer e d = ground arith

pub open_gate-valid : GateValid open_gate
open_gate-valid = record { quiet = λ _. (refl, refl, refl); dated = λ _. refl }

drop_delivery-GateValid :
    (now : ℕ) (q : Request) (d : Delivery)
    → (d.gate.failures == 0) ≡ false
    → GateValid d.gate
    → GateValid (drop_delivery now q d).0.gate
unfolding drop_delivery emit
drop_delivery-GateValid now q d h v = record {
  quiet = λ e. absurd (ground arith);
  dated = λ e. ground (arith, v.dated e);
}

abbrev pub ValidAfter : Delivery × Option Reply → Type 0
ValidAfter x = GateValid x.0.gate

after_failure-GateValid :
    (q : Request) (t : Turn) (e wrapped : GoError) (d : Delivery)
    → ValidAfter (after_failure q t e wrapped d)
unfolding after_failure drop_delivery emit
after_failure-GateValid q t e wrapped d =
    if_either ValidAfter
      (window_over q t.failed_at (some (first_or d.gate.first_failure t.failed_at)))
      (record { quiet = λ z. absurd (omega arith); dated = λ z. cc })
      (record { quiet = λ z. absurd (omega arith); dated = λ z. cc })

call_api-GateValid :
    (q : Request) (t : Turn) (d : Delivery) → GateValid d.gate → ValidAfter (call_api q t d)
unfolding call_api emit
call_api-GateValid q t d v = by_outcome t.outcome refl
  where
    called : Delivery
    called = record d { calls = d.calls + 1 }

    by_outcome : (o : CallOutcome) → t.outcome ≡ o → ValidAfter (call_api q t d)
    by_outcome (sent response) e =
        rw (e, call_api)
          (if_either (λ (x : Delivery). GateValid x.gate) (ltb 0 d.gate.failures) open_gate-valid
            open_gate-valid)
    by_outcome (refused x) e =
        rw (e, call_api)
          (if_either ValidAfter
            (is_group_unavailable (wrap_error t.failed_at q.event t.group_list x called).1)
            (rw (wrap_error-gate t.failed_at q.event t.group_list x called) v)
            (after_failure-GateValid q t x (wrap_error t.failed_at q.event t.group_list x called).1
              (wrap_error t.failed_at q.event t.group_list x called).0))

quiet-eq : (g : Gate) → GateValid g → (g.failures == 0) ≡ true → g.failures ≡ 0
quiet-eq g v h = (==_iff g.failures 0).0 h

-- A gate that makes a delivery wait has failed, and so has one whose window began.
waits-busy :
    (t : Turn) (g : Gate)
    → GateValid g
    → must_wait t g.next_attempt ≡ true
    → (g.failures == 0) ≡ false
waits-busy t g v m = elim (Bool-cases (g.failures == 0)) [
  | inl e ↦ absurd (ground (arith, (v.quiet (quiet-eq g v e)).1))
  | inr e ↦ e
]

dated-busy :
    (q : Request) (now : ℕ) (g : Gate)
    → GateValid g
    → window_over q now g.first_failure ≡ true
    → (g.failures == 0) ≡ false
dated-busy q now g v w = elim (Bool-cases (g.failures == 0)) [
  | inl e ↦ absurd (ground (arith, (v.quiet (quiet-eq g v e)).0))
  | inr e ↦ e
]

wait_and_call-GateValid :
    (q : Request) (t : Turn) (d : Delivery) → GateValid d.gate → ValidAfter (wait_and_call q t d)
unfolding wait_and_call
wait_and_call-GateValid q t d v = elim (Option-cases t.wait_error) [
  | inl e ↦
      rw (e, wait_and_call)
        (if_either ValidAfter (must_wait t d.gate.next_attempt) (call_api-GateValid q t d v)
          (call_api-GateValid q t d v))
  | inr (x, e) ↦
      rw (e, wait_and_call)
        (if_elim ValidAfter (must_wait t d.gate.next_attempt)
          (λ m. if_either ValidAfter t.stopped v (
            drop_delivery-GateValid t.cancelled_at q (note_error x d) (waits-busy t d.gate v m)
              (record { quiet = v.quiet; dated = v.dated })))
          (λ _. call_api-GateValid q t d v))
]

check_window-GateValid :
    (q : Request) (t : Turn) (d : Delivery) → GateValid d.gate → ValidAfter (check_window q t d)
unfolding check_window
check_window-GateValid q t d v =
    if_elim ValidAfter (window_over q t.now d.gate.first_failure)
      (λ w. drop_delivery-GateValid t.now q d (dated-busy q t.now d.gate v w) v)
      (λ _. wait_and_call-GateValid q t d v)

-- Every round keeps the gate's invariant.
pub turn-GateValid :
    (q : Request) (t : Turn) (d : Delivery) → GateValid d.gate → ValidAfter (turn q t d)
unfolding turn
turn-GateValid q t d v = elim (Option-cases t.ctx_error) [
  | inr (x, e) ↦
      rw (e, turn)
        (if_elim ValidAfter (d.gate.failures == 0 || t.stopped) (λ _. v)
          (λ b.
            drop_delivery-GateValid t.cancelled_at q (note_error x d) (ground arith)
              (record { quiet = v.quiet; dated = v.dated })))
  | inl e ↦ elim (Option-cases d.gate.drop_until) [
    | inl f ↦ rw (e, f, turn) (check_window-GateValid q t d v)
    | inr (until, f) ↦
        rw (e, f, turn)
          (if_either ValidAfter (ltb t.now until) v
            (check_window-GateValid q t (record d { gate = open_gate }) open_gate-valid))
  ]
]

-- So does a delivery, however many rounds it takes.
pub deliver-GateValid :
    (q : Request) (ts : List Turn) (d : Delivery)
    → GateValid d.gate
    → GateValid (deliver q ts d).0.gate
unfolding deliver
deliver-GateValid q [] d v = v
deliver-GateValid q (t ∷ ts) d v = elim (Option-cases (turn q t d).1) [
  | inl e ↦ rw (e, deliver) (deliver-GateValid q ts (turn q t d).0 (turn-GateValid q t d v))
  | inr (r, e) ↦ rw (e, deliver) (turn-GateValid q t d v)
]

-- A gate without failures has nothing pending, and one with failures knows when they began.
abbrev pub Consistent : Gate → Type 0
Consistent g =
    ((g.failures ≡ 0) × (g.first_failure ≡ none) × (g.next_attempt ≡ none) × (g.drop_until ≡ none))
    ⊎ ((0 < g.failures) × ((first : ℕ) × (g.first_failure ≡ some first)))

GateValid-of_Consistent : (g : Gate) → Consistent g → GateValid g
GateValid-of_Consistent g (inl (z, f, n, u)) = record { quiet = λ _. (f, n, u); dated = λ _. z }
GateValid-of_Consistent g (inr (p, (first, f))) = record {
  quiet = λ z. absurd (omega arith);
  dated = λ e. absurd (ground arith);
}

Consistent-of_GateValid : (g : Gate) → GateValid g → Consistent g
Consistent-of_GateValid g v = elim (Option-cases g.first_failure) [
  | inl e ↦
      inl (v.dated e, (v.quiet (v.dated e)).0, (v.quiet (v.dated e)).1, (v.quiet (v.dated e)).2)
  | inr (first, e) ↦ elim (Bool-cases (g.failures == 0)) [
    | inl z ↦ absurd (ground (arith, v.quiet (ground arith)))
    | inr p ↦ inr (ground arith, (first, e))
  ]
]

-- However many rounds a delivery takes, it leaves a consistent gate consistent: a gate without
-- failures has no first failure, no attempt due and no cooldown, and one with failures has a first
-- one.
pub deliver-Consistent :
    (q : Request) (ts : List Turn) (d : Delivery)
    → Consistent d.gate
    → Consistent (deliver q ts d).0.gate
deliver-Consistent q ts d c =
    Consistent-of_GateValid (deliver q ts d).0.gate
      (deliver-GateValid q ts d (GateValid-of_Consistent d.gate c))
