-- ===== src/Outbound/Replies.antt =====
-- One rule for what holds whenever a delivery replies: the ways in which a round ends.
use diana_qq_bot.Prelude.{
  ℕ, ◌+◌, ◌≡◌, refl, inl, inr, false, ◌||◌, List, [], ◌∷◌, Option, none, some, arith, if◌then◌else◌,
  if_either, ltb, ◌==◌, Bool-cases, Option-cases, All,
}
use diana_qq_bot.Prelude.Text.{Text}
use diana_qq_bot.Event.{MessageEvent}
use diana_qq_bot.Outbound.Groups.{
  GoError, plain, outbound, is_group_unavailable, is_delivery_dropped, Delivery, GroupList,
  wrap_error, emit,
}
use diana_qq_bot.Outbound.Gate.{
  count_failure, dropped_error, CallOutcome, sent, refused, Turn, Reply, delivered, failed,
  open_gate, Request, group_of, drop_delivery, first_or, window_over, after_failure, call_api,
  must_wait, wait_and_call, check_window, turn, deliver, note_error,
}
use diana_qq_bot.Outbound.Loops.{turn-open, turn-cooled}

-- The network's own errors are not the guard's.
abbrev pub IsForeign : GoError → Type 0
IsForeign (plain t) = Unit
IsForeign (outbound g cause u d) = ⊥

abbrev pub OutcomeForeign : CallOutcome → Type 0
OutcomeForeign (sent r) = Unit
OutcomeForeign (refused e) = IsForeign e

abbrev pub TurnForeign : Turn → Type 0
TurnForeign t = OutcomeForeign t.outcome

pub wrap_error-undropped :
    (now : ℕ) (event : MessageEvent) (answer : GroupList) (e : GoError) (d : Delivery)
    → IsForeign e
    → is_delivery_dropped (wrap_error now event answer e d).1 ≡ false
unfolding wrap_error
wrap_error-undropped now event answer (plain t) d f = refl
wrap_error-undropped now event answer (outbound g c u dr) d f = absurd f

-- A delivery is dropped into the cooldown, still cooling, cancelled or handed to an alternative, told
-- that its group is gone, sent, or under way.
module _ (q : Request) (P : Delivery × Option Reply → Type 0)
    (on_drop : (now : ℕ) (d : Delivery) → P (drop_delivery now q d))
    (on_cooling : (d : Delivery) (group_id cause : Text) (until : ℕ)
      → d.gate.drop_until ≡ some until
      → P (d, some (failed (dropped_error group_id cause))))
    (on_other : (d : Delivery) (e : GoError)
      → is_group_unavailable e ≡ false
      → is_delivery_dropped e ≡ false
      → P (d, some (failed e)))
    (on_gone : (now : ℕ) (answer : GroupList) (e : GoError) (d : Delivery)
      → IsForeign e
      → P (
        (wrap_error now q.event answer e d).0,
        some (failed (wrap_error now q.event answer e d).1),
      ))
    (on_sent : (d : Delivery) (response : Text)
      → d.gate ≡ open_gate
      → P (d, some (delivered response)))
    (on_way : (d : Delivery) → P (d, none)) where
  after_failure_rule :
      (t : Turn) (e wrapped : GoError) (d : Delivery)
      → is_group_unavailable wrapped ≡ false
      → is_delivery_dropped wrapped ≡ false
      → P (after_failure q t e wrapped d)
  unfolding after_failure
  after_failure_rule t e wrapped d a b =
      elim (Bool-cases
        (window_over q t.failed_at (some (first_or d.gate.first_failure t.failed_at)))) [
          | inl over ↦ rw (over, after_failure) (on_drop t.failed_at (count_failure t e d))
          | inr inside ↦ elim (Bool-cases q.alternative) [
            | inl alt ↦ rw (inside, alt, after_failure) (on_other _ wrapped a b)
            | inr keep ↦ rw (inside, keep, after_failure) (on_way _)
          ]
        ]

  call_api_rule : (t : Turn) (d : Delivery) → TurnForeign t → P (call_api q t d)
  unfolding call_api emit
  call_api_rule t d f = by_outcome t.outcome refl f
    where
      called : Delivery
      called = record d { calls = d.calls + 1 }

      wrapped_of : GoError → Delivery × GoError
      wrapped_of x = wrap_error t.failed_at q.event t.group_list x called

      by_outcome : (o : CallOutcome) → t.outcome ≡ o → OutcomeForeign o → P (call_api q t d)
      by_outcome (sent response) e f = elim (Bool-cases (ltb 0 d.gate.failures)) [
        | inl b ↦ rw (e, b, call_api) (on_sent _ response refl)
        | inr b ↦ rw (e, b, call_api) (on_sent _ response refl)
      ]
      by_outcome (refused x) e f = elim (Bool-cases (is_group_unavailable (wrapped_of x).1)) [
        | inl gone ↦ rw (e, gone, call_api) (on_gone t.failed_at t.group_list x called f)
        | inr there ↦
            let same : call_api q t d ≡ after_failure q t x (wrapped_of x).1 (wrapped_of x).0 =
              ground arith in
            rw same (
              after_failure_rule t x (wrapped_of x).1 (wrapped_of x).0 there
                (wrap_error-undropped t.failed_at q.event t.group_list x called f))
      ]

  wait_and_call_rule : (t : Turn) (d : Delivery) → TurnForeign t → P (wait_and_call q t d)
  unfolding wait_and_call
  wait_and_call_rule t d f = elim (Bool-cases (must_wait t d.gate.next_attempt)) [
    | inr idle ↦
        let same : wait_and_call q t d ≡ call_api q t d = ground arith in
        rw same (call_api_rule t d f)
    | inl busy ↦ elim (Option-cases t.wait_error) [
      | inl e ↦
          let same : wait_and_call q t d ≡ call_api q t d = ground arith in
          rw same (call_api_rule t d f)
      | inr (x, e) ↦
          let same : wait_and_call q t d ≡ (
              if t.stopped
              then (d, some (failed (plain x)))
              else drop_delivery t.cancelled_at q (note_error x d)) =
            ground arith in
          rw same (
            if_either P t.stopped (on_other d (plain x) refl refl)
              (on_drop t.cancelled_at (note_error x d)))
    ]
  ]

  check_window_rule : (t : Turn) (d : Delivery) → TurnForeign t → P (check_window q t d)
  unfolding check_window
  check_window_rule t d f =
      if_either P (window_over q t.now d.gate.first_failure) (on_drop t.now d)
        (wait_and_call_rule t d f)

  turn_rule : (t : Turn) (d : Delivery) → TurnForeign t → P (turn q t d)
  unfolding turn
  turn_rule t d f = elim (Option-cases t.ctx_error) [
    | inr (x, e) ↦
        rw (e, turn)
          (if_either P (d.gate.failures == 0 || t.stopped) (on_other d (plain x) refl refl)
            (on_drop t.cancelled_at (note_error x d)))
    | inl e ↦ elim (Option-cases d.gate.drop_until) [
      | inl u ↦ rw (turn-open q t d e u) (check_window_rule t d f)
      | inr (until, u) ↦ elim (Bool-cases (ltb t.now until)) [
        | inl cooling ↦
            let same : turn q t d
                ≡ (d, some (failed (dropped_error (group_of q) d.gate.last_error))) =
              ground arith in
            rw same (on_cooling d (group_of q) d.gate.last_error until u)
        | inr over ↦
            rw (turn-cooled q t d until e u over)
              (check_window_rule t (record d { gate = open_gate }) f)
      ]
    ]
  ]

  pub deliver_rule : (ts : List Turn) (d : Delivery) → All TurnForeign ts → P (deliver q ts d)
  unfolding deliver
  deliver_rule [] d f = on_way d
  deliver_rule (t ∷ ts) d f = elim (Option-cases (turn q t d).1) [
    | inl e ↦ rw (e, deliver) (deliver_rule ts (turn q t d).0 f.1)
    | inr (r, e) ↦
        let same : deliver q (t ∷ ts) d ≡ turn q t d = ground arith in rw same (turn_rule t d f.0)
  ]
