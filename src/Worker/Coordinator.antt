-- ===== src/Worker/Coordinator.antt =====
-- The coordinator of the workers: the readiness, and the backfill of the history.
use diana_qq_bot.Prelude.{
  ℕ, ◌+◌, ◌*◌, ◌≡◌, Bool, true, false, ◌&&◌, not, List, [], ◌∷◌, ◌++◌, Option, none, some,
  if◌then◌else◌, leb, arith,
}
use diana_qq_bot.Prelude.Text.{Text, codes, is_empty, trim_space}
use diana_qq_bot.Prelude.Assoc.{lookup, insert}
use diana_qq_bot.Prelude.Int64.{ℤ}
use diana_qq_bot.Event.{EventKind, kind_text}
use diana_qq_bot.Worker.Delay.{second}

abbrev pub history_initial_delay : ℕ
history_initial_delay = 30 * second

abbrev pub history_retry_delay : ℕ
history_retry_delay = 300 * second

-- The variables of the loop, and how many backfills it has launched.
pub record Coordinator : Type 0 where
  pub connected : Bool
  pub ready : Bool
  pub backfill_running : Bool
  pub backfill_requested : Bool
  pub next_backfill_at : Option ℕ
  pub launched : ℕ

-- What the loop waits for: the end of the context, the result of a backfill or the ticker. `online` is
-- whether the channel is connected.
pub data Signal : Type 0 where
  ends : Signal
  backfilled : (failed context_ended online : Bool) → (now : ℕ) → Signal
  ticks : (online : Bool) → (now : ℕ) → Signal

unfoldable pub launch_backfill : Coordinator → Coordinator
launch_backfill c =
    if c.backfill_running
    then record c { backfill_requested = true }
    else record c { backfill_running = true; launched = c.launched + 1 }

unfoldable pub take_result : (failed context_ended online : Bool) → ℕ → Coordinator → Coordinator
unfolding launch_backfill
take_result failed context_ended online now c =
    let c' = record c {
      backfill_running = false;
      next_backfill_at =
          if failed && not context_ended then some (now + history_retry_delay) else none;
    } in
    if c.backfill_requested && not context_ended && online
    then launch_backfill (record c' { backfill_requested = false })
    else c'

abbrev is_due : Option ℕ → ℕ → Bool
is_due none now = false
is_due (some t) now = leb t now

abbrev or_soon : Option ℕ → ℕ → Option ℕ
or_soon none now = some (now + history_initial_delay)
or_soon (some t) now = some t

unfoldable pub tick : Bool → ℕ → Coordinator → Coordinator
unfolding launch_backfill
tick online now c =
    if not online
    then record c { connected = false; ready = false }
    else if c.connected
    then (if is_due c.next_backfill_at now
        then launch_backfill (record c { next_backfill_at = none })
        else c)
    else record c {
      connected = true;
      ready = true;
      next_backfill_at = or_soon c.next_backfill_at now;
    }

-- The end of the context stops the loop; what follows is not for it.
unfoldable pub coordinate : List Signal → Coordinator → Coordinator
unfolding take_result tick
coordinate [] c = c
coordinate (ends ∷ signals) c = record c { ready = false }
coordinate (backfilled failed context_ended online now ∷ signals) c =
    coordinate signals (take_result failed context_ended online now c)
coordinate (ticks online now ∷ signals) c = coordinate signals (tick online now c)

unfoldable pub new_coordinator : Coordinator
new_coordinator = record {
  connected = false;
  ready = false;
  backfill_running = false;
  backfill_requested = false;
  next_backfill_at = none;
  launched = 0;
}

-- The results that the loop takes.
abbrev pub results : List Signal → ℕ
results [] = 0
results (ends ∷ signals) = 0
results (backfilled _ _ _ _ ∷ signals) = 1 + results signals
results (ticks _ _ ∷ signals) = results signals

-- Only a backfill that runs has a result.
abbrev pub Possible : List Signal → Coordinator → Type 0
Possible [] c = Unit
Possible (ends ∷ signals) c = Unit
Possible (backfilled failed context_ended online now ∷ signals) c =
    (c.backfill_running ≡ true) × Possible signals (take_result failed context_ended online now c)
Possible (ticks online now ∷ signals) c = Possible signals (tick online now c)

abbrev running : Coordinator → ℕ
running c = if c.backfill_running then 1 else 0

take_result-balance :
    (failed context_ended online : Bool) (now : ℕ) (c : Coordinator)
    → (take_result failed context_ended online now c).launched
      ≡ c.launched + running (take_result failed context_ended online now c)
unfolding take_result launch_backfill
take_result-balance failed context_ended online now c = ground arith

tick-balance :
    (online : Bool) (now : ℕ) (c : Coordinator)
    → (tick online now c).launched + running c ≡ c.launched + running (tick online now c)
unfolding tick launch_backfill
tick-balance online now c = ground arith

-- Of the backfills launched, all but one at most have given their results.
pub launched_balance :
    (signals : List Signal) (c : Coordinator)
    → Possible signals c
    → (coordinate signals c).launched + running c
      ≡ c.launched + results signals + running (coordinate signals c)
unfolding coordinate
launched_balance [] c h = omega arith
launched_balance (ends ∷ signals) c h = omega arith
launched_balance (backfilled failed context_ended online now ∷ signals) c (busy, h) =
    let rest = launched_balance signals (take_result failed context_ended online now c) h in
    let step = take_result-balance failed context_ended online now c in
    ground (arith, rest, step, busy)
launched_balance (ticks online now ∷ signals) c h =
    let rest = launched_balance signals (tick online now c) h in
    let step = tick-balance online now c in omega arith

-- The key of a conversation in the backfill.
pub record HistorySession : Type 0 where
  pub kind : EventKind
  pub id : Text
  pub last_event_time : ℤ

unfoldable pub history_session_key : EventKind → Text → Text
history_session_key kind id = kind_text kind ++ (codes ":" ++ trim_space id)

unfoldable pub add_history_session :
    List (Text × HistorySession) → EventKind → Text → ℤ → List (Text × HistorySession)
unfolding history_session_key
add_history_session sessions kind id fallback =
    let id' = trim_space id in
    let key = history_session_key kind id' in
    let added =
      insert key (record { kind = kind; id = id'; last_event_time = fallback }) sessions in
    if is_empty id'
    then sessions
    else elim (lookup key sessions) [ some _ ↦ sessions | none ↦ added ]
