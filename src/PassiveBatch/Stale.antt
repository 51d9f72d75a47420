-- ===== src/PassiveBatch/Stale.antt =====
-- A run that outlives the batch that it took.
use diana_qq_bot.Prelude.{
  ℕ, ◌≤◌, ◌≡◌, refl, ap, sym, ◌∙◌, true, false, List, Option, none, some, ltb, arith,
}
use diana_qq_bot.Prelude.Text.{Text, text_eq, is_blank}
use diana_qq_bot.Prelude.Assoc.{lookup}
use diana_qq_bot.Event.{MessageEvent, is_group, session_key}
use diana_qq_bot.PassiveBatch.Batch.{
  Batch, Waits, schedule, new_batch, latest_items, add_candidate, enqueue_passive_reply,
  left_pending, finish, cancel,
}
use diana_qq_bot.PassiveBatch.Sessions.{
  enqueue_in, finish_in, cancel_in, lookup-put_entry, lookup-put_entry_ne,
}

cancelled :
    (event : MessageEvent) (s : Option Batch)
    → is_group event.kind ≡ true
    → is_blank event.group_id ≡ false
    → cancel event s ≡ none
unfolding cancel
cancelled event s g b = rw (g, b) refl

started :
    (w : Waits) (now : ℕ) (event : MessageEvent) (text : Text)
    → is_group event.kind ≡ true
    → is_blank event.group_id ≡ false
    → (enqueue_passive_reply w true now event text none).1
      ≡ some (schedule w now (add_candidate now event text (new_batch now)))
unfolding enqueue_passive_reply add_candidate
started w now event text g b = rw (g, b) refl

accepted :
    (w : Waits) (now : ℕ) (event : MessageEvent) (text : Text) (s : Option Batch)
    → is_group event.kind ≡ true
    → is_blank event.group_id ≡ false
    → (enqueue_passive_reply w true now event text s).0 ≡ true
unfolding enqueue_passive_reply
accepted w now event text s g b = rw (g, b, enqueue_passive_reply) refl

first_only :
    (w : Waits) (now later through : ℕ) (event : MessageEvent) (text : Text)
    → 1 ≤ through
    → finish w later through (some (schedule w now (add_candidate now event text (new_batch now))))
      ≡ none
unfolding finish schedule add_candidate latest_items left_pending
first_only w now later through event text h =
    let old : ltb through 1 ≡ false = ground arith in rw old refl

-- The batch of a session of a group is cancelled, and then a message of the same session is queued
-- while the runtime runs: it is accepted, and when a run of any earlier batch of the session, whose
-- generation is at least 1, then finishes, the session has no batch left, so that the message is
-- discarded; the batch of any other session is as it was at first.
pub stale_finish :
    (w : Waits) (now later through : ℕ) (asked event : MessageEvent) (other text : Text)
    (m : List (Text × Batch))
    → is_group asked.kind ≡ true
    → is_blank asked.group_id ≡ false
    → is_group event.kind ≡ true
    → is_blank event.group_id ≡ false
    → session_key asked ≡ session_key event
    → text_eq (session_key event) other ≡ false
    → 1 ≤ through
    → let queued = enqueue_in w true now event text (cancel_in asked m) in
      let finished = finish_in w later (session_key event) through queued.1 in
      (queued.0 ≡ true)
      × (lookup (session_key event) finished ≡ none)
      × (lookup other finished ≡ lookup other m)
unfolding enqueue_in finish_in cancel_in
stale_finish w now later through asked event other text m g b g' b' same ne h = (
  accepted w now event text (lookup key emptied) g' b',
  lookup-put_entry key _ queued
      ∙ ap (finish w later through) (
          lookup-put_entry key _ emptied
          ∙ ap (λ (o : Option Batch). (enqueue_passive_reply w true now event text o).1) gone
          ∙ started w now event text g' b')
      ∙ first_only w now later through event text h,
  lookup-put_entry_ne key other _ queued ne
      ∙ lookup-put_entry_ne key other _ emptied ne
      ∙ lookup-put_entry_ne (session_key asked) other _ m
          (ap (λ (k : Text). text_eq k other) same ∙ ne),
)
  where
    key : Text
    key = session_key event

    emptied : List (Text × Batch)
    emptied = cancel_in asked m

    queued : List (Text × Batch)
    queued = (enqueue_in w true now event text emptied).1

    gone : lookup key emptied ≡ none
    gone =
        ap (λ (k : Text). lookup k emptied) (sym same)
        ∙ lookup-put_entry (session_key asked) _ m
        ∙ cancelled asked (lookup (session_key asked) m) g b
