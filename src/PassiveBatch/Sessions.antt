-- ===== src/PassiveBatch/Sessions.antt =====
-- Runtime.passiveBatches, the batches of all sessions, by the keys of the sessions.
use diana_qq_bot.Prelude.{ℕ, ◌≡◌, refl, Bool, false, List, Option, none, some}
use diana_qq_bot.Prelude.Text.{Text, text_eq, text_eq_refl}
use diana_qq_bot.Prelude.Assoc.{lookup, insert, delete, lookup-insert, lookup-delete}
use diana_qq_bot.Event.{MessageEvent, session_key}
use diana_qq_bot.PassiveBatch.Batch.{Batch, Waits, enqueue_passive_reply, finish, cancel}

unfoldable pub put_entry : Text → Option Batch → List (Text × Batch) → List (Text × Batch)
put_entry key none m = delete key m
put_entry key (some b) m = insert key b m

unfoldable pub enqueue_in :
    Waits → Bool → ℕ → MessageEvent → Text → List (Text × Batch) → Bool × List (Text × Batch)
unfolding put_entry
enqueue_in w running now event text m =
    let key = session_key event in
    let result = enqueue_passive_reply w running now event text (lookup key m) in
    (result.0, put_entry key result.1 m)

-- finishPassiveReplyBatch has the key from the run, which took the batch under it.
unfoldable pub finish_in : Waits → ℕ → Text → ℕ → List (Text × Batch) → List (Text × Batch)
unfolding put_entry
finish_in w now key through m = put_entry key (finish w now through (lookup key m)) m

unfoldable pub cancel_in : MessageEvent → List (Text × Batch) → List (Text × Batch)
unfolding put_entry
cancel_in event m = let key = session_key event in put_entry key (cancel event (lookup key m)) m

pub lookup-put_entry :
    (key : Text) (o : Option Batch) (m : List (Text × Batch)) → lookup key (put_entry key o m) ≡ o
unfolding put_entry
lookup-put_entry key none m = rw lookup-delete (rw text_eq_refl refl)
lookup-put_entry key (some b) m = rw lookup-insert (rw text_eq_refl refl)

pub lookup-put_entry_ne :
    (key other : Text) (o : Option Batch) (m : List (Text × Batch))
    → text_eq key other ≡ false
    → lookup other (put_entry key o m) ≡ lookup other m
unfolding put_entry
lookup-put_entry_ne key other none m ne = rw lookup-delete (rw ne refl)
lookup-put_entry_ne key other (some b) m ne = rw lookup-insert (rw ne refl)
