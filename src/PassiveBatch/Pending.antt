-- ===== src/PassiveBatch/Pending.antt =====
-- The messages that arrive while a run has the batch.
use diana_qq_bot.Prelude.{
  ℕ, zero, suc, ◌+◌, ◌-◌, ◌%◌, ◌^◌, ◌≤◌, ◌<◌, ◌≡◌, refl, ap, sym, ◌∙◌, subst, ◌||◌, true, false,
  not, List, [], ◌∷◌, ◌++◌, map, Option, none, some, ◌==◌, length, length-append, drop, keep, All,
  Bool-cases, inl, inr, arith,
}
use mathlib.Core.List.{append_assoc, append-nil, map-append}
use diana_qq_bot.Prelude.Text.{Text, is_blank}
use diana_qq_bot.Event.{MessageEvent, is_group}
use diana_qq_bot.PassiveBatch.Batch.{
  Candidate, Batch, Waits, batch_max_items, latest_items, add_candidate, enqueue_passive_reply,
  begin_flush, is_newer, left_pending, finish,
}
use diana_qq_bot.PassiveBatch.Invariant.{IsSound, Numbered}
use diana_qq_bot.PassiveBatch.Runs.{Call, enqueues, step, run}

-- A message of a group, and when it is queued.
pub record Message : Type 0 where
  pub at : ℕ
  pub event : MessageEvent
  pub text : Text

abbrev pub queues : Message → Call
queues m = enqueues true m.at m.event m.text

abbrev pub OfSomeGroup : Message → Type 0
OfSomeGroup m = (is_group m.event.kind ≡ true) × (is_blank m.event.group_id ≡ false)

abbrev pub said : Message → Option ℕ × MessageEvent × Text
said m = (some m.at, m.event, m.text)

abbrev pub content : Candidate → Option ℕ × MessageEvent × Text
content c = (c.queued_at, c.event, c.text)

abbrev pub items_of : Option Batch → List Candidate
items_of none = []
items_of (some b) = b.items

-- A batch that a run has taken at generation g, with the messages that have come since.
record During (g : ℕ) (ms : List Message) (s : Option Batch) : Type 0 where
  batch : Batch
  here : s ≡ some batch
  processing : batch.processing ≡ true
  top : batch.generation ≡ g + length ms
  old : List Candidate
  new : List Candidate
  split : batch.items ≡ old ++ new
  before : All (λ (c : Candidate). c.generation ≤ g) old
  after : All (λ (c : Candidate). g < c.generation) new
  count : length new ≡ length ms
  contents : map content new ≡ map said ms

drop-append {ℓ} :
    {A : Type ℓ} (n : ℕ) (xs ys : List A) → n ≤ length xs → drop n (xs ++ ys) ≡ drop n xs ++ ys
drop-append zero xs ys h = refl
drop-append (suc n) [] ys h = absurd (omega arith)
drop-append (suc n) (x ∷ xs) ys h = drop-append n xs ys (omega arith)

All-drop {ℓ κ} : {A : Type ℓ} (P : A → Type κ) (n : ℕ) (xs : List A) → All P xs → All P (drop n xs)
All-drop P zero xs h = h
All-drop P (suc n) [] h = h
All-drop P (suc n) (x ∷ xs) h = All-drop P n xs h.1

All-append {ℓ κ} :
    {A : Type ℓ} (P : A → Type κ) (xs ys : List A) → All P xs → All P ys → All P (xs ++ ys)
All-append P [] ys hx hy = hy
All-append P (x ∷ xs) ys hx hy = (hx.0, All-append P xs ys hx.1 hy)

keep_after :
    (g : ℕ) (old new : List Candidate)
    → All (λ (c : Candidate). c.generation ≤ g) old
    → All (λ (c : Candidate). g < c.generation) new
    → keep (is_newer g) (old ++ new) ≡ new
keep_after g [] [] h k = refl
keep_after g [] (c ∷ new) h k =
    let newer : is_newer g c ≡ true = ground (arith, k.0) in
    rw newer (ap (λ (cs : List Candidate). c ∷ cs) (keep_after g [] new tt k.1))
keep_after g (c ∷ old) new h k =
    let older : is_newer g c ≡ false = ground (arith, h.0) in rw older (keep_after g old new h.1 k)

-- The latest items are those of before, the oldest of them gone, and all of the new ones.
latest_items-append :
    (old new : List Candidate)
    → length new ≤ batch_max_items
    → latest_items (old ++ new) ≡ drop (length (old ++ new) - batch_max_items) old ++ new
unfolding latest_items
latest_items-append old new h =
    drop-append (length (old ++ new) - batch_max_items) old new
      (omega (arith, length-append old new))

abbrev candidate : Message → ℕ → Candidate
candidate m generation = record {
  event = m.event;
  text = m.text;
  queued_at = some m.at;
  generation = generation;
}

queue_step :
    (w : Waits) (m : Message) (b : Batch)
    → OfSomeGroup m
    → b.processing ≡ true
    → step w (queues m) (some b) ≡ some (add_candidate m.at m.event m.text b)
unfolding step enqueue_passive_reply add_candidate
queue_step w m b o p = rw (o.0, o.1, p, step, enqueue_passive_reply) refl

step-During :
    (w : Waits) (g : ℕ) (ms : List Message) (m : Message) (s : Option Batch)
    → OfSomeGroup m
    → length ms + 1 ≤ batch_max_items
    → g + length ms + 1 < 2 ^ 64
    → During g ms s
    → During g (ms ++ (m ∷ [])) (step w (queues m) s)
unfolding add_candidate
step-During w g ms m s o few small d = record {
  batch = add_candidate m.at m.event m.text d.batch;
  here = ap (step w (queues m)) d.here ∙ queue_step w m d.batch o d.processing;
  processing = d.processing;
  top = omega (arith, d.top, length-append ms (m ∷ []));
  old = drop (length (d.old ++ grown) - batch_max_items) d.old;
  new = grown;
  split =
      ap (λ (cs : List Candidate). latest_items (cs ++ (latest ∷ []))) d.split
      ∙ ap latest_items (append_assoc d.old d.new (latest ∷ []))
      ∙ latest_items-append d.old grown (omega (arith, d.count, length-append d.new (latest ∷ [])));
  before = All-drop (λ (c : Candidate). c.generation ≤ g) _ d.old d.before;
  after =
      All-append (λ (c : Candidate). g < c.generation) d.new (latest ∷ []) d.after
        (omega (arith, d.top), tt);
  count = omega (arith, d.count, length-append d.new (latest ∷ []), length-append ms (m ∷ []));
  contents =
      map-append content d.new (latest ∷ [])
      ∙ ap (λ (l : List (Option ℕ × MessageEvent × Text)). l ++ (said m ∷ [])) d.contents
      ∙ sym (map-append said ms (m ∷ []));
}
  where
    latest : Candidate
    latest = candidate m ((d.batch.generation + 1) % 2 ^ 64)

    grown : List Candidate
    grown = d.new ++ (latest ∷ [])

run-During :
    (w : Waits) (g : ℕ) (ms rest : List Message) (s : Option Batch)
    → All OfSomeGroup rest
    → length ms + length rest ≤ batch_max_items
    → g + length ms + length rest < 2 ^ 64
    → During g ms s
    → During g (ms ++ rest) (run w (map queues rest) s)
unfolding run
run-During w g ms [] s o few small d =
    subst (λ (l : List Message). During g l s) (sym (append-nil ms)) d
run-During w g ms (m ∷ rest) s o few small d =
    subst (λ (l : List Message). During g l (run w (map queues rest) (step w (queues m) s)))
      (append_assoc ms (m ∷ []) rest)
      (run-During w g (ms ++ (m ∷ [])) rest (step w (queues m) s) o.1
        (omega (arith, length-append ms (m ∷ []))) (omega (arith, length-append ms (m ∷ [])))
        (step-During w g ms m s o.0 (omega arith) (omega arith) d))

-- The generations of a sound batch are not above its own.
Numbered-before :
    (low : ℕ) (cs : List Candidate) (top : ℕ)
    → Numbered low cs top
    → (low ≤ top) × All (λ (c : Candidate). c.generation ≤ top) cs
Numbered-before low [] top h = (omega arith, tt)
Numbered-before low (c ∷ cs) top h =
    let (le, older) = Numbered-before (suc low) cs top h.1 in
    (omega arith, (omega (arith, h.0), older))

-- The batch that a run takes has the run's generation.
begin_flush-During :
    (generation : ℕ) (b : Batch)
    → IsSound b
    → (begin_flush generation (some b)).0 ≡ true
    → During generation [] (begin_flush generation (some b)).1
unfolding begin_flush
begin_flush-During generation b i h =
    elim (Bool-cases (not (b.generation == generation) || b.processing)) [
      | inl e ↦ absurd (ground (arith, h))
      | inr e ↦
          let own : b.generation ≡ generation = ground (arith, e) in
          record {
            batch = record b { processing = true; timer = none };
            here = rw (e, begin_flush) refl;
            processing = refl;
            top = omega arith;
            old = b.items;
            new = [];
            split = sym (append-nil b.items);
            before =
                subst (λ (t : ℕ). All (λ (c : Candidate). c.generation ≤ t) b.items) own
                  (Numbered-before i.low b.items b.generation i.numbered).1;
            after = tt;
            count = refl;
            contents = refl;
          }
    ]

items_of-left_pending :
    (w : Waits) (now : ℕ) (cs : List Candidate) (b : Batch)
    → items_of (left_pending w now cs b) ≡ cs
unfolding left_pending
items_of-left_pending w now [] b = refl
items_of-left_pending w now (c ∷ cs) b = refl

finish-During :
    (w : Waits) (now g : ℕ) (ms : List Message) (s : Option Batch)
    → During g ms s
    → map content (items_of (finish w now g s)) ≡ map said ms
unfolding finish
finish-During w now g ms s d =
    ap (λ (o : Option Batch). map content (items_of (finish w now g o))) d.here
    ∙ ap (map content) (
        items_of-left_pending w now (keep (is_newer g) d.batch.items) d.batch
        ∙ ap (keep (is_newer g)) d.split
        ∙ keep_after g d.old d.new d.before d.after)
    ∙ d.contents

-- A timer of some generation fires for a sound batch and its run takes it; at most 20 messages of
-- groups are queued meanwhile, too few to wrap the generation, and the run finishes at its generation:
-- then exactly these messages are left as candidates, in their order and with the times at which they
-- were queued, and none of those that the run took.
pub finish-run :
    (w : Waits) (generation now : ℕ) (b : Batch) (ms : List Message)
    → IsSound b
    → (begin_flush generation (some b)).0 ≡ true
    → All OfSomeGroup ms
    → length ms ≤ batch_max_items
    → generation + length ms < 2 ^ 64
    → map content (
        items_of
          (finish w now generation (run w (map queues ms) (begin_flush generation (some b)).1)))
      ≡ map said ms
finish-run w generation now b ms i h o few small =
    finish-During w now generation ms (run w (map queues ms) (begin_flush generation (some b)).1) (
      run-During w generation [] ms (begin_flush generation (some b)).1 o (omega arith)
        (omega arith) (begin_flush-During generation b i h))
