-- ===== src/PassiveBatch/Invariant.antt =====
-- The invariant of a batch under the operations of passive_batch.go.
use diana_qq_bot.Prelude.{
  ℕ, zero, suc, ◌+◌, ◌-◌, ◌%◌, ◌^◌, ◌≤◌, ◌<◌, ◌≡◌, ◌⊎◌, inl, inr, refl, ◌||◌, Bool, true, false,
  not, List, [], ◌∷◌, ◌++◌, Option, none, some, if_either, if_elim, ◌==◌, length, drop, keep, arith,
  Bool-cases, length-drop, length-append, length-keep-le,
}
use diana_qq_bot.Prelude.Text.{Text, is_blank}
use diana_qq_bot.Event.{MessageEvent, is_group}
use diana_qq_bot.PassiveBatch.Batch.{
  Candidate, Batch, Waits, batch_max_items, schedule, batch_or_new, latest_items, add_candidate,
  enqueue_passive_reply, begin_flush, candidate_time, time_or, is_newer, left_pending, finish,
  cancel,
}

-- The generations of the items are the numbers after `low` up to `top`, one after the other.
abbrev pub Numbered : ℕ → List Candidate → ℕ → Type 0
Numbered low [] top = low ≡ top
Numbered low (c ∷ cs) top = (c.generation ≡ suc low) × Numbered (suc low) cs top

-- A timer is armed for the newest candidate, or a run has the batch.
abbrev pub Attended : Batch → Type 0
Attended b =
    ((b.processing ≡ true) × (b.timer ≡ none))
    ⊎ ((b.processing ≡ false)
        × ((due : ℕ) × (b.timer ≡ some (record { due = due; generation = b.generation }))))

pub record IsSound (b : Batch) : Type 0 where
  pub low : ℕ
  pub numbered : Numbered low b.items b.generation
  pub not_empty : 1 ≤ length b.items
  pub bounded : length b.items ≤ batch_max_items
  pub attended : Attended b

abbrev pub Sound : Option Batch → Type 0
Sound none = Unit
Sound (some b) = IsSound b

Numbered-length :
    (low : ℕ) (cs : List Candidate) (top : ℕ) → Numbered low cs top → low + length cs ≡ top
Numbered-length low [] top h = omega arith
Numbered-length low (c ∷ cs) top h = omega (arith, Numbered-length (suc low) cs top h.1)

Numbered-drop :
    (k low : ℕ) (cs : List Candidate) (top : ℕ)
    → Numbered low cs top
    → k ≤ length cs
    → Numbered (low + k) (drop k cs) top
Numbered-drop zero low cs top h le = let e : low + 0 ≡ low = omega arith in rw e h
Numbered-drop (suc k) low [] top h le = absurd (omega arith)
Numbered-drop (suc k) low (c ∷ cs) top h le =
    let e : low + suc k ≡ suc low + k = omega arith in
    rw e (Numbered-drop k (suc low) cs top h.1 (omega arith))

Numbered-append :
    (low : ℕ) (cs : List Candidate) (top : ℕ) (c : Candidate) (top' : ℕ)
    → Numbered low cs top
    → c.generation ≡ top'
    → top' ≡ suc top
    → Numbered low (cs ++ (c ∷ [])) top'
Numbered-append low [] top c top' h e f = (omega arith, omega arith)
Numbered-append low (d ∷ cs) top c top' h e f =
    (h.0, Numbered-append (suc low) cs top c top' h.1 e f)

-- What is newer than a generation is again numbered up to the top.
Numbered-keep :
    (g low : ℕ) (cs : List Candidate) (top : ℕ)
    → Numbered low cs top
    → (low' : ℕ) × Numbered low' (keep (is_newer g) cs) top
Numbered-keep g low [] top h = (low, h)
Numbered-keep g low (c ∷ cs) top h = elim (Bool-cases (is_newer g c)) [
  | inr e ↦ rw e (Numbered-keep g (suc low) cs top h.1)
  | inl e ↦ rw e (low, (h.0, all_newer g (suc low) cs top h.1 (ground (arith, h.0))))
]
  where
    all_newer :
        (g low : ℕ) (cs : List Candidate) (top : ℕ)
        → Numbered low cs top
        → g < suc low
        → Numbered low (keep (is_newer g) cs) top
    all_newer g low [] top h lt = h
    all_newer g low (c ∷ cs) top h lt =
        let newer : is_newer g c ≡ true = ground (arith, h.0) in
        rw newer (h.0, all_newer g (suc low) cs top h.1 (omega arith))

schedule-Attended :
    (w : Waits) (now : ℕ) (b : Batch) → b.processing ≡ false → Attended (schedule w now b)
unfolding schedule
schedule-Attended w now b h = inr (h, (_, refl))

-- The part of soundness that does not speak of the timer, for a batch that may be empty.
record Held (b : Batch) : Type 0 where
  low : ℕ
  numbered : Numbered low b.items b.generation
  bounded : length b.items ≤ batch_max_items

Held-batch_or_new : (now : ℕ) (s : Option Batch) → Sound s → Held (batch_or_new now s)
Held-batch_or_new now none h = record { low = 0; numbered = refl; bounded = omega arith }
Held-batch_or_new now (some b) h = record {
  low = h.low;
  numbered = h.numbered;
  bounded = h.bounded;
}

next_small : (g : ℕ) → g + 1 < 2 ^ 64 → (g + 1) % 2 ^ 64 ≡ suc g
next_small g h = omega arith

add_candidate-Held :
    (now : ℕ) (event : MessageEvent) (text : Text) (b : Batch)
    → Held b
    → b.generation + 1 < 2 ^ 64
    → Held (add_candidate now event text b) × (1 ≤ length (add_candidate now event text b).items)
unfolding add_candidate latest_items
add_candidate-Held now event text b h small = (
  record {
    low = h.low + (length all - batch_max_items);
    numbered =
        Numbered-drop (length all - batch_max_items) h.low all ((b.generation + 1) % 2 ^ 64)
          (Numbered-append h.low b.items b.generation new ((b.generation + 1) % 2 ^ 64) h.numbered
            refl (next_small b.generation small))
          (omega arith);
    bounded = omega (arith, length-drop (length all - batch_max_items) all);
  },
  omega (arith, length-drop (length all - batch_max_items) all, length-append b.items (new ∷ [])),
)
  where
    new : Candidate
    new = record {
      event = event;
      text = text;
      queued_at = some now;
      generation = (b.generation + 1) % 2 ^ 64;
    }

    all : List Candidate
    all = b.items ++ (new ∷ [])

abbrev pub generation_of : Option Batch → ℕ
generation_of none = 0
generation_of (some b) = b.generation

generation_small :
    (now : ℕ) (s : Option Batch)
    → generation_of s + 1 < 2 ^ 64
    → (batch_or_new now s).generation + 1 < 2 ^ 64
generation_small now none h = h
generation_small now (some b) h = h

IsSound-of : (b : Batch) → Held b → 1 ≤ length b.items → Attended b → IsSound b
IsSound-of b h ne t = record {
  low = h.low;
  numbered = h.numbered;
  not_empty = ne;
  bounded = h.bounded;
  attended = t;
}

-- A run that has the batch has disarmed its timer.
idle_timer :
    (now : ℕ) (s : Option Batch)
    → Sound s
    → (batch_or_new now s).processing ≡ true
    → (batch_or_new now s).timer ≡ none
idle_timer now none h p = cc
idle_timer now (some b) h p = elim h.attended [ inl q ↦ q.1 | inr q ↦ absurd (cc (q.0)) ]

scheduled-IsSound :
    (w : Waits) (now : ℕ) (b : Batch)
    → Held b
    → 1 ≤ length b.items
    → b.processing ≡ false
    → IsSound (schedule w now b)
unfolding schedule
scheduled-IsSound w now b h ne p =
    IsSound-of (schedule w now b)
      (record { low = h.low; numbered = h.numbered; bounded = h.bounded }) ne
      (schedule-Attended w now b p)

pub enqueue-Sound :
    (w : Waits) (running : Bool) (now : ℕ) (event : MessageEvent) (text : Text) (s : Option Batch)
    → generation_of s + 1 < 2 ^ 64
    → Sound s
    → Sound (enqueue_passive_reply w running now event text s).1
unfolding enqueue_passive_reply add_candidate
enqueue-Sound w running now event text s small h =
    if_either (λ (x : Bool × Option Batch). Sound x.1)
      (not running || not (is_group event.kind) || is_blank event.group_id) h
      (if_elim IsSound (batch_or_new now s).processing
        (λ p. IsSound-of added held.0 held.1 (inl (p, idle_timer now s h p)))
        (λ p. scheduled-IsSound w now added held.0 held.1 p))
  where
    added : Batch
    added = add_candidate now event text (batch_or_new now s)

    held : Held added × (1 ≤ length added.items)
    held =
        add_candidate-Held now event text (batch_or_new now s) (Held-batch_or_new now s h)
          (generation_small now s small)

pub begin_flush-Sound :
    (generation : ℕ) (s : Option Batch) → Sound s → Sound (begin_flush generation s).1
unfolding begin_flush
begin_flush-Sound generation none h = tt
begin_flush-Sound generation (some b) h =
    if_either (λ (x : Bool × Option Batch). Sound x.1)
      (not (b.generation == generation) || b.processing) h
      (record {
        low = h.low;
        numbered = h.numbered;
        not_empty = h.not_empty;
        bounded = h.bounded;
        attended = inl (refl, refl);
      })

left_pending-Sound :
    (w : Waits) (now low : ℕ) (cs : List Candidate) (b : Batch)
    → Numbered low cs b.generation
    → length cs ≤ batch_max_items
    → Sound (left_pending w now cs b)
unfolding left_pending
left_pending-Sound w now low [] b n le = tt
left_pending-Sound w now low (c ∷ cs) b n le =
    scheduled-IsSound w now
      (record b { items = c ∷ cs; processing = false; started_at = time_or now (candidate_time c) })
      (record { low = low; numbered = n; bounded = le }) (omega arith) refl

pub finish-Sound :
    (w : Waits) (now through : ℕ) (s : Option Batch) → Sound s → Sound (finish w now through s)
unfolding finish
finish-Sound w now through none h = tt
finish-Sound w now through (some b) h =
    let (low, n) = Numbered-keep through h.low b.items b.generation h.numbered in
    left_pending-Sound w now low (keep (is_newer through) b.items) b n
      (omega (arith, length-keep-le (is_newer through) b.items, h.bounded))

pub cancel-Sound : (event : MessageEvent) (s : Option Batch) → Sound s → Sound (cancel event s)
unfolding cancel
cancel-Sound event s h = if_either Sound (not (is_group event.kind) || is_blank event.group_id) h tt
