-- ===== src/Suppression/Active.antt =====
-- The suppressions: made, looked up, lifted, saved and loaded.
use diana_qq_bot.Prelude.{
  ℕ, ◌+◌, ◌-◌, Bool, true, false, ◌||◌, not, List, [], ◌∷◌, ◌++◌, Option, none, some, if◌then◌else◌,
  ltb, leb, length, drop,
}
use diana_qq_bot.Prelude.Text.{Text, codes, text_eq, is_empty, is_blank, trim_space}
use diana_qq_bot.Prelude.Assoc.{lookup, insert, delete}
use diana_qq_bot.Event.{MessageEvent}
use diana_qq_bot.Suppression.State.{
  Roles, ReplySuppression, LoopState, Suppressions, reply_suppression_duration,
}

-- The end of a text.
unfoldable pub truncate_runes_from_start : Text → ℕ → Text
truncate_runes_from_start text max_runes =
    let runes = trim_space text in
    if leb max_runes 0 || leb (length runes) max_runes
    then runes
    else codes "..." ++ drop (length runes - max_runes) runes

-- `!item.Until.After(now)` is the negation.
abbrev pub is_active : ℕ → ReplySuppression → Bool
is_active now item = ltb now item.until

-- sort.Slice by Until; the source leaves the order of equal ones open.
unfoldable pub insert_by_until : ReplySuppression → List ReplySuppression → List ReplySuppression
insert_by_until item [] = item ∷ []
insert_by_until item (x ∷ xs) =
    let rest = insert_by_until item xs in if ltb x.until item.until then x ∷ rest else item ∷ x ∷ xs

unfoldable pub sort_by_until : List ReplySuppression → List ReplySuppression
unfolding insert_by_until
sort_by_until [] = []
sort_by_until (x ∷ xs) = insert_by_until x (sort_by_until xs)

abbrev pub values : List (Text × ReplySuppression) → List ReplySuppression
values [] = []
values ((k, item) ∷ m) = item ∷ values m

-- `written` is whether the store takes the rows.
unfoldable pub persist : Bool → Suppressions → Suppressions
unfolding sort_by_until
persist written s = elim s.saved [
  | none ↦ s
  | some rows ↦ record s {
    saved = some (if written then sort_by_until (values s.by_user) else rows);
  }
]

unfoldable pub load_item :
    ℕ → ReplySuppression → List (Text × ReplySuppression) → List (Text × ReplySuppression)
load_item now given m =
    let id = trim_space given.user_id in
    let item = record given { user_id = id } in
    if is_empty id || not (is_active now item) then m else insert id item m

unfoldable pub load_items :
    ℕ → List ReplySuppression → List (Text × ReplySuppression) → List (Text × ReplySuppression)
unfolding load_item
load_items now [] m = m
load_items now (x ∷ xs) m = load_items now xs (load_item now x m)

abbrev rows_of : Option (List ReplySuppression) → List ReplySuppression
rows_of none = []
rows_of (some rows) = rows

-- The store, if there is one, can be read.
unfoldable pub load_reply_suppressions :
    ℕ → Option (List ReplySuppression) → Suppressions → Suppressions
unfolding load_items
load_reply_suppressions now store s = record s {
  by_user = load_items now (rows_of store) [];
  saved = store;
}

abbrev new_suppressions : Suppressions
new_suppressions = record { by_user = []; refusals = []; loops = []; saved = none }

-- A start of the runtime with a store.
unfoldable pub start_suppressions : ℕ → Option (List ReplySuppression) → Suppressions
unfolding load_reply_suppressions
start_suppressions now store = load_reply_suppressions now store new_suppressions

unfoldable pub new_reply_suppression : Roles → MessageEvent → Text → ℕ → Option ReplySuppression
unfolding truncate_runes_from_start
new_reply_suppression roles event reason now =
    let id = trim_space event.user_id in
    if is_empty id || text_eq id (trim_space roles.owner_id) || text_eq id (trim_space roles.bot_qq)
    then none
    else some (record {
      user_id = id;
      group_id = trim_space event.group_id;
      trigger_message_id = trim_space event.message_id;
      reason = truncate_runes_from_start (trim_space reason) 240;
      created_at = now;
      until = now + reply_suppression_duration;
    })

abbrev keep_others : Text → List (Text × LoopState) → List (Text × LoopState)
keep_others id [] = []
keep_others id ((k, state) ∷ m) =
    let rest = keep_others id m in if text_eq state.user_id id then rest else (k, state) ∷ rest

unfoldable pub reset_bot_reply_loop_user : Text → Suppressions → Suppressions
reset_bot_reply_loop_user id s =
    if is_blank id then s else record s { loops = keep_others id s.loops }

unfoldable pub reset_reply_refusal_user : Text → Suppressions → Suppressions
reset_reply_refusal_user id s =
    if is_blank id then s else record s { refusals = delete (trim_space id) s.refusals }

unfoldable pub reset_user : Text → Suppressions → Suppressions
unfolding reset_bot_reply_loop_user reset_reply_refusal_user
reset_user id s = reset_reply_refusal_user id (reset_bot_reply_loop_user id s)

-- A new suppression takes the place of one that has ended.
unfoldable pub put_suppression :
    Bool → ReplySuppression → Suppressions → Suppressions × Option ReplySuppression × Bool
unfolding persist reset_user
put_suppression written item s =
    let stored = record s { by_user = insert item.user_id item s.by_user } in
    let fresh : Suppressions × Option ReplySuppression × Bool =
      (reset_user item.user_id (persist written stored), some item, true) in
    elim (lookup item.user_id s.by_user) [
      | none ↦ fresh
      | some existing ↦
          if ltb item.created_at existing.until then (s, some existing, false) else fresh
    ]

-- The suppression and whether it is new, where there is one.
unfoldable pub activate_reply_suppression :
    Roles
    → Bool
    → MessageEvent
    → Text
    → ℕ
    → Suppressions
    → Suppressions × Option ReplySuppression × Bool
unfolding new_reply_suppression put_suppression
activate_reply_suppression roles written event reason now s =
    elim (new_reply_suppression roles event reason now) [
      | none ↦ (s, none, false)
      | some item ↦ put_suppression written item s
    ]

-- The suppression of a key; one that has ended is forgotten.
unfoldable pub looked : Text → ℕ → Suppressions → Suppressions × Option ReplySuppression
looked key now s = elim (lookup key s.by_user) [
  | none ↦ (s, none)
  | some item ↦
      if is_active now item
      then (s, some item)
      else (record s { by_user = delete key s.by_user }, none)
]

unfoldable pub active_reply_suppression :
    Roles → MessageEvent → ℕ → Suppressions → Suppressions × Option ReplySuppression
unfolding looked
active_reply_suppression roles event now s =
    let id = trim_space event.user_id in
    if is_empty id || text_eq id (trim_space roles.owner_id) then (s, none) else looked id now s

unfoldable pub clear_reply_suppression :
    Bool → Text → Suppressions → Suppressions × Option ReplySuppression
unfolding persist reset_user
clear_reply_suppression written user_id s =
    let id = trim_space user_id in
    if is_empty id then (s, none) else (
      reset_user id (persist written (record s { by_user = delete id s.by_user })),
      lookup id s.by_user,
    )

abbrev pub keep_active : ℕ → List (Text × ReplySuppression) → List (Text × ReplySuppression)
keep_active now [] = []
keep_active now ((k, item) ∷ m) =
    let rest = keep_active now m in if is_active now item then (k, item) ∷ rest else rest

unfoldable pub list_reply_suppressions : ℕ → Suppressions → Suppressions × List ReplySuppression
unfolding sort_by_until
list_reply_suppressions now s =
    let kept = keep_active now s.by_user in
    (record s { by_user = kept }, sort_by_until (values kept))
