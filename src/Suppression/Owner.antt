-- ===== src/Suppression/Owner.antt =====
-- The commands of the owner on suppressions.
use diana_qq_bot.Prelude.{
  ℕ, zero, suc, ◌+◌, ◌-◌, ◌/◌, ◌%◌, Bool, true, false, ◌&&◌, ◌||◌, not, List, [], ◌∷◌, ◌++◌, Option,
  none, some, if◌then◌else◌, ltb, leb, length, map, min,
}
use diana_qq_bot.Prelude.Text.{Text, codes, text_eq, is_empty, trim_space}
use diana_qq_bot.Prelude.Search.{contains, has_prefix, fields, join}
use diana_qq_bot.Prelude.Hash.{decimal}
use diana_qq_bot.Prelude.Int64.{ℤ, pos, negsuc, i64_max, sub_time}
use diana_qq_bot.Event.{MessageEvent, MessageSegment, QuotedMessage, field, first_non_empty}
use diana_qq_bot.Suppression.State.{Roles, ReplySuppression, Suppressions, minute}
use diana_qq_bot.Suppression.Active.{list_reply_suppressions, clear_reply_suppression}

pub data CommandKind : Type 0 where
  listing release : CommandKind

unfoldable pub normalize_chat_whitespace : Text → Text
unfolding fields join
normalize_chat_whitespace t = join (codes " ") (fields t)

unfoldable pub owner_command_kind : Text → Option CommandKind
unfolding normalize_chat_whitespace contains has_prefix
owner_command_kind text =
    let command = normalize_chat_whitespace (trim_space text) in
    if text_eq command (codes "响应限制")
      || text_eq command (codes "响应限制 列表")
      || text_eq command (codes "查看响应限制")
    then some listing
    else if contains (codes "响应限制") command
        && (contains (codes "解除") command
            || contains (codes "恢复") command
            || contains (codes "取消") command)
    then some release
    else if has_prefix (codes "恢复响应 ") command
        || has_prefix (codes "取消忽略 ") command
        || has_prefix (codes "解除忽略 ") command
    then some release
    else none

unfoldable pub is_owner_command : Roles → MessageEvent → Text → Bool
unfolding owner_command_kind
is_owner_command roles event text =
    not (is_empty (trim_space roles.owner_id))
    && text_eq event.user_id roles.owner_id
    && elim (owner_command_kind text) [ none ↦ false | some _ ↦ true ]

abbrev has_text : Text → List Text → Bool
has_text t [] = false
has_text t (u ∷ us) = text_eq u t || has_text t us

abbrev add_unique : Text → List Text → List Text
add_unique t ts = if is_empty t || has_text t ts then ts else ts ++ (t ∷ [])

mentioned_from : List MessageSegment → List Text → List Text
mentioned_from [] ids = ids
mentioned_from (s ∷ ss) ids =
    let id = trim_space (field (codes "qq") s.seg_data) in
    if not (text_eq s.seg_type (codes "at")) || is_empty id || text_eq id (codes "all")
    then mentioned_from ss ids
    else mentioned_from ss (add_unique id ids)

unfoldable pub mentioned_user_ids : List MessageSegment → List Text
unfolding mentioned_from
mentioned_user_ids segments = mentioned_from segments []

abbrev is_digit : ℕ → Bool
is_digit c = leb 48 c && leb c 57

-- The digits at the start of a text, `n` at most.
digits_at : ℕ → Text → Text
digits_at zero t = []
digits_at (suc n) [] = []
digits_at (suc n) (c ∷ cs) = if is_digit c then c ∷ digits_at n cs else []

-- The matches of [1-9][0-9]{4,13} after the next `skip` code points.
qq_numbers_from : ℕ → Text → List Text
unfolding digits_at
qq_numbers_from skip [] = []
qq_numbers_from (suc skip) (c ∷ cs) = qq_numbers_from skip cs
qq_numbers_from zero (c ∷ cs) =
    let ds = digits_at 13 cs in
    elim (leb 49 c && leb c 57 && leb 4 (length ds)) [
      | true ↦ (c ∷ ds) ∷ qq_numbers_from (length ds) cs
      | false ↦ qq_numbers_from 0 cs
    ]

unfoldable pub qq_numbers : Text → List Text
unfolding qq_numbers_from
qq_numbers t = qq_numbers_from 0 t

-- The first text that is none of the others.
unfoldable pub first_outside : List Text → List Text → Option Text
first_outside others [] = none
first_outside others (t ∷ ts) = if has_text t others then first_outside others ts else some t

quoted_user : Option QuotedMessage → List Text
quoted_user none = []
quoted_user (some q) = let id = trim_space q.user_id in if is_empty id then [] else id ∷ []

-- The user whom a command means.
unfoldable pub command_target : MessageEvent → Text → Roles → Option Text
unfolding mentioned_user_ids qq_numbers first_outside quoted_user first_non_empty
command_target event text roles =
    let owner = trim_space roles.owner_id in
    let bot = first_non_empty (trim_space event.self_id ∷ trim_space roles.bot_qq ∷ []) in
    elim (first_outside (bot ∷ owner ∷ []) (mentioned_user_ids event.segments)) [
      | some id ↦ some id
      | none ↦ elim (first_outside (bot ∷ owner ∷ []) (quoted_user event.quoted)) [
        | some id ↦ some id
        | none ↦ first_outside (bot ∷ owner ∷ trim_space event.group_id ∷ []) (qq_numbers text)
      ]
    ]

-- Duration.Round to the minute, half away from zero, up to the largest duration; then minutes.
rounded_minutes : ℕ → ℕ
rounded_minutes d =
    let down = d - d % minute in
    let rounded =
      if ltb (d % minute + d % minute) minute then down else min (down + minute) i64_max in
    rounded / minute

unfoldable pub format_remaining : ℤ → Text
unfolding rounded_minutes
format_remaining (negsuc _) = codes "已到期"
format_remaining (pos d) =
    let minutes = rounded_minutes d in
    if leb d 0
    then codes "已到期"
    else codes "约 " ++ (decimal (if ltb minutes 1 then 1 else minutes) ++ codes " 分钟")

list_line : ℕ → ReplySuppression → Text
unfolding format_remaining
list_line now item =
    codes "- QQ " ++ (item.user_id ++ (codes "，剩余 " ++ format_remaining (sub_time item.until now)))

list_reply : ℕ → List ReplySuppression → Text
unfolding list_line
list_reply now [] = codes "当前没有生效中的响应限制。"
list_reply now (x ∷ xs) = join (10 ∷ []) (codes "当前响应限制：" ∷ map (list_line now) (x ∷ xs))

release_reply : Text → Option ReplySuppression → Text
release_reply id none = codes "QQ " ++ (id ++ codes " 当前没有生效中的响应限制。")
release_reply id (some item) = codes "已解除 QQ " ++ (id ++ codes " 的响应限制，后续消息可以正常触发。")

-- The reply, where the text is a command. One reading of the clock serves the list and its lines.
unfoldable pub handle_owner_command :
    Roles → Bool → MessageEvent → Text → ℕ → Suppressions → Suppressions × Option Text
unfolding owner_command_kind command_target list_reply release_reply
handle_owner_command roles written event text now s = elim (owner_command_kind text) [
  | none ↦ (s, none)
  | some listing ↦
      let (s', items) = list_reply_suppressions now s in (s', some (list_reply now items))
  | some release ↦ elim (command_target event text roles) [
    | none ↦ (s, some (codes "请 @ 要解除限制的用户，或使用：响应限制 解除 <QQ号>。"))
    | some id ↦
        let (s', item) = clear_reply_suppression written id s in (s', some (release_reply id item))
  ]
]
