-- ===== src/Event.antt =====
-- Messages as the bot sees them (model/qqbot/types.go), with the text that they show
-- (model/qqbot/onebot.go), the key of their conversation and firstNonEmpty.
use diana_qq_bot.Prelude.{Bool, true, false, ◌&&◌, not, List, [], ◌∷◌, ◌++◌, Option, if◌then◌else◌}
use diana_qq_bot.Prelude.Text.{Text, codes, text_eq, is_empty, is_blank, trim_space}
use diana_qq_bot.Prelude.Int64.{ℤ}

-- The source's kinds are strings: four of them are named.
pub data EventKind : Type 0 where
  private group notice meta : EventKind
  other : Text → EventKind

abbrev pub is_group : EventKind → Bool
is_group group = true
is_group _ = false

abbrev pub is_private : EventKind → Bool
is_private private = true
is_private _ = false

abbrev pub is_notice : EventKind → Bool
is_notice notice = true
is_notice _ = false

abbrev pub kind_text : EventKind → Text
kind_text private = codes "private"
kind_text group = codes "group"
kind_text notice = codes "notice"
kind_text meta = codes "meta"
kind_text (other t) = t

pub record MessageSegment : Type 0 where
  pub seg_type : Text
  pub seg_data : List (Text × Text)

pub record QuotedMessage : Type 0 where
  pub message_id : Text
  pub user_id : Text
  pub group_id : Text
  pub sender_name : Text
  pub raw_message : Text
  pub segments : List MessageSegment
  pub semantic : Bool
  pub semantic_source_message_id : Text

pub record MessageEvent : Type 0 where
  pub kind : EventKind
  pub sub_type : Text
  pub time : ℤ  -- Unix seconds
  pub original_time : ℤ
  pub self_id : Text
  pub user_id : Text
  pub operator_id : Text
  pub operator_name : Text
  pub operator_role : Text
  pub group_id : Text
  pub message_id : Text
  pub message_seq : Text
  pub message_type : Text
  pub raw_message : Text
  pub segments : List MessageSegment
  pub sender_name : Text
  pub sender_role : Text
  pub sender_level : Text
  pub to_me : Bool
  pub quoted : Option QuotedMessage
  pub semantic_source_message_id : Text

-- A missing key of a Go map reads as the empty string.
abbrev pub field : Text → List (Text × Text) → Text
field k [] = []
field k ((j, v) ∷ m) = if text_eq j k then v else field k m

unfoldable pub first_non_empty : List Text → Text
first_non_empty [] = []
first_non_empty (t ∷ ts) = if not (is_blank t) then t else first_non_empty ts

at_text : Text → Text
at_text qq =
    if not (is_empty qq) && not (text_eq qq (codes "all"))
    then codes "@" ++ (qq ++ codes " ")
    else []

file_text : Text → Text
file_text name = codes "[文件:" ++ ((if is_empty name then codes "文件" else name) ++ codes "]")

reply_text : Text → Text
reply_text id = if is_empty id then [] else codes "[回复:" ++ (id ++ codes "]")

forward_text : Text → Text → Text
forward_text summary id =
    if not (is_empty summary)
    then summary
    else if not (is_empty id)
    then codes "[合并转发:" ++ (id ++ codes "]")
    else codes "[合并转发]"

segment_text : MessageSegment → Text
unfolding at_text file_text reply_text forward_text first_non_empty
segment_text s =
    if text_eq seg_type (codes "text")
    then field (codes "text") seg_data
    else if text_eq seg_type (codes "at")
    then at_text (field (codes "qq") seg_data)
    else if text_eq seg_type (codes "image")
    then codes "[图片]"
    else if text_eq seg_type (codes "video")
    then codes "[视频]"
    else if text_eq seg_type (codes "file")
    then file_text (
        first_non_empty (
          field (codes "name") seg_data
          ∷ field (codes "file") seg_data
          ∷ field (codes "filename") seg_data
          ∷ []))
    else if text_eq seg_type (codes "reply")
    then reply_text (field (codes "id") seg_data)
    else if text_eq seg_type (codes "forward")
    then forward_text (trim_space (field (codes "summary") seg_data)) (
        first_non_empty (
          field (codes "id") seg_data
          ∷ field (codes "resid") seg_data
          ∷ field (codes "forward_id") seg_data
          ∷ []))
    else []
  where
    open s use {seg_type, seg_data}

segments_text : List MessageSegment → Text
unfolding segment_text
segments_text [] = []
segments_text (s ∷ ss) = segment_text s ++ segments_text ss

unfoldable pub plain_text : List MessageSegment → Text
unfolding segments_text
plain_text segments = trim_space (segments_text segments)

unfoldable pub session_key : MessageEvent → Text
session_key event =
    if not (is_empty event.group_id)
    then codes "group:" ++ event.group_id
    else codes "private:" ++ event.user_id
