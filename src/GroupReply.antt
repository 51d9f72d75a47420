-- ===== src/GroupReply.antt =====
-- Whether the bot replies to a member of a group (model/qqbot/group_reply_policy.go).
mod Level
mod Decision
mod Decided
mod Tests
