-- ===== src/Outbound.antt =====
-- The guard on messages to groups (model/qqbot/group_send_guard.go): retries with growing delays,
-- a cooldown after a window of failures, and a block on groups that the bot has left.
mod Policy
mod Groups
mod Gate
mod Bounds
mod Rounds
mod Loops
mod Termination
mod Replies
mod Resets
mod Calls
mod Cooldown
mod Gone
mod Rejoin
mod Tests
