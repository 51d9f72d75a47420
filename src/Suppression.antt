-- ===== src/Suppression.antt =====
-- The temporary refusal to answer a user (model/qqbot/reply_suppression.go).
pub mod State
mod Intent
mod Active
mod Hits
mod AfterSend
mod Owner
mod History
mod Stands
mod Table
mod Rows
mod Blocked
mod Step
mod Synced
mod Restart
mod Refusals
mod Threshold
mod Kept
mod Tests
