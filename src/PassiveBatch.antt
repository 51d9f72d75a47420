-- ===== src/PassiveBatch.antt =====
-- The batches of passive replies (model/qqbot/passive_batch.go): messages of a group that do not
-- address the bot are held back and decided on together.
mod Batch
mod Decision
mod Invariant
mod Exclusive
mod Pending
mod Runs
mod Sessions
mod Stale
mod Tests
