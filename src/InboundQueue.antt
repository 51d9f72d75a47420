-- ===== src/InboundQueue.antt =====
-- The durable queue of inbound messages in SQLite (model/storage/inbound_queue.go): its tables,
-- and in the children its operations and what they keep.
pub mod Table
mod Enqueue
pub mod Lease
pub mod Order
mod Counts
pub mod Claim
mod History
mod Terminal
mod Dedupe
mod Claimable
mod Tests
pub use Table.{Status, InboundRow, HistoryRow, Store, StoreError, Result, Item}
