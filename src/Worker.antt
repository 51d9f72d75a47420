-- ===== src/Worker.antt =====
-- The workers that process the queue (model/qqbot/inbound_queue.go), on the queue's store.
mod Delay
mod Round
mod Coordinator
mod Settled
mod Tests
