-- ===== src/Event.antt =====
-- event/event.go: the dispatcher, its registry and the queues of the consumers.
pub mod Registry
pub mod Search
pub mod Insertion
pub mod Queue
pub mod Delivery
pub mod Bounded
pub mod Wakeups
pub mod Woken
pub mod Heeded
