-- ===== src/Process.antt =====
-- proxy/process.go: the life of one upstream process. A method that mutates `*Process` returns the
-- new record. The locks make each read or change of the state one step; what other goroutines do
-- while a method waits is an argument of it.
pub mod State
pub mod Walks
pub mod Stop
pub mod Health
pub mod Start
pub mod Request
pub mod HealthEnds
pub mod HealthResult
pub mod Slots
pub mod RequestSlots
pub mod Started
pub mod Calm
pub mod CalmStart
pub mod CalmRequest
pub mod Final
