-- ===== src/LogMonitor.antt =====
-- proxy/logMonitor.go: the ring of the last bytes, and the monitor around it. Where a method writes
-- to `w.stdout`, what that writer returned is an argument.
pub mod Buffer
pub mod Rotation
pub mod History
pub mod Places
pub mod Writes
pub mod Sequences
pub mod Monitor
pub mod Contract
