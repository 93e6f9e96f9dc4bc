-- ===== src/Sync.antt =====
-- proxy/config_runtime_sync.go: a new configuration is applied while processes run.
pub mod Runtime
pub mod Entries
pub mod Outcome
pub mod Shadowed
pub mod Applied
pub mod Editor
pub mod Saved
