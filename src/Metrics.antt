-- ===== src/Metrics.antt =====
-- proxy/metrics_monitor.go: the metrics of the requests that were answered, and captures of them.
pub mod Captures
pub mod Eviction
pub mod History
pub mod Sequences
pub mod Parse
pub mod Backwards
pub mod Headers
pub mod Handler
pub mod Redaction
pub mod Recording
pub mod Exchanges
