-- ===== src/Manager.antt =====
-- proxy/proxymanager.go, peerproxy.go, sanitize_cors.go, rate_limiter.go: what stands between the
-- HTTP routes and the groups.
pub mod Groups
pub mod Exclusive
pub mod Access
pub mod Peers
pub mod Cors
pub mod Routes
pub mod Bodies
pub mod Fields
pub mod Inference
pub mod Answers
pub mod Forms
pub mod Copied
pub mod Paths
pub mod RateLimit
