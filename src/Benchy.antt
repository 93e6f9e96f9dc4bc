-- ===== src/Benchy.antt =====
-- proxy/benchy.go: the benchmark jobs, which run an external program on one or several models.
pub mod Jobs
pub mod Queue
pub mod Start
pub mod Handler
pub mod Args
pub mod Pruned
pub mod Ends
pub mod Rounds
pub mod Plugins
pub mod Accepted
pub mod Started
pub mod Output
