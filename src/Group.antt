-- ===== src/Group.antt =====
-- proxy/processgroup.go and the parts of proxy/proxymanager.go that choose between the groups.
pub mod State
pub mod Swapped
pub mod Created
pub mod Requests
pub mod Calls
pub mod Sequences
