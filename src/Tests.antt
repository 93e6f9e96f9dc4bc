-- ===== src/Tests.antt =====
-- Runs of the modelled operations on concrete inputs.
mod Logs
mod Processes
mod Configs
mod Groups
mod Managers
mod Events
mod Loads
mod Reloads
mod Metrics
mod Benchmarks
mod Inference
