-- ===== src/Daemon.antt =====
-- crates/lr-daemon: the jobs of the daemon, and what a stopping daemon waits for.
pub mod Outcome
pub mod Job
pub mod Jobs
pub mod Shutdown
