-- ===== src/Daemon.antt =====
-- The daemon, go/daemon.
pub mod Client
pub mod Session
pub mod Retry
pub mod Rendezvous
pub mod Publishing
mod Tests
