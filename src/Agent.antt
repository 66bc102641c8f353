-- ===== src/Agent.antt =====
-- go/agent: the visitor's side.
pub mod Redemption
pub mod CapabilityUrl
pub mod Verify
mod Tests
