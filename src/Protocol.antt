-- ===== src/Protocol.antt =====
-- go/internal/protocol: identifiers, validation, canonical messages and error codes.
pub mod Ids
mod Tests
pub mod Secrets
pub mod Errors
pub mod Envelopes
pub mod Json
pub mod Frames
pub mod Dns
pub mod SshKey
pub mod Messages
pub mod Validate
