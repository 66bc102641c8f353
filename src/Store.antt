-- ===== src/Store.antt =====
-- go/signer/store/store.go: the signer's SQLite state. A module for each table's statements, and the
-- proofs beside them.
pub mod Tables
pub mod Host
pub mod Grants
pub mod Nonces
pub mod Claim
pub mod Certificates
pub mod SingleUse
mod Tests
