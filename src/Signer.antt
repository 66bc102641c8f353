-- ===== src/Signer.antt =====
-- go/signer: the trust root, which holds the host's identity key and the certificate authority's.
pub mod Redeem
pub mod Lifetime
pub mod Api
pub mod Grants
mod Tests
