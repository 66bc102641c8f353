-- ===== src/Crypto.antt =====
-- The cryptographic primitives that the program takes from Go's crypto packages, and the parts of
-- golang.org/x/crypto/ssh that it calls. The code of neither stands in the repository: they are a
-- parameter of the model, with the documented behaviour that the proofs use.
use grantd.Base.{◌≡◌, Bool, true, Bytes, All, length}
use grantd.Std.Base32.{IsByte}

pub record Crypto : Type 0 where
  pub sha256 : Bytes → Bytes
  -- hmac.New(sha256.New, key), Write(message), Sum(nil)
  pub hmac_sha256 : Bytes → Bytes → Bytes
  -- ed25519.Sign(private key, message), and the public half of a private key.
  pub sign : Bytes → Bytes → Bytes
  pub public_of : Bytes → Bytes
  -- ed25519.Verify(public key, message, signature)
  pub verify : Bytes → Bytes → Bytes → Bool

-- crypto/sha256 and crypto/ed25519: a digest is 32 bytes, and a public key has 32, a signature 64,
-- and what a private key signs, its public key verifies.
pub record IsCrypto (c : Crypto) : Type 0 where
  pub length_sha256 : (m : Bytes) → length (c.sha256 m) ≡ 32
  pub sha256_bytes : (m : Bytes) → All IsByte (c.sha256 m)
  pub length_sign : (key m : Bytes) → length (c.sign key m) ≡ 64
  pub length_public : (key : Bytes) → length (c.public_of key) ≡ 32
  pub verify_sign : (key m : Bytes) → c.verify (c.public_of key) m (c.sign key m) ≡ true
