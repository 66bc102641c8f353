-- ===== src/Toy.antt =====
-- Simple functions in the place of the primitives, with which the tests run: they show that what is
-- assumed of the primitives can hold.
pub mod Urls
use grantd.Base.{ℕ, zero, suc, refl, true, some, [], ◌∷◌, ◌++◌, Bytes, codes, arith}
use grantd.Crypto.{Crypto, IsCrypto}
use grantd.Ssh.{Ssh}

abbrev pub repeat : ℕ → ℕ → Bytes
repeat zero b = []
repeat (suc n) b = b ∷ repeat n b

-- The digest is a constant, a MAC is its key, and every signature verifies.
abbrev pub crypto : Crypto
crypto = record {
  sha256 = λ m. repeat 32 0;
  hmac_sha256 = λ key m. key;
  sign = λ key m. repeat 64 0;
  public_of = λ key. repeat 32 0;
  verify = λ key m s. true;
}

abbrev pub ssh : Ssh
ssh = record {
  parse_public_key = λ wire. some (record { key_type = codes "ssh-ed25519"; wire = wire });
  new_public_key = λ key. some (record { key_type = codes "ssh-ed25519"; wire = key });
  marshal_public_key = λ key. codes "ssh-ed25519 AAAA" ++ 10 ∷ [];
  sign_cert = λ ca cert. some [];
  marshal_authorized_key = λ cert s. codes "cert";
}

pub crypto-IsCrypto : IsCrypto crypto
crypto-IsCrypto = record {
  length_sha256 = λ m. refl;
  sha256_bytes = λ m. omega arith;
  length_sign = λ key m. refl;
  length_public = λ key. refl;
  verify_sign = λ key m. refl;
}
