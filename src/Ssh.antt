-- ===== src/Ssh.antt =====
-- golang.org/x/crypto/ssh, as far as the program calls it: a parameter of the model.
use grantd.Base.{ℕ, Bool, Option, List, Bytes, Int64}

-- An ssh.PublicKey: what Type() and Marshal() return.
pub record PublicKey : Type 0 where
  pub key_type : Bytes
  pub wire : Bytes

-- The fields of ssh.Certificate that the program sets, before SignCert. The critical options are
-- empty; an extension is a name with an empty value.
pub record Certificate : Type 0 where
  pub key : PublicKey
  pub serial : ℕ
  pub cert_type : ℕ
  pub key_id : Bytes
  pub valid_principals : List Bytes
  pub valid_after : ℕ
  pub valid_before : ℕ
  pub extensions : List Bytes

pub record Ssh : Type 0 where
  pub parse_public_key : Bytes → Option PublicKey
  -- NewPublicKey of a raw ed25519 key, and MarshalAuthorizedKey of a public key.
  pub new_public_key : Bytes → Option PublicKey
  pub marshal_public_key : PublicKey → Bytes
  -- NewSignerFromKey and SignCert, with the private key of the authority: none is an error of either.
  pub sign_cert : Bytes → Certificate → Option Bytes
  -- MarshalAuthorizedKey of the certificate with that signature.
  pub marshal_authorized_key : Certificate → Bytes → Bytes

-- What ParseAuthorizedKey makes of a line: a key, or a certificate with the key that signed it, which
-- may be nil.
pub record SignedCertificate : Type 0 where
  pub certificate : Certificate
  pub signature_key : Option PublicKey

pub data AuthorizedKey : Type 0 where
  plain : PublicKey → AuthorizedKey
  signed : SignedCertificate → AuthorizedKey

-- What a visitor calls: ParseAuthorizedKey, and CertChecker.CheckCert for a principal at a time, where
-- false is an error.
pub record CertLibrary : Type 0 where
  pub parse_authorized_key : Bytes → Option AuthorizedKey
  pub check_cert : Bytes → Int64 → SignedCertificate → Bool
