-- ===== src/Protocol/Ids.antt =====
-- go/internal/protocol/ids.go: the constants, and the identifiers that are hashes of keys. Where the
-- source draws random bytes, they are an argument. A Go string is compared byte by byte.
pub mod Laws
use grantd.Base.{
  ℕ, zero, suc, ◌*◌, Bool, true, false, not, ◌&&◌, List, [], ◌∷◌, ◌++◌, Bytes, Result, ok, err,
  Int64, pos, codes, length, ◌==◌, eq_bytes, if◌then◌else◌, ◌>>=◌,
}
use grantd.Std.Base32.{b32_encode, all_b32}
use grantd.Crypto.{Crypto}

abbrev pub version : ℕ
version = 1

abbrev pub skew_registration : Int64
skew_registration = pos 300

abbrev pub skew_redemption : Int64
skew_redemption = pos 120

abbrev pub min_grant_ttl_seconds : Int64
min_grant_ttl_seconds = pos 60

abbrev pub max_grant_ttl_seconds : Int64
max_grant_ttl_seconds = pos (8 * 3600)

abbrev pub default_grant_ttl : Int64
default_grant_ttl = pos (30 * 60)

abbrev pub nonce_len : ℕ
nonce_len = 16

abbrev pub secret_len : ℕ
secret_len = 32

-- ed25519.PublicKeySize and ed25519.SignatureSize
abbrev pub public_key_size : ℕ
public_key_size = 32

abbrev pub signature_size : ℕ
signature_size = 64

pub data Error : Type 0 where
  bad_public_key id_mismatch : Error

-- sum[:n]
unfoldable pub take_bytes : ℕ → Bytes → Bytes
take_bytes zero bs = []
take_bytes (suc n) [] = []
take_bytes (suc n) (b ∷ bs) = b ∷ take_bytes n bs

-- The regular expressions `^p_[a-z2-7]{n}$`.
unfoldable pub matches_id : ℕ → ℕ → Bytes → Bool
matches_id p n (x ∷ y ∷ label) = (x == p) && (y == b'_') && (length label == n) && all_b32 label
matches_id p n _ = false

unfoldable pub valid_host_id : Bytes → Bool
unfolding matches_id
valid_host_id = matches_id b'h' 32

unfoldable pub valid_agent_id : Bytes → Bool
unfolding matches_id
valid_agent_id = matches_id b'a' 32

unfoldable pub valid_grant_id : Bytes → Bool
unfolding matches_id
valid_grant_id = matches_id b'g' 16

-- NewGrantID, of the ten bytes that rand.Read gave.
unfoldable pub new_grant_id : Bytes → Bytes
new_grant_id raw = codes "g_" ++ b32_encode raw

module _ (c : Crypto) where
  unfoldable pub id_material : Bytes → Result Error Bytes
  id_material pub_key =
      if not (length pub_key == public_key_size)
      then err bad_public_key
      else ok (take_bytes 20 (c.sha256 pub_key))

  unfoldable pub host_id : Bytes → Result Error Bytes
  host_id pub_key = do m ← id_material pub_key; ok (codes "h_" ++ b32_encode m)

  unfoldable pub agent_id : Bytes → Result Error Bytes
  agent_id pub_key = do m ← id_material pub_key; ok (codes "a_" ++ b32_encode m)

  unfoldable pub check_host_id : Bytes → Bytes → Result Error (Unit {0})
  check_host_id id pub_key = do
    want ← host_id pub_key
    if not (eq_bytes id want) then err id_mismatch else ok tt

  unfoldable pub check_agent_id : Bytes → Bytes → Result Error (Unit {0})
  check_agent_id id pub_key = do
    want ← agent_id pub_key
    if not (eq_bytes id want) then err id_mismatch else ok tt
