-- ===== src/Protocol/SshKey.antt =====
-- go/internal/protocol/sshkey.go
pub mod Laws
use grantd.Base.{
  ℕ, Bool, true, false, not, ◌&&◌, ◌||◌, Option, none, some, List, [], ◌∷◌, ◌++◌, Bytes, Result, ok,
  err, codes, length, ltb, ◌==◌, eq_bytes, if◌then◌else◌, ◌>>=◌,
}
use grantd.Std.Base64.{std_alphabet, encode_padded, decode_padded, encode_raw}
use grantd.Std.Strings.{trim_space, split}
use grantd.Crypto.{Crypto}
use grantd.Ssh.{Ssh, PublicKey}

pub data Error : Type 0 where
  key_too_large key_format key_type_refused key_body key_blob : Error

-- go/internal/protocol/envelopes.go
abbrev pub max_ssh_pub_key_bytes : ℕ
max_ssh_pub_key_bytes = 1024

-- ssh.KeyAlgoED25519
abbrev pub ed25519_algo : Bytes
ed25519_algo = codes "ssh-ed25519"

unfoldable pub or_err : {A : Type 0} → Option A → Error → Result Error A
or_err none e = err e
or_err (some a) e = ok a

-- Non-canonical base64 and trailing bytes inside the blob are refused.
check_key : PublicKey → Bytes → Result Error PublicKey
check_key key body =
    if not (eq_bytes key.key_type ed25519_algo)
    then err key_type_refused
    else if not (eq_bytes (encode_padded std_alphabet key.wire) body)
    then err key_format
    else ok key

module _ (lib : Ssh) where
  -- Past the two fields: the type, and the body in base64.
  unfoldable pub parse_fields : Bytes → Bytes → Result Error PublicKey
  unfolding or_err check_key
  parse_fields algo body =
      if eq_bytes algo [] || eq_bytes body []
      then err key_format
      else if not (eq_bytes algo ed25519_algo)
      then err key_type_refused
      else do
        blob ← or_err (decode_padded std_alphabet body) key_body
        key ← or_err (lib.parse_public_key blob) key_blob
        check_key key body

  unfoldable pub parse_parts : List Bytes → Result Error PublicKey
  parse_parts (algo ∷ body ∷ []) = parse_fields algo body
  parse_parts _ = err key_format

  unfoldable pub parse_ssh_public_key : Bytes → Result Error PublicKey
  parse_ssh_public_key line =
      if ltb max_ssh_pub_key_bytes (length line)
      then err key_too_large
      else if not (eq_bytes line (trim_space line))
      then err key_format
      else parse_parts (split b' ' line)

-- "SHA256:" and the raw standard base64 of the digest.
unfoldable pub ssh_key_fingerprint : Crypto → PublicKey → Bytes
ssh_key_fingerprint c key = codes "SHA256:" ++ encode_raw std_alphabet (c.sha256 key.wire)
