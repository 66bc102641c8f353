-- ===== src/SshCert.antt =====
-- go/internal/sshcert/sshcert.go. Times are Unix seconds: `ValidFrom` may have a fraction of a second
-- on top, which neither `Unix()` nor the comparison with the whole second of `ValidTo` shows.
pub mod Laws
use grantd.Base.{
  ℕ, Bool, true, false, not, ◌&&◌, Option, none, some, List, [], ◌∷◌, ◌++◌, Bytes, Int64, pos,
  bits64, leb_ℤ, Result, ok, err, codes, ◌==◌, eq_bytes, if◌then◌else◌,
}
use grantd.Std.Strings.{trim_space}
use grantd.Std.BigEndian.{read_be64}
use grantd.Ssh.{Ssh, PublicKey, Certificate}

pub data Error : Type 0 where
  missing_principal root_principal empty_window sign_failed : Error

abbrev pub clock_skew_backdate : Int64
clock_skew_backdate = pos 30

-- The nil check of `PublicKey` has no case here: the field is always a key.
pub record Request : Type 0 where
  pub public_key : PublicKey
  pub principal : Bytes
  pub grant_id : Bytes
  pub agent_id : Bytes
  pub serial : ℕ
  pub valid_from : Int64
  pub valid_to : Int64

-- What rand.Read gives, call by call: eight bytes, or none for an error.
abbrev pub Draws : Type 0
Draws = List (Option Bytes)

pub data Drawn : Type 0 where
  drawn : ℕ → Drawn
  read_failed : Drawn
  ended : Drawn

-- `for { … }` until the number is not zero. `ended`, which no run of the program shows, is the end of
-- the draws that were given.
unfoldable pub new_serial : Draws → Drawn
new_serial [] = ended
new_serial (none ∷ rest) = read_failed
new_serial (some b ∷ rest) =
    let again = new_serial rest in
    elim (read_be64 b) [ none ↦ ended | some v ↦ if v == 0 then again else drawn v ]

unfoldable pub key_id : Bytes → Bytes → Bytes
key_id grant_id agent_id = codes "grantd:" ++ (grant_id ++ (b':' ∷ agent_id))

-- ssh.UserCert
abbrev pub user_cert : ℕ
user_cert = 1

unfoldable pub certificate_of : Request → Certificate
unfolding key_id
certificate_of req = record {
  key = req.public_key;
  serial = req.serial;
  cert_type = user_cert;
  key_id = key_id req.grant_id req.agent_id;
  valid_principals = req.principal ∷ [];
  valid_after = bits64 req.valid_from;
  valid_before = bits64 req.valid_to;
  extensions = codes "permit-pty" ∷ codes "permit-user-rc" ∷ [];
}

module _ (lib : Ssh) where
  -- The certificate and the authority's signature on it.
  unfoldable pub issue : Bytes → Request → Result Error (Certificate × Bytes)
  issue ca req =
      if eq_bytes req.principal []
      then err missing_principal
      else if eq_bytes req.principal (codes "root")
      then err root_principal
      else if leb_ℤ req.valid_to req.valid_from
      then err empty_window
      else elim (lib.sign_cert ca (certificate_of req)) [
        | none ↦ err sign_failed
        | some s ↦ ok (certificate_of req, s)
      ]

  -- strings.TrimSpace takes the newline off that MarshalAuthorizedKey puts last.
  unfoldable pub marshal : Certificate × Bytes → Bytes
  marshal (cert, s) = trim_space (lib.marshal_authorized_key cert s)
