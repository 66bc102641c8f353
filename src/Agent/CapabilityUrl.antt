-- ===== src/Agent/CapabilityUrl.antt =====
-- go/agent/identity.go: ParseCapabilityURL. url.Parse is a parameter, none for an error.
pub mod Plain
pub mod RoundTrip
use grantd.Base.{
  ℕ, Bool, true, false, not, ◌&&◌, ◌||◌, Option, none, some, List, [], ◌∷◌, ◌++◌, Bytes, Result, ok,
  err, codes, ◌==◌, eq_bytes, if◌then◌else◌, ◌>>=◌, ◌>>◌,
}
use grantd.Std.Strings.{split}
use grantd.Protocol.Ids.{valid_host_id, valid_grant_id}
use grantd.Protocol.Secrets
use grantd.Protocol.Secrets.{decode_secret}
use grantd.Agent.Redemption.{Capability}

-- The fields of a url.URL that are read.
pub record Url : Type 0 where
  pub scheme : Bytes
  pub host : Bytes
  pub path : Bytes
  pub fragment : Bytes

pub data Failure : Type 0 where
  malformed_url wrong_scheme wrong_path malformed_host_id malformed_grant_id no_fragment : Failure
  secret_error : Secrets.Error → Failure

-- strings.Trim(s, "/")
unfoldable pub trim_left : Bytes → Bytes
trim_left [] = []
trim_left (c ∷ cs) = let rest = trim_left cs in if c == b'/' then rest else c ∷ cs

unfoldable pub trim_right : Bytes → Bytes
trim_right [] = []
trim_right (c ∷ cs) =
    let rest = trim_right cs in if (c == b'/') && eq_bytes rest [] then [] else c ∷ rest

unfoldable pub trim_slashes : Bytes → Bytes
trim_slashes s = trim_right (trim_left s)

-- `len(parts) != 3 || parts[0] != "g"`
unfoldable pub ids_of_parts : List Bytes → Result Failure (Bytes × Bytes)
ids_of_parts (g ∷ host_id ∷ grant_id ∷ []) =
    if eq_bytes g (codes "g") then ok (host_id, grant_id) else err wrong_path
ids_of_parts _ = err wrong_path

unfoldable pub require : Bool → Failure → Result Failure (Unit {0})
require true e = ok tt
require false e = err e

unfoldable pub secret_of : Result Secrets.Error Bytes → Result Failure Bytes
secret_of (ok s) = ok s
secret_of (err e) = err (secret_error e)

unfoldable pub capability_of : Option Url → Result Failure Capability
unfolding trim_slashes ids_of_parts require secret_of
capability_of none = err malformed_url
capability_of (some u) = do
  require (eq_bytes u.scheme (codes "https") || eq_bytes u.scheme (codes "http")) wrong_scheme
  (host_id, grant_id) ← ids_of_parts (split b'/' (trim_slashes u.path))
  require (valid_host_id host_id) malformed_host_id
  require (valid_grant_id grant_id) malformed_grant_id
  require (not (eq_bytes u.fragment [])) no_fragment
  secret ← secret_of (decode_secret u.fragment)
  ok (record {
    origin = u.scheme ++ (codes "://" ++ u.host);
    host_id = host_id;
    grant_id = grant_id;
    secret = secret;
  })

unfoldable pub parse_capability_url : (Bytes → Option Url) → Bytes → Result Failure Capability
unfolding capability_of
parse_capability_url parse_url raw = capability_of (parse_url raw)
