-- ===== src/Protocol/Dns.antt =====
-- go/internal/protocol/validate.go: the name that the service publishes for a host. `lower` is
-- strings.ToLower.
pub mod Laws
use mathlib.Core.List.{reverse}
use grantd.Base.{
  ℕ, ◌≡◌, ◌≢◌, refl, sym, ap, ◌∙◌, Bool, true, false, not, ◌&&◌, ◌||◌, Option, none, some, List, [],
  ◌∷◌, ◌++◌, Bytes, Result, ok, err, codes, length, length-append, leb, ltb, ◌==◌, ==_iff, eq_bytes,
  eq_bytes_iff, arith, if◌then◌else◌, ◌>>=◌, ◌>>◌, >>=-eq-ok,
}
use grantd.Std.Base32.{all_b32}
use grantd.Std.Strings.{split, has_prefix, strip_prefix}
use grantd.Protocol.Validate
use grantd.Protocol.Validate.{all_bytes, validate_hostname}

pub data Error : Type 0 where
  suffix_required suffix_not_valid host_id_malformed : Error
  not_a_hostname : Validate.Error → Error

-- [a-z0-9] and [a-z0-9-]
dns_char : ℕ → Bool
dns_char c = (leb b'a' c && leb c b'z') || (leb b'0' c && leb c b'9')

dns_inner : ℕ → Bool
unfolding dns_char
dns_inner c = dns_char c || (c == b'-')

begins : Bytes → Bool
unfolding dns_char
begins [] = false
begins (c ∷ cs) = dns_char c

-- [a-z0-9]([a-z0-9-]*[a-z0-9])?
dns_label : Bytes → Bool
unfolding begins dns_inner
dns_label s = begins s && begins (reverse s) && all_bytes dns_inner s

all_labels : List Bytes → Bool
unfolding dns_label
all_labels [] = true
all_labels (l ∷ ls) = dns_label l && all_labels ls

-- Two labels or more, with dots between them.
unfoldable pub dns_suffix_matches : Bytes → Bool
unfolding all_labels split
dns_suffix_matches s = let labels = split b'.' s in leb 2 (length labels) && all_labels labels

-- ^[a-z2-7]{32}$
unfoldable pub host_label_matches : Bytes → Bool
unfolding all_b32
host_label_matches s = (length s == 32) && all_b32 s

unfoldable pub present : Option Bytes → Result Error Bytes
present none = err host_id_malformed
present (some s) = ok s

unfoldable pub hostname : Result Validate.Error (Unit {0}) → Result Error (Unit {0})
hostname (ok u) = ok u
hostname (err e) = err (not_a_hostname e)

module _ (lower : Bytes → Bytes) where
  unfoldable pub validate_dns_suffix : Bytes → Result Error (Unit {0})
  unfolding dns_suffix_matches
  validate_dns_suffix s =
      if eq_bytes s []
      then err suffix_required
      else if not (dns_suffix_matches (lower s))
      then err suffix_not_valid
      else ok tt

  unfoldable pub host_dns_name : Bytes → Bytes → Result Error Bytes
  unfolding validate_dns_suffix host_label_matches present hostname strip_prefix
  host_dns_name host_id suffix = do
    validate_dns_suffix suffix
    label ← present (strip_prefix host_id (codes "h_"))
    (if not (host_label_matches label) then err host_id_malformed else ok tt)
    let name : Bytes = label ++ (codes "." ++ lower suffix)
    hostname (validate_hostname name)
    ok name
