-- ===== src/Protocol/Validate.antt =====
-- go/internal/protocol/validate.go. A regular expression of the source is the test that it decides: a
-- first and a following class of bytes, with bounds on the length. An error is its message's kind.
pub mod Laws
use grantd.Base.{
  ℕ, ◌^◌, Bool, true, false, not, ◌&&◌, ◌||◌, List, [], ◌∷◌, ◌++◌, Bytes, Result, ok, err, Int64,
  pos, codes, length, ltb, leb, leb_ℤ, ltb_ℤ, sub64, neg64, ◌==◌, eq_bytes, if◌then◌else◌,
}
use grantd.Protocol.Ids.{min_grant_ttl_seconds, max_grant_ttl_seconds}

pub data Error : Type 0 where
  user_required user_too_long user_not_valid user_is_root : Error
  hostname_required hostname_too_long hostname_not_valid : Error
  port_out_of_range : Error
  expires_before_created ttl_below_minimum ttl_above_maximum : Error

-- go/internal/protocol/envelopes.go
abbrev pub max_username_bytes : ℕ
max_username_bytes = 32

abbrev pub max_hostname_bytes : ℕ
max_hostname_bytes = 253

unfoldable pub all_bytes : (ℕ → Bool) → Bytes → Bool
all_bytes p [] = true
all_bytes p (b ∷ bs) = p b && all_bytes p bs

is_lower : ℕ → Bool
is_lower c = leb b'a' c && leb c b'z'

is_upper : ℕ → Bool
is_upper c = leb b'A' c && leb c b'Z'

is_digit : ℕ → Bool
is_digit c = leb b'0' c && leb c b'9'

-- [a-z_] and [a-z0-9_-]
user_first : ℕ → Bool
unfolding is_lower
user_first c = is_lower c || (c == b'_')

user_next : ℕ → Bool
unfolding is_lower is_digit
user_next c = is_lower c || is_digit c || (c == b'_') || (c == b'-')

-- ^[a-z_][a-z0-9_-]{0,31}$
username_matches : Bytes → Bool
unfolding user_first user_next
username_matches [] = false
username_matches (c ∷ cs) = user_first c && leb (length cs) 31 && all_bytes user_next cs

unfoldable pub validate_ssh_user : Bytes → Result Error (Unit {0})
unfolding username_matches
validate_ssh_user u =
    if eq_bytes u []
    then err user_required
    else if ltb max_username_bytes (length u)
    then err user_too_long
    else if not (username_matches u)
    then err user_not_valid
    else if eq_bytes u (codes "root")
    then err user_is_root
    else ok tt

-- [A-Za-z0-9._:\[\]-]
host_class : ℕ → Bool
unfolding is_lower is_upper is_digit
host_class c =
    is_upper c
    || is_lower c
    || is_digit c
    || (c == b'.')
    || (c == b'_')
    || (c == b':')
    || (c == b'[')
    || (c == b']')
    || (c == b'-')

hostname_matches : Bytes → Bool
unfolding host_class
hostname_matches h = leb 1 (length h) && leb (length h) 253 && all_bytes host_class h

-- strings.Contains(h, "..")
has_dot_dot : Bytes → Bool
has_dot_dot [] = false
has_dot_dot (a ∷ []) = false
has_dot_dot (a ∷ b ∷ rest) = ((a == b'.') && (b == b'.')) || has_dot_dot (b ∷ rest)

unfoldable pub validate_hostname : Bytes → Result Error (Unit {0})
unfolding hostname_matches has_dot_dot
validate_hostname h =
    if eq_bytes h []
    then err hostname_required
    else if ltb max_hostname_bytes (length h)
    then err hostname_too_long
    else if not (hostname_matches h) || has_dot_dot h
    then err hostname_not_valid
    else ok tt

unfoldable pub validate_port : ℕ → Result Error (Unit {0})
validate_port p = if (p == 0) || ltb 65535 p then err port_out_of_range else ok tt

unfoldable pub validate_grant_window : Int64 → Int64 → Result Error (Unit {0})
validate_grant_window created_at expires_at =
    let ttl = sub64 expires_at created_at in
    if leb_ℤ expires_at created_at
    then err expires_before_created
    else if ltb_ℤ ttl min_grant_ttl_seconds
    then err ttl_below_minimum
    else if ltb_ℤ max_grant_ttl_seconds ttl
    then err ttl_above_maximum
    else ok tt

-- `d := now - ts; if d < 0 { d = -d }; return d <= skew`
unfoldable pub within_skew : Int64 → Int64 → Int64 → Bool
within_skew now ts skew =
    let d = sub64 now ts in let d' = if ltb_ℤ d (pos 0) then neg64 d else d in leb_ℤ d' skew
