-- ===== src/Signer/Lifetime.antt =====
-- go/signer/api/http.go: the lifetime socket, which answers the warden. A reply is the status and the
-- value of its body, or one of the error codes; the texts of errors are left out. `decimal` is
-- strconv.FormatUint to the base 10.
use grantd.Base.{ℕ, not, Option, none, some, [], Bytes, Int64, Result, ok, err, if◌then◌else◌}
use grantd.Protocol.Errors.{Code, bad_request, grant_not_found, internal}
use grantd.Protocol.Ids.{valid_grant_id}
use grantd.Store.Tables
use grantd.Store.Tables.{Io, Db}
use grantd.Store.Grants.{GrantView, get_grant_view}
use grantd.Store.Certificates.{certificate_serial}

-- writeJSON at a status, and writeErr.
pub data Reply (A : Type 0) : Type 0 where
  answered : ℕ → A → Reply A
  failed : Code → Reply A

pub record LifetimeGrant : Type 0 where
  pub id : Bytes
  pub ssh_user : Bytes
  pub expires_at : Int64
  pub redeemed_at : Option Int64
  pub revoked_at : Option Int64
  pub certificate_serial : Bytes

unfoldable pub lifetime_of : GrantView → Bytes → LifetimeGrant
lifetime_of v serial = record {
  id = v.id;
  ssh_user = v.ssh_user;
  expires_at = v.expires_at;
  redeemed_at = v.redeemed_at;
  revoked_at = v.revoked_at;
  certificate_serial = serial;
}

unfoldable pub serial_reply :
    (ℕ → Bytes) → GrantView → Result Tables.Error (Option ℕ) → Reply LifetimeGrant
unfolding lifetime_of
serial_reply decimal v (err e) = failed internal
serial_reply decimal v (ok none) = answered 200 (lifetime_of v [])
serial_reply decimal v (ok (some serial)) = answered 200 (lifetime_of v (decimal serial))

unfoldable pub view_reply :
    (ℕ → Bytes) → Io → Bytes → Db → Result Tables.Error GrantView → Reply LifetimeGrant
unfolding serial_reply
view_reply decimal io id db (err Tables.Error.grant_not_found) = failed grant_not_found
view_reply decimal io id db (err e) = failed internal
view_reply decimal io id db (ok v) = serial_reply decimal v (certificate_serial io id db)

unfoldable pub lifetime_grant : (ℕ → Bytes) → Io → Bytes → Db → Reply LifetimeGrant
unfolding view_reply
lifetime_grant decimal io id db =
    if not (valid_grant_id id)
    then failed bad_request
    else view_reply decimal io id db (get_grant_view io id db)
