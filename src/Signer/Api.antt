-- ===== src/Signer/Api.antt =====
-- go/signer/api/http.go: the handlers of the owner's and the daemon's socket. What io.ReadAll and
-- encoding/json make of a request's body is an argument, none where they fail; a reply is its status
-- and the value of its body, or an error code. The texts of errors and the log are left out.
pub mod Daemon
pub mod Owner
pub mod Capabilities
use grantd.Base.{
  ℕ, Bool, true, false, not, ◌||◌, Option, none, some, List, [], ◌∷◌, Bytes, Int64, Result, ok, err,
  codes, length, ltb, eq_bytes, if◌then◌else◌, ◌>>=◌,
}
use grantd.Std.Strings.{has_prefix}
use grantd.Std.Base64.{url_alphabet, encode_raw}
use grantd.Crypto.{Crypto}
use grantd.Ssh.{Ssh}
use grantd.Protocol.Errors.{Code, bad_request, grant_not_found, internal}
use grantd.Protocol.Errors
use grantd.Protocol.Ids.{version}
use grantd.Protocol.Envelopes.{
  HostRegisterRequest, GrantPublishRequest, RedemptionRequest, RedemptionResponse,
}
use grantd.SshCert.{Draws}
use grantd.Store.Tables
use grantd.Store.Tables.{Io, HostRow, Db}
use grantd.Store.Host.{host}
use grantd.Store.Grants.{GrantView, list_grants, active_grant_count}
use grantd.Store.Certificates.{certificate_count}
use grantd.Signer.Redeem
use grantd.Signer.Redeem.{Keys, redeem}
use grantd.Signer.Grants
use grantd.Signer.Grants.{
  ConnectAuth, NewGrant, create_grant, revoke_grant, mark_published, pending, host_registration,
  sign_connect, ssh_ca_public_key_line, or_fail, store_error,
}
use grantd.Signer.Lifetime.{Reply, answered, failed}

-- The owner's socket.
unfoldable pub create_reply : Result Grants.Failure NewGrant → Reply NewGrant
create_reply (ok g) = answered 201 g
create_reply (err Grants.Failure.too_many_grants) = failed Errors.Code.too_many_grants
create_reply (err (Grants.Failure.store_error Tables.Error.no_host)) = failed internal
create_reply (err e) = failed bad_request

-- The body of the answers to a change of one grant: its id, and that it was done.
abbrev pub Done : Type 0
Done = Bytes × Bool

unfoldable pub revoke_reply : Bytes → Result Grants.Failure (Unit {0}) → Reply Done
revoke_reply id (ok u) = answered 200 (id, true)
revoke_reply id (err (Grants.Failure.store_error Tables.Error.grant_not_found)) =
    failed grant_not_found
revoke_reply id (err e) = failed bad_request

-- The handlers for which every error is an internal one.
unfoldable pub internal_reply : {E A : Type 0} → Result E A → Reply A
internal_reply (ok a) = answered 200 a
internal_reply (err e) = failed internal

unfoldable pub done : {E A : Type 0} → Bytes → Result E A → Result E Done
done id (ok a) = ok (id, true)
done id (err e) = err e

unfoldable pub list_grants_handler : Io → Db → Reply (List GrantView)
unfolding internal_reply
list_grants_handler io db = internal_reply (list_grants io db)

unfoldable pub revoke_grant_handler : Io → Int64 → Bytes → Db → Reply Done × Db
unfolding revoke_reply
revoke_grant_handler io now id db =
    let (r, db') = revoke_grant io now id db in (revoke_reply id r, db')

unfoldable pub mark_published_handler : Io → Int64 → Bytes → Db → Reply Done × Db
unfolding internal_reply done
mark_published_handler io now id db =
    let (r, db') = mark_published io now id db in (internal_reply (done id r), db')

-- The daemon's socket.
unfoldable pub redeem_reply : Result Redeem.Failure RedemptionResponse → Reply RedemptionResponse
redeem_reply (ok resp) = answered 200 resp
redeem_reply (err (Redeem.Failure.refused code)) = failed code
redeem_reply (err e) = failed internal

-- `req.Path == "" || !strings.HasPrefix(req.Path, "/v1/hosts/") || len(req.Path) > 256`
unfoldable pub bad_path : Bytes → Bool
bad_path path =
    eq_bytes path [] || not (has_prefix path (codes "/v1/hosts/")) || ltb 256 (length path)

pub record Status : Type 0 where
  pub host_id : Bytes
  pub ssh_user : Bytes
  pub hostname : Bytes
  pub ssh_port : ℕ
  pub ssh_ca_public_key : Bytes
  pub ssh_host_public_key : Bytes
  pub active_grants : ℕ
  pub certificates_issued : ℕ
  pub protocol_version : ℕ
  pub identity_public_key_b64 : Bytes

-- The routes of DaemonHandler, and what they send.
pub data Request : Type 0 where
  redeeming : Draws → Option RedemptionRequest → Request
  registering : Option Bytes → Request
  connecting : Option Bytes → Option Bytes → Request
  publications : Request
  publishing : Bytes → Request
  asking : Request

pub data Sent : Type 0 where
  redemption : Reply RedemptionResponse → Sent
  registration : Reply HostRegisterRequest → Sent
  connection : Reply ConnectAuth → Sent
  published : Reply (List GrantPublishRequest) → Sent
  marked : Reply Done → Sent
  status : Reply Status → Sent

module _ (c : Crypto) (lib : Ssh) (rfc3339 : Int64 → Bytes) where
  unfoldable pub create_grant_handler :
      Io → Keys → Int64 → Option Bytes → Option Bytes → Option Int64 → Db → Db → Reply NewGrant × Db
  unfolding create_reply
  create_grant_handler io k now id_bytes secret_bytes none before db = (failed bad_request, db)
  create_grant_handler io k now id_bytes secret_bytes (some ttl) before db =
      let (r, db') = create_grant c io k now id_bytes secret_bytes ttl before db in
      (create_reply r, db')

  unfoldable pub redeem_handler :
      Io → Keys → Int64 → Draws → Option RedemptionRequest → Db → Reply RedemptionResponse × Db
  unfolding redeem_reply
  redeem_handler io k now draws none db = (failed bad_request, db)
  redeem_handler io k now draws (some req) db =
      let (r, db') = redeem c lib rfc3339 io k now draws req db in (redeem_reply r, db')

  unfoldable pub registration_handler :
      Io → Keys → Int64 → Option Bytes → Db → Reply HostRegisterRequest
  unfolding internal_reply
  registration_handler io k now random db =
      internal_reply (host_registration c lib io k now random db)

  unfoldable pub pending_handler : Io → Keys → Int64 → Db → Reply (List GrantPublishRequest)
  unfolding internal_reply
  pending_handler io k now db = internal_reply (pending c io k now db)

  unfoldable pub connect_auth_handler :
      Io → Keys → Int64 → Option Bytes → Option Bytes → Db → Reply ConnectAuth
  unfolding internal_reply bad_path
  connect_auth_handler io k now random none db = failed bad_request
  connect_auth_handler io k now random (some path) db =
      if bad_path path
      then failed bad_request
      else internal_reply (sign_connect c io k now random path db)

  unfoldable pub status_of : Io → Keys → Int64 → Db → Result Grants.Failure Status
  unfolding or_fail
  status_of io k now db = do
    h ← or_fail (host io db) store_error
    ca_line ← ssh_ca_public_key_line c lib k
    active ← or_fail (active_grant_count io now db) store_error
    certs ← or_fail (certificate_count io db) store_error
    ok (record {
      host_id = h.host_id;
      ssh_user = h.ssh_user;
      hostname = h.hostname;
      ssh_port = h.ssh_port;
      ssh_ca_public_key = ca_line;
      ssh_host_public_key = h.ssh_host_public_key;
      active_grants = active;
      certificates_issued = certs;
      protocol_version = version;
      identity_public_key_b64 = encode_raw url_alphabet (c.public_of k.identity);
    })

  unfoldable pub status_handler : Io → Keys → Int64 → Db → Reply Status
  unfolding internal_reply status_of
  status_handler io k now db = internal_reply (status_of io k now db)

  unfoldable pub daemon : Io → Keys → Int64 → Request → Db → Sent × Db
  unfolding redeem_handler registration_handler connect_auth_handler pending_handler
      mark_published_handler status_handler
  daemon io k now (redeeming draws req) db =
      let (r, db') = redeem_handler io k now draws req db in (redemption r, db')
  daemon io k now (registering random) db =
      (registration (registration_handler io k now random db), db)
  daemon io k now (connecting random path) db =
      (connection (connect_auth_handler io k now random path db), db)
  daemon io k now publications db = (published (pending_handler io k now db), db)
  daemon io k now (publishing id) db =
      let (r, db') = mark_published_handler io now id db in (marked r, db')
  daemon io k now asking db = (status (status_handler io k now db), db)
