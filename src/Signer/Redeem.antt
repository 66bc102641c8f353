-- ===== src/Signer/Redeem.antt =====
-- go/signer/redeem.go: Redeem, the one function that turns a network message into access. The
-- signer's keys, its clock, the failures of its database and the random draws are arguments; the
-- state is the database. A RedeemError is `refused` with its code; any other error is passed on.
pub mod Laws
pub mod Sound
pub mod Able
pub mod Steps
pub mod Complete
pub mod Capabilities
use grantd.Base.{
  ℕ, Bool, true, false, not, ◌&&◌, Option, none, some, List, [], ◌∷◌, ◌++◌, Bytes, Int64, ℤ, pos,
  sub64, Result, ok, err, codes, length, of_bits64, ◌==◌, eq_bytes, if◌then◌else◌, ◌>>=◌, ◌>>◌,
}
use grantd.Crypto.{Crypto}
use grantd.Ssh.{Ssh, PublicKey, Certificate}
use grantd.Protocol.Errors.{
  Code, bad_request, unsupported_version, id_mismatch, bad_signature, stale_timestamp,
  replayed_nonce, grant_not_found, grant_expired, grant_revoked, already_redeemed, bad_proof,
  internal,
}
use grantd.Protocol.Ids.{
  version, skew_redemption, nonce_len, public_key_size, valid_grant_id, check_agent_id,
}
use grantd.Protocol.Validate.{within_skew}
use grantd.Protocol.Messages.{RedemptionPayload, canonical_sig, verify, verify_proof}
use grantd.Protocol.SshKey.{parse_ssh_public_key, ssh_key_fingerprint}
use grantd.Protocol.Envelopes.{RedemptionRequest, RedemptionResponse}
use grantd.SshCert
use grantd.SshCert.{
  Draws, Drawn, drawn, read_failed, ended, new_serial, issue, marshal, clock_skew_backdate,
}
use grantd.Store.Tables
use grantd.Store.Tables.{Io, HostRow, Db, CertificateRow}
use grantd.Store.Host.{host}
use grantd.Store.Nonces.{remember_nonce}
use grantd.Store.Claim.{
  ClaimStatus, ClaimResult, claim_ok, claim_not_found, claim_revoked, claim_expired,
  claim_already_redeemed, claim_bad_proof, claim_grant,
}
use grantd.Store.Certificates.{record_certificate}

pub data Failure : Type 0 where
  refused : Code → Failure
  store_error : Tables.Error → Failure
  no_serial : Failure
  certificate_error : SshCert.Error → Failure

-- 4 * protocol.SkewRedemption
abbrev pub nonce_retention : Int64
nonce_retention = pos 480

abbrev pub scope_redeem : Bytes
scope_redeem = codes "redeem"

-- What stays the same from call to call.
pub record Keys : Type 0 where
  pub identity : Bytes
  pub ca : Bytes
  pub origin : Bytes

unfoldable pub guard : Bool → Code → Result Failure (Unit {0})
guard true c = ok tt
guard false c = err (refused c)

-- An error of a callee, answered with this code.
unfoldable pub or_refuse : {E A : Type 0} → Result E A → Code → Result Failure A
or_refuse (ok a) c = ok a
or_refuse (err e) c = err (refused c)

pub enrolled : Result Tables.Error HostRow → Result Failure HostRow
enrolled (ok h) = ok h
enrolled (err Tables.Error.no_host) = err (refused internal)
enrolled (err e) = err (store_error e)

pub claim_refusal : ClaimStatus → Result Failure (Unit {0})
claim_refusal claim_not_found = err (refused grant_not_found)
claim_refusal claim_revoked = err (refused grant_revoked)
claim_refusal claim_expired = err (refused grant_expired)
claim_refusal claim_already_redeemed = err (refused already_redeemed)
claim_refusal claim_bad_proof = err (refused bad_proof)
claim_refusal claim_ok = ok tt

pub remembered : Result Tables.Error (Unit {0}) → Result Failure (Unit {0})
remembered (ok u) = ok u
remembered (err Tables.Error.nonce_replay) = err (refused replayed_nonce)
remembered (err e) = err (store_error e)

module _ (c : Crypto) (lib : Ssh) (rfc3339 : Int64 → Bytes) where
  -- The cheap checks, up to the replay check. None of them writes.
  unfoldable pub checked :
      Io → Int64 → RedemptionRequest → Db → Result Failure (HostRow × PublicKey)
  unfolding guard or_refuse enrolled
  checked io now req db = do
    let p = req.payload
    guard (p.version == version) unsupported_version
    h ← enrolled (host io db)
    guard (eq_bytes p.host_id h.host_id) id_mismatch
    guard (valid_grant_id p.grant_id) bad_request
    guard (within_skew now p.timestamp skew_redemption) stale_timestamp
    guard (length p.nonce == nonce_len) bad_request
    guard (length p.agent_public_key == public_key_size) bad_request
    or_refuse (check_agent_id c p.agent_id p.agent_public_key) id_mismatch
    sig_msg ← or_refuse (canonical_sig p) bad_request
    guard (verify c p.agent_public_key sig_msg req.agent_signature) bad_signature
    key ← or_refuse (parse_ssh_public_key lib p.ssh_public_key) bad_request
    ok (h, key)

  unfoldable pub cert_request :
      Int64 → RedemptionPayload → PublicKey → ClaimResult → ℕ → SshCert.Request
  cert_request now p key claim serial = record {
    public_key = key;
    principal = claim.ssh_user;
    grant_id = p.grant_id;
    agent_id = p.agent_id;
    serial = serial;
    valid_from = sub64 now clock_skew_backdate;
    valid_to = claim.expires_at;
  }

  unfoldable pub cert_row :
      Int64 → RedemptionPayload → PublicKey → ClaimResult → ℕ → Bytes → CertificateRow
  cert_row now p key claim serial line = record {
    serial = of_bits64 serial;
    grant_id = p.grant_id;
    agent_id = p.agent_id;
    key_fp = ssh_key_fingerprint c key;
    certificate = line;
    valid_after = sub64 now clock_skew_backdate;
    valid_before = claim.expires_at;
    created_at = now;
  }

  unfoldable pub response : HostRow → ClaimResult → ℕ → Certificate × Bytes → RedemptionResponse
  response h claim serial cert = record {
    hostname = h.hostname;
    port = h.ssh_port;
    user = claim.ssh_user;
    certificate = marshal lib cert;
    serial = serial;
    key_id = cert.0.key_id;
    valid_before = claim.expires_at;
    valid_before_str = rfc3339 claim.expires_at;
  }

  -- The last step: the certificate is recorded, and the response goes out.
  unfoldable pub recorded :
      Io → CertificateRow → RedemptionResponse → Db → Result Failure RedemptionResponse × Db
  recorded io row resp db =
      let (r, db') = record_certificate io row db in
      elim r [ ok u ↦ (ok resp, db') | err e ↦ (err (store_error e), db') ]

  pub issued :
      Io
      → Int64
      → RedemptionPayload
      → HostRow
      → PublicKey
      → ClaimResult
      → ℕ
      → Result SshCert.Error (Certificate × Bytes)
      → Db
      → Result Failure RedemptionResponse × Db
  unfolding cert_row response recorded
  issued io now p h key claim serial (err e) db = (err (certificate_error e), db)
  issued io now p h key claim serial (ok cert) db =
      recorded io (cert_row now p key claim serial (marshal lib cert))
        (response h claim serial cert) db

  pub with_serial :
      Io
      → Keys
      → Int64
      → RedemptionPayload
      → HostRow
      → PublicKey
      → ClaimResult
      → Drawn
      → Db
      → Result Failure RedemptionResponse × Db
  unfolding cert_request issued
  with_serial io k now p h key claim read_failed db = (err no_serial, db)
  with_serial io k now p h key claim ended db = (err no_serial, db)
  with_serial io k now p h key claim (drawn serial) db =
      issued io now p h key claim serial (issue lib k.ca (cert_request now p key claim serial)) db

  -- What follows the claim, by its outcome.
  unfoldable pub claimed :
      Io
      → Keys
      → Int64
      → Draws
      → RedemptionPayload
      → HostRow
      → PublicKey
      → Result Tables.Error ClaimResult
      → Db
      → Result Failure RedemptionResponse × Db
  unfolding with_serial claim_refusal
  claimed io k now draws p h key (err e) db = (err (store_error e), db)
  claimed io k now draws p h key (ok claim) db = elim (claim_refusal claim.status) [
    | err e ↦ (err e, db)
    | ok u ↦ with_serial io k now p h key claim (new_serial draws) db
  ]

  unfoldable pub claim_and_issue :
      Io
      → Keys
      → Int64
      → Draws
      → RedemptionRequest
      → HostRow
      → PublicKey
      → Db
      → Result Failure RedemptionResponse × Db
  unfolding claimed
  claim_and_issue io k now draws req h key db =
      let p = req.payload in
      let (r, db') =
        claim_grant io p.grant_id now p.agent_id (ssh_key_fingerprint c key)
          (λ secret. verify_proof c p secret req.proof) db in
      claimed io k now draws p h key r db'

  unfoldable pub after_checks :
      Io
      → Keys
      → Int64
      → Draws
      → RedemptionRequest
      → Result Failure (HostRow × PublicKey)
      → Db
      → Result Failure RedemptionResponse × Db
  unfolding claim_and_issue remembered
  after_checks io k now draws req (err e) db = (err e, db)
  after_checks io k now draws req (ok (h, key)) db =
      let (r, db') = remember_nonce io scope_redeem req.payload.nonce now nonce_retention db in
      elim (remembered r) [
        | err e ↦ (err e, db')
        | ok u ↦ claim_and_issue io k now draws req h key db'
      ]

  unfoldable pub redeem :
      Io → Keys → Int64 → Draws → RedemptionRequest → Db → Result Failure RedemptionResponse × Db
  unfolding after_checks
  redeem io k now draws req db = after_checks io k now draws req (checked io now req db) db
