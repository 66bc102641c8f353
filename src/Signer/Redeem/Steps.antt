-- ===== src/Signer/Redeem/Steps.antt =====
-- Redeem of go/signer/redeem.go, step by step, on the request that a visitor builds.
use grantd.Base.{◌≡◌, refl, ap, ◌∙◌, List, Bytes, Int64, sub64, Result, ok, err, eq_bytes_iff}
use grantd.Crypto.{Crypto, IsCrypto}
use grantd.Ssh.{Ssh}
use grantd.Protocol.Messages.{canonical_sig, proof, verify_proof}
use grantd.Protocol.SshKey.{ssh_key_fingerprint}
use grantd.Protocol.Envelopes.{RedemptionRequest, RedemptionResponse}
use grantd.SshCert.{Request, Draws, certificate_of, issue, marshal}
use grantd.Store.Tables.{
  Io, select_host, prune_nonces, insert_nonce, insert_certificate, GrantRow, Db, Outcome,
  update_where,
}
use grantd.Store.Claim.{ClaimResult, claim_ok, unredeemed, redeem_row}
use grantd.Store.Claim.Works.{claim_grant-works}
use grantd.Signer.Redeem.{
  Keys, nonce_retention, scope_redeem, guard, or_refuse, enrolled, checked, cert_request, cert_row,
  response, store_error, recorded, issued, with_serial, claimed, claim_and_issue, after_checks,
  redeem, remembered, claim_refusal,
}
use grantd.Signer.Redeem
use grantd.Agent.Redemption.{Identity, Capability, redemption_payload}
use grantd.Agent.Verify.Trust.{verify-sign}
use grantd.Signer.Redeem.Able.{
  Redeemable, host-works, nonce-works, check_agent_id-works, verify_proof-works, record-works,
  issue-works, delete_older-new,
}

module _ (c : Crypto) (laws : IsCrypto c) (lib : Ssh) (rfc3339 : Int64 → Bytes) (io : Io) (k : Keys)
    (now : Int64) (draws : Draws) (db : Db) (ident : Identity) (cap : Capability) (ssh_line : Bytes)
    (at : Int64) (nonce : Bytes)
    (able : Redeemable c lib io k now draws db ident cap ssh_line at nonce) (msg : Bytes)
    (mac : Bytes)
    (signs : canonical_sig (redemption_payload c ident cap ssh_line at nonce) ≡ ok msg)
    (proves : proof c (redemption_payload c ident cap ssh_line at nonce) cap.secret ≡ ok mac) where
  open able use {works, row, grant, key, serial, signature}

  abbrev pub request : RedemptionRequest
  request = record {
    payload = redemption_payload c ident cap ssh_line at nonce;
    agent_signature = c.sign ident.key msg;
    proof = mac;
  }

  -- The checks that come before the first write pass.
  checked-works : checked c lib rfc3339 io now request db ≡ ok (row, key)
  unfolding checked guard or_refuse enrolled redemption_payload
  checked-works =
      rw
        (
          host-works io db row (works select_host) able.is_enrolled,
          (eq_bytes_iff cap.host_id row.host_id).1 able.same_host,
          able.id_valid,
          able.timely,
          able.nonce_length,
          laws.length_public ident.key,
          check_agent_id-works c ident.id (c.public_of ident.key) able.id_of_key,
          signs,
          verify-sign c laws lib ident.key msg,
          able.parses,
        )
        refl

  abbrev pub fingerprint : Bytes
  fingerprint = ssh_key_fingerprint c key

  abbrev pub claim : ClaimResult
  claim = record { status = claim_ok; ssh_user = grant.ssh_user; expires_at = grant.expires_at }

  abbrev pub asked : Request
  asked = cert_request c lib rfc3339 now request.payload key claim serial

  abbrev pub answer : RedemptionResponse
  answer =
      response c lib rfc3339 row claim serial
        (certificate_of asked, signature (certificate_of asked))

  abbrev pub redeemed : List GrantRow
  redeemed = update_where (unredeemed cap.grant_id) (redeem_row now ident.id fingerprint) db.grants

  -- What follows the claim.
  issue-granted : issue lib k.ca asked ≡ ok (certificate_of asked, signature (certificate_of asked))
  unfolding cert_request redemption_payload
  issue-granted =
      issue-works lib k.ca asked (signature (certificate_of asked)) able.user_given
        able.user_not_root able.window (able.signs (certificate_of asked))

  claimed-works :
      (db2 : Db)
      → db2.certificates ≡ db.certificates
      → (db' : Db) × (claimed c lib rfc3339 io k now draws request.payload row key (ok claim) db2
          ≡ (ok answer, db'))
        × (db'.grants ≡ db2.grants)
  unfolding claimed claim_refusal with_serial issued recorded
  claimed-works db2 same =
      let line = marshal lib (certificate_of asked, signature (certificate_of asked)) in
      let cert = cert_row c lib rfc3339 now request.payload key claim serial line in
      let (db', recorded_now, kept) =
        record-works io cert db2 (works insert_certificate)
          (unfold cert_row in (rw same able.serial_new)) in
      (
        db',
        ap (λ d. with_serial c lib rfc3339 io k now request.payload row key claim d db2) able.drew
            ∙ ap (λ r. issued c lib rfc3339 io now request.payload row key claim serial r db2)
                issue-granted
            ∙ ap
                (λ (o : Outcome (Unit {0})).
                  elim o.0 as (λ r. Result Redeem.Failure RedemptionResponse × Db) [
                    | ok u ↦ (ok answer, o.1)
                    | err e ↦ (err (store_error e), o.1)
                  ])
                recorded_now,
        kept,
      )

  -- From the claim on, in the database that the replay check has left.
  claim-works :
      (db1 : Db)
      → db1.grants ≡ db.grants
      → db1.certificates ≡ db.certificates
      → (db' : Db) × (claim_and_issue c lib rfc3339 io k now draws request row key db1
          ≡ (ok answer, db'))
        × (db'.grants ≡ redeemed)
  unfolding claim_and_issue redemption_payload
  claim-works db1 same_grants same_certificates =
      let claims =
        claim_grant-works io cap.grant_id now ident.id fingerprint
          (λ secret. verify_proof c request.payload secret mac) db1 grant works
          (rw same_grants able.found) able.unrevoked able.unexpired able.unredeemed
          (rw able.same_secret (verify_proof-works c request.payload cap.secret mac proves)) in
      let update = update_where (unredeemed cap.grant_id) (redeem_row now ident.id fingerprint) in
      let (db', e, kept) =
        claimed-works (record db1 { grants = update db1.grants }) same_certificates in
      (
        db',
        ap
              (λ (o : Outcome ClaimResult).
                claimed c lib rfc3339 io k now draws request.payload row key o.0 o.1)
              claims
            ∙ e,
        kept ∙ ap update same_grants,
      )

  pub request-works :
      (db' : Db) × (redeem c lib rfc3339 io k now draws request db ≡ (ok answer, db'))
      × (db'.grants ≡ redeemed)
  unfolding redeem after_checks remembered redemption_payload
  request-works =
      let taken =
        nonce-works io nonce now db (works prune_nonces) (works insert_nonce)
          (delete_older-new nonce (sub64 now nonce_retention) db.nonces able.nonce_new) in
      let (db', e, grants) = claim-works _ refl refl in
      (
        db',
        ap (λ r. after_checks c lib rfc3339 io k now draws request r db) checked-works
            ∙ ap
                (λ (o : Outcome (Unit {0})).
                  elim (remembered o.0) as (λ r. Result Redeem.Failure RedemptionResponse × Db) [
                    | err x ↦ (err x, o.1)
                    | ok u ↦ claim_and_issue c lib rfc3339 io k now draws request row key o.1
                  ])
                taken
            ∙ e,
        grants,
      )
