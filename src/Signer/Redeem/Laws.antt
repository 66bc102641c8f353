-- ===== src/Signer/Redeem/Laws.antt =====
-- What a redemption that succeeds has checked, and what it did.
use grantd.Base.{
  ℕ, ◌<◌, Bool, true, false, ◌≡◌, refl, none, some, Bytes, Int64, Result, ok, err, length, arith,
  ◌==◌, ==_iff, eq_bytes, eq_bytes_iff, >>=-eq-ok,
}
use grantd.Crypto.{Crypto}
use grantd.Ssh.{Ssh, PublicKey, Certificate}
use grantd.Protocol.Errors.{Code}
use grantd.Protocol.Ids.{skew_redemption, valid_grant_id, check_agent_id}
use grantd.Protocol.Validate.{within_skew}
use grantd.Protocol.Messages.{RedemptionPayload, canonical_sig, verify}
use grantd.Protocol.SshKey.{parse_ssh_public_key}
use grantd.Protocol.Envelopes.{RedemptionRequest, RedemptionResponse}
use grantd.SshCert.{Draws, Drawn, drawn, read_failed, ended, new_serial, issue, marshal}
use grantd.SshCert
use grantd.SshCert.Laws.{new_serial-pos}
use grantd.Store.Tables
use grantd.Store.Tables.{Io, HostRow, Db, GrantRow, CertificateRow, find_grant}
use grantd.Store.Host.{host}
use grantd.Store.Nonces.{remember_nonce}
use grantd.Store.Claim.{ClaimResult, claim_ok}
use grantd.Store.Certificates.{record_certificate, find_certificate}
use grantd.Store.Certificates.Laws.{record_certificate-first}
use grantd.Signer.Redeem.{
  Failure, Keys, guard, or_refuse, enrolled, remembered, claim_refusal, checked, with_serial,
  store_error, cert_row, response, recorded, claimed, claim_and_issue, after_checks, scope_redeem,
  nonce_retention, cert_request, issued,
}

module _ (c : Crypto) (lib : Ssh) (rfc3339 : Int64 → Bytes) where
  -- What the cheap checks have found out.
  pub record Checks (now : Int64) (req : RedemptionRequest) (db : Db) (h : HostRow)
      (key : PublicKey) : Type 0 where
    pub is_enrolled : db.host ≡ some h
    pub spoken_version : req.payload.version ≡ 1
    pub addressed : req.payload.host_id ≡ h.host_id
    pub grant_formed : valid_grant_id req.payload.grant_id ≡ true
    pub fresh : within_skew now req.payload.timestamp skew_redemption ≡ true
    pub nonce_size : length req.payload.nonce ≡ 16
    pub agent_checked : check_agent_id c req.payload.agent_id req.payload.agent_public_key ≡ ok tt
    pub message : Bytes
    pub message_signed : canonical_sig req.payload ≡ ok message
    pub signature_verified :
        verify c req.payload.agent_public_key message req.agent_signature ≡ true
    pub key_parsed : parse_ssh_public_key lib req.payload.ssh_public_key ≡ ok key

  guard-ok : (b : Bool) (e : Code) → guard b e ≡ ok tt → b ≡ true
  unfolding guard
  guard-ok true e h = refl
  guard-ok false e h = cc

  or_refuse-ok :
      {E A : Type 0} (r : Result E A) (e : Code) {a : A} → or_refuse r e ≡ ok a → r ≡ ok a
  unfolding or_refuse
  or_refuse-ok (ok a) e h = ground arith
  or_refuse-ok (err x) e h = cc

  enrolled-ok : (r : Result Tables.Error HostRow) {h : HostRow} → enrolled r ≡ ok h → r ≡ ok h
  unfolding enrolled
  enrolled-ok (ok x) h = ground arith
  enrolled-ok (err x) h = ground arith

  host-ok : (io : Io) (db : Db) {h : HostRow} → host io db ≡ ok h → db.host ≡ some h
  unfolding host
  host-ok io db e = ground arith

  ok-pair :
      {h h' : HostRow} {key key' : PublicKey}
      → ◌≡◌ {A = Result Failure (HostRow × PublicKey)} (ok (h, key)) (ok (h', key'))
      → (h ≡ h') × (key ≡ key')
  ok-pair e = (cc, cc)

  pub checked-ok :
      (io : Io) (now : Int64) (req : RedemptionRequest) (db : Db) (h : HostRow) (key : PublicKey)
      → checked c lib rfc3339 io now req db ≡ ok (h, key)
      → Checks now req db h key
  unfolding checked
  checked-ok io now req db h key e =
      let p = req.payload in
      let (_, a1, e1) = >>=-eq-ok (guard (p.version == 1) _) _ e in
      let (h', a2, e2) = >>=-eq-ok (enrolled (host io db)) _ e1 in
      let (_, a3, e3) = >>=-eq-ok (guard (eq_bytes p.host_id h'.host_id) _) _ e2 in
      let (_, a4, e4) = >>=-eq-ok (guard (valid_grant_id p.grant_id) _) _ e3 in
      let (_, a5, e5) = >>=-eq-ok (guard (within_skew now p.timestamp skew_redemption) _) _ e4 in
      let (_, a6, e6) = >>=-eq-ok (guard (length p.nonce == 16) _) _ e5 in
      let (_, a7, e7) = >>=-eq-ok (guard (length p.agent_public_key == 32) _) _ e6 in
      let (_, a8, e8) =
        >>=-eq-ok (or_refuse (check_agent_id c p.agent_id p.agent_public_key) _) _ e7 in
      let (msg, a9, e9) = >>=-eq-ok (or_refuse (canonical_sig p) _) _ e8 in
      let (_, a10, e10) =
        >>=-eq-ok (guard (verify c p.agent_public_key msg req.agent_signature) _) _ e9 in
      let (key', a11, e11) =
        >>=-eq-ok (or_refuse (parse_ssh_public_key lib p.ssh_public_key) _) _ e10 in
      let (eh, ek) = ok-pair e11 in
      record {
        is_enrolled = rw eh at (host-ok io db (enrolled-ok _ a2));
        spoken_version = (==_iff p.version 1).0 (guard-ok _ _ a1);
        addressed = rw eh at ((eq_bytes_iff p.host_id h'.host_id).0 (guard-ok _ _ a3));
        grant_formed = guard-ok _ _ a4;
        fresh = guard-ok _ _ a5;
        nonce_size = (==_iff (length p.nonce) 16).0 (guard-ok _ _ a6);
        agent_checked = or_refuse-ok _ _ a8;
        message = msg;
        message_signed = or_refuse-ok _ _ a9;
        signature_verified = guard-ok _ _ a10;
        key_parsed = rw ek at (or_refuse-ok _ _ a11);
      }

  -- Past the claim, the state of the grants does not change, and the response speaks of the claim.
  pub record Issues (k : Keys) (now : Int64) (p : RedemptionPayload) (h : HostRow) (key : PublicKey)
      (claim : ClaimResult) (db : Db) (resp : RedemptionResponse) (db' : Db) : Type 0 where
    pub grants_kept : db'.grants ≡ db.grants
    pub nonces_kept : db'.nonces ≡ db.nonces
    pub host_named : resp.hostname ≡ h.hostname
    pub port_named : resp.port ≡ h.ssh_port
    pub user_named : resp.user ≡ claim.ssh_user
    pub expiry_named : resp.valid_before ≡ claim.expires_at
    pub serial_pos : 0 < resp.serial
    pub cert : Certificate
    pub signature : Bytes
    pub issued :
        issue lib k.ca (cert_request c lib rfc3339 now p key claim resp.serial)
        ≡ ok (cert, signature)
    pub certificate_named : resp.certificate ≡ marshal lib (cert, signature)
    pub label_named : resp.key_id ≡ cert.key_id
    pub first_recorded :
        find_certificate p.grant_id db.certificates ≡ none
        → find_certificate p.grant_id db'.certificates
          ≡ some
              (cert_row c lib rfc3339 now p key claim resp.serial (marshal lib (cert, signature)))

  recorded-written :
      (r : Result Tables.Error (Unit {0})) (d db' : Db) (resp resp' : RedemptionResponse)
      → (elim r as (λ x. Result Failure RedemptionResponse × Db) [
        | ok u ↦ (ok resp, d)
        | err e ↦ (err (store_error e), d)
      ])
        ≡ (ok resp', db')
      → (r ≡ ok tt) × (d ≡ db')
  recorded-written (ok u) d db' resp resp' h = (refl, ground arith)
  recorded-written (err e) d db' resp resp' h = absurd (ground arith)

  recorded-first :
      (io : Io) (row : CertificateRow) (db db' : Db) (resp resp' : RedemptionResponse)
      → recorded c lib rfc3339 io row resp db ≡ (ok resp', db')
      → find_certificate row.grant_id db.certificates ≡ none
      → find_certificate row.grant_id db'.certificates ≡ some row
  unfolding recorded
  recorded-first io row db db' resp resp' e n =
      let (r, d) = record_certificate io row db in
      let (done, left) = recorded-written r d db' resp resp' e in
      record_certificate-first io row db db' (λ j. (done j, left j)) n

  issued-ok :
      (io : Io) (k : Keys) (now : Int64) (p : RedemptionPayload) (h : HostRow) (key : PublicKey)
      (claim : ClaimResult) (v : ℕ) (db db' : Db) (resp : RedemptionResponse)
      (r : Result SshCert.Error (Certificate × Bytes))
      → 0 < v
      → issue lib k.ca (cert_request c lib rfc3339 now p key claim v) ≡ r
      → issued c lib rfc3339 io now p h key claim v r db ≡ (ok resp, db')
      → Issues k now p h key claim db resp db'
  unfolding issued record_certificate
  issued-ok io k now p h key claim v db db' resp (err x) n i e = absurd (ground arith)
  issued-ok io k now p h key claim v db db' resp (ok (cert, s)) n i e =
      let serial : resp.serial ≡ v = ground arith in
      let row = cert_row c lib rfc3339 now p key claim v (marshal lib (cert, s)) in
      record {
        grants_kept = ground arith;
        nonces_kept = ground arith;
        host_named = ground arith;
        port_named = ground arith;
        user_named = ground arith;
        expiry_named = ground arith;
        serial_pos = rw serial n;
        cert = cert;
        signature = s;
        issued = rw serial i;
        certificate_named = ground arith;
        label_named = ground arith;
        first_recorded =
            rw serial
              (recorded-first io row db db' (response c lib rfc3339 h claim v (cert, s)) resp e);
      }

  with_serial-ok :
      (io : Io) (k : Keys) (now : Int64) (draws : Draws) (p : RedemptionPayload) (h : HostRow)
      (key : PublicKey) (claim : ClaimResult) (db db' : Db) (resp : RedemptionResponse) (d : Drawn)
      → new_serial draws ≡ d
      → with_serial c lib rfc3339 io k now p h key claim d db ≡ (ok resp, db')
      → Issues k now p h key claim db resp db'
  unfolding with_serial
  with_serial-ok io k now draws p h key claim db db' resp read_failed n e = absurd (ground arith)
  with_serial-ok io k now draws p h key claim db db' resp ended n e = absurd (ground arith)
  with_serial-ok io k now draws p h key claim db db' resp (drawn v) n e =
      issued-ok io k now p h key claim v db db' resp _ (new_serial-pos draws v n) refl e

  pub claimed-ok :
      (io : Io) (k : Keys) (now : Int64) (draws : Draws) (p : RedemptionPayload) (h : HostRow)
      (key : PublicKey) (r : Result Tables.Error ClaimResult) (db db' : Db)
      (resp : RedemptionResponse)
      → claimed c lib rfc3339 io k now draws p h key r db ≡ (ok resp, db')
      → (claim : ClaimResult) × (r ≡ ok claim)
        × (claim.status ≡ claim_ok)
        × Issues k now p h key claim db resp db'
  unfolding claimed claim_refusal
  claimed-ok io k now draws p h key (err x) db db' resp e = absurd (ground arith)
  claimed-ok io k now draws p h key (ok claim) db db' resp e =
      let s : claim.status ≡ claim_ok = ground arith in
      (
        claim,
        refl,
        s,
        with_serial-ok io k now draws p h key claim db db' resp (new_serial draws) refl
            (ground arith),
      )

  -- The database between the replay check and the claim.
  unfoldable pub remembers : Io → Int64 → RedemptionRequest → Db → Db
  remembers io now req db =
      (remember_nonce io scope_redeem req.payload.nonce now nonce_retention db).1

  pub after_checks-ok :
      (io : Io) (k : Keys) (now : Int64) (draws : Draws) (req : RedemptionRequest)
      (r : Result Failure (HostRow × PublicKey)) (db db' : Db) (resp : RedemptionResponse)
      → after_checks c lib rfc3339 io k now draws req r db ≡ (ok resp, db')
      → (h : HostRow) × (key : PublicKey) × (r ≡ ok (h, key))
        × ((remember_nonce io scope_redeem req.payload.nonce now nonce_retention db).0 ≡ ok tt)
        × (claim_and_issue c lib rfc3339 io k now draws req h key (remembers io now req db)
            ≡ (ok resp, db'))
  unfolding after_checks remembered remembers
  after_checks-ok io k now draws req (err x) db db' resp e = absurd (ground arith)
  after_checks-ok io k now draws req (ok (h, key)) db db' resp e =
      (h, key, refl, ground arith, ground arith)
