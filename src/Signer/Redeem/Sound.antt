-- ===== src/Signer/Redeem/Sound.antt =====
-- The soundness of Redeem: what the caller of a redemption that succeeds had to have, and what the
-- response and the state of the grant are.
use grantd.Base.{
  ℕ, ◌+◌, ◌^◌, ◌<◌, ◌≤◌, true, ◌≡◌, ◌≢◌, refl, sym, ap, ◌∙◌, none, some, [], of_bits64, ◌∷◌, Bytes,
  Int64, pos, ◌<ℤ◌, bits64, IsInt64, pos_part, Result, ok, err, codes, arith, eq_bytes,
  eq_bytes_iff, ◌>>=◌,
}
use grantd.Crypto.{Crypto}
use grantd.Ssh.{Ssh, PublicKey, Certificate}
use grantd.Protocol.Ids.{skew_redemption, check_agent_id, valid_grant_id}
use grantd.Protocol.Validate.{within_skew}
use grantd.Protocol.Validate.Laws.{within_skew_exact}
use grantd.Protocol.Messages.{
  fields, u64, RedemptionPayload, canonical_sig, canonical_mac, verify, verify_proof, proof,
}
use grantd.Protocol.Messages
use grantd.Protocol.SshKey.{parse_ssh_public_key, ssh_key_fingerprint}
use grantd.Protocol.Envelopes.{RedemptionRequest, RedemptionResponse}
use grantd.SshCert.{Draws, marshal, certificate_of}
use grantd.SshCert.Laws.{issue-ok}
use grantd.SshCert
use grantd.Store.Certificates.{find_certificate}
use grantd.Store.Tables.{Io, HostRow, Db, GrantRow, CertificateRow, find_grant}
use grantd.Store.Nonces.{remember_nonce}
use grantd.Store.Claim.{ClaimResult, claim_grant}
use grantd.Store.Claim.Laws.{Consumes, consumed, claim_grant-ok}
use grantd.Signer.Redeem.{
  Keys, checked, claim_and_issue, redeem, scope_redeem, nonce_retention, cert_request, cert_row,
}
use grantd.Signer.Redeem.Laws.{Issues, checked-ok, claimed-ok, after_checks-ok, remembers}

grants-remember_nonce :
    (io : Io) (scope nonce : Bytes) (now window : Int64) (db : Db)
    → (remember_nonce io scope nonce now window db).1.grants ≡ db.grants
unfolding remember_nonce
grants-remember_nonce io scope nonce now window db = ground arith

certificates-remember_nonce :
    (io : Io) (scope nonce : Bytes) (now window : Int64) (db : Db)
    → (remember_nonce io scope nonce now window db).1.certificates ≡ db.certificates
unfolding remember_nonce
certificates-remember_nonce io scope nonce now window db = ground arith

module _ (c : Crypto) (lib : Ssh) (rfc3339 : Int64 → Bytes) where
  compared :
      (r : Result Messages.Error Bytes) (secret given : Bytes)
      → ((r >>= λ msg. ok (c.hmac_sha256 secret msg)) >>= λ want. ok (eq_bytes want given))
        ≡ ok true
      → (mac : Bytes) × (r ≡ ok mac) × (given ≡ c.hmac_sha256 secret mac)
  compared (ok mac) secret given h =
      (mac, refl, ground (arith, eq_bytes_iff (c.hmac_sha256 secret mac) given))
  compared (err e) secret given h = cc

  verify_proof-ok :
      (p : RedemptionPayload) (secret given : Bytes)
      → verify_proof c p secret given ≡ ok true
      → (mac : Bytes) × (canonical_mac p ≡ ok mac) × (given ≡ c.hmac_sha256 secret mac)
  unfolding verify_proof proof
  verify_proof-ok p secret given h = compared (canonical_mac p) secret given h

  claim_and_issue-ok :
      (io : Io) (k : Keys) (now : Int64) (draws : Draws) (req : RedemptionRequest) (h : HostRow)
      (key : PublicKey) (db db' : Db) (resp : RedemptionResponse)
      → claim_and_issue c lib rfc3339 io k now draws req h key db ≡ (ok resp, db')
      → (claim : ClaimResult) × (mid : Db) × (g : GrantRow) × Consumes req.payload.grant_id now
          req.payload.agent_id
          (ssh_key_fingerprint c key)
          (λ secret. verify_proof c req.payload secret req.proof)
          db
          g
          claim
          mid
        × Issues c lib rfc3339 k now req.payload h key claim mid resp db'
  unfolding claim_and_issue
  claim_and_issue-ok io k now draws req h key db db' resp e =
      let p = req.payload in
      let fp = ssh_key_fingerprint c key in
      let v = λ (secret : Bytes). verify_proof c p secret req.proof in
      let a = claim_grant io p.grant_id now p.agent_id fp v db in
      let (claim, r, s, i) = claimed-ok c lib rfc3339 io k now draws p h key a.0 a.1 db' resp e in
      let (g, w) =
        claim_grant-ok io p.grant_id now p.agent_id fp v db a.1 claim (λ j. (r j, a.1)) s in
      (claim, a.1, g, w, i)

  -- What holds of a redemption that returns a response: the host h is this one, and g is the row of the
  -- grant before the call.
  pub record Redeems (k : Keys) (now : Int64) (req : RedemptionRequest) (db : Db)
      (resp : RedemptionResponse) (db' : Db) (h : HostRow) (key : PublicKey) (g : GrantRow)
      : Type 0 where
    pub is_enrolled : db.host ≡ some h
    pub addressed : req.payload.host_id ≡ h.host_id
    pub agent_checked : check_agent_id c req.payload.agent_id req.payload.agent_public_key ≡ ok tt
    pub message : Bytes
    pub message_signed : canonical_sig req.payload ≡ ok message
    pub signature_verified :
        verify c req.payload.agent_public_key message req.agent_signature ≡ true
    pub fresh : within_skew now req.payload.timestamp skew_redemption ≡ true
    pub key_parsed : parse_ssh_public_key lib req.payload.ssh_public_key ≡ ok key
    pub granted : find_grant req.payload.grant_id db.grants ≡ some g
    pub not_revoked : g.revoked_at ≡ none
    pub not_redeemed : g.redeemed_at ≡ none
    pub not_expired : now <ℤ g.expires_at
    pub mac : Bytes
    pub mac_computed : canonical_mac req.payload ≡ ok mac
    pub proof_matches : req.proof ≡ c.hmac_sha256 g.secret mac
    pub user_is_local : resp.user ≡ g.ssh_user
    pub user_is_not_root : resp.user ≢ codes "root"
    pub host_is_local : (resp.hostname ≡ h.hostname) × (resp.port ≡ h.ssh_port)
    pub expiry_is_local : resp.valid_before ≡ g.expires_at
    pub cert : Certificate
    pub signature : Bytes
    pub cert_signed : lib.sign_cert k.ca cert ≡ some signature
    pub cert_line : resp.certificate ≡ marshal lib (cert, signature)
    pub cert_key : cert.key ≡ key
    pub cert_principals : cert.valid_principals ≡ g.ssh_user ∷ []
    pub cert_until : cert.valid_before ≡ bits64 g.expires_at
    pub grant_formed : valid_grant_id req.payload.grant_id ≡ true
    pub label_is_local : resp.key_id ≡ SshCert.key_id req.payload.grant_id req.payload.agent_id
    pub serial_recorded :
        find_certificate req.payload.grant_id db.certificates ≡ none
        → (row : CertificateRow) × (find_certificate req.payload.grant_id db'.certificates
            ≡ some row)
          × (row.serial ≡ of_bits64 resp.serial)
    pub consumes_grant :
        db'.grants
        ≡ consumed req.payload.grant_id now req.payload.agent_id
            (ssh_key_fingerprint c key)
            db.grants

  -- A redemption that returns a response was addressed to this host, fresh, and signed by the key that
  -- the agent id is derived from; its proof is the HMAC of its message under the secret that the store
  -- has for a grant that is neither revoked, redeemed nor expired; the response and the certificate
  -- that it carries are for the grant's user, who is not root, for the visitor's key and until the
  -- grant's expiry, all from the local record; the label names the grant and the agent; the serial is
  -- on record if no certificate was before; and the grants table is the one before with the grant
  -- marked redeemed.
  pub redeem_sound :
      (io : Io) (k : Keys) (now : Int64) (draws : Draws) (req : RedemptionRequest) (db db' : Db)
      (resp : RedemptionResponse)
      → redeem c lib rfc3339 io k now draws req db ≡ (ok resp, db')
      → (h : HostRow) × (key : PublicKey) × (g : GrantRow) × Redeems k now req db resp db' h key g
  unfolding redeem cert_request remembers certificate_of
  redeem_sound io k now draws req db db' resp e =
      let p = req.payload in
      let (h, key, r, n, e1) =
        after_checks-ok c lib rfc3339 io k now draws req (checked c lib rfc3339 io now req db) db
          db' resp e in
      let ch = checked-ok c lib rfc3339 io now req db h key r in
      let (claim, mid, g, w, i) = claim_and_issue-ok io k now draws req h key _ db' resp e1 in
      let certs : mid.certificates ≡ db.certificates =
        ap (λ (d : Db). d.certificates) w.after
        ∙ certificates-remember_nonce io scope_redeem p.nonce now nonce_retention db in
      let same = grants-remember_nonce io scope_redeem p.nonce now nonce_retention db in
      let (mac, m, eq) = verify_proof-ok p g.secret req.proof w.proved in
      let (ce, _, nr, _, sg) = issue-ok lib k.ca _ i.cert i.signature i.issued in
      (
        h,
        key,
        g,
        record {
          is_enrolled = ch.is_enrolled;
          addressed = ch.addressed;
          agent_checked = ch.agent_checked;
          message = ch.message;
          message_signed = ch.message_signed;
          signature_verified = ch.signature_verified;
          fresh = ch.fresh;
          key_parsed = ch.key_parsed;
          granted = rw same at w.found;
          not_revoked = w.not_revoked;
          not_redeemed = w.not_redeemed;
          not_expired = w.not_expired;
          mac = mac;
          mac_computed = m;
          proof_matches = eq;
          user_is_local = i.user_named ∙ w.user;
          user_is_not_root = λ q. nr (sym i.user_named ∙ q);
          host_is_local = (i.host_named, i.port_named);
          expiry_is_local = i.expiry_named ∙ w.expires;
          cert = i.cert;
          signature = i.signature;
          cert_signed = sg;
          cert_line = i.certificate_named;
          cert_key = ap (λ (x : Certificate). x.key) ce;
          cert_principals =
              ap (λ (x : Certificate). x.valid_principals) ce ∙ ap (λ (u : Bytes). u ∷ []) w.user;
          cert_until = ap (λ (x : Certificate). x.valid_before) ce ∙ ap bits64 w.expires;
          grant_formed = ch.grant_formed;
          label_is_local = i.label_named ∙ ap (λ (x : Certificate). x.key_id) ce;
          serial_recorded = λ n. (_, i.first_recorded (rw certs n), unfold cert_row in refl);
          consumes_grant =
              i.grants_kept
              ∙ ap (λ (d : Db). d.grants) w.after
              ∙ ap (consumed p.grant_id now p.agent_id (ssh_key_fingerprint c key)) same;
        },
      )

  fresh-both :
      (now ts : ℕ)
      → now < 2 ^ 63
      → ts < 2 ^ 63
      → within_skew (pos now) (pos ts) (pos 120) ≡ true
      → (now ≤ ts + 120) × (ts ≤ now + 120)
  fresh-both now ts hn ht h = ground (arith, within_skew_exact now ts 120 hn ht)

  signed-pos :
      (p : RedemptionPayload) (m : Bytes) → canonical_sig p ≡ ok m → (t : ℕ) × (p.timestamp ≡ pos t)
  unfolding canonical_sig fields u64
  signed-pos p m h = (pos_part p.timestamp, ground arith)

  -- At a time after 1970, a redemption that returns a response carries a time after 1970 that is at most
  -- 120 seconds before or after now.
  pub redeem_fresh :
      (io : Io) (k : Keys) (now : ℕ) (draws : Draws) (req : RedemptionRequest) (db db' : Db)
      (resp : RedemptionResponse)
      → now < 2 ^ 63
      → IsInt64 req.payload.timestamp
      → redeem c lib rfc3339 io k (pos now) draws req db ≡ (ok resp, db')
      → (ts : ℕ) × (req.payload.timestamp ≡ pos ts) × (now ≤ ts + 120) × (ts ≤ now + 120)
  redeem_fresh io k now draws req db db' resp hn ht e =
      let (h, key, g, r) = redeem_sound io k (pos now) draws req db db' resp e in
      let (ts, q) = signed-pos req.payload r.message r.message_signed in
      let small : ts < 2 ^ 63 = omega (arith, (rw q at ht).0) in
      let (lo, hi) = fresh-both now ts hn small (rw q at r.fresh) in (ts, q, lo, hi)
