-- ===== src/Signer/Redeem/Capabilities.antt =====
-- What a redemption leaves as it was, whatever it returns.
use grantd.Base.{
  ℕ, ◌≡◌, refl, ap, ◌∙◌, Bool, List, [], ◌∷◌, map, Bytes, Int64, Result, ok, err, inl, inr, arith,
}
use grantd.Crypto.{Crypto}
use grantd.Ssh.{Ssh, PublicKey, Certificate}
use grantd.Protocol.Messages.{RedemptionPayload, verify_proof}
use grantd.Protocol.Messages
use grantd.Protocol.SshKey.{ssh_key_fingerprint}
use grantd.Protocol.Envelopes.{RedemptionRequest, RedemptionResponse}
use grantd.SshCert
use grantd.SshCert.{Draws, Drawn, drawn, read_failed, ended, new_serial, issue, marshal}
use grantd.Store.Tables
use grantd.Store.Tables.{Io, HostRow, GrantRow, CertificateRow, Db, update_where}
use grantd.Store.Nonces.{remember_nonce}
use grantd.Store.Claim.{ClaimResult, unredeemed, redeem_row, claim_grant}
use grantd.Store.Claim.Laws.{consumed, claim_grant-cases}
use grantd.Store.Certificates.{record_certificate}
use grantd.Signer.Redeem.{
  Failure, Keys, remembered, checked, recorded, issued, with_serial, claimed, claim_and_issue,
  after_checks, redeem, scope_redeem, nonce_retention,
}

-- What a capability is worth: which grant, by what secret, for whom, until when.
abbrev pub capability : GrantRow → Bytes × Bytes × Bytes × Int64
capability g = (g.id, g.secret, g.ssh_user, g.expires_at)

abbrev pub capabilities : Db → List (Bytes × Bytes × Bytes × Int64)
capabilities db = map capability db.grants

pub update_where-capabilities :
    (p : GrantRow → Bool) (f : GrantRow → GrantRow) (gs : List GrantRow)
    → ((g : GrantRow) → capability (f g) ≡ capability g)
    → map capability (update_where p f gs) ≡ map capability gs
unfolding update_where
update_where-capabilities p f [] h = refl
update_where-capabilities p f (g ∷ gs) h = ground (arith, h g, update_where-capabilities p f gs h)

remember_nonce-grants :
    (io : Io) (scope nonce : Bytes) (now window : Int64) (db : Db)
    → (remember_nonce io scope nonce now window db).1.grants ≡ db.grants
unfolding remember_nonce
remember_nonce-grants io scope nonce now window db = ground arith

record_certificate-grants :
    (io : Io) (row : CertificateRow) (db : Db) → (record_certificate io row db).1.grants ≡ db.grants
unfolding record_certificate
record_certificate-grants io row db = ground arith

claim_grant-capabilities :
    (io : Io) (id : Bytes) (now : Int64) (agent fp : Bytes)
    (verify : Bytes → Result Messages.Error Bool) (db : Db)
    → capabilities (claim_grant io id now agent fp verify db).1 ≡ capabilities db
unfolding consumed
claim_grant-capabilities io id now agent fp verify db =
    elim (claim_grant-cases io id now agent fp verify db) [
      | inl e ↦ ap capabilities e
      | inr e ↦
          ap capabilities e
          ∙ update_where-capabilities (unredeemed id) (redeem_row now agent fp) db.grants
              (λ g. unfold redeem_row in refl)
    ]

after_remembered :
    {A B E : Type 0} (r : Result E A) (next : Result E B × Db) (mid db : Db)
    → capabilities mid ≡ capabilities db
    → capabilities next.1 ≡ capabilities db
    → capabilities (elim r as (λ x. Result E B × Db) [ err e ↦ (err e, mid) | ok u ↦ next ]).1
      ≡ capabilities db
after_remembered (err e) next mid db a b = a
after_remembered (ok u) next mid db a b = b

module _ (c : Crypto) (lib : Ssh) (rfc3339 : Int64 → Bytes) where
  recorded-grants :
      (io : Io) (row : CertificateRow) (resp : RedemptionResponse) (db : Db)
      → (recorded c lib rfc3339 io row resp db).1.grants ≡ db.grants
  unfolding recorded
  recorded-grants io row resp db = ground (arith, record_certificate-grants io row db)

  issued-grants :
      (io : Io) (now : Int64) (p : RedemptionPayload) (h : HostRow) (key : PublicKey)
      (claim : ClaimResult) (serial : ℕ) (r : Result SshCert.Error (Certificate × Bytes)) (db : Db)
      → (issued c lib rfc3339 io now p h key claim serial r db).1.grants ≡ db.grants
  unfolding issued
  issued-grants io now p h key claim serial (err e) db = refl
  issued-grants io now p h key claim serial (ok cert) db = recorded-grants io _ _ db

  with_serial-grants :
      (io : Io) (k : Keys) (now : Int64) (p : RedemptionPayload) (h : HostRow) (key : PublicKey)
      (claim : ClaimResult) (d : Drawn) (db : Db)
      → (with_serial c lib rfc3339 io k now p h key claim d db).1.grants ≡ db.grants
  unfolding with_serial
  with_serial-grants io k now p h key claim read_failed db = refl
  with_serial-grants io k now p h key claim ended db = refl
  with_serial-grants io k now p h key claim (drawn v) db = issued-grants io now p h key claim v _ db

  claimed-grants :
      (io : Io) (k : Keys) (now : Int64) (draws : Draws) (p : RedemptionPayload) (h : HostRow)
      (key : PublicKey) (r : Result Tables.Error ClaimResult) (db : Db)
      → (claimed c lib rfc3339 io k now draws p h key r db).1.grants ≡ db.grants
  unfolding claimed
  claimed-grants io k now draws p h key (err e) db = refl
  claimed-grants io k now draws p h key (ok claim) db =
      ground (arith, with_serial-grants io k now p h key claim (new_serial draws) db)

  claim_and_issue-capabilities :
      (io : Io) (k : Keys) (now : Int64) (draws : Draws) (req : RedemptionRequest) (h : HostRow)
      (key : PublicKey) (db : Db)
      → capabilities (claim_and_issue c lib rfc3339 io k now draws req h key db).1 ≡ capabilities db
  unfolding claim_and_issue
  claim_and_issue-capabilities io k now draws req h key db =
      let p = req.payload in
      let verify = λ (secret : Bytes). verify_proof c p secret req.proof in
      let (r, db') =
        claim_grant io p.grant_id now p.agent_id (ssh_key_fingerprint c key) verify db in
      ap (map capability) (claimed-grants io k now draws p h key r db')
      ∙ claim_grant-capabilities io p.grant_id now p.agent_id (ssh_key_fingerprint c key) verify db

  after_checks-capabilities :
      (io : Io) (k : Keys) (now : Int64) (draws : Draws) (req : RedemptionRequest)
      (r : Result Failure (HostRow × PublicKey)) (db : Db)
      → capabilities (after_checks c lib rfc3339 io k now draws req r db).1 ≡ capabilities db
  unfolding after_checks
  after_checks-capabilities io k now draws req (err e) db = refl
  after_checks-capabilities io k now draws req (ok (h, key)) db =
      let (r, db') = remember_nonce io scope_redeem req.payload.nonce now nonce_retention db in
      let same : capabilities db' ≡ capabilities db =
        ap (map capability)
          (remember_nonce-grants io scope_redeem req.payload.nonce now nonce_retention db) in
      after_remembered (remembered r) (claim_and_issue c lib rfc3339 io k now draws req h key db')
        db' db same (claim_and_issue-capabilities io k now draws req h key db' ∙ same)

  -- A redemption, whether it succeeds or not, leaves the ids, secrets, users and expiries of the grants.
  pub redeem-capabilities :
      (io : Io) (k : Keys) (now : Int64) (draws : Draws) (req : RedemptionRequest) (db : Db)
      → capabilities (redeem c lib rfc3339 io k now draws req db).1 ≡ capabilities db
  unfolding redeem
  redeem-capabilities io k now draws req db =
      after_checks-capabilities io k now draws req (checked c lib rfc3339 io now req db) db
