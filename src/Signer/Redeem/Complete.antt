-- ===== src/Signer/Redeem/Complete.antt =====
-- That a redemption which a visitor builds (go/agent/client.go) is one that Redeem grants
-- (go/signer/redeem.go).
use grantd.Base.{ℕ, ◌≡◌, refl, sym, ap, ◌∙◌, some, [], ◌∷◌, Bytes, Int64, ok}
use grantd.Crypto.{Crypto, IsCrypto}
use grantd.Ssh.{Ssh, PublicKey, Certificate}
use grantd.Protocol.SshKey.{ssh_key_fingerprint}
use grantd.Protocol.Envelopes.{RedemptionRequest, RedemptionResponse}
use grantd.SshCert.{Draws, certificate_of, marshal}
use grantd.Store.Tables.{Io, HostRow, GrantRow, Db, update_where}
use grantd.Store.Claim.{unredeemed, redeem_row}
use grantd.Signer.Redeem.{Keys, cert_request, response, redeem}
use grantd.Agent.Redemption.{Identity, Capability, build_redemption}
use grantd.Signer.Redeem.Able.{Redeemable, build_redemption-ok}
use grantd.Signer.Redeem.Steps.{asked, answer, request-works}

-- What the visitor gets: the address and the user of the host, a certificate for its key until the
-- grant expires, and that serial; and the grant is redeemed by its id and key.
pub record Granted (c : Crypto) (lib : Ssh) (now : Int64) (db db' : Db) (ident : Identity)
    (cap : Capability) (row : HostRow) (grant : GrantRow) (key : PublicKey) (serial : ℕ)
    (signature : Certificate → Bytes) (resp : RedemptionResponse) : Type 0 where
  pub hostname : resp.hostname ≡ row.hostname
  pub port : resp.port ≡ row.ssh_port
  pub user : resp.user ≡ grant.ssh_user
  pub same_serial : resp.serial ≡ serial
  pub until : resp.valid_before ≡ grant.expires_at
  pub cert : Certificate
  pub of_key : cert.key ≡ key
  pub for_user : cert.valid_principals ≡ grant.ssh_user ∷ []
  pub certificate : resp.certificate ≡ marshal lib (cert, signature cert)
  pub redeemed :
      db'.grants
      ≡ update_where
          (unredeemed cap.grant_id)
          (redeem_row now ident.id (ssh_key_fingerprint c key))
          db.grants

module _ (c : Crypto) (laws : IsCrypto c) (lib : Ssh) (rfc3339 : Int64 → Bytes) where
  -- What a visitor builds of a capability is redeemed: if the host of the capability is enrolled, the
  -- grant is live with the capability's secret and a user that is not root, the visitor's id is that
  -- of its key, its clock is within the skew, its nonce of 16 bytes is new and its line is a key, and
  -- if the database works, a serial is drawn that no certificate has and the authority signs, then
  -- Redeem returns a response, with a certificate for that key and user until the grant expires.
  pub redeem-build_redemption :
      (io : Io) (k : Keys) (now : Int64) (draws : Draws) (db : Db) (ident : Identity)
      (cap : Capability) (ssh_line : Bytes) (at : Int64) (nonce : Bytes) (req : RedemptionRequest)
      (able : Redeemable c lib io k now draws db ident cap ssh_line at nonce)
      → build_redemption c ident cap ssh_line at (some nonce) ≡ ok req
      → (resp : RedemptionResponse) × (db' : Db) × (redeem c lib rfc3339 io k now draws req db
          ≡ (ok resp, db'))
        × Granted c lib now db db' ident cap able.row able.grant able.key able.serial able.signature
            resp
  redeem-build_redemption io k now draws db ident cap ssh_line at nonce req able built =
      let (msg, mac, signs, proves, same) =
        build_redemption-ok c ident cap ssh_line at nonce req built in
      let (db', e, redeemed) =
        request-works c laws lib rfc3339 io k now draws db ident cap ssh_line at nonce able msg mac
          signs proves in
      let asked_cert = certificate_of (
        asked c laws lib rfc3339 io k now draws db ident cap ssh_line at nonce able msg mac signs
          proves) in
      (
        answer c laws lib rfc3339 io k now draws db ident cap ssh_line at nonce able msg mac signs
            proves,
        db',
        ap (λ r. redeem c lib rfc3339 io k now draws r db) (sym same) ∙ e,
        unfold response cert_request certificate_of in
            record {
              hostname = refl;
              port = refl;
              user = refl;
              same_serial = refl;
              until = refl;
              cert = asked_cert;
              of_key = refl;
              for_user = refl;
              certificate = refl;
              redeemed = redeemed;
            },
      )
