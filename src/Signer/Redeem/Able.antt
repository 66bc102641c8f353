-- ===== src/Signer/Redeem/Able.antt =====
-- When a capability can be redeemed, and what each step of Redeem (go/signer/redeem.go) gives then.
use grantd.Base.{
  ℕ, ◌≡◌, refl, Bool, true, false, none, some, List, [], ◌∷◌, ◌++◌, Bytes, Int64, sub64, leb_ℤ,
  of_bits64, Result, ok, err, codes, arith, length, eq_bytes, eq_bytes_refl, >>=-eq-ok,
}
use grantd.Crypto.{Crypto}
use grantd.Ssh.{Ssh, PublicKey, Certificate}
use grantd.Protocol.Ids.{agent_id, check_agent_id, valid_grant_id, skew_redemption}
use grantd.Protocol.Validate.{within_skew}
use grantd.Protocol.Messages.{RedemptionPayload, canonical_sig, proof, verify_proof}
use grantd.Protocol.SshKey.{parse_ssh_public_key}
use grantd.Protocol.Envelopes.{RedemptionRequest}
use grantd.SshCert.{Request, Draws, drawn, new_serial, certificate_of, issue, clock_skew_backdate}
use grantd.Store.Tables.{
  Io, Statement, select_host, prune_nonces, insert_nonce, insert_certificate, HostRow, GrantRow,
  NonceRow, CertificateRow, Db, find_grant, any_row, keep_where,
}
use grantd.Store.Host.{host}
use grantd.Store.Nonces.{same_nonce, delete_older, remember_nonce}
use grantd.Store.Certificates.{has_serial, record_certificate}
use grantd.Signer.Redeem.{Keys, nonce_retention, scope_redeem}
use grantd.Agent.Redemption.{
  Identity, Capability, nonce_drawn, or_message_error, redemption_payload, build_redemption,
}

or_message_error-ok : {A : Type 0} (r : Result _ A) {a : A} → or_message_error r ≡ ok a → r ≡ ok a
unfolding or_message_error
or_message_error-ok (ok a) h = ground arith
or_message_error-ok (err e) h = absurd (ground arith)

-- A capability for the enrolled host and a live grant, whose user is not root.
pub record Live (now : Int64) (db : Db) (cap : Capability) : Type 0 where
  pub row : HostRow
  pub is_enrolled : db.host ≡ some row
  pub same_host : cap.host_id ≡ row.host_id
  pub grant : GrantRow
  pub found : find_grant cap.grant_id db.grants ≡ some grant
  pub id_valid : valid_grant_id cap.grant_id ≡ true
  pub same_secret : grant.secret ≡ cap.secret
  pub user_given : eq_bytes grant.ssh_user [] ≡ false
  pub user_not_root : eq_bytes grant.ssh_user (codes "root") ≡ false
  pub unrevoked : grant.revoked_at ≡ none
  pub unredeemed : grant.redeemed_at ≡ none
  pub unexpired : leb_ℤ grant.expires_at now ≡ false
  pub window : leb_ℤ grant.expires_at (sub64 now clock_skew_backdate) ≡ false

-- A visitor whose id is that of its key, whose clock is near the signer's, whose nonce is new and whose
-- line is a key; and a signer that draws a serial which no certificate has, and can sign.
pub record Visit (c : Crypto) (lib : Ssh) (k : Keys) (now : Int64) (draws : Draws) (db : Db)
    (ident : Identity) (ssh_line : Bytes) (at : Int64) (nonce : Bytes) : Type 0 where
  pub id_of_key : agent_id c (c.public_of ident.key) ≡ ok ident.id
  pub timely : within_skew now at skew_redemption ≡ true
  pub nonce_length : length nonce ≡ 16
  pub nonce_new : any_row (same_nonce scope_redeem nonce) db.nonces ≡ false
  pub key : PublicKey
  pub parses : parse_ssh_public_key lib ssh_line ≡ ok key
  pub serial : ℕ
  pub drew : new_serial draws ≡ drawn serial
  pub serial_new : any_row (has_serial (of_bits64 serial)) db.certificates ≡ false
  pub signature : Certificate → Bytes
  pub signs : (cert : Certificate) → lib.sign_cert k.ca cert ≡ some (signature cert)

-- The state of the signer in which a visitor can redeem a capability with a key line.
pub record Redeemable (c : Crypto) (lib : Ssh) (io : Io) (k : Keys) (now : Int64) (draws : Draws)
    (db : Db) (ident : Identity) (cap : Capability) (ssh_line : Bytes) (at : Int64) (nonce : Bytes)
    : Type 0 where
  pub works : (s : Statement) → io s ≡ false
  pub live : Live now db cap
  pub open live use *
  pub visit : Visit c lib k now draws db ident ssh_line at nonce
  pub open visit use *

any_row-keep_where :
    (p q : NonceRow → Bool) (rows : List NonceRow)
    → any_row p rows ≡ false
    → any_row p (keep_where q rows) ≡ false
unfolding any_row keep_where
any_row-keep_where p q [] h = refl
any_row-keep_where p q (n ∷ ns) h = ground (arith, any_row-keep_where p q ns)

-- A new nonce is new also among those that are left when the old ones are deleted.
pub delete_older-new :
    (nonce : Bytes) (limit : Int64) (rows : List NonceRow)
    → any_row (same_nonce scope_redeem nonce) rows ≡ false
    → any_row (same_nonce scope_redeem nonce) (delete_older limit rows) ≡ false
unfolding delete_older
delete_older-new nonce limit rows h = any_row-keep_where (same_nonce scope_redeem nonce) _ rows h

-- What a built request consists of.
pub build_redemption-ok :
    (c : Crypto) (ident : Identity) (cap : Capability) (ssh_line : Bytes) (at : Int64)
    (nonce : Bytes) (req : RedemptionRequest)
    → build_redemption c ident cap ssh_line at (some nonce) ≡ ok req
    → (msg : Bytes) × (mac : Bytes) × (canonical_sig
          (redemption_payload c ident cap ssh_line at nonce)
        ≡ ok msg)
      × (proof c (redemption_payload c ident cap ssh_line at nonce) cap.secret ≡ ok mac)
      × (record {
        payload = redemption_payload c ident cap ssh_line at nonce;
        agent_signature = c.sign ident.key msg;
        proof = mac;
      }
          ≡ req)
unfolding build_redemption nonce_drawn
build_redemption-ok c ident cap ssh_line at nonce req e =
    let p = redemption_payload c ident cap ssh_line at nonce in
    let (msg, a1, e1) = >>=-eq-ok (or_message_error (canonical_sig p)) _ e in
    let (mac, a2, e2) = >>=-eq-ok (or_message_error (proof c p cap.secret)) _ e1 in
    (msg, mac, or_message_error-ok _ a1, or_message_error-ok _ a2, ground arith)

pub host-works :
    (io : Io) (db : Db) (h : HostRow)
    → io select_host ≡ false
    → db.host ≡ some h
    → host io db ≡ ok h
unfolding host
host-works io db h up e = ground arith

pub nonce-works :
    (io : Io) (nonce : Bytes) (now : Int64) (db : Db)
    → io prune_nonces ≡ false
    → io insert_nonce ≡ false
    → any_row (same_nonce scope_redeem nonce) (delete_older (sub64 now nonce_retention) db.nonces)
      ≡ false
    → remember_nonce io scope_redeem nonce now nonce_retention db ≡ (
      ok tt,
      record db {
        nonces =
            delete_older (sub64 now nonce_retention) db.nonces
            ++ record { scope = scope_redeem; nonce = nonce; seen_at = now } ∷ [];
      },
    )
unfolding remember_nonce
nonce-works io nonce now db up up' new = ground arith

pub check_agent_id-works :
    (c : Crypto) (id key : Bytes) → agent_id c key ≡ ok id → check_agent_id c id key ≡ ok tt
unfolding check_agent_id
check_agent_id-works c id key h = rw (h, eq_bytes_refl) refl

pub verify_proof-works :
    (c : Crypto) (p : RedemptionPayload) (secret mac : Bytes)
    → proof c p secret ≡ ok mac
    → verify_proof c p secret mac ≡ ok true
unfolding verify_proof
verify_proof-works c p secret mac h = rw (h, eq_bytes_refl) refl

pub record-works :
    (io : Io) (row : CertificateRow) (db : Db)
    → io insert_certificate ≡ false
    → any_row (has_serial row.serial) db.certificates ≡ false
    → (db' : Db) × (record_certificate io row db ≡ (ok tt, db')) × (db'.grants ≡ db.grants)
unfolding record_certificate
record-works io row db up new = ((record_certificate io row db).1, ground arith, ground arith)

pub issue-works :
    (lib : Ssh) (ca : Bytes) (req : Request) (s : Bytes)
    → eq_bytes req.principal [] ≡ false
    → eq_bytes req.principal (codes "root") ≡ false
    → leb_ℤ req.valid_to req.valid_from ≡ false
    → lib.sign_cert ca (certificate_of req) ≡ some s
    → issue lib ca req ≡ ok (certificate_of req, s)
unfolding issue
issue-works lib ca req s a b w e = rw (a, b, w, e) refl
