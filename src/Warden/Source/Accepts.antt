-- ===== src/Warden/Source/Accepts.antt =====
-- The signer and the warden together: what the one issues, the other lets in.
use grantd.Base.{
  ℕ, ◌<◌, ◌^◌, ◌≡◌, refl, sym, ap, ◌∙◌, true, false, Option, none, some, List, [], ◌∷◌, Bytes,
  Int64, ◌<ℤ◌, bits64, of_bits64, ok, arith, eq_bytes_iff,
}
use grantd.Crypto.{Crypto, IsCrypto}
use grantd.Ssh.{Ssh}
use grantd.Protocol.Ids.{valid_grant_id}
use grantd.Protocol.Ids.Laws.{check_agent_id_sound}
use grantd.Protocol.SshKey.{ssh_key_fingerprint}
use grantd.Protocol.Envelopes.{RedemptionRequest, RedemptionResponse}
use grantd.SshCert.{Draws}
use grantd.Store.Tables.{
  Io, select_grant, select_serial, GrantRow, CertificateRow, Db, find_grant, update_where,
}
use grantd.Store.Grants.{view, get_grant_view}
use grantd.Store.Claim.{unredeemed, redeem_row}
use grantd.Store.Claim.Laws.{consumed}
use grantd.Store.Certificates.{find_certificate, certificate_serial, serial_of}
use grantd.Signer.Redeem.{Keys, redeem}
use grantd.Signer.Redeem.Sound.{redeem_sound}
use grantd.Signer.Lifetime.{
  answered, LifetimeGrant, lifetime_of, serial_reply, view_reply, lifetime_grant,
}
use grantd.Warden.KeyId.{parse_key_id}
use grantd.Warden.KeyId.Laws.{parse_key_id-key_id}
use grantd.Warden.State.{GrantInfo, known}
use grantd.Warden.Admission.{check_info, check_grant}
use grantd.Warden.Source.{named, grant_answer, received}

find_grant-id :
    (id : Bytes) (gs : List GrantRow) (g : GrantRow) → find_grant id gs ≡ some g → g.id ≡ id
unfolding find_grant
find_grant-id id [] g h = cc
find_grant-id id (x ∷ gs) g h = ground (arith, eq_bytes_iff x.id id, find_grant-id id gs g)

find_grant-consumed :
    (id : Bytes) (now : Int64) (agent fp : Bytes) (gs : List GrantRow) (g : GrantRow)
    → find_grant id gs ≡ some g
    → g.redeemed_at ≡ none
    → find_grant id (consumed id now agent fp gs) ≡ some (redeem_row now agent fp g)
unfolding find_grant consumed update_where unredeemed redeem_row
find_grant-consumed id now agent fp [] g h n = cc
find_grant-consumed id now agent fp (x ∷ gs) g h n =
    ground (arith, find_grant-consumed id now agent fp gs g)

serial_kept : (n : ℕ) → n < 2 ^ 64 → bits64 (of_bits64 n) ≡ n
unfolding bits64 of_bits64
serial_kept n h = ground arith

lifetime_grant-found :
    (decimal : ℕ → Bytes) (io : Io) (id : Bytes) (db : Db) (g : GrantRow) (row : CertificateRow)
    → valid_grant_id id ≡ true
    → io select_grant ≡ false
    → io select_serial ≡ false
    → find_grant id db.grants ≡ some g
    → find_certificate id db.certificates ≡ some row
    → lifetime_grant decimal io id db
      ≡ answered 200 (lifetime_of (view g) (decimal (bits64 row.serial)))
unfolding lifetime_grant view_reply get_grant_view certificate_serial serial_reply serial_of
lifetime_grant-found decimal io id db g row v a b f r = rw v (rw a (rw f (rw b (rw r refl))))

grant_answer-received :
    {B : Type 0} (encode : LifetimeGrant → B) (decode : B → Option GrantInfo) (id : Bytes)
    (g : GrantInfo)
    → decode (encode g) ≡ some g
    → g.id ≡ id
    → grant_answer id (some (received encode decode (answered 200 g))) ≡ known g
unfolding grant_answer received named
grant_answer-received encode decode id g d e = rw d (rw ((eq_bytes_iff g.id id).1 e) refl)

-- A grant that was redeemed is live for its user until it is over.
check_info-live :
    (g : GrantInfo) (now : Int64) (at : Int64)
    → g.revoked_at ≡ none
    → g.redeemed_at ≡ some at
    → now <ℤ g.expires_at
    → check_info g g.ssh_user g.certificate_serial now ≡ ok g
unfolding check_info
check_info-live g now at n r t = ground (
  arith,
  eq_bytes_iff g.ssh_user g.ssh_user,
  eq_bytes_iff g.certificate_serial g.certificate_serial,
)

module _ (c : Crypto) (laws : IsCrypto c) (lib : Ssh) (rfc3339 : Int64 → Bytes)
    (decimal : ℕ → Bytes) {B : Type 0} (encode : LifetimeGrant → B)
    (decode : B → Option GrantInfo) where
  -- The signer issues a certificate and the warden is asked about it, before the grant is over and with
  -- no other write in between. If the primitives are as documented, no certificate was recorded for
  -- the grant before, the reads do not fail, the serial is a uint64 and JSON gives back a grant of
  -- these texts, then the warden reads the grant's id and the agent's from the certificate's label, and
  -- the check on the grant passes for the certificate's user and serial, with the deadline that the
  -- visitor was told.
  pub redeem-check_grant :
      (io reads : Io) (k : Keys) (now later : Int64) (draws : Draws) (req : RedemptionRequest)
      (db db' : Db) (resp : RedemptionResponse)
      → redeem c lib rfc3339 io k now draws req db ≡ (ok resp, db')
      → find_certificate req.payload.grant_id db.certificates ≡ none
      → reads select_grant ≡ false
      → reads select_serial ≡ false
      → resp.serial < 2 ^ 64
      → ((g : GrantInfo)
          → g.id ≡ req.payload.grant_id
          → g.ssh_user ≡ resp.user
          → g.certificate_serial ≡ decimal resp.serial
          → decode (encode g) ≡ some g)
      → later <ℤ resp.valid_before
      → (parse_key_id resp.key_id ≡ some (req.payload.grant_id, req.payload.agent_id))
        × (info : GrantInfo) × (check_grant
              (grant_answer req.payload.grant_id (
                some
                  (received encode decode (lifetime_grant decimal reads req.payload.grant_id db'))))
              resp.user
              (decimal resp.serial)
              later
            ≡ ok info)
        × (info.expires_at ≡ resp.valid_before)
  unfolding check_grant lifetime_of view redeem_row
  redeem-check_grant io reads k now later draws req db db' resp e first a b u json t =
      let (h, key, g, r) = redeem_sound c lib rfc3339 io k now draws req db db' resp e in
      let p = req.payload in
      let (row, recorded, stored) = r.serial_recorded first in
      let redeemed = redeem_row now p.agent_id (ssh_key_fingerprint c key) g in
      let found : find_grant p.grant_id db'.grants ≡ some redeemed =
        ap (find_grant p.grant_id) r.consumes_grant
        ∙ find_grant-consumed p.grant_id now p.agent_id (ssh_key_fingerprint c key) db.grants g
            r.granted r.not_redeemed in
      let info : GrantInfo = lifetime_of (view redeemed) (decimal resp.serial) in
      let reply : lifetime_grant decimal reads p.grant_id db' ≡ answered 200 info =
        lifetime_grant-found decimal reads p.grant_id db' redeemed row r.grant_formed a b found
          recorded
        ∙ ap (λ n. answered 200 (lifetime_of (view redeemed) (decimal n)))
            (ap bits64 stored ∙ serial_kept resp.serial u) in
      let (_, _, agent) =
        check_agent_id_sound c laws p.agent_id p.agent_public_key r.agent_checked in
      let answer : grant_answer p.grant_id
            (some (received encode decode (lifetime_grant decimal reads p.grant_id db')))
          ≡ known info =
        ap (λ x. grant_answer p.grant_id (some (received encode decode x))) reply
        ∙ grant_answer-received encode decode p.grant_id info
            (json info (find_grant-id p.grant_id db.grants g r.granted) (sym r.user_is_local) refl)
            (find_grant-id p.grant_id db.grants g r.granted) in
      let until : later <ℤ g.expires_at = rw r.expiry_is_local at t in
      (
        ap parse_key_id r.label_is_local
            ∙ parse_key_id-key_id p.grant_id p.agent_id r.grant_formed agent,
        info,
        ap (λ x. check_grant x resp.user (decimal resp.serial) later) answer
            ∙ ap (λ x. check_info info x (decimal resp.serial) later) r.user_is_local
            ∙ check_info-live info later now r.not_revoked refl until,
        sym r.expiry_is_local,
      )
