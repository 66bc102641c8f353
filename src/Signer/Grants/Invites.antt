-- ===== src/Signer/Grants/Invites.antt =====
-- From CreateGrant (go/signer/signer.go) to the visitor's ParseCapabilityURL (go/agent/identity.go) and
-- Redeem (go/signer/redeem.go).
use grantd.Base.{
  ℕ, ◌<◌, ◌^◌, ◌≡◌, refl, sym, ap, ◌∙◌, true, false, Option, some, List, [], ◌∷◌, ◌++◌, Bytes,
  Int64, pos, IsInt64, ok, codes, All, arith, length, leb_ℤ, sub64, eq_bytes, eq_bytes_refl, ◌⊎◌,
}
use grantd.Std.Base32.{IsByte}
use grantd.Crypto.{Crypto}
use grantd.Protocol.Ids.{new_grant_id, valid_host_id, valid_grant_id}
use grantd.Protocol.Ids.Laws.{valid_grant_id-new_grant_id}
use grantd.Protocol.Validate.{validate_ssh_user}
use grantd.Protocol.Secrets.{capability_url}
use grantd.SshCert.{clock_skew_backdate}
use grantd.Store.Tables.{Io, HostRow, GrantRow, Db, find_grant, any_row}
use grantd.Store.Grants.{has_id}
use grantd.Signer.Redeem.{Keys}
use grantd.Ssh.{Ssh, PublicKey, Certificate}
use grantd.SshCert.{Draws, marshal}
use grantd.Crypto.{IsCrypto}
use grantd.Store.Tables.{Statement}
use grantd.Protocol.Envelopes.{RedemptionRequest, RedemptionResponse}
use grantd.Signer.Redeem.{redeem}
use grantd.Agent.Redemption.{Identity, build_redemption}
use grantd.Signer.Redeem.Complete.{redeem-build_redemption}
use grantd.Signer.Redeem.Able.{Live, Visit, Redeemable}
use grantd.Signer.Grants.{NewGrant, create_grant}
use grantd.Signer.Grants.Laws.{create_grant_sound}
use grantd.Agent.Redemption.{Capability}
use grantd.Agent.CapabilityUrl.{Url, parse_capability_url}
use grantd.Agent.CapabilityUrl.Plain.{PlainHost, ParsesPlain}
use grantd.Agent.CapabilityUrl.RoundTrip.{parse_capability_url-capability_url}

-- A row with a new id is found at the end.
find_grant-append :
    (gs : List GrantRow) (g : GrantRow)
    → any_row (has_id g.id) gs ≡ false
    → find_grant g.id (gs ++ g ∷ []) ≡ some g
unfolding find_grant any_row has_id
find_grant-append [] g h = rw (eq_bytes_refl g.id) refl
find_grant-append (x ∷ gs) g h = ground (arith, find_grant-append gs g)

user-ok :
    (u : Bytes)
    → validate_ssh_user u ≡ ok tt
    → (eq_bytes u [] ≡ false) × (eq_bytes u (codes "root") ≡ false)
unfolding validate_ssh_user
user-ok u h = ground arith

-- A certificate of a time that is not before 1970 starts in the past.
window-open :
    (expires : Int64) (now : ℕ)
    → now < 2 ^ 63
    → leb_ℤ expires (pos now) ≡ false
    → leb_ℤ expires (sub64 (pos now) clock_skew_backdate) ≡ false
unfolding sub64
window-open expires now h e = ground arith

-- What the owner hands to the visitor: the origin, the host, a grant of an id that was drawn, the secret.
abbrev pub invited : Bytes → HostRow → Bytes → Bytes → Capability
invited origin row raw secret = record {
  origin = origin;
  host_id = row.host_id;
  grant_id = new_grant_id raw;
  secret = secret;
}

-- What the visitor gets: the address of the host, and a certificate for the user of the host and the
-- visitor's key, until the grant expires.
pub record Admits (lib : Ssh) (row : HostRow) (ng : NewGrant) (key : PublicKey)
    (signature : Certificate → Bytes) (resp : RedemptionResponse) : Type 0 where
  pub hostname : resp.hostname ≡ row.hostname
  pub port : resp.port ≡ row.ssh_port
  pub user : resp.user ≡ row.ssh_user
  pub until : resp.valid_before ≡ ng.expires_at
  pub cert : Certificate
  pub of_key : cert.key ≡ key
  pub for_user : cert.valid_principals ≡ row.ssh_user ∷ []
  pub certificate : resp.certificate ≡ marshal lib (cert, signature cert)

module _ (c : Crypto) (parse_url : Bytes → Option Url) (url_laws : ParsesPlain parse_url) (io : Io)
    (k : Keys) (scheme host : Bytes) (created : Int64) (raw secret : Bytes) (ttl : Int64)
    (db db' : Db) (ng : NewGrant) (row : HostRow) (now : ℕ)
    (web : (scheme ≡ codes "https") ⊎ (scheme ≡ codes "http")) (plain : PlainHost host)
    (origin_set : k.origin ≡ scheme ++ (codes "://" ++ host)) (in_range : IsInt64 created)
    (raw_sized : length raw ≡ 10) (raw_bytes : All IsByte raw) (sized : length secret ≡ 32)
    (bytes : All IsByte secret) (enrolled : db.host ≡ some row)
    (host_valid : valid_host_id row.host_id ≡ true)
    (user_valid : validate_ssh_user row.ssh_user ≡ ok tt)
    (made : create_grant c io k created (some raw) (some secret) ttl db db ≡ (ok ng, db'))
    (in_time : now < 2 ^ 63) (unexpired : leb_ℤ ng.expires_at (pos now) ≡ false) where
  -- What CreateGrant made: the URL of the capability, and a live row for the user until the expiry.
  record Invites : Type 0 where
    url : ng.capability_url ≡ capability_url k.origin row.host_id (new_grant_id raw) secret
    live : Live (pos now) db' (invited k.origin row raw secret)
    of_row : live.row ≡ row
    of_user : live.grant.ssh_user ≡ row.ssh_user
    until : live.grant.expires_at ≡ ng.expires_at

  grant_valid : valid_grant_id (new_grant_id raw) ≡ true
  grant_valid = valid_grant_id-new_grant_id raw raw_sized raw_bytes

  invited-parsed :
      parse_capability_url parse_url (capability_url k.origin row.host_id (new_grant_id raw) secret)
      ≡ ok (invited k.origin row raw secret)
  invited-parsed = rw origin_set (
      parse_capability_url-capability_url parse_url url_laws scheme host row.host_id
        (new_grant_id raw) secret web plain host_valid grant_valid sized bytes)

  invites : Invites
  invites =
      let (h, g, m) =
        create_grant_sound c io k created (some raw) (some secret) ttl db db db' ng in_range made in
      let same : h ≡ row = cc in
      let raw_eq : m.raw ≡ raw = cc in
      let secret_eq : g.secret ≡ secret = cc in
      let id_eq : g.id ≡ new_grant_id raw = m.id_made ∙ ap new_grant_id raw_eq in
      let user_eq : g.ssh_user ≡ row.ssh_user = m.user ∙ ap (λ (x : HostRow). x.ssh_user) same in
      let (user_given, user_not_root) = user-ok row.ssh_user user_valid in
      record {
        url = cc;
        live = record {
          row = row;
          is_enrolled = m.host_kept ∙ enrolled;
          same_host = refl;
          grant = g;
          found =
              ap (λ gs. find_grant (new_grant_id raw) gs) m.inserted
              ∙ ap (λ i. find_grant i (db.grants ++ g ∷ [])) (sym id_eq)
              ∙ find_grant-append db.grants g m.id_new;
          id_valid = grant_valid;
          same_secret = secret_eq;
          user_given = rw user_eq user_given;
          user_not_root = rw user_eq user_not_root;
          unrevoked = m.unrevoked;
          unredeemed = m.unredeemed;
          unexpired = rw (← m.expiry) unexpired;
          window = window-open g.expires_at now in_time (rw (← m.expiry) unexpired);
        };
        of_row = refl;
        of_user = user_eq;
        until = sym m.expiry;
      }

  -- What CreateGrant makes, a visitor can use: if an http(s) origin without a port is set, the enrolled
  -- host has a well-formed id and a valid user, the drawn bytes are 10 for the id and 32 for the
  -- secret, and CreateGrant returned a grant, then the visitor reads its capability URL as that
  -- origin, host, grant and secret; and at a time from 1970 on at which the grant has not expired, if
  -- nothing else was stored meanwhile, the database works, and the visitor's key, clock, nonce and
  -- line and the signer's serial and authority are as a redemption needs them, then Redeem of the
  -- request that the visitor builds of the capability returns the host's address and a certificate for
  -- the host's user and the visitor's key until the grant expires.
  pub redeem-create_grant :
      (laws : IsCrypto c) (lib : Ssh) (rfc3339 : Int64 → Bytes) (draws : Draws) (ident : Identity)
      (ssh_line : Bytes) (at : Int64) (nonce : Bytes) (req : RedemptionRequest)
      (works : (s : Statement) → io s ≡ false)
      (v : Visit c lib k (pos now) draws db' ident ssh_line at nonce)
      → build_redemption c ident (invited k.origin row raw secret) ssh_line at (some nonce) ≡ ok req
      → (parse_capability_url parse_url ng.capability_url ≡ ok (invited k.origin row raw secret))
        × (resp : RedemptionResponse) × (db'' : Db) × (redeem c lib rfc3339 io k
              (pos now)
              draws
              req
              db'
            ≡ (ok resp, db''))
        × Admits lib row ng v.key v.signature resp
  redeem-create_grant laws lib rfc3339 draws ident ssh_line at nonce req works v built =
      let inv = invites in
      let able : Redeemable c lib io k (pos now) draws db' ident (invited k.origin row raw secret)
          ssh_line at nonce =
        record { works = works; live = inv.live; visit = v } in
      let (resp, db'', e, g) =
        redeem-build_redemption c laws lib rfc3339 io k (pos now) draws db' ident
          (invited k.origin row raw secret) ssh_line at nonce req able built in
      let user_eq = inv.of_user in
      (
        ap (parse_capability_url parse_url) inv.url ∙ invited-parsed,
        resp,
        db'',
        e,
        record {
          hostname = g.hostname ∙ ap (λ (x : HostRow). x.hostname) inv.of_row;
          port = g.port ∙ ap (λ (x : HostRow). x.ssh_port) inv.of_row;
          user = g.user ∙ user_eq;
          until = g.until ∙ inv.until;
          cert = g.cert;
          of_key = g.of_key;
          for_user = g.for_user ∙ ap (λ u. u ∷ []) user_eq;
          certificate = g.certificate;
        },
      )
