-- ===== src/Signer/Grants/Laws.antt =====
-- What a grant that is created is, and what is published of it.
use grantd.Base.{
  ℕ, ◌+◌, ◌<◌, false, ◌≤◌, ◌≡◌, refl, sym, ap, ◌∙◌, true, not, Option, none, some, List, [], ◌∷◌,
  ◌++◌, Bytes, Int64, pos, IsInt64, ◌≤ℤ◌, ◌+ℤ◌, add64, add64-IsInt64, Result, ok, err, arith,
  length, leb, if◌then◌else◌, >>=-eq-ok,
}
use grantd.Crypto.{Crypto}
use grantd.Protocol.Validate.{validate_grant_window}
use grantd.Protocol.Validate.Laws.{validate_grant_window_sound}
use grantd.Protocol.Messages.{Grant, canonical_grant}
use grantd.Protocol.Envelopes.{GrantPublishRequest}
use grantd.Store.Tables.{Io, HostRow, GrantRow, Db, keep_where, any_row}
use grantd.Protocol.Ids.{new_grant_id}
use grantd.Protocol.Secrets.{capability_url}
use grantd.Store.Host.{host}
use grantd.Store.Grants
use grantd.Store.Grants.{has_id, new_row, is_active, active_grant_count}
use grantd.Signer.Redeem.{Keys}
use grantd.Signer.Grants.{
  Failure, NewGrant, max_active_grants, or_fail, present, valid_origin, ttl_or_default,
  prepare_grant, sign_grant, publish_of, new_grant, insert_and_sign, create_grant,
}

pub or_fail-ok :
    {E A : Type 0} (r : Result E A) (f : E → Failure) {a : A} → or_fail r f ≡ ok a → r ≡ ok a
unfolding or_fail
or_fail-ok (ok a) f h = ground arith
or_fail-ok (err e) f h = cc

present-ok : {A : Type 0} (o : Option A) (f : Failure) {a : A} → present o f ≡ ok a → o ≡ some a
unfolding present
present-ok none f h = absurd (ground arith)
present-ok (some a) f h = ground arith

-- The active rows at a time.
unfoldable pub actives : Int64 → Db → ℕ
actives now db = length (keep_where (is_active now) db.grants)

-- What the checks before the insertion have found.
record Prepared (k : Keys) (now : Int64) (id_bytes secret_bytes : Option Bytes) (ttl : Int64)
    (db : Db) (h : HostRow) (g : GrantRow) : Type 0 where
  origin_set : valid_origin k.origin ≡ true
  enrolled : db.host ≡ some h
  expiry : g.expires_at ≡ add64 now (ttl_or_default ttl)
  window : validate_grant_window now g.expires_at ≡ ok tt
  created : g.created_at ≡ now
  user : g.ssh_user ≡ h.ssh_user
  room : actives now db < 32
  fresh_row : g ≡ new_row g.id g.secret g.ssh_user g.created_at g.expires_at
  raw : Bytes
  raw_drawn : id_bytes ≡ some raw
  id_made : g.id ≡ new_grant_id raw
  secret_drawn : secret_bytes ≡ some g.secret

module _ (c : Crypto) where
  prepare_grant-ok :
      (io : Io) (k : Keys) (now : Int64) (id_bytes secret_bytes : Option Bytes) (ttl : Int64)
      (db : Db) (h : HostRow) (g : GrantRow)
      → prepare_grant c io k now id_bytes secret_bytes ttl db ≡ ok (h, g)
      → Prepared k now id_bytes secret_bytes ttl db h g
  unfolding prepare_grant host active_grant_count actives new_row
  prepare_grant-ok io k now id_bytes secret_bytes ttl db h g e =
      let (_, a1, e1) = >>=-eq-ok (if not (valid_origin k.origin) then err _ else ok tt) _ e in
      let (_, a2, e2) =
        >>=-eq-ok (or_fail (validate_grant_window now (add64 now (ttl_or_default ttl))) _) _ e1 in
      let (h', a3, e3) = >>=-eq-ok (or_fail (host io db) _) _ e2 in
      let (n, a4, e4) = >>=-eq-ok (or_fail (active_grant_count io now db) _) _ e3 in
      let (_, a5, e5) = >>=-eq-ok (if leb max_active_grants n then err _ else ok tt) _ e4 in
      let (raw, a6, e6) = >>=-eq-ok (present id_bytes _) _ e5 in
      let (secret, a7, e7) = >>=-eq-ok (present secret_bytes _) _ e6 in
      let w = or_fail-ok (validate_grant_window now (add64 now (ttl_or_default ttl))) _ a2 in
      let hh = or_fail-ok (host io db) _ a3 in
      let nn = or_fail-ok (active_grant_count io now db) _ a4 in
      let ex : g.expires_at ≡ add64 now (ttl_or_default ttl) = ground arith in
      record {
        origin_set = ground arith;
        enrolled = ground arith;
        expiry = ex;
        window = rw ex w;
        created = ground arith;
        user = ground arith;
        room = ground arith;
        fresh_row = ground arith;
        raw = raw;
        raw_drawn = present-ok id_bytes _ a6;
        id_made = ground arith;
        secret_drawn = present-ok secret_bytes _ a7 ∙ ground arith;
      }

  new_grant-ok :
      (k : Keys) (h : HostRow) (g : GrantRow) (ng : NewGrant)
      → new_grant c k h g ≡ ok ng
      → (ng.grant_id ≡ g.id)
        × (ng.expires_at ≡ g.expires_at)
        × (sign_grant c k (publish_of h g) ≡ ok ng.publish)
        × (ng.capability_url ≡ capability_url k.origin h.host_id g.id g.secret)
  unfolding new_grant
  new_grant-ok k h g ng e =
      let (r, a, b) = >>=-eq-ok (sign_grant c k (publish_of h g)) _ e in
      (ground arith, ground arith, ground (arith, a, b), ground arith)

  sign_grant-ok :
      (k : Keys) (g : Grant) (r : GrantPublishRequest)
      → sign_grant c k g ≡ ok r
      → (r.grant ≡ g)
        × (msg : Bytes) × (canonical_grant g ≡ ok msg)
        × (r.signature ≡ c.sign k.identity msg)
  unfolding sign_grant
  sign_grant-ok k g r e =
      let (msg, a, b) = >>=-eq-ok (or_fail (canonical_grant g) _) _ e in
      (ground arith, msg, or_fail-ok _ _ a, ground arith)

  insert_and_sign-ok :
      (io : Io) (k : Keys) (r : Result Failure (HostRow × GrantRow)) (db db' : Db) (ng : NewGrant)
      → insert_and_sign c io k r db ≡ (ok ng, db')
      → (h : HostRow) × (g : GrantRow) × (r ≡ ok (h, g))
        × (new_grant c k h g ≡ ok ng)
        × (any_row (has_id g.id) db.grants ≡ false)
        × (db' ≡ record db {
          grants = db.grants ++ new_row g.id g.secret g.ssh_user g.created_at g.expires_at ∷ [];
        })
  unfolding insert_and_sign Grants.create_grant
  insert_and_sign-ok io k (err x) db db' ng e = absurd (ground arith)
  insert_and_sign-ok io k (ok (h, g)) db db' ng e =
      (h, g, refl, ground arith, ground arith, ground arith)

  actives-append :
      (now : Int64) (gs : List GrantRow) (g : GrantRow)
      → length (keep_where (is_active now) (gs ++ g ∷ []))
        ≤ length (keep_where (is_active now) gs) + 1
  unfolding keep_where
  actives-append now [] g = ground arith
  actives-append now (x ∷ gs) g = ground (arith, actives-append now gs g)

  insert-bounded :
      (now : Int64) (db db' : Db) (g : GrantRow)
      → db'.grants ≡ db.grants ++ g ∷ []
      → actives now db' ≤ actives now db + 1
  unfolding actives
  insert-bounded now db db' g e = rw e (actives-append now db.grants g)

  -- What holds of a grant that CreateGrant returns: g is the row that it inserted, h the enrollment. It
  -- read the state `before`, found the state `db` when it inserted, and left the state db'.
  pub record Creates (k : Keys) (now : Int64) (id_bytes secret_bytes : Option Bytes)
      (before db : Db) (ng : NewGrant) (db' : Db) (h : HostRow) (g : GrantRow) : Type 0 where
    pub enrolled : before.host ≡ some h
    pub raw : Bytes
    pub raw_drawn : id_bytes ≡ some raw
    pub id_made : g.id ≡ new_grant_id raw
    pub secret_drawn : secret_bytes ≡ some g.secret
    pub id_new : any_row (has_id g.id) db.grants ≡ false
    pub named : ng.grant_id ≡ g.id
    pub url : ng.capability_url ≡ capability_url k.origin h.host_id g.id g.secret
    pub expiry : ng.expires_at ≡ g.expires_at
    pub at_least : now +ℤ pos 60 ≤ℤ g.expires_at
    pub at_most : g.expires_at ≤ℤ now +ℤ pos 28800
    pub user : g.ssh_user ≡ h.ssh_user
    pub unredeemed : g.redeemed_at ≡ none
    pub unrevoked : g.revoked_at ≡ none
    pub host_kept : db'.host ≡ db.host
    pub inserted : db'.grants ≡ db.grants ++ g ∷ []
    pub room : actives now before < 32
    pub grows : actives now db' ≤ actives now db + 1
    pub published : ng.publish.grant ≡ publish_of h g
    pub message : Bytes
    pub message_signed : canonical_grant (publish_of h g) ≡ ok message
    pub signed : ng.publish.signature ≡ c.sign k.identity message

  pub create_grant_sound :
      (io : Io) (k : Keys) (now : Int64) (id_bytes secret_bytes : Option Bytes) (ttl : Int64)
      (before db db' : Db) (ng : NewGrant)
      → IsInt64 now
      → create_grant c io k now id_bytes secret_bytes ttl before db ≡ (ok ng, db')
      → (h : HostRow) × (g : GrantRow) × Creates k now id_bytes secret_bytes before db ng db' h g
  unfolding create_grant
  create_grant_sound io k now id_bytes secret_bytes ttl before db db' ng hn e =
      let (h, g, r, n, new, d) =
        insert_and_sign-ok io k (prepare_grant c io k now id_bytes secret_bytes ttl before) db db'
          ng e in
      let p = prepare_grant-ok io k now id_bytes secret_bytes ttl before h g r in
      let (i, x, s, u) = new_grant-ok k h g ng n in
      let (pub_eq, msg, m, sg) = sign_grant-ok k (publish_of h g) ng.publish s in
      let range : IsInt64 g.expires_at = rw p.expiry (add64-IsInt64 now (ttl_or_default ttl)) in
      let w = validate_grant_window_sound now g.expires_at hn range p.window in
      let ins : db'.grants ≡ db.grants ++ g ∷ [] =
        ap (λ (x : Db). x.grants) d
        ∙ ap (λ (x : GrantRow). db.grants ++ x ∷ []) (sym p.fresh_row) in
      (
        h,
        g,
        record {
          enrolled = p.enrolled;
          raw = p.raw;
          raw_drawn = p.raw_drawn;
          id_made = p.id_made;
          secret_drawn = p.secret_drawn;
          id_new = new;
          named = i;
          url = u;
          expiry = x;
          at_least = w.0;
          at_most = w.1;
          user = p.user;
          unredeemed = rw p.fresh_row (unfold new_row in refl);
          unrevoked = rw p.fresh_row (unfold new_row in refl);
          host_kept = ap (λ (x : Db). x.host) d;
          inserted = ins;
          room = p.room;
          grows = insert-bounded now db db' g ins;
          published = pub_eq;
          message = msg;
          message_signed = m;
          signed = sg;
        },
      )
