-- ===== src/Signer/Grants/Publications.antt =====
-- PendingPublications of go/signer/signer.go: which grants it signs.
use grantd.Base.{◌≡◌, refl, sym, ap, ◌∙◌, List, [], ◌∷◌, map, Bytes, Int64, ok, arith, >>=-eq-ok}
use grantd.Crypto.{Crypto}
use grantd.Protocol.Messages.{canonical_grant}
use grantd.Protocol.Envelopes.{GrantPublishRequest}
use grantd.Store.Tables.{Io, HostRow, GrantRow, Db}
use grantd.Store.Host.{host}
use grantd.Store.Grants.{pending_publications}
use grantd.Store.Grants.Pending.{row_id}
use grantd.Signer.Redeem.{Keys}
use grantd.Signer.Grants.{or_fail, publish_of, sign_grant, sign_all, pending}
use grantd.Signer.Grants.Laws.{or_fail-ok}

abbrev pub published_id : GrantPublishRequest → Bytes
published_id p = p.grant.grant_id

module _ (c : Crypto) where
  sign_grant-id :
      (k : Keys) (h : HostRow) (g : GrantRow) (p : GrantPublishRequest)
      → sign_grant c k (publish_of h g) ≡ ok p
      → published_id p ≡ g.id
  unfolding sign_grant publish_of
  sign_grant-id k h g p e =
      let (msg, _, f) = >>=-eq-ok (or_fail (canonical_grant (publish_of h g)) _) _ e in ground arith

  -- One publication for each row, in order.
  sign_all-ids :
      (k : Keys) (h : HostRow) (gs : List GrantRow) (ps : List GrantPublishRequest)
      → sign_all c k h gs ≡ ok ps
      → map published_id ps ≡ map row_id gs
  unfolding sign_all
  sign_all-ids k h [] ps e = let none_left : [] ≡ ps = ground arith in rw (← none_left) refl
  sign_all-ids k h (g ∷ gs) ps e =
      let (p, a1, e1) = >>=-eq-ok (sign_grant c k (publish_of h g)) _ e in
      let (rest, a2, e2) = >>=-eq-ok (sign_all c k h gs) _ e1 in
      let all : p ∷ rest ≡ ps = ground arith in
      ap (map published_id) (sym all)
      ∙ ap (λ (x : Bytes). x ∷ map published_id rest) (sign_grant-id k h g p a1)
      ∙ ap (λ x. g.id ∷ x) (sign_all-ids k h gs rest a2)

  -- The publications are those of the rows that the store gives.
  pub pending-ok :
      (io : Io) (k : Keys) (now : Int64) (db : Db) (ps : List GrantPublishRequest)
      → pending c io k now db ≡ ok ps
      → (h : HostRow) × (host io db ≡ ok h)
        × (rows : List GrantRow) × (pending_publications io now db ≡ ok rows)
        × (map published_id ps ≡ map row_id rows)
  unfolding pending
  pending-ok io k now db ps e =
      let (h, a1, e1) = >>=-eq-ok (or_fail (host io db) _) _ e in
      let (rows, a2, e2) = >>=-eq-ok (or_fail (pending_publications io now db) _) _ e1 in
      (h, or_fail-ok _ _ a1, rows, or_fail-ok _ _ a2, sign_all-ids k h rows ps e2)

  -- With no rows left there is nothing to publish.
  pub pending-none :
      (io : Io) (k : Keys) (now : Int64) (db : Db) (h : HostRow)
      → host io db ≡ ok h
      → pending_publications io now db ≡ ok []
      → pending c io k now db ≡ ok []
  unfolding pending or_fail sign_all
  pending-none io k now db h e f = rw (e, f) refl
