-- ===== src/Daemon/Publishing/Settles.antt =====
-- The publishLoop of go/daemon/rendezvous/rendezvous.go against the signer's table of grants.
use grantd.Base.{
  ℕ, ◌≡◌, refl, ap, ◌∙◌, true, false, Option, some, List, [], ◌∷◌, map, Bytes, Int64, ◌≤ℤ◌, ok, All,
  arith,
}
use grantd.Crypto.{Crypto}
use grantd.Ssh.{Ssh}
use grantd.Protocol.Ids.{valid_grant_id}
use grantd.Protocol.Envelopes.{GrantPublishRequest}
use grantd.Store.Tables.{Io, GrantRow, Db, update_published, select_pending, update_where}
use grantd.Store.Host.{host}
use grantd.Store.Grants.{has_id, publish_row, pending_publications}
use grantd.Store.Grants
use grantd.Store.Grants.Pending.{
  row_id, Covered, Covered-later, Covered-publish, pending_publications-All,
  pending_publications-Covered, pending_publications-none,
}
use grantd.Signer.Redeem.{Keys}
use grantd.Signer.Grants.{pending, mark_published, stored}
use grantd.Signer.Grants.Publications.{published_id, pending-ok, pending-none}
use grantd.Signer.Api.{internal_reply, mark_published_handler, pending_handler}
use grantd.Daemon.Client.{heard}
use grantd.Daemon.Publishing.{publish_url, put_status, publish_pass, publish_tick, mark_all}
use grantd.Daemon.Publishing.Laws.{accepted}

-- A pass over publications that are all accepted marks them all.
publish_pass-all :
    (service : Bytes → GrantPublishRequest → Option ℕ) (origin host_id : Bytes)
    (ps : List GrantPublishRequest)
    → ((url : Bytes) (p : GrantPublishRequest) → accepted (service url p) ≡ true)
    → publish_pass service origin host_id ps ≡ map published_id ps
unfolding publish_pass put_status
publish_pass-all service origin host_id [] all = refl
publish_pass-all service origin host_id (p ∷ ps) all =
    ground
      (arith, all (publish_url origin host_id p) p, publish_pass-all service origin host_id ps all)

module _ (io : Io) (now : Int64) (up : io update_published ≡ false) where
  marked-grants :
      (id : Bytes) (db : Db)
      → valid_grant_id id ≡ true
      → (mark_published_handler io now id db).1
        ≡ record db { grants = update_where (has_id id) (publish_row now) db.grants }
  unfolding mark_published_handler mark_published stored Grants.mark_published
  marked-grants id db v = rw (v, up) refl

  mark_all-cons :
      (id : Bytes) (ids : List Bytes) (db : Db)
      → valid_grant_id id ≡ true
      → mark_all io now (id ∷ ids) db
        ≡ mark_all io now ids
            (record db { grants = update_where (has_id id) (publish_row now) db.grants })
  unfolding mark_all
  mark_all-cons id ids db v = ap (mark_all io now ids) (marked-grants id db v)

  -- After the calls nothing is left to publish of what they cover, and the host is the same.
  mark_all-Covered :
      (at : Int64) (ids : List Bytes) (db : Db)
      → All (λ id. valid_grant_id id ≡ true) ids
      → Covered at ids db.grants
      → Covered at [] (mark_all io now ids db).grants × ((mark_all io now ids db).host ≡ db.host)
  mark_all-Covered at [] db v c = unfold mark_all in (c, refl)
  mark_all-Covered at (id ∷ ids) db v c = rw (mark_all-cons id ids db v.0) (
      mark_all-Covered at ids
        (record db { grants = update_where (has_id id) (publish_row now) db.grants }) v.1
        (Covered-publish at now id ids db.grants c))

All-ids :
    (rows : List GrantRow)
    → All (λ (g : GrantRow). valid_grant_id g.id ≡ true) rows
    → All (λ id. valid_grant_id id ≡ true) (map row_id rows)
All-ids [] a = tt
All-ids (g ∷ gs) a = (a.0, All-ids gs a.1)

host-eq : (io : Io) (db db' : Db) → db'.host ≡ db.host → host io db' ≡ host io db
unfolding host
host-eq io db db' e = rw e refl

pending_up :
    (io : Io) (now : Int64) (db : Db) (rows : List GrantRow)
    → pending_publications io now db ≡ ok rows
    → io select_pending ≡ false
unfolding pending_publications
pending_up io now db rows e = ground arith

module _ (c : Crypto) (lib : Ssh) (rfc3339 : Int64 → Bytes) where
  tick-passes :
      (io : Io) (k : Keys) (now : Int64) (service : Bytes → GrantPublishRequest → Option ℕ)
      (origin host_id : Bytes) (db : Db) (ps : List GrantPublishRequest)
      → pending c io k now db ≡ ok ps
      → publish_tick service origin host_id
          (heard (some (pending_handler c lib rfc3339 io k now db)))
        ≡ publish_pass service origin host_id ps
  unfolding publish_tick heard internal_reply pending_handler
  tick-passes io k now service origin host_id db ps e = rw e refl

  -- If the ids in the signer's table have their form, the signer gives its pending publications and
  -- can record one, and the service accepts whatever it is sent, then after one tick the signer has
  -- nothing left to publish, then or later.
  pub publish_tick-settles :
      (io : Io) (k : Keys) (now later : Int64) (service : Bytes → GrantPublishRequest → Option ℕ)
      (origin host_id : Bytes) (db : Db) (ps : List GrantPublishRequest)
      → io update_published ≡ false
      → All (λ (g : GrantRow). valid_grant_id g.id ≡ true) db.grants
      → pending c io k now db ≡ ok ps
      → ((url : Bytes) (p : GrantPublishRequest) → accepted (service url p) ≡ true)
      → now ≤ℤ later
      → pending c io k later (
          mark_all io now
            (publish_tick service origin host_id
              (heard (some (pending_handler c lib rfc3339 io k now db))))
            db)
        ≡ ok []
  publish_tick-settles io k now later service origin host_id db ps up valid given all order =
      let (h, e, rows, r, same) = pending-ok c io k now db ps given in
      let ids : publish_tick service origin host_id
            (heard (some (pending_handler c lib rfc3339 io k now db)))
          ≡ map row_id rows =
        tick-passes io k now service origin host_id db ps given
        ∙ publish_pass-all service origin host_id ps all
        ∙ same in
      let (left, kept) =
        mark_all-Covered io now up later (map row_id rows) db
          (All-ids rows (pending_publications-All _ io now db rows r valid))
          (Covered-later now later (map row_id rows) db.grants order
            (pending_publications-Covered io now db rows r)) in
      rw ids (
        pending-none c io k later _ h (host-eq io db _ kept ∙ e)
          (pending_publications-none io later _ (pending_up io now db rows r) left))
