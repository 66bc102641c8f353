-- ===== src/Store/Claim/Laws.antt =====
-- What a claim that succeeds has checked, and that every other outcome leaves the database as it was.
use grantd.Base.{
  Bool, true, false, ◌≡◌, ◌≢◌, ◌⊎◌, inl, refl, Option, none, some, List, Bytes, Int64, ◌<ℤ◌, Result,
  ok, err, arith,
}
use grantd.Protocol.Messages
use grantd.Store.Tables.{Io, GrantRow, Db, find_grant, update_where}
use grantd.Store.Claim.{
  ClaimResult, claim_ok, unredeemed, redeem_row, prove, claim_row, claim_grant,
}

-- The rows of a table after the grant was consumed.
unfoldable pub consumed : Bytes → Int64 → Bytes → Bytes → List GrantRow → List GrantRow
consumed id now agent_id key_fp gs =
    update_where (unredeemed id) (redeem_row now agent_id key_fp) gs

-- What holds of the row of a claim that succeeded, and of what the claim returned.
pub record Consumes (id : Bytes) (now : Int64) (agent_id key_fp : Bytes)
    (verify : Bytes → Result Messages.Error Bool) (db : Db) (g : GrantRow) (c : ClaimResult)
    (db' : Db) : Type 0 where
  pub found : find_grant id db.grants ≡ some g
  pub not_revoked : g.revoked_at ≡ none
  pub not_expired : now <ℤ g.expires_at
  pub not_redeemed : g.redeemed_at ≡ none
  pub proved : verify g.secret ≡ ok true
  pub user : c.ssh_user ≡ g.ssh_user
  pub expires : c.expires_at ≡ g.expires_at
  pub after : db' ≡ record db { grants = consumed id now agent_id key_fp db.grants }

module _ (io : Io) (id : Bytes) (now : Int64) (agent_id key_fp : Bytes)
    (verify : Bytes → Result Messages.Error Bool) where
  prove-ok :
      (g : GrantRow) (r : Result Messages.Error Bool) (db db' : Db) (c : ClaimResult)
      → prove io id now agent_id key_fp g r db ≡ (ok c, db')
      → c.status ≡ claim_ok
      → (r ≡ ok true)
        × (c.ssh_user ≡ g.ssh_user)
        × (c.expires_at ≡ g.expires_at)
        × (db' ≡ record db { grants = consumed id now agent_id key_fp db.grants })
  unfolding prove consumed
  prove-ok g (err e) db db' c h s = ground arith
  prove-ok g (ok false) db db' c h s = ground arith
  prove-ok g (ok true) db db' c h s = ground arith

  claim_row-ok :
      (g : GrantRow) (db db' : Db) (c : ClaimResult)
      → find_grant id db.grants ≡ some g
      → claim_row io id now agent_id key_fp verify (some g) db ≡ (ok c, db')
      → c.status ≡ claim_ok
      → Consumes id now agent_id key_fp verify db g c db'
  unfolding claim_row
  claim_row-ok g db db' c f h s =
      let p : prove io id now agent_id key_fp g (verify g.secret) db ≡ (ok c, db') = ground arith in
      let q = prove-ok g (verify g.secret) db db' c p s in
      record {
        found = f;
        not_revoked = ground arith;
        not_expired = ground arith;
        not_redeemed = ground arith;
        proved = q.0;
        user = q.1;
        expires = q.2;
        after = q.3;
      }

  claim_found :
      (o : Option GrantRow) (db db' : Db) (c : ClaimResult)
      → find_grant id db.grants ≡ o
      → claim_row io id now agent_id key_fp verify o db ≡ (ok c, db')
      → c.status ≡ claim_ok
      → (g : GrantRow) × Consumes id now agent_id key_fp verify db g c db'
  claim_found none db db' c f h s = absurd (unfold claim_row in ground arith)
  claim_found (some g) db db' c f h s = (g, claim_row-ok g db db' c f h s)

  -- When a claim returns ClaimOK, the grant's row is there, is neither revoked nor redeemed and has
  -- not expired, its secret verified, the user and the expiry returned are the row's, and the database
  -- differs from the one before only in that the grant's unredeemed rows have been marked redeemed.
  pub claim_grant-ok :
      (db db' : Db) (c : ClaimResult)
      → claim_grant io id now agent_id key_fp verify db ≡ (ok c, db')
      → c.status ≡ claim_ok
      → (g : GrantRow) × Consumes id now agent_id key_fp verify db g c db'
  unfolding claim_grant
  claim_grant-ok db db' c h s = claim_found (find_grant id db.grants) db db' c refl (ground arith) s

  prove-keeps :
      (g : GrantRow) (r : Result Messages.Error Bool) (db : Db)
      → (prove io id now agent_id key_fp g r db).0
        ≢ ok (record { status = claim_ok; ssh_user = g.ssh_user; expires_at = g.expires_at })
      → (prove io id now agent_id key_fp g r db).1 ≡ db
  unfolding prove
  prove-keeps g (err e) db h = refl
  prove-keeps g (ok false) db h = refl
  prove-keeps g (ok true) db h = ground arith

  claim_row-keeps :
      (o : Option GrantRow) (db : Db)
      → ((c : ClaimResult)
          → c.status ≡ claim_ok
          → (claim_row io id now agent_id key_fp verify o db).0 ≢ ok c)
      → (claim_row io id now agent_id key_fp verify o db).1 ≡ db
  unfolding claim_row
  claim_row-keeps none db h = refl
  claim_row-keeps (some g) db h = ground (
    arith,
    prove-keeps g (verify g.secret) db,
    h (record { status = claim_ok; ssh_user = g.ssh_user; expires_at = g.expires_at }),
  )

  -- A claim that returns an error, or any status but ClaimOK, leaves the database as it was.
  pub claim_grant-keeps :
      (db : Db)
      → ((c : ClaimResult)
          → c.status ≡ claim_ok
          → (claim_grant io id now agent_id key_fp verify db).0 ≢ ok c)
      → (claim_grant io id now agent_id key_fp verify db).1 ≡ db
  unfolding claim_grant
  claim_grant-keeps db h = ground (arith, claim_row-keeps (find_grant id db.grants) db)

  abbrev won : GrantRow → ClaimResult
  won g = record { status = claim_ok; ssh_user = g.ssh_user; expires_at = g.expires_at }

  prove-cases :
      (g : GrantRow) (r : Result Messages.Error Bool) (db : Db)
      → ((prove io id now agent_id key_fp g r db).1 ≡ db)
        ⊎ ((prove io id now agent_id key_fp g r db).1
            ≡ record db { grants = consumed id now agent_id key_fp db.grants })
  unfolding prove consumed
  prove-cases g (err e) db = inl refl
  prove-cases g (ok false) db = inl refl
  prove-cases g (ok true) db = ground arith

  claim_row-cases :
      (o : Option GrantRow) (db : Db)
      → ((claim_row io id now agent_id key_fp verify o db).1 ≡ db)
        ⊎ ((claim_row io id now agent_id key_fp verify o db).1
            ≡ record db { grants = consumed id now agent_id key_fp db.grants })
  unfolding claim_row
  claim_row-cases none db = inl refl
  claim_row-cases (some g) db = ground (arith, prove-cases g (verify g.secret) db)

  pub claim_grant-cases :
      (db : Db)
      → ((claim_grant io id now agent_id key_fp verify db).1 ≡ db)
        ⊎ ((claim_grant io id now agent_id key_fp verify db).1
            ≡ record db { grants = consumed id now agent_id key_fp db.grants })
  unfolding claim_grant
  claim_grant-cases db = ground (arith, claim_row-cases (find_grant id db.grants) db)
