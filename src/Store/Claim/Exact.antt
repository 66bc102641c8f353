-- ===== src/Store/Claim/Exact.antt =====
-- Exactly when a claim (ClaimGrant of go/signer/store/store.go) returns ClaimOK, and what it leaves.
use grantd.Base.{
  ◌≡◌, ◌↔◌, sym, ap, ◌∙◌, true, false, Option, none, some, Bytes, Int64, ◌<ℤ◌, Bool, Result, ok,
  err, arith,
}
use grantd.Protocol.Messages
use grantd.Store.Tables.{
  Io, begin_immediate, select_claimed, update_redeemed, commit, GrantRow, Db, find_grant,
}
use grantd.Store.Claim.{ClaimResult, claim_ok, consume, prove, claim_row, claim_grant}
use grantd.Store.Claim.Laws.{consumed, claim_grant-ok}
use grantd.Store.Claim.Marked.{Marked, consumed-Marked, Marked-consumed}

-- A claim that succeeds: no statement fails, the row is live and its secret verifies, the user and the
-- expiry are the row's, and of the database only the grant's rows differ.
pub record Wins (io : Io) (id : Bytes) (now : Int64) (agent_id key_fp : Bytes)
    (verify : Bytes → Result Messages.Error Bool) (db : Db) (c : ClaimResult) (db' : Db)
    : Type 0 where
  pub begins : io begin_immediate ≡ false
  pub selects : io select_claimed ≡ false
  pub updates : io update_redeemed ≡ false
  pub commits : io commit ≡ false
  pub row : GrantRow
  pub found : find_grant id db.grants ≡ some row
  pub not_revoked : row.revoked_at ≡ none
  pub not_expired : now <ℤ row.expires_at
  pub not_redeemed : row.redeemed_at ≡ none
  pub proved : verify row.secret ≡ ok true
  pub status : c.status ≡ claim_ok
  pub user : c.ssh_user ≡ row.ssh_user
  pub expires : c.expires_at ≡ row.expires_at
  pub grants : Marked id now agent_id key_fp db.grants db'.grants
  pub same_host : db'.host ≡ db.host
  pub same_certificates : db'.certificates ≡ db.certificates
  pub same_nonces : db'.nonces ≡ db.nonces

module _ (io : Io) (id : Bytes) (now : Int64) (agent_id key_fp : Bytes)
    (verify : Bytes → Result Messages.Error Bool) where
  -- No statement fails in a claim that succeeds.
  prove-io :
      (g : GrantRow) (r : Result Messages.Error Bool) (db db' : Db) (c : ClaimResult)
      → prove io id now agent_id key_fp g r db ≡ (ok c, db')
      → c.status ≡ claim_ok
      → (io update_redeemed ≡ false) × (io commit ≡ false)
  unfolding prove
  prove-io g (err e) db db' c h s = absurd (ground arith)
  prove-io g (ok false) db db' c h s = absurd (ground arith)
  prove-io g (ok true) db db' c h s = (ground arith, ground arith)

  claim_row-io :
      (o : Option GrantRow) (db db' : Db) (c : ClaimResult)
      → claim_row io id now agent_id key_fp verify o db ≡ (ok c, db')
      → c.status ≡ claim_ok
      → (io update_redeemed ≡ false) × (io commit ≡ false)
  claim_row-io none db db' c h s = absurd (unfold claim_row in ground arith)
  claim_row-io (some g) db db' c h s =
      let p : prove io id now agent_id key_fp g (verify g.secret) db ≡ (ok c, db') =
        unfold claim_row in ground arith in
      prove-io g (verify g.secret) db db' c p s

  claim_grant-io :
      (db db' : Db) (c : ClaimResult)
      → claim_grant io id now agent_id key_fp verify db ≡ (ok c, db')
      → (io begin_immediate ≡ false)
        × (io select_claimed ≡ false)
        × (claim_row io id now agent_id key_fp verify (find_grant id db.grants) db ≡ (ok c, db'))
  unfolding claim_grant
  claim_grant-io db db' c h = (ground arith, ground arith, ground arith)

  claim_grant-Wins :
      (db db' : Db) (c : ClaimResult)
      → (claim_grant io id now agent_id key_fp verify db ≡ (ok c, db')) × (c.status ≡ claim_ok)
      → Wins io id now agent_id key_fp verify db c db'
  claim_grant-Wins db db' c (h, s) =
      let (b, l, row_claim) = claim_grant-io db db' c h in
      let (u, t) = claim_row-io (find_grant id db.grants) db db' c row_claim s in
      let (g, w) = claim_grant-ok io id now agent_id key_fp verify db db' c h s in
      record {
        begins = b;
        selects = l;
        updates = u;
        commits = t;
        row = g;
        found = w.found;
        not_revoked = w.not_revoked;
        not_expired = w.not_expired;
        not_redeemed = w.not_redeemed;
        proved = w.proved;
        status = s;
        user = w.user;
        expires = w.expires;
        grants = rw w.after (consumed-Marked id now agent_id key_fp db.grants);
        same_host = ap (λ (x : Db). x.host) w.after;
        same_certificates = ap (λ (x : Db). x.certificates) w.after;
        same_nonces = ap (λ (x : Db). x.nonces) w.after;
      }

  claim_of :
      (c : ClaimResult) (g : GrantRow)
      → c.status ≡ claim_ok
      → c.ssh_user ≡ g.ssh_user
      → c.expires_at ≡ g.expires_at
      → record { status = claim_ok; ssh_user = g.ssh_user; expires_at = g.expires_at } ≡ c
  claim_of c g s u e = λ i. record { status = sym s i; ssh_user = sym u i; expires_at = sym e i }

  Wins-claim_grant :
      (db db' : Db) (c : ClaimResult)
      → Wins io id now agent_id key_fp verify db c db'
      → claim_grant io id now agent_id key_fp verify db ≡ (ok c, db')
  Wins-claim_grant db db' c w =
      let after : record db { grants = consumed id now agent_id key_fp db.grants } ≡ db' = λ i.
        record {
          host = sym w.same_host i;
          grants = sym (Marked-consumed id now agent_id key_fp w.grants) i;
          certificates = sym w.same_certificates i;
          nonces = sym w.same_nonces i;
        } in
      let claim = claim_of c w.row w.status w.user w.expires in
      let run : claim_grant io id now agent_id key_fp verify db ≡ (
        ok (record { status = claim_ok; ssh_user = w.row.ssh_user; expires_at = w.row.expires_at }),
        record db { grants = consumed id now agent_id key_fp db.grants },
      ) =
        unfold claim_grant claim_row prove consume consumed in
        ground (
          arith, w.begins, w.selects, w.updates, w.commits, w.found, w.not_revoked, w.not_expired,
          w.not_redeemed, w.proved,
        ) in
      run ∙ (λ i. (ok (claim i), after i))

  -- A claim returns ClaimOK exactly when no statement of it fails and the grant's row is there, is
  -- neither revoked nor redeemed and has not expired, and its secret verifies; the user and the expiry
  -- returned are the row's, and the database differs from the one before only in that the grant's
  -- unredeemed rows are redeemed: at this time, by this agent and with this key, all else in them being
  -- as it was.
  pub claim_grant_iff :
      (db db' : Db) (c : ClaimResult)
      → ((claim_grant io id now agent_id key_fp verify db ≡ (ok c, db')) × (c.status ≡ claim_ok))
        ↔ Wins io id now agent_id key_fp verify db c db'
  claim_grant_iff db db' c = (
    claim_grant-Wins db db' c,
    λ (w : Wins io id now agent_id key_fp verify db c db'). (Wins-claim_grant db db' c w, w.status),
  )
