-- ===== src/Store/Claim.antt =====
-- go/signer/store/store.go: ClaimGrant, the one transaction that consumes a grant. BEGIN IMMEDIATE
-- makes it one step for every other writer; the deferred ROLLBACK undoes it on every path that does
-- not commit.
pub mod Laws
pub mod Works
pub mod Marked
pub mod Exact
use grantd.Base.{
  Bool, true, false, not, ◌&&◌, Option, none, some, List, [], ◌∷◌, Bytes, Int64, pos, leb_ℤ, Result,
  ok, err, eq_bytes, if◌then◌else◌,
}
use grantd.Protocol.Messages
use grantd.Store.Tables.{
  Io, begin_immediate, select_claimed, update_redeemed, commit, Error, failed, proof_error,
  GrantRow, Db, Outcome, find_grant, update_where, is_some,
}

pub data ClaimStatus : Type 0 where
  claim_ok claim_not_found claim_revoked claim_expired claim_already_redeemed claim_bad_proof :
      ClaimStatus

pub record ClaimResult : Type 0 where
  pub status : ClaimStatus
  pub ssh_user : Bytes
  pub expires_at : Int64

-- ClaimResult{Status: s}
abbrev pub status_only : ClaimStatus → ClaimResult
status_only s = record { status = s; ssh_user = []; expires_at = pos 0 }

-- WHERE id = ? AND redeemed_at IS NULL
unfoldable pub unredeemed : Bytes → GrantRow → Bool
unredeemed id g = eq_bytes g.id id && not (is_some g.redeemed_at)

unfoldable pub redeem_row : Int64 → Bytes → Bytes → GrantRow → GrantRow
redeem_row now agent_id key_fp g = record g {
  redeemed_at = some now;
  redeemed_agent_id = some agent_id;
  redeemed_key_fp = some key_fp;
}

-- The update and the commit.
consume : Io → Bytes → Int64 → Bytes → Bytes → GrantRow → Db → Outcome ClaimResult
unfolding unredeemed redeem_row
consume io id now agent_id key_fp g db =
    if io update_redeemed
    then (err (failed update_redeemed), db)
    else if io commit
    then (err (failed commit), db)
    else (
      ok (record { status = claim_ok; ssh_user = g.ssh_user; expires_at = g.expires_at }),
      record db {
        grants = update_where (unredeemed id) (redeem_row now agent_id key_fp) db.grants;
      },
    )

prove :
    Io
    → Bytes
    → Int64
    → Bytes
    → Bytes
    → GrantRow
    → Result Messages.Error Bool
    → Db
    → Outcome ClaimResult
unfolding consume
prove io id now agent_id key_fp g (err e) db = (err (proof_error e), db)
prove io id now agent_id key_fp g (ok false) db = (ok (status_only claim_bad_proof), db)
prove io id now agent_id key_fp g (ok true) db = consume io id now agent_id key_fp g db

claim_row :
    Io
    → Bytes
    → Int64
    → Bytes
    → Bytes
    → (Bytes → Result Messages.Error Bool)
    → Option GrantRow
    → Db
    → Outcome ClaimResult
unfolding prove
claim_row io id now agent_id key_fp verify none db = (ok (status_only claim_not_found), db)
claim_row io id now agent_id key_fp verify (some g) db =
    if is_some g.revoked_at
    then (ok (status_only claim_revoked), db)
    else if leb_ℤ g.expires_at now
    then (ok (status_only claim_expired), db)
    else if is_some g.redeemed_at
    then (ok (status_only claim_already_redeemed), db)
    else prove io id now agent_id key_fp g (verify g.secret) db

unfoldable pub claim_grant :
    Io
    → Bytes
    → Int64
    → Bytes
    → Bytes
    → (Bytes → Result Messages.Error Bool)
    → Db
    → Outcome ClaimResult
unfolding claim_row
claim_grant io id now agent_id key_fp verify db =
    if io begin_immediate
    then (err (failed begin_immediate), db)
    else if io select_claimed
    then (err (failed select_claimed), db)
    else claim_row io id now agent_id key_fp verify (find_grant id db.grants) db
