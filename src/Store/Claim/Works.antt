-- ===== src/Store/Claim/Works.antt =====
-- When ClaimGrant of go/signer/store/store.go consumes a grant.
use grantd.Base.{◌≡◌, Bool, true, false, none, some, Bytes, Int64, leb_ℤ, Result, ok, arith}
use grantd.Protocol.Messages
use grantd.Store.Tables.{
  Io, Statement, begin_immediate, select_claimed, update_redeemed, commit, GrantRow, Db, find_grant,
  update_where,
}
use grantd.Store.Claim.{claim_ok, unredeemed, redeem_row, consume, prove, claim_row, claim_grant}

-- A live grant whose secret verifies is consumed, if the database works.
pub claim_grant-works :
    (io : Io) (id : Bytes) (now : Int64) (agent_id key_fp : Bytes)
    (verify : Bytes → Result Messages.Error Bool) (db : Db) (g : GrantRow)
    → ((s : Statement) → io s ≡ false)
    → find_grant id db.grants ≡ some g
    → g.revoked_at ≡ none
    → leb_ℤ g.expires_at now ≡ false
    → g.redeemed_at ≡ none
    → verify g.secret ≡ ok true
    → claim_grant io id now agent_id key_fp verify db ≡ (
      ok (record { status = claim_ok; ssh_user = g.ssh_user; expires_at = g.expires_at }),
      record db {
        grants = update_where (unredeemed id) (redeem_row now agent_id key_fp) db.grants;
      },
    )
unfolding claim_grant claim_row prove consume
claim_grant-works io id now agent_id key_fp verify db g works found live_r live_e live_u proved =
    ground (arith, works begin_immediate, works select_claimed, works update_redeemed, works commit)
