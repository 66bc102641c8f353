-- ===== src/Store/Tests.antt =====
-- The store at a small state.
use grantd.Base.{
  All, ◌↔◌, ◌≤◌, ◌≡◌, ◌≢◌, refl, Bool, true, false, none, some, List, [], ◌∷◌, Bytes, pos, Result,
  ok, codes, arith, eq_bytes,
}
use grantd.Protocol.Messages
use grantd.Store.Tables.{Io, working, GrantRow, Db, empty_db, find_grant, update_where, Statement}
use grantd.Store.Tables.{any_row, keep_where}
use grantd.Store.Nonces.{remember_nonce}
use grantd.Store.Nonces.History.{after, Recent, remember_nonce-refused}
use grantd.Store.Claim.{ClaimResult, claim_ok, claim_grant}
use grantd.Store.Claim.Laws.{claim_grant-keeps}
use grantd.Store.Claim.Exact.{Wins, claim_grant_iff}
use grantd.Store.SingleUse.{
  Call, claims, revokes, remembers, purges, count_wins, count_wins-le-one, creates_id,
}

abbrev row : GrantRow
row = record {
  id = codes "g";
  secret = codes "s";
  ssh_user = codes "u";
  created_at = pos 0;
  expires_at = pos 100;
  redeemed_at = none;
  revoked_at = none;
  redeemed_agent_id = none;
  redeemed_key_fp = none;
  published_at = none;
}

abbrev db : Db
db = record empty_db { grants = row ∷ [] }

abbrev accepts : Bytes → Result Messages.Error Bool
accepts secret = ok true

abbrev won : ClaimResult
won = record { status = claim_ok; ssh_user = codes "u"; expires_at = pos 100 }

abbrev db_after : Db
db_after = record empty_db {
  grants =
      record row {
        redeemed_at = some (pos 50);
        redeemed_agent_id = some (codes "a");
        redeemed_key_fp = some (codes "k");
      }
      ∷ [];
}

first_claim :
    claim_grant working (codes "g") (pos 50) (codes "a") (codes "k") accepts db ≡ (ok won, db_after)
unfolding claim_grant find_grant update_where eq_bytes
first_claim = refl

claim_grant_iff_example :
    ((claim_grant working (codes "g") (pos 50) (codes "a") (codes "k") accepts db
        ≡ (ok won, db_after))
      × (won.status ≡ claim_ok))
    ↔ Wins working (codes "g") (pos 50) (codes "a") (codes "k") accepts db won db_after
claim_grant_iff_example =
    claim_grant_iff working (codes "g") (pos 50) (codes "a") (codes "k") accepts db db_after won

first_claim-Wins : Wins working (codes "g") (pos 50) (codes "a") (codes "k") accepts db won db_after
first_claim-Wins =
    (claim_grant_iff working (codes "g") (pos 50) (codes "a") (codes "k") accepts db db_after won).0
      (first_claim, refl)

-- The commit fails.
abbrev no_commit : Io
no_commit Statement.commit = true
no_commit _ = false

lost_commit :
    (c : ClaimResult)
    → c.status ≡ claim_ok
    → (claim_grant no_commit (codes "g") (pos 50) (codes "a") (codes "k") accepts db).0 ≢ ok c
unfolding claim_grant find_grant eq_bytes
lost_commit c s = ground arith

claim_grant-keeps_example :
    (claim_grant no_commit (codes "g") (pos 50) (codes "a") (codes "k") accepts db).1 ≡ db
claim_grant-keeps_example =
    claim_grant-keeps no_commit (codes "g") (pos 50) (codes "a") (codes "k") accepts db lost_commit

-- A claim, a revocation and two more claims.
abbrev history : List (Io × Call)
history =
    (working, claims (codes "g") (pos 50) (codes "a") (codes "k") accepts)
    ∷ (working, claims (codes "g") (pos 51) (codes "b") (codes "l") accepts)
    ∷ (working, revokes (codes "g") (pos 52))
    ∷ (working, claims (codes "g") (pos 53) (codes "a") (codes "k") accepts)
    ∷ []

count_wins-le-one_example : count_wins (codes "g") history db ≤ 1
unfolding creates_id
count_wins-le-one_example =
    count_wins-le-one (codes "g") history db (refl, (refl, (refl, (refl, tt))))

abbrev db_remembered : Db
db_remembered = record empty_db {
  nonces = record { scope = codes "redeem"; nonce = 7 ∷ []; seen_at = pos 1000 } ∷ [];
}

nonce_remembered :
    remember_nonce working (codes "redeem") (7 ∷ []) (pos 1000) (pos 480) empty_db
    ≡ (ok tt, db_remembered)
unfolding remember_nonce any_row keep_where
nonce_remembered = refl

-- Another redemption, a revocation and a purge.
abbrev meanwhile : List (Io × Call)
meanwhile =
    (working, remembers (codes "redeem") (8 ∷ []) (pos 1050) (pos 480))
    ∷ (working, revokes (codes "g") (pos 1060))
    ∷ (working, purges (pos 1070) (pos 2592000))
    ∷ []

recent : All (λ e. Recent 1000 e.1) meanwhile
recent = (
  (1050, 480, refl, refl, omega arith, omega arith, omega arith),
  (tt, ((1070, 2592000, refl, refl, omega arith, omega arith, omega arith), tt)),
)

remember_nonce-refused_example :
    (remember_nonce working
      (codes "redeem")
      (7 ∷ [])
      (pos 1100)
      (pos 480)
      (after meanwhile db_remembered)).0
    ≢ ok tt
remember_nonce-refused_example =
    remember_nonce-refused (codes "redeem") (7 ∷ []) 1000 (omega arith) working working (pos 480)
      (pos 1100) (pos 480) meanwhile empty_db db_remembered nonce_remembered recent
      (1100, 480, refl, refl, omega arith, omega arith, omega arith)
