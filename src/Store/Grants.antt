-- ===== src/Store/Grants.antt =====
-- go/signer/store/store.go: the grants table without the claim.
pub mod Pending
use grantd.Base.{
  ℕ, Bool, not, ◌&&◌, Option, none, some, List, [], ◌∷◌, ◌++◌, map, Bytes, Int64, Result, ok, err,
  sub64, ltb_ℤ, leb_ℤ, length, eq_bytes, if◌then◌else◌,
}
use grantd.Store.Tables.{
  Io, insert_grant, update_published, select_pending, select_grants, select_grant, update_revoked,
  delete_grants, delete_nonces, count_active, Error, grant_not_found, failed, constraint, GrantRow,
  Db, Outcome, find_grant, update_where, any_row, keep_where, is_some,
}
use grantd.Store.Nonces.{delete_older}

-- A view is the row without its secret; COALESCE makes an empty text of NULL.
pub record GrantView : Type 0 where
  pub id : Bytes
  pub ssh_user : Bytes
  pub created_at : Int64
  pub expires_at : Int64
  pub redeemed_at : Option Int64
  pub revoked_at : Option Int64
  pub redeemed_agent_id : Bytes
  pub redeemed_key_fp : Bytes
  pub published_at : Option Int64

coalesce : Option Bytes → Bytes
coalesce none = []
coalesce (some b) = b

unfoldable pub view : GrantRow → GrantView
unfolding coalesce
view g = record {
  id = g.id;
  ssh_user = g.ssh_user;
  created_at = g.created_at;
  expires_at = g.expires_at;
  redeemed_at = g.redeemed_at;
  revoked_at = g.revoked_at;
  redeemed_agent_id = coalesce g.redeemed_agent_id;
  redeemed_key_fp = coalesce g.redeemed_key_fp;
  published_at = g.published_at;
}

unfoldable pub has_id : Bytes → GrantRow → Bool
has_id id g = eq_bytes g.id id

-- The columns that the INSERT does not name are NULL.
unfoldable pub new_row : Bytes → Bytes → Bytes → Int64 → Int64 → GrantRow
new_row id secret ssh_user created_at expires_at = record {
  id = id;
  secret = secret;
  ssh_user = ssh_user;
  created_at = created_at;
  expires_at = expires_at;
  redeemed_at = none;
  revoked_at = none;
  redeemed_agent_id = none;
  redeemed_key_fp = none;
  published_at = none;
}

unfoldable pub create_grant : Io → GrantRow → Db → Outcome (Unit {0})
unfolding has_id new_row
create_grant io g db =
    if io insert_grant
    then (err (failed insert_grant), db)
    else if any_row (has_id g.id) db.grants
    then (err (constraint insert_grant), db)
    else (
      ok tt,
      record db {
        grants = db.grants ++ new_row g.id g.secret g.ssh_user g.created_at g.expires_at ∷ [];
      },
    )

unfoldable pub publish_row : Int64 → GrantRow → GrantRow
publish_row at g = record g { published_at = some at }

unfoldable pub mark_published : Io → Bytes → Int64 → Db → Outcome (Unit {0})
unfolding has_id publish_row
mark_published io id at db =
    if io update_published
    then (err (failed update_published), db)
    else (ok tt, record db { grants = update_where (has_id id) (publish_row at) db.grants })

unfoldable pub get_grant_view : Io → Bytes → Db → Result Error GrantView
get_grant_view io id db =
    if io select_grant
    then err (failed select_grant)
    else elim (find_grant id db.grants) [ none ↦ err grant_not_found | some g ↦ ok (view g) ]

-- WHERE id = ? AND revoked_at IS NULL
pub unrevoked : Bytes → GrantRow → Bool
unrevoked id g = eq_bytes g.id id && not (is_some g.revoked_at)

unfoldable pub revoke_row : Int64 → GrantRow → GrantRow
revoke_row at g = record g { revoked_at = some at }

-- With no row affected the grant is read, to tell a missing one from one that was revoked before.
no_row_revoked : Result Error GrantView → Result Error (Unit {0})
no_row_revoked (ok v) = ok tt
no_row_revoked (err e) = err e

unfoldable pub revoke_grant : Io → Bytes → Int64 → Db → Outcome (Unit {0})
unfolding unrevoked revoke_row no_row_revoked get_grant_view
revoke_grant io id at db =
    if io update_revoked
    then (err (failed update_revoked), db)
    else if any_row (unrevoked id) db.grants
    then (ok tt, record db { grants = update_where (unrevoked id) (revoke_row at) db.grants })
    else (no_row_revoked (get_grant_view io id db), db)

-- The number of deleted grants; it is returned beside the error of the second statement too, which
-- no caller reads.
unfoldable pub purge_expired : Io → Int64 → Int64 → Db → Outcome ℕ
purge_expired io now retain db =
    let limit = sub64 now retain in
    let kept = keep_where (λ g. not (ltb_ℤ g.expires_at limit)) db.grants in
    let gone = keep_where (λ g. ltb_ℤ g.expires_at limit) db.grants in
    if io delete_grants
    then (err (failed delete_grants), db)
    else if io delete_nonces
    then (err (failed delete_nonces), record db { grants = kept })
    else (ok (length gone), record db { grants = kept; nonces = delete_older limit db.nonces })

-- ORDER BY created_at: rows with equal times, whose order SQL leaves open, keep theirs.
insert_sorted : (GrantRow → GrantRow → Bool) → GrantRow → List GrantRow → List GrantRow
insert_sorted before g [] = g ∷ []
insert_sorted before g (h ∷ hs) = if before g h then g ∷ h ∷ hs else h ∷ insert_sorted before g hs

unfoldable pub order_by : (GrantRow → GrantRow → Bool) → List GrantRow → List GrantRow
unfolding insert_sorted
order_by before [] = []
order_by before (g ∷ gs) = insert_sorted before g (order_by before gs)

unfoldable pub is_pending : Int64 → GrantRow → Bool
is_pending now g =
    not (is_some g.published_at) && not (is_some g.revoked_at) && ltb_ℤ now g.expires_at

unfoldable pub pending_publications : Io → Int64 → Db → Result Error (List GrantRow)
unfolding is_pending
pending_publications io now db =
    if io select_pending
    then err (failed select_pending)
    else ok
        (order_by (λ g h. leb_ℤ g.created_at h.created_at) (keep_where (is_pending now) db.grants))

unfoldable pub list_grants : Io → Db → Result Error (List GrantView)
list_grants io db =
    if io select_grants
    then err (failed select_grants)
    else ok (map view (order_by (λ g h. leb_ℤ h.created_at g.created_at) db.grants))

unfoldable pub is_active : Int64 → GrantRow → Bool
is_active now g =
    ltb_ℤ now g.expires_at && not (is_some g.redeemed_at) && not (is_some g.revoked_at)

unfoldable pub active_grant_count : Io → Int64 → Db → Result Error ℕ
active_grant_count io now db =
    if io count_active
    then err (failed count_active)
    else ok (length (keep_where (is_active now) db.grants))
