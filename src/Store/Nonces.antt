-- ===== src/Store/Nonces.antt =====
-- go/signer/store/store.go: RememberNonce.
pub mod History
use grantd.Base.{
  Bool, not, ◌&&◌, List, [], ◌∷◌, ◌++◌, Bytes, Int64, sub64, ltb_ℤ, ok, err, eq_bytes,
  if◌then◌else◌,
}
use grantd.Store.Tables.{
  Io, prune_nonces, insert_nonce, nonce_replay, failed, NonceRow, Db, Outcome, any_row, keep_where,
}

unfoldable pub same_nonce : Bytes → Bytes → NonceRow → Bool
same_nonce scope nonce n = eq_bytes n.scope scope && eq_bytes n.nonce nonce

-- DELETE FROM nonces WHERE seen_at < ?
unfoldable pub delete_older : Int64 → List NonceRow → List NonceRow
delete_older limit = keep_where (λ n. not (ltb_ℤ n.seen_at limit))

-- INSERT OR IGNORE, and the count of rows that it affected.
pub insert_or_ignore : Io → NonceRow → Db → Outcome (Unit {0})
unfolding same_nonce
insert_or_ignore io row db =
    if io insert_nonce
    then (err (failed insert_nonce), db)
    else if any_row (same_nonce row.scope row.nonce) db.nonces
    then (err nonce_replay, db)
    else (ok tt, record db { nonces = db.nonces ++ row ∷ [] })

unfoldable pub remember_nonce : Io → Bytes → Bytes → Int64 → Int64 → Db → Outcome (Unit {0})
unfolding insert_or_ignore delete_older
remember_nonce io scope nonce now window db =
    if io prune_nonces
    then (err (failed prune_nonces), db)
    else insert_or_ignore io (record { scope = scope; nonce = nonce; seen_at = now })
        (record db { nonces = delete_older (sub64 now window) db.nonces })
