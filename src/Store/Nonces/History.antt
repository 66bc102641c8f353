-- ===== src/Store/Nonces/History.antt =====
-- A nonce that has been remembered is refused while it is kept, whatever the store is called for
-- meanwhile.
use grantd.Base.{
  ℕ, ◌+◌, ◌^◌, ◌≤◌, ◌<◌, ◌≡◌, ◌≢◌, Bool, true, false, not, ◌&&◌, List, [], ◌∷◌, ◌++◌, All, Bytes,
  Int64, inl, inr, pos, sub64, ltb_ℤ, of_bits64, bits64, ok, arith, eq_bytes_refl,
}
use grantd.Store.Tables.{Io, NonceRow, Db, any_row, keep_where}
use grantd.Store.Host.{set_host}
use grantd.Store.Grants.{create_grant, mark_published, revoke_grant, purge_expired}
use grantd.Store.Claim.Laws.{claim_grant-cases}
use grantd.Store.Certificates.{record_certificate}
use grantd.Store.Nonces.{same_nonce, delete_older, insert_or_ignore, remember_nonce}
use grantd.Store.SingleUse.{
  Call, sets_host, creates, marks_published, revokes, purges, remembers, claims, records, step,
}

-- The state after a history of calls, each with its failures.
abbrev pub after : List (Io × Call) → Db → Db
after [] db = db
after ((io, c) ∷ cs) db = after cs (step io c db)

-- A time that is at most a window after another one, both in the range of an int64.
abbrev pub InWindow : ℕ → Int64 → Int64 → Type 0
InWindow now at window =
    (t : ℕ) × (w : ℕ) × (at ≡ pos t)
    × (window ≡ pos w)
    × (t < 2 ^ 63)
    × (w < 2 ^ 63)
    × (t ≤ now + w)

-- The calls that delete nonces do so within their window.
abbrev pub Recent : ℕ → Call → Type 0
Recent now (remembers scope nonce at window) = InWindow now at window
Recent now (purges at retain) = InWindow now at retain
Recent now _ = Unit {0}

-- A row of the nonce that was seen at this time or later.
is_seen : Bytes → Bytes → ℕ → NonceRow → Bool
unfolding same_nonce
is_seen scope nonce now n = same_nonce scope nonce n && not (ltb_ℤ n.seen_at (pos now))

module _ (scope nonce : Bytes) (now : ℕ) (in_range : now < 2 ^ 63) where
  abbrev Seen : List NonceRow → Type 0
  Seen xs = any_row (is_seen scope nonce now) xs ≡ true

  limit-early :
      (at window : Int64) → InWindow now at window → ltb_ℤ (pos now) (sub64 at window) ≡ false
  unfolding sub64 of_bits64 bits64
  limit-early at window (t, w, a, b, c, d, e) = rw (a, b) (ground arith)

  Seen-append : (xs : List NonceRow) (r : NonceRow) → Seen xs → Seen (xs ++ r ∷ [])
  unfolding any_row
  Seen-append [] r h = absurd (ground arith)
  Seen-append (x ∷ xs) r h = ground (arith, Seen-append xs r)

  Seen-last :
      (xs : List NonceRow) (r : NonceRow) → is_seen scope nonce now r ≡ true → Seen (xs ++ r ∷ [])
  unfolding any_row
  Seen-last [] r h = ground arith
  Seen-last (x ∷ xs) r h = ground (arith, Seen-last xs r)

  is_seen-stays :
      (limit : Int64) (n : NonceRow)
      → ltb_ℤ (pos now) limit ≡ false
      → is_seen scope nonce now n ≡ true
      → ltb_ℤ n.seen_at limit ≡ false
  unfolding is_seen
  is_seen-stays limit n l h = ground arith

  Seen-delete_older :
      (limit : Int64) (xs : List NonceRow)
      → ltb_ℤ (pos now) limit ≡ false
      → Seen xs
      → Seen (delete_older limit xs)
  unfolding any_row delete_older keep_where
  Seen-delete_older limit [] l h = h
  Seen-delete_older limit (x ∷ xs) l h =
      ground (arith, Seen-delete_older limit xs l, is_seen-stays limit x l)

  remember_nonce-Seen :
      (io : Io) (s n : Bytes) (at window : Int64) (db : Db)
      → InWindow now at window
      → Seen db.nonces
      → Seen (remember_nonce io s n at window db).1.nonces
  unfolding remember_nonce insert_or_ignore
  remember_nonce-Seen io s n at window db w h =
      let kept = Seen-delete_older (sub64 at window) db.nonces (limit-early at window w) h in
      ground (
        arith,
        kept,
        Seen-append (delete_older (sub64 at window) db.nonces)
            (record { scope = s; nonce = n; seen_at = at }) kept,
      )

  step-Seen :
      (io : Io) (c : Call) (db : Db) → Recent now c → Seen db.nonces → Seen (step io c db).nonces
  unfolding step set_host create_grant mark_published revoke_grant purge_expired record_certificate
  step-Seen io (sets_host h) db r s = ground arith
  step-Seen io (creates row) db r s = ground arith
  step-Seen io (marks_published id at) db r s = ground arith
  step-Seen io (revokes id at) db r s = ground arith
  step-Seen io (purges at retain) db r s =
      ground (arith, Seen-delete_older (sub64 at retain) db.nonces (limit-early at retain r) s)
  step-Seen io (remembers sc n at window) db r s = remember_nonce-Seen io sc n at window db r s
  step-Seen io (claims id at agent_id key_fp verify) db r s =
      elim (claim_grant-cases io id at agent_id key_fp verify db) [
        | inl e ↦ rw e s
        | inr e ↦ rw e s
      ]
  step-Seen io (records row) db r s = ground arith

  after-Seen :
      (cs : List (Io × Call)) (db : Db)
      → All (λ e. Recent now e.1) cs
      → Seen db.nonces
      → Seen (after cs db).nonces
  after-Seen [] db r s = s
  after-Seen ((io, c) ∷ cs) db r s = after-Seen cs (step io c db) r.1 (step-Seen io c db r.0 s)

  remembered-Seen :
      (io : Io) (window : Int64) (db db' : Db)
      → remember_nonce io scope nonce (pos now) window db ≡ (ok tt, db')
      → Seen db'.nonces
  unfolding remember_nonce insert_or_ignore
  remembered-Seen io window db db' h =
      let row : NonceRow = record { scope = scope; nonce = nonce; seen_at = pos now } in
      let e : db'.nonces ≡ delete_older (sub64 (pos now) window) db.nonces ++ row ∷ [] =
        ground arith in
      rw e (
        Seen-last _ row
          (unfold is_seen same_nonce in ground (arith, eq_bytes_refl scope, eq_bytes_refl nonce)))

  Seen-any : (xs : List NonceRow) → Seen xs → any_row (same_nonce scope nonce) xs ≡ true
  unfolding any_row is_seen
  Seen-any [] h = absurd (ground arith)
  Seen-any (x ∷ xs) h = ground (arith, Seen-any xs)

  Seen-refused :
      (io : Io) (at window : Int64) (db : Db)
      → InWindow now at window
      → Seen db.nonces
      → (remember_nonce io scope nonce at window db).0 ≢ ok tt
  unfolding remember_nonce insert_or_ignore
  Seen-refused io at window db w s e =
      let found =
        Seen-any _ (Seen-delete_older (sub64 at window) db.nonces (limit-early at window w) s) in
      ground (arith, found)

  -- Once a nonce has been remembered at a time from 1970 on, and whatever the store is called for after
  -- that, in any number and order and with any failures, remembering it again does not succeed: if
  -- that is at most its window later, and the calls in between that delete nonces, which are those
  -- that remember others and the purge, are each at most their own window later.
  pub remember_nonce-refused :
      (io io' : Io) (window at window' : Int64) (cs : List (Io × Call)) (db db' : Db)
      → remember_nonce io scope nonce (pos now) window db ≡ (ok tt, db')
      → All (λ e. Recent now e.1) cs
      → InWindow now at window'
      → (remember_nonce io' scope nonce at window' (after cs db')).0 ≢ ok tt
  remember_nonce-refused io io' window at window' cs db db' h r w =
      Seen-refused io' at window' (after cs db') w
        (after-Seen cs db' r (remembered-Seen io window db db' h))
