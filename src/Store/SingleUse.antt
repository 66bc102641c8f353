-- ===== src/Store/SingleUse.antt =====
-- A grant is consumed once, in every history of the store. A history is a list of calls: each is one
-- transaction, or one statement, of SQLite, so that every interleaving of concurrent callers is such
-- a list. Each call comes with the failures that it meets.
use grantd.Base.{
  ℕ, ◌+◌, ◌≤◌, ◌≡◌, refl, Bool, true, false, not, ◌&&◌, ◌||◌, some, List, [], ◌∷◌, ◌++◌, Bytes,
  Int64, Result, ok, err, arith, All, eq_bytes, eq_bytes_iff, if◌then◌else◌, Bool-cases, inl, inr,
  ltb_ℤ, sub64,
}
use mathlib.Core.Bool.{false≢true}
use grantd.Protocol.Messages
use grantd.Store.Tables.{
  Io, Error, HostRow, GrantRow, CertificateRow, Db, find_grant, update_where, keep_where, is_some,
}
use grantd.Store.Host.{set_host}
use grantd.Store.Grants.{
  create_grant, mark_published, revoke_grant, purge_expired, new_row, has_id, publish_row,
  revoke_row, unrevoked,
}
use grantd.Store.Nonces.{remember_nonce}
use grantd.Store.Claim.{ClaimStatus, ClaimResult, claim_ok, claim_grant, unredeemed, redeem_row}
use grantd.Store.Claim.Laws.{consumed, claim_grant-ok, claim_grant-cases}
use grantd.Store.Certificates.{record_certificate}

-- The calls that write.
pub data Call : Type 0 where
  sets_host : HostRow → Call
  creates : GrantRow → Call
  marks_published : Bytes → Int64 → Call
  revokes : Bytes → Int64 → Call
  purges : Int64 → Int64 → Call
  remembers : Bytes → Bytes → Int64 → Int64 → Call
  claims : Bytes → Int64 → Bytes → Bytes → (Bytes → Result Messages.Error Bool) → Call
  records : CertificateRow → Call

unfoldable pub step : Io → Call → Db → Db
step io (sets_host h) db = (set_host io h db).1
step io (creates g) db = (create_grant io g db).1
step io (marks_published id at) db = (mark_published io id at db).1
step io (revokes id at) db = (revoke_grant io id at db).1
step io (purges now retain) db = (purge_expired io now retain db).1
step io (remembers scope nonce now window) db = (remember_nonce io scope nonce now window db).1
step io (claims id now agent_id key_fp verify) db =
    (claim_grant io id now agent_id key_fp verify db).1
step io (records c) db = (record_certificate io c db).1

unfoldable pub is_claim_ok : Result Error ClaimResult → Bool
is_claim_ok (err e) = false
is_claim_ok (ok c) = elim c.status [ ClaimStatus.claim_ok ↦ true | _ ↦ false ]

-- Whether a call is a claim of this grant that returns ClaimOK.
unfoldable pub wins : Bytes → Io → Call → Db → Bool
wins g io (claims id now agent_id key_fp verify) db =
    eq_bytes id g && is_claim_ok (claim_grant io id now agent_id key_fp verify db).0
wins g io _ db = false

unfoldable pub count_wins : Bytes → List (Io × Call) → Db → ℕ
count_wins g [] db = 0
count_wins g ((io, c) ∷ cs) db = (if wins g io c db then 1 else 0) + count_wins g cs (step io c db)

unfoldable pub creates_id : Bytes → Call → Bool
creates_id g (creates row) = eq_bytes row.id g
creates_id g _ = false

-- Every row of the grant is redeemed.
spent : Bytes → List GrantRow → Bool
spent g [] = true
spent g (r ∷ rs) = (not (eq_bytes r.id g) || is_some r.redeemed_at) && spent g rs

spent-append :
    (g : Bytes) (r : GrantRow) (rs : List GrantRow)
    → eq_bytes r.id g ≡ false
    → spent g rs ≡ true
    → spent g (rs ++ r ∷ []) ≡ true
unfolding spent
spent-append g r [] h s = rw h refl
spent-append g r (x ∷ rs) h s = ground (arith, spent-append g r rs h)

-- An update that keeps the id and does not clear the redemption.
record Mild (f : GrantRow → GrantRow) : Type 0 where
  same_id : (r : GrantRow) → (f r).id ≡ r.id
  stays : (r : GrantRow) → is_some r.redeemed_at ≡ true → is_some (f r).redeemed_at ≡ true

spent-update :
    (g : Bytes) (p : GrantRow → Bool) (f : GrantRow → GrantRow) (rs : List GrantRow)
    → Mild f
    → spent g rs ≡ true
    → spent g (update_where p f rs) ≡ true
unfolding spent update_where
spent-update g p f [] m s = refl
spent-update g p f (r ∷ rs) m s = ground (arith, spent-update g p f rs m, m.same_id r, m.stays r)

spent-keep :
    (g : Bytes) (p : GrantRow → Bool) (rs : List GrantRow)
    → spent g rs ≡ true
    → spent g (keep_where p rs) ≡ true
unfolding spent keep_where
spent-keep g p [] s = refl
spent-keep g p (r ∷ rs) s = ground (arith, spent-keep g p rs)

spent-consumed :
    (g : Bytes) (now : Int64) (agent_id key_fp : Bytes) (rs : List GrantRow)
    → spent g (consumed g now agent_id key_fp rs) ≡ true
unfolding spent consumed update_where unredeemed redeem_row
spent-consumed g now agent_id key_fp [] = refl
spent-consumed g now agent_id key_fp (r ∷ rs) =
    ground (arith, spent-consumed g now agent_id key_fp rs)

spent-find :
    (g : Bytes) (r : GrantRow) (rs : List GrantRow)
    → spent g rs ≡ true
    → find_grant g rs ≡ some r
    → is_some r.redeemed_at ≡ true
unfolding spent find_grant
spent-find g r [] s h = cc
spent-find g r (x ∷ rs) s h = ground (arith, spent-find g r rs)

Mild-redeem : (now : Int64) (agent_id key_fp : Bytes) → Mild (redeem_row now agent_id key_fp)
unfolding redeem_row
Mild-redeem now agent_id key_fp = record { same_id = λ r. refl; stays = λ r h. refl }

Mild-publish : (at : Int64) → Mild (publish_row at)
unfolding publish_row
Mild-publish at = record { same_id = λ r. refl; stays = λ r h. h }

Mild-revoke : (at : Int64) → Mild (revoke_row at)
unfolding revoke_row
Mild-revoke at = record { same_id = λ r. refl; stays = λ r h. h }

claim-spent :
    (g : Bytes) (io : Io) (id : Bytes) (now : Int64) (agent_id key_fp : Bytes)
    (verify : Bytes → Result Messages.Error Bool) (db : Db)
    → spent g db.grants ≡ true
    → spent g (claim_grant io id now agent_id key_fp verify db).1.grants ≡ true
claim-spent g io id now agent_id key_fp verify db s =
    elim (claim_grant-cases io id now agent_id key_fp verify db) [
      | inl e ↦ rw e s
      | inr e ↦ rw e (
          unfold consumed in
          spent-update g (unredeemed id) _ db.grants (Mild-redeem now agent_id key_fp) s)
    ]

-- Whatever call but a creation of the grant keeps it spent.
step-spent :
    (g : Bytes) (io : Io) (c : Call) (db : Db)
    → creates_id g c ≡ false
    → spent g db.grants ≡ true
    → spent g (step io c db).grants ≡ true
unfolding step creates_id set_host create_grant mark_published revoke_grant purge_expired
    remember_nonce record_certificate
step-spent g io (sets_host h) db n s = ground arith
step-spent g io (creates row) db n s = ground (
  arith,
  spent-append g (new_row row.id row.secret row.ssh_user row.created_at row.expires_at) db.grants,
)
step-spent g io (marks_published id at) db n s =
    ground (arith, spent-update g (has_id id) (publish_row at) db.grants (Mild-publish at) s)
step-spent g io (revokes id at) db n s =
    ground (arith, spent-update g (unrevoked id) (revoke_row at) db.grants (Mild-revoke at) s)
step-spent g io (purges now retain) db n s = ground (
  arith,
  spent-keep g (λ (r : GrantRow). not (ltb_ℤ r.expires_at (sub64 now retain))) db.grants s,
)
step-spent g io (remembers scope nonce now window) db n s = ground arith
step-spent g io (claims id now agent_id key_fp verify) db n s =
    claim-spent g io id now agent_id key_fp verify db s
step-spent g io (records row) db n s = ground arith

-- A spent grant is not won.
is_claim_ok-status :
    (r : Result Error ClaimResult)
    → is_claim_ok r ≡ true
    → (c : ClaimResult) × (r ≡ ok c) × (c.status ≡ claim_ok)
unfolding is_claim_ok
is_claim_ok-status (err e) h = absurd (false≢true h)
is_claim_ok-status (ok c) h = (c, refl, ground arith)

spent-loses :
    (g : Bytes) (io : Io) (now : Int64) (agent_id key_fp : Bytes)
    (verify : Bytes → Result Messages.Error Bool) (db : Db)
    → spent g db.grants ≡ true
    → is_claim_ok (claim_grant io g now agent_id key_fp verify db).0 ≡ true
    → ⊥
spent-loses g io now agent_id key_fp verify db s h =
    let (c, e, k) = is_claim_ok-status _ h in
    let before = claim_grant io g now agent_id key_fp verify db in
    let (r, w) =
      claim_grant-ok io g now agent_id key_fp verify db before.1 c (λ i. (e i, before.1)) k in
    ground (arith, spent-find g r db.grants s w.found, w.not_redeemed)

claim-wins :
    (g id : Bytes) (io : Io) (now : Int64) (agent_id key_fp : Bytes)
    (verify : Bytes → Result Messages.Error Bool) (db : Db)
    → id ≡ g
    → is_claim_ok (claim_grant io id now agent_id key_fp verify db).0 ≡ true
    → spent g (claim_grant io id now agent_id key_fp verify db).1.grants ≡ true
claim-wins g id io now agent_id key_fp verify db same h =
    let (c, e, k) = is_claim_ok-status _ h in
    let before = claim_grant io id now agent_id key_fp verify db in
    let (r, w) =
      claim_grant-ok io id now agent_id key_fp verify db before.1 c (λ i. (e i, before.1)) k in
    rw (w.after, same) (spent-consumed g now agent_id key_fp db.grants)

wins-spent :
    (g : Bytes) (io : Io) (c : Call) (db : Db)
    → wins g io c db ≡ true
    → spent g (step io c db).grants ≡ true
unfolding wins step
wins-spent g io (claims id now agent_id key_fp verify) db h =
    claim-wins g id io now agent_id key_fp verify db ((eq_bytes_iff id g).0 (ground arith))
      (ground arith)
wins-spent g io _ db h = absurd (false≢true h)

spent-wins :
    (g : Bytes) (io : Io) (c : Call) (db : Db) → spent g db.grants ≡ true → wins g io c db ≡ false
unfolding wins
spent-wins g io (claims id now agent_id key_fp verify) db s =
    elim (Bool-cases (wins g io (claims id now agent_id key_fp verify) db)) [
      | inl h ↦
          let same : id ≡ g = (eq_bytes_iff id g).0 (ground arith) in
          absurd (spent-loses id io now agent_id key_fp verify db (rw same s) (ground arith))
      | inr h ↦ h
    ]
spent-wins g io _ db s = refl

count_wins-spent :
    (g : Bytes) (cs : List (Io × Call)) (db : Db)
    → All (λ e. creates_id g e.1 ≡ false) cs
    → spent g db.grants ≡ true
    → count_wins g cs db ≡ 0
unfolding count_wins
count_wins-spent g [] db n s = refl
count_wins-spent g ((io, c) ∷ cs) db n s =
    rw (spent-wins g io c db s)
      (omega (arith, count_wins-spent g cs (step io c db) n.1 (step-spent g io c db n.0 s)))

-- In a history of calls none of which creates the grant, from any state of the store and whatever the
-- failures of the database, at most one claim of the grant returns ClaimOK.
pub count_wins-le-one :
    (g : Bytes) (cs : List (Io × Call)) (db : Db)
    → All (λ e. creates_id g e.1 ≡ false) cs
    → count_wins g cs db ≤ 1
unfolding count_wins
count_wins-le-one g [] db n = omega arith
count_wins-le-one g ((io, c) ∷ cs) db n = elim (Bool-cases (wins g io c db)) [
  | inl won ↦
      rw won (omega (arith, count_wins-spent g cs (step io c db) n.1 (wins-spent g io c db won)))
  | inr lost ↦ rw lost (omega (arith, count_wins-le-one g cs (step io c db) n.1))
]
