-- ===== src/Store/Claim/Marked.antt =====
-- The rows of a grant before and after its redemption (ClaimGrant of go/signer/store/store.go).
use grantd.Base.{
  ◌≡◌, ◌≢◌, ◌⊎◌, inl, inr, refl, ap, ◌∙◌, Bool-cases, true, false, none, some, List, [], ◌∷◌, Bytes,
  Int64, arith, eq_bytes, eq_bytes_iff,
}
use grantd.Store.Tables.{GrantRow, update_where}
use grantd.Store.Claim.{unredeemed, redeem_row}
use grantd.Store.Claim.Laws.{consumed}

-- The row of a grant before and after its redemption.
pub record Redeemed (now : Int64) (agent_id key_fp : Bytes) (g g' : GrantRow) : Type 0 where
  pub same_id : g'.id ≡ g.id
  pub same_secret : g'.secret ≡ g.secret
  pub same_user : g'.ssh_user ≡ g.ssh_user
  pub same_created : g'.created_at ≡ g.created_at
  pub same_expiry : g'.expires_at ≡ g.expires_at
  pub same_revoked : g'.revoked_at ≡ g.revoked_at
  pub same_published : g'.published_at ≡ g.published_at
  pub redeemed : g'.redeemed_at ≡ some now
  pub by_agent : g'.redeemed_agent_id ≡ some agent_id
  pub with_key : g'.redeemed_key_fp ≡ some key_fp

-- The table before and after: the rows of the grant that are not redeemed are, the others are kept.
pub data Marked (id : Bytes) (now : Int64) (agent_id key_fp : Bytes)
    : List GrantRow → List GrantRow → Type 0 where
  no_row : Marked id now agent_id key_fp [] []
  marked :
      {gs gs' : List GrantRow} (g g' : GrantRow)
      → g.id ≡ id
      → g.redeemed_at ≡ none
      → Redeemed now agent_id key_fp g g'
      → Marked id now agent_id key_fp gs gs'
      → Marked id now agent_id key_fp (g ∷ gs) (g' ∷ gs')
  kept :
      {gs gs' : List GrantRow} (g : GrantRow)
      → ((g.id ≢ id) ⊎ (g.redeemed_at ≢ none))
      → Marked id now agent_id key_fp gs gs'
      → Marked id now agent_id key_fp (g ∷ gs) (g ∷ gs')

module _ (id : Bytes) (now : Int64) (agent_id key_fp : Bytes) where
  redeem_row-Redeemed :
      (g : GrantRow) → Redeemed now agent_id key_fp g (redeem_row now agent_id key_fp g)
  unfolding redeem_row
  redeem_row-Redeemed g = record {
    same_id = refl;
    same_secret = refl;
    same_user = refl;
    same_created = refl;
    same_expiry = refl;
    same_revoked = refl;
    same_published = refl;
    redeemed = refl;
    by_agent = refl;
    with_key = refl;
  }

  Redeemed-redeem_row :
      (g g' : GrantRow) → Redeemed now agent_id key_fp g g' → g' ≡ redeem_row now agent_id key_fp g
  unfolding redeem_row
  Redeemed-redeem_row g g' r = λ i. record {
    id = r.same_id i;
    secret = r.same_secret i;
    ssh_user = r.same_user i;
    created_at = r.same_created i;
    expires_at = r.same_expiry i;
    redeemed_at = r.redeemed i;
    revoked_at = r.same_revoked i;
    redeemed_agent_id = r.by_agent i;
    redeemed_key_fp = r.with_key i;
    published_at = r.same_published i;
  }

  unredeemed-true : (g : GrantRow) → unredeemed id g ≡ true → (g.id ≡ id) × (g.redeemed_at ≡ none)
  unfolding unredeemed
  unredeemed-true g h = (ground (arith, eq_bytes_iff g.id id), ground arith)

  unredeemed-false : (g : GrantRow) → unredeemed id g ≡ false → (g.id ≢ id) ⊎ (g.redeemed_at ≢ none)
  unfolding unredeemed
  unredeemed-false g h = elim (Bool-cases (eq_bytes g.id id)) [
    | inl e ↦ inr (λ n. ground arith)
    | inr e ↦ inl (λ n. ground (arith, eq_bytes_iff g.id id))
  ]

  true-unredeemed : (g : GrantRow) → g.id ≡ id → g.redeemed_at ≡ none → unredeemed id g ≡ true
  unfolding unredeemed
  true-unredeemed g e n = ground (arith, eq_bytes_iff g.id id)

  false-unredeemed :
      (g : GrantRow) → ((g.id ≢ id) ⊎ (g.redeemed_at ≢ none)) → unredeemed id g ≡ false
  unfolding unredeemed
  false-unredeemed g (inl n) = ground (arith, eq_bytes_iff g.id id)
  false-unredeemed g (inr n) = elim (Bool-cases (unredeemed id g)) [
    | inl e ↦ absurd (n (unredeemed-true g e).1)
    | inr e ↦ e
  ]

  pub consumed-Marked :
      (gs : List GrantRow) → Marked id now agent_id key_fp gs (consumed id now agent_id key_fp gs)
  unfolding consumed update_where
  consumed-Marked [] = no_row
  consumed-Marked (g ∷ gs) = elim (Bool-cases (unredeemed id g)) [
    | inl e ↦
        let (i, n) = unredeemed-true g e in
        rw e (
          marked g (redeem_row now agent_id key_fp g) i n (redeem_row-Redeemed g)
            (consumed-Marked gs))
    | inr e ↦ rw e (kept g (unredeemed-false g e) (consumed-Marked gs))
  ]

  pub Marked-consumed :
      {gs gs' : List GrantRow}
      → Marked id now agent_id key_fp gs gs'
      → gs' ≡ consumed id now agent_id key_fp gs
  unfolding consumed update_where
  Marked-consumed no_row = refl
  Marked-consumed (marked {gs} {gs'} g g' i n r m) = rw (true-unredeemed g i n) (
      ap (λ x. x ∷ gs') (Redeemed-redeem_row g g' r)
      ∙ ap (λ xs. redeem_row now agent_id key_fp g ∷ xs) (Marked-consumed m))
  Marked-consumed (kept g n m) = rw (false-unredeemed g n) (ap (λ xs. g ∷ xs) (Marked-consumed m))
