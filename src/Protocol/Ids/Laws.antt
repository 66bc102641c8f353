-- ===== src/Protocol/Ids/Laws.antt =====
-- The identifiers that the code makes are those that it accepts.
use grantd.Base.{
  ◌↔◌, Result, ap, ◌∙◌, ℕ, zero, suc, ◌≡◌, ◌≤◌, refl, true, [], ◌∷◌, Bytes, ok, arith, All, length,
  eq_bytes_iff, eq_bytes_refl,
}
use grantd.Std.Base32.{IsByte, b32_encode, b32_encode-class, length-b32_encode}
use grantd.Crypto.{Crypto, IsCrypto}
use grantd.Protocol.Ids.{
  take_bytes, matches_id, valid_grant_id, valid_agent_id, new_grant_id, id_material, agent_id,
  check_agent_id,
}

take_bytes-IsByte : (n : ℕ) (bs : Bytes) → All IsByte bs → All IsByte (take_bytes n bs)
unfolding take_bytes
take_bytes-IsByte zero bs h = tt
take_bytes-IsByte (suc n) [] h = tt
take_bytes-IsByte (suc n) (b ∷ bs) h = (h.0, take_bytes-IsByte n bs h.1)

length-take_bytes : (n : ℕ) (bs : Bytes) → n ≤ length bs → length (take_bytes n bs) ≡ n
unfolding take_bytes
length-take_bytes zero bs h = refl
length-take_bytes (suc n) [] h = absurd (omega arith)
length-take_bytes (suc n) (b ∷ bs) h = omega (arith, length-take_bytes n bs)

-- Ten random bytes always make a well-formed grant id.
pub valid_grant_id-new_grant_id :
    (raw : Bytes) → length raw ≡ 10 → All IsByte raw → valid_grant_id (new_grant_id raw) ≡ true
unfolding valid_grant_id new_grant_id
valid_grant_id-new_grant_id raw h b = ground (arith, length-b32_encode raw, b32_encode-class raw b)

matches-label :
    (p : ℕ) (m : Bytes)
    → length m ≡ 20
    → All IsByte m
    → matches_id p 32 (p ∷ b'_' ∷ b32_encode m) ≡ true
unfolding matches_id
matches-label p m h b = ground (arith, length-b32_encode m, b32_encode-class m b)

ok-inj : {E A : Type 0} (r : Result E A) {a b : A} → r ≡ ok a → r ≡ ok b → a ≡ b
ok-inj r h k = cc

module _ (c : Crypto) (laws : IsCrypto c) where
  material : Bytes → Bytes
  material key = take_bytes 20 (c.sha256 key)

  id_material-eq : (key : Bytes) → length key ≡ 32 → id_material c key ≡ ok (material key)
  unfolding id_material material
  id_material-eq key h = ground arith

  id_material-size :
      (key m : Bytes) → id_material c key ≡ ok m → (length key ≡ 32) × (m ≡ material key)
  unfolding id_material material
  id_material-size key m h = ground arith

  label-matches :
      (p : ℕ) (key : Bytes) → matches_id p 32 (p ∷ b'_' ∷ b32_encode (material key)) ≡ true
  unfolding material
  label-matches p key =
      matches-label p (take_bytes 20 (c.sha256 key))
        (length-take_bytes 20 (c.sha256 key) (omega (arith, laws.length_sha256 key)))
        (take_bytes-IsByte 20 (c.sha256 key) (laws.sha256_bytes key))

  -- A key of 32 bytes has an agent id, which is well formed and passes the check for that key.
  pub check_agent_id-agent_id :
      (key : Bytes)
      → length key ≡ 32
      → (id : Bytes) × (agent_id c key ≡ ok id)
        × (check_agent_id c id key ≡ ok tt)
        × (valid_agent_id id ≡ true)
  unfolding check_agent_id agent_id valid_agent_id
  check_agent_id-agent_id key h =
      let e = id_material-eq key h in
      (
        b'a' ∷ b'_' ∷ b32_encode (material key),
        rw e refl,
        rw (e, eq_bytes_refl) refl,
        label-matches b'a' key,
      )

  check_agent_id-size : (id key : Bytes) → check_agent_id c id key ≡ ok tt → length key ≡ 32
  unfolding check_agent_id agent_id id_material
  check_agent_id-size id key h = ground arith

  check_agent_id-eq :
      (id key : Bytes)
      → length key ≡ 32
      → check_agent_id c id key ≡ ok tt
      → id ≡ b'a' ∷ b'_' ∷ b32_encode (material key)
  unfolding check_agent_id agent_id
  check_agent_id-eq id key n h =
      ground
        (arith, id_material-eq key n, eq_bytes_iff id (b'a' ∷ b'_' ∷ b32_encode (material key)))

  -- An agent id that passes the check for a key is well formed, is the one derived from that key, and
  -- the key is 32 bytes long.
  pub check_agent_id_sound :
      (id key : Bytes)
      → check_agent_id c id key ≡ ok tt
      → (length key ≡ 32) × (agent_id c key ≡ ok id) × (valid_agent_id id ≡ true)
  unfolding agent_id valid_agent_id
  check_agent_id_sound id key h =
      let n = check_agent_id-size id key h in
      let s = check_agent_id-eq id key n h in
      (n, rw (id_material-eq key n, s) refl, rw s (label-matches b'a' key))

  -- A key of 32 bytes has one agent id: it exists, it is well formed, and it is the only one that passes
  -- the check, if SHA-256 is as documented.
  pub check_agent_id_iff :
      (key : Bytes)
      → length key ≡ 32
      → (own : Bytes) × (agent_id c key ≡ ok own)
        × (valid_agent_id own ≡ true)
        × ((id : Bytes) → (check_agent_id c id key ≡ ok tt) ↔ (id ≡ own))
  check_agent_id_iff key h =
      let (own, made, passes, formed) = check_agent_id-agent_id key h in
      (
        own,
        made,
        formed,
        λ id. (
          λ p. ok-inj (agent_id c key) (check_agent_id_sound id key p).1 made,
          λ e. ap (λ x. check_agent_id c x key) e ∙ passes,
        ),
      )
