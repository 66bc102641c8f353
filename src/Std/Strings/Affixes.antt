-- ===== src/Std/Strings/Affixes.antt =====
-- strings.HasPrefix, HasSuffix, TrimPrefix and TrimSuffix of texts that are put together.
use grantd.Base.{
  ℕ, ◌≤◌, ◌≡◌, refl, ap, true, false, some, [], ◌∷◌, ◌++◌, Bytes, length, length-append, arith,
  eq_bytes, eq_bytes_iff, eq_bytes_refl,
}
use grantd.Std.Strings.{has_prefix, has_suffix, strip_prefix, trim_prefix, trim_suffix}

pub has_prefix-append : (p s : Bytes) → has_prefix (p ++ s) p ≡ true
unfolding has_prefix
has_prefix-append [] [] = refl
has_prefix-append [] (c ∷ s) = refl
has_prefix-append (c ∷ p) s = ground (arith, has_prefix-append p s)

strip_prefix-append : (p s : Bytes) → strip_prefix (p ++ s) p ≡ some s
unfolding strip_prefix
strip_prefix-append [] [] = refl
strip_prefix-append [] (c ∷ s) = refl
strip_prefix-append (c ∷ p) s = ground (arith, strip_prefix-append p s)

pub trim_prefix-append : (p s : Bytes) → trim_prefix (p ++ s) p ≡ s
unfolding trim_prefix
trim_prefix-append p s = rw (trim_prefix, strip_prefix-append p s) refl

longer : (c : ℕ) (w suffix : Bytes) → eq_bytes (c ∷ (w ++ suffix)) suffix ≡ false
longer c w suffix = ground (
  arith,
  eq_bytes_iff (c ∷ (w ++ suffix)) suffix,
  λ (e : c ∷ (w ++ suffix) ≡ suffix). ap length e,
  length-append w suffix,
)

pub has_suffix-append : (w suffix : Bytes) → has_suffix (w ++ suffix) suffix ≡ true
unfolding has_suffix eq_bytes
has_suffix-append [] [] = refl
has_suffix-append [] (c ∷ s) = rw (eq_bytes_refl (c ∷ s)) refl
has_suffix-append (c ∷ w) suffix = rw (longer c w suffix) (has_suffix-append w suffix)

pub trim_suffix-append : (w : Bytes) (c : ℕ) (s : Bytes) → trim_suffix (w ++ c ∷ s) (c ∷ s) ≡ w
unfolding trim_suffix
trim_suffix-append [] c s = rw (eq_bytes_refl (c ∷ s)) refl
trim_suffix-append (d ∷ w) c s =
    rw (longer d w (c ∷ s)) (ap (λ r. d ∷ r) (trim_suffix-append w c s))

pub has_prefix-split : (s p : Bytes) → has_prefix s p ≡ true → (rest : Bytes) × (s ≡ p ++ rest)
unfolding has_prefix
has_prefix-split s [] h = (s, refl)
has_prefix-split [] (d ∷ p) h = absurd (ground arith)
has_prefix-split (c ∷ s) (d ∷ p) h =
    let (rest, e) = has_prefix-split s p (ground arith) in
    let same : c ≡ d = ground arith in (rest, cc)

pub has_suffix-drop :
    (p r suffix : Bytes)
    → has_suffix (p ++ r) suffix ≡ true
    → length suffix ≤ length r
    → has_suffix r suffix ≡ true
unfolding has_suffix
has_suffix-drop [] r suffix h l = h
has_suffix-drop (c ∷ p) r suffix h l = ground (
  arith,
  has_suffix-drop p r suffix,
  eq_bytes_iff (c ∷ (p ++ r)) suffix,
  λ (e : c ∷ (p ++ r) ≡ suffix). ap length e,
  length-append p r,
)

pub has_suffix-split :
    (r suffix : Bytes) → has_suffix r suffix ≡ true → r ≡ trim_suffix r suffix ++ suffix
unfolding has_suffix trim_suffix
has_suffix-split [] suffix h = (eq_bytes_iff [] suffix).0 h
has_suffix-split (c ∷ r) suffix h =
    ground (arith, has_suffix-split r suffix, eq_bytes_iff (c ∷ r) suffix)

pub length-trim_suffix : (r suffix : Bytes) → length (trim_suffix r suffix) ≤ length r
unfolding trim_suffix
length-trim_suffix [] suffix = ground arith
length-trim_suffix (c ∷ r) suffix = ground (arith, length-trim_suffix r suffix)

pub trim_suffix-none : (s suffix : Bytes) → has_suffix s suffix ≡ false → trim_suffix s suffix ≡ s
unfolding has_suffix trim_suffix
trim_suffix-none [] suffix h = refl
trim_suffix-none (c ∷ s) suffix h = ground (arith, trim_suffix-none s suffix)
