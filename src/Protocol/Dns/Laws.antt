-- ===== src/Protocol/Dns/Laws.antt =====
-- Each host has a name of its own.
use grantd.Base.{
  ◌≡◌, refl, sym, ap, ◌∙◌, Bool, true, false, not, Option, none, some, [], ◌∷◌, ◌++◌, Bytes, ok,
  err, codes, length, ◌==◌, ==_iff, arith, if◌then◌else◌, >>=-eq-ok, Bool-cases, inl, inr,
}
use grantd.Std.Strings.{strip_prefix}
use grantd.Protocol.Validate.{validate_hostname}
use grantd.Protocol.Dns.{
  host_id_malformed, host_label_matches, present, hostname, validate_dns_suffix, host_dns_name,
}

strip_prefix-some : (s p : Bytes) {rest : Bytes} → strip_prefix s p ≡ some rest → s ≡ p ++ rest
unfolding strip_prefix
strip_prefix-some s [] h = ground arith
strip_prefix-some [] (p ∷ ps) h = cc
strip_prefix-some (c ∷ s) (p ∷ ps) {rest} h = elim (Bool-cases (c == p)) [
  | inl e ↦
      (let same = (==_iff c p).0 e in
        let tail : s ≡ ps ++ rest = strip_prefix-some s ps (ground arith) in
        ap (λ x. x ∷ s) same ∙ ap (λ x. p ∷ x) tail)
  | inr e ↦ absurd (ground arith)
]

present-ok : (o : Option Bytes) {s : Bytes} → present o ≡ ok s → o ≡ some s
unfolding present
present-ok none h = cc
present-ok (some x) h = ground arith

well_formed :
    (b : Bool) {u : Unit {0}} → (if not b then err host_id_malformed else ok tt) ≡ ok u → b ≡ true
well_formed true h = refl
well_formed false h = cc

-- The label of a host id, and its name.
pub record IsName (lower : Bytes → Bytes) (host_id suffix name : Bytes) : Type 0 where
  pub label : Bytes
  pub of_id : host_id ≡ codes "h_" ++ label
  pub size : length label ≡ 32
  pub of_name : name ≡ label ++ (codes "." ++ lower suffix)

same_front : (xs ys as' bs : Bytes) → length xs ≡ length ys → xs ++ as' ≡ ys ++ bs → xs ≡ ys
same_front [] [] as' bs n e = refl
same_front [] (y ∷ ys) as' bs n e = absurd (omega (arith, n))
same_front (x ∷ xs) [] as' bs n e = absurd (omega (arith, n))
same_front (x ∷ xs) (y ∷ ys) as' bs n e = ground (arith, same_front xs ys as' bs)

module _ (lower : Bytes → Bytes) where
  host_dns_name-ok :
      (host_id suffix name : Bytes)
      → host_dns_name lower host_id suffix ≡ ok name
      → IsName lower host_id suffix name
  unfolding host_dns_name host_label_matches
  host_dns_name-ok host_id suffix name h =
      let (_, a1, e1) = >>=-eq-ok (validate_dns_suffix lower suffix) _ h in
      let (label, a2, e2) = >>=-eq-ok (present (strip_prefix host_id (codes "h_"))) _ e1 in
      let (_, a3, e3) =
        >>=-eq-ok (if not (host_label_matches label) then err host_id_malformed else ok tt) _ e2 in
      let (_, a4, e4) =
        >>=-eq-ok (hostname (validate_hostname (label ++ (codes "." ++ lower suffix)))) _ e3 in
      let formed : host_label_matches label ≡ true = well_formed (host_label_matches label) a3 in
      record {
        label = label;
        of_id = strip_prefix-some host_id (codes "h_") (present-ok _ a2);
        size = (==_iff (length label) 32).0 (ground arith);
        of_name = ground arith;
      }

  -- Two host ids that are given the same name under the same suffix are the same: no host can be
  -- published under the name of another.
  pub host_dns_name-injective :
      (host_id other suffix name : Bytes)
      → host_dns_name lower host_id suffix ≡ ok name
      → host_dns_name lower other suffix ≡ ok name
      → host_id ≡ other
  host_dns_name-injective host_id other suffix name h k =
      let a = host_dns_name-ok host_id suffix name h in
      let b = host_dns_name-ok other suffix name k in
      let labels : a.label ≡ b.label =
        same_front a.label b.label _ _ (a.size ∙ sym b.size) (sym a.of_name ∙ b.of_name) in
      a.of_id ∙ ap (λ x. codes "h_" ++ x) labels ∙ sym b.of_id
