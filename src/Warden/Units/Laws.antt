-- ===== src/Warden/Units/Laws.antt =====
-- A restarted warden finds the grants of the slices that it made.
use grantd.Base.{
  ◌≤◌, ◌≡◌, ◌≢◌, sym, ◌∙◌, none, Option, refl, ap, true, some, List, [], ◌∷◌, ◌++◌, Bytes, codes,
  length, arith,
}
use mathlib.Core.List.{append_assoc}
use grantd.Std.Strings.Affixes.{
  has_prefix-append, trim_prefix-append, has_suffix-append, trim_suffix-append, has_prefix-split,
  has_suffix-drop, has_suffix-split, length-trim_suffix,
}
use grantd.Std.Strings.{has_prefix, has_suffix, trim_prefix, trim_suffix}
use grantd.Protocol.Ids.{valid_grant_id, matches_id}
use grantd.Warden.Units.{
  stem, slice_unit, grant_within, grant_of_unit, add_id, grants_of_units, discover_grant_ids,
}

grant_within-append :
    (prefix id : Bytes)
    → valid_grant_id id ≡ true
    → grant_within prefix (prefix ++ (id ++ codes ".slice")) ≡ some id
unfolding grant_within
grant_within-append prefix id v =
    let ending : has_suffix (prefix ++ (id ++ codes ".slice")) (codes ".slice") ≡ true =
      rw⁻¹ (append_assoc prefix id (codes ".slice"))
        (has_suffix-append (prefix ++ id) (codes ".slice")) in
    rw (has_prefix-append prefix (id ++ codes ".slice")) (
      rw ending (
        rw (trim_prefix-append prefix (id ++ codes ".slice"))
          (rw (trim_suffix-append id b'.' (codes "slice")) (rw v refl))))

grant_of_unit-slice_unit :
    (slice id : Bytes)
    → valid_grant_id id ≡ true
    → grant_of_unit slice (slice_unit slice id) ≡ some id
unfolding grant_of_unit slice_unit
grant_of_unit-slice_unit slice id v =
    rw⁻¹ (append_assoc (stem slice) (codes "-") (id ++ codes ".slice"))
      (grant_within-append (stem slice ++ codes "-") id v)

valid_grant_id-long : (id : Bytes) → valid_grant_id id ≡ true → 6 ≤ length id
unfolding valid_grant_id matches_id
valid_grant_id-long [] h = absurd (ground arith)
valid_grant_id-long (x ∷ []) h = absurd (ground arith)
valid_grant_id-long (x ∷ y ∷ label) h = ground arith

-- A text that ends with the suffix and, without its prefix, leaves a valid id before the suffix.
grant_within-split :
    (prefix rest id : Bytes)
    → grant_within prefix (prefix ++ rest) ≡ some id
    → (valid_grant_id id ≡ true) × (rest ≡ id ++ codes ".slice")
unfolding grant_within
grant_within-split prefix rest id h =
    let whole = trim_prefix-append prefix rest in
    let v : valid_grant_id (trim_suffix (trim_prefix (prefix ++ rest) prefix) (codes ".slice"))
        ≡ true =
      ground arith in
    let same : trim_suffix (trim_prefix (prefix ++ rest) prefix) (codes ".slice") ≡ id =
      ground arith in
    let id_eq : trim_suffix rest (codes ".slice") ≡ id =
      ap (λ r. trim_suffix r (codes ".slice")) (sym whole) ∙ same in
    let valid : valid_grant_id id ≡ true = ap valid_grant_id (sym same) ∙ v in
    let long : 6 ≤ length rest = omega (
      arith,
      valid_grant_id-long id valid,
      length-trim_suffix rest (codes ".slice"),
      ap length id_eq,
    ) in
    let ends : has_suffix (prefix ++ rest) (codes ".slice") ≡ true = ground arith in
    (
      valid,
      has_suffix-split rest (codes ".slice")
            (has_suffix-drop prefix rest (codes ".slice") ends long)
          ∙ ap (λ r. r ++ codes ".slice") id_eq,
    )

-- Only a slice that is named after a valid id gives an id, and that one.
grant_of_unit-slice :
    (slice name id : Bytes)
    → grant_of_unit slice name ≡ some id
    → (valid_grant_id id ≡ true) × (name ≡ slice_unit slice id)
unfolding grant_of_unit slice_unit
grant_of_unit-slice slice name id h =
    let prefix = stem slice ++ codes "-" in
    let start : has_prefix name prefix ≡ true = unfold grant_within in ground arith in
    let (rest, e) = has_prefix-split name prefix start in
    let (valid, ending) =
      grant_within-split prefix rest id (ap (grant_within prefix) (sym e) ∙ h) in
    (
      valid,
      e
          ∙ ap (λ r. prefix ++ r) ending
          ∙ append_assoc (stem slice) (codes "-") (id ++ codes ".slice"),
    )

-- The children of the parent slice's cgroup, and the ids of the grants among them: the slices of
-- valid ids, and others.
pub data Children (slice : Bytes) : List Bytes → List Bytes → Type 0 where
  no_child : Children slice [] []
  own :
      {names ids : List Bytes} (id : Bytes)
      → valid_grant_id id ≡ true
      → Children slice names ids
      → Children slice (slice_unit slice id ∷ names) (id ∷ ids)
  foreign :
      {names ids : List Bytes} (name : Bytes)
      → ((id : Bytes) → valid_grant_id id ≡ true → name ≢ slice_unit slice id)
      → Children slice names ids
      → Children slice (name ∷ names) ids

foreign-none :
    (slice name : Bytes)
    → ((id : Bytes) → valid_grant_id id ≡ true → name ≢ slice_unit slice id)
    → (o : Option Bytes) → grant_of_unit slice name ≡ o
    → o ≡ none
foreign-none slice name h none e = refl
foreign-none slice name h (some id) e =
    let (v, same) = grant_of_unit-slice slice name id e in absurd (h id v same)

grants_of_units-Children :
    {slice : Bytes} {names ids : List Bytes}
    → Children slice names ids
    → grants_of_units slice names ≡ ids
unfolding grants_of_units add_id
grants_of_units-Children no_child = refl
grants_of_units-Children {slice} (own id v rest) =
    rw (grant_of_unit-slice_unit slice id v) (ap (λ r. id ∷ r) (grants_of_units-Children rest))
grants_of_units-Children {slice} (foreign name h rest) =
    rw (foreign-none slice name h (grant_of_unit slice name) refl) (grants_of_units-Children rest)

-- After a restart, whatever the parent slice's cgroup holds, in any order: a child that is named as
-- the slice of a well-formed grant id gives that id, in its place, and any other child gives none. No
-- grant whose slice is there is lost, and none is made up.
pub discover_grant_ids-Children :
    {slice : Bytes} {names ids : List Bytes}
    → Children slice names ids
    → discover_grant_ids slice (some names) ≡ ids
unfolding discover_grant_ids
discover_grant_ids-Children c = grants_of_units-Children c
