-- ===== src/Store/Grants/Pending.antt =====
-- Which grants PendingPublications of go/signer/store/store.go gives, and what is left of them.
use grantd.Base.{
  ◌≡◌, refl, sym, ap, ◌∙◌, Bool, true, false, List, [], ◌∷◌, map, Bytes, Int64, ◌≤ℤ◌, leb_ℤ, ok,
  All, eq_bytes, eq_bytes_refl, arith, if◌then◌else◌,
}
use grantd.Store.Tables.{Io, select_pending, GrantRow, Db, update_where, any_row, keep_where}
use grantd.Store.Grants.{
  has_id, publish_row, insert_sorted, order_by, is_pending, pending_publications,
}

abbrev pub row_id : GrantRow → Bytes
row_id g = g.id

-- The id is one of these.
abbrev pub listed : Bytes → List Bytes → Bool
listed id ids = any_row (eq_bytes id) ids

-- Each grant that is still to be published is one of these.
abbrev pub Covered : Int64 → List Bytes → List GrantRow → Type 0
Covered now ids gs = All (λ g. is_pending now g ≡ true → listed g.id ids ≡ true) gs

is_pending-later :
    (now later : Int64) (g : GrantRow)
    → now ≤ℤ later
    → is_pending later g ≡ true
    → is_pending now g ≡ true
unfolding is_pending
is_pending-later now later g h p = ground arith

pub Covered-later :
    (now later : Int64) (ids : List Bytes) (gs : List GrantRow)
    → now ≤ℤ later
    → Covered now ids gs
    → Covered later ids gs
Covered-later now later ids [] h c = tt
Covered-later now later ids (g ∷ gs) h c =
    (λ p. c.0 (is_pending-later now later g h p), Covered-later now later ids gs h c.1)

publish-covered :
    (now at : Int64) (id : Bytes) (ids : List Bytes) (g : GrantRow)
    → (is_pending now g ≡ true → listed g.id (id ∷ ids) ≡ true)
    → is_pending now (if has_id id g then publish_row at g else g) ≡ true
    → listed (if has_id id g then publish_row at g else g).id ids ≡ true
unfolding is_pending publish_row has_id any_row
publish-covered now at id ids g c p = ground arith

pub Covered-publish :
    (now at : Int64) (id : Bytes) (ids : List Bytes) (gs : List GrantRow)
    → Covered now (id ∷ ids) gs
    → Covered now ids (update_where (has_id id) (publish_row at) gs)
unfolding update_where
Covered-publish now at id ids [] c = tt
Covered-publish now at id ids (g ∷ gs) c =
    (publish-covered now at id ids g c.0, Covered-publish now at id ids gs c.1)

pub Covered-none :
    (now : Int64) (gs : List GrantRow) → Covered now [] gs → keep_where (is_pending now) gs ≡ []
unfolding keep_where any_row
Covered-none now [] c = refl
Covered-none now (g ∷ gs) c = ground (arith, Covered-none now gs c.1, c.0)

listed-insert_sorted :
    (before : GrantRow → GrantRow → Bool) (id : Bytes) (g : GrantRow) (gs : List GrantRow)
    → listed id (map row_id (insert_sorted before g gs)) ≡ listed id (map row_id (g ∷ gs))
unfolding insert_sorted any_row
listed-insert_sorted before id g [] = refl
listed-insert_sorted before id g (h ∷ hs) = ground (arith, listed-insert_sorted before id g hs)

-- Sorting keeps the ids.
listed-order_by :
    (before : GrantRow → GrantRow → Bool) (id : Bytes) (gs : List GrantRow)
    → listed id (map row_id (order_by before gs)) ≡ listed id (map row_id gs)
unfolding order_by any_row
listed-order_by before id [] = refl
listed-order_by before id (g ∷ gs) =
    listed-insert_sorted before id g (order_by before gs)
    ∙ ap (λ b. if eq_bytes id g.id then true else b) (listed-order_by before id gs)

listed-keep_where :
    (p : GrantRow → Bool) (id : Bytes) (g : GrantRow) (gs : List GrantRow)
    → listed id (map row_id (keep_where p gs)) ≡ true
    → listed id (map row_id (keep_where p (g ∷ gs))) ≡ true
unfolding keep_where any_row
listed-keep_where p id g gs h = ground arith

Covered-wider :
    (now : Int64) (ids more : List Bytes) (gs : List GrantRow)
    → ((id : Bytes) → listed id ids ≡ true → listed id more ≡ true)
    → Covered now ids gs
    → Covered now more gs
Covered-wider now ids more [] h c = tt
Covered-wider now ids more (g ∷ gs) h c = (λ p. h g.id (c.0 p), Covered-wider now ids more gs h c.1)

Covered-kept :
    (now : Int64) (gs : List GrantRow)
    → Covered now (map row_id (keep_where (is_pending now) gs)) gs
unfolding keep_where any_row
Covered-kept now [] = tt
Covered-kept now (g ∷ gs) = (
  λ p. rw (p, eq_bytes_refl) refl,
  Covered-wider now _ _ gs (λ id. listed-keep_where (is_pending now) id g gs) (Covered-kept now gs),
)

module _ (P : GrantRow → Type 0) where
  All-keep_where : (p : GrantRow → Bool) (gs : List GrantRow) → All P gs → All P (keep_where p gs)
  unfolding keep_where
  All-keep_where p [] a = tt
  All-keep_where p (g ∷ gs) a = ground (arith, All-keep_where p gs a.1)

  All-insert_sorted :
      (before : GrantRow → GrantRow → Bool) (g : GrantRow) (gs : List GrantRow)
      → P g
      → All P gs
      → All P (insert_sorted before g gs)
  unfolding insert_sorted
  All-insert_sorted before g [] h a = (h, tt)
  All-insert_sorted before g (x ∷ xs) h a = ground (arith, All-insert_sorted before g xs h a.1)

  All-order_by :
      (before : GrantRow → GrantRow → Bool) (gs : List GrantRow)
      → All P gs
      → All P (order_by before gs)
  unfolding order_by
  All-order_by before [] a = tt
  All-order_by before (g ∷ gs) a =
      All-insert_sorted before g (order_by before gs) a.0 (All-order_by before gs a.1)

by_creation : GrantRow → GrantRow → Bool
by_creation g h = leb_ℤ g.created_at h.created_at

pending_publications-rows :
    (io : Io) (now : Int64) (db : Db) (rows : List GrantRow)
    → pending_publications io now db ≡ ok rows
    → order_by by_creation (keep_where (is_pending now) db.grants) ≡ rows
unfolding pending_publications by_creation
pending_publications-rows io now db rows h = ground arith

-- What holds of every grant holds of those that are given.
pub pending_publications-All :
    (P : GrantRow → Type 0) (io : Io) (now : Int64) (db : Db) (rows : List GrantRow)
    → pending_publications io now db ≡ ok rows
    → All P db.grants
    → All P rows
pending_publications-All P io now db rows h a =
    rw (pending_publications-rows io now db rows h) at
      (All-order_by P by_creation _ (All-keep_where P (is_pending now) db.grants a))

-- The grants that are given are all those still to be published.
pub pending_publications-Covered :
    (io : Io) (now : Int64) (db : Db) (rows : List GrantRow)
    → pending_publications io now db ≡ ok rows
    → Covered now (map row_id rows) db.grants
pending_publications-Covered io now db rows h =
    let kept = keep_where (is_pending now) db.grants in
    Covered-wider now (map row_id kept) (map row_id rows) db.grants
      (λ id l.
        ap (λ x. listed id (map row_id x)) (sym (pending_publications-rows io now db rows h))
        ∙ listed-order_by by_creation id kept
        ∙ l)
      (Covered-kept now db.grants)

-- With none left an empty list is given.
pub pending_publications-none :
    (io : Io) (now : Int64) (db : Db)
    → io select_pending ≡ false
    → Covered now [] db.grants
    → pending_publications io now db ≡ ok []
unfolding pending_publications order_by
pending_publications-none io now db up c = rw (up, Covered-none now db.grants c) refl
