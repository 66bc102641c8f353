-- ===== src/Warden/State/Maps.antt =====
-- The laws of the map of grants: which keys it has, and what a look-up finds.
use mathlib.Core.Path.{subst}
use grantd.Base.{
  ◌≡◌, ◌≢◌, refl, sym, Bool, Option, none, some, List, [], ◌∷◌, ◌++◌, map, Bytes, arith, All,
  eq_bytes, eq_bytes_iff, Bool-cases, inl, inr, if◌then◌else◌,
}
use grantd.Warden.State.{Grant, find_grant, update_grant, keep}

-- No other entry has the key, and no key stands twice.
abbrev pub Fresh : Bytes → List Grant → Type 0
Fresh id gs = All (λ (h : Grant). h.id ≢ id) gs

abbrev pub Unique : List Grant → Type 0
Unique [] = Unit {0}
Unique (g ∷ gs) = Fresh g.id gs × Unique gs

-- A change of an entry that leaves its key.
abbrev pub KeepsId : (Grant → Grant) → Type 0
KeepsId f = (g : Grant) → (f g).id ≡ g.id

abbrev pub map_some : (Grant → Grant) → Option Grant → Option Grant
map_some f none = none
map_some f (some g) = some (f g)

pub All-map :
    (P Q : Grant → Type 0) (f : Grant → Grant) (gs : List Grant)
    → ((g : Grant) → P g → Q (f g))
    → All P gs
    → All Q (map f gs)
All-map P Q f [] h a = tt
All-map P Q f (g ∷ gs) h a = (h g a.0, All-map P Q f gs h a.1)

pub All-keep :
    {A : Type 0} (P : A → Type 0) (p : A → Bool) (gs : List A) → All P gs → All P (keep p gs)
unfolding keep
All-keep P p [] a = tt
All-keep P p (g ∷ gs) a = ground (arith, All-keep P p gs a.1)

pub All-update :
    (P : Grant → Type 0) (id : Bytes) (f : Grant → Grant) (gs : List Grant)
    → ((g : Grant) → P g → P (f g))
    → All P gs
    → All P (update_grant id f gs)
unfolding update_grant
All-update P id f [] h a = tt
All-update P id f (g ∷ gs) h a = ground (arith, h g a.0, All-update P id f gs h a.1)

pub All-snoc :
    (P : Grant → Type 0) (gs : List Grant) (x : Grant) → All P gs → P x → All P (gs ++ x ∷ [])
All-snoc P [] x a h = (h, tt)
All-snoc P (g ∷ gs) x a h = (a.0, All-snoc P gs x a.1 h)

Fresh-map :
    (f : Grant → Grant) (id : Bytes) (gs : List Grant)
    → KeepsId f
    → Fresh id gs
    → Fresh id (map f gs)
Fresh-map f id gs k h = All-map _ _ f gs (λ g n. rw (k g) n) h

pub Unique-map : (f : Grant → Grant) (gs : List Grant) → KeepsId f → Unique gs → Unique (map f gs)
Unique-map f [] k u = tt
Unique-map f (g ∷ gs) k u = (rw (k g) (Fresh-map f g.id gs k u.0), Unique-map f gs k u.1)

pub Unique-keep : (p : Grant → Bool) (gs : List Grant) → Unique gs → Unique (keep p gs)
unfolding keep
Unique-keep p [] u = tt
Unique-keep p (g ∷ gs) u =
    ground (arith, All-keep (λ (h : Grant). h.id ≢ g.id) p gs u.0, Unique-keep p gs u.1)

pub Unique-update :
    (id : Bytes) (f : Grant → Grant) (gs : List Grant)
    → KeepsId f
    → Unique gs
    → Unique (update_grant id f gs)
unfolding update_grant
Unique-update id f [] k u = tt
Unique-update id f (g ∷ gs) k u = ground (
  arith,
  k g,
  All-update (λ (h : Grant). h.id ≢ g.id) id f gs (λ h n. rw (k h) n) u.0,
  Unique-update id f gs k u.1,
)

pub find-none-Fresh : (id : Bytes) (gs : List Grant) → find_grant id gs ≡ none → Fresh id gs
unfolding find_grant
find-none-Fresh id [] h = tt
find-none-Fresh id (g ∷ gs) h = ground (arith, eq_bytes_iff g.id id, find-none-Fresh id gs)

pub Unique-snoc : (gs : List Grant) (x : Grant) → Unique gs → Fresh x.id gs → Unique (gs ++ x ∷ [])
Unique-snoc [] x u h = (tt, tt)
Unique-snoc (g ∷ gs) x u h =
    (All-snoc (λ (k : Grant). k.id ≢ g.id) gs x u.0 (λ e. h.0 (sym e)), Unique-snoc gs x u.1 h.1)

pub find-map :
    (id : Bytes) (f : Grant → Grant) (gs : List Grant)
    → KeepsId f
    → find_grant id (map f gs) ≡ map_some f (find_grant id gs)
unfolding find_grant
find-map id f [] k = refl
find-map id f (g ∷ gs) k = ground (arith, k g, find-map id f gs k)

pub find-update :
    (id j : Bytes) (f : Grant → Grant) (gs : List Grant)
    → KeepsId f
    → find_grant j (update_grant id f gs)
      ≡ (if eq_bytes j id then map_some f (find_grant j gs) else find_grant j gs)
unfolding find_grant update_grant
find-update id j f [] k = ground arith
find-update id j f (g ∷ gs) k = ground (
  arith,
  k g,
  find-update id j f gs k,
  eq_bytes_iff g.id id,
  eq_bytes_iff g.id j,
  eq_bytes_iff (f g).id j,
  eq_bytes_iff j id,
)

find-Fresh :
    (id : Bytes) (p : Grant → Bool) (gs : List Grant)
    → Fresh id gs
    → find_grant id (keep p gs) ≡ none
unfolding find_grant keep
find-Fresh id p [] h = refl
find-Fresh id p (g ∷ gs) h = ground (arith, eq_bytes_iff g.id id, find-Fresh id p gs h.1, h.0)

pub find-keep :
    (id : Bytes) (p : Grant → Bool) (gs : List Grant) (g : Grant)
    → Unique gs
    → find_grant id gs ≡ some g
    → find_grant id (keep p gs) ≡ (if p g then some g else none)
unfolding find_grant keep
find-keep id p [] g u h = cc
find-keep id p (x ∷ gs) g u h =
    ground (arith, eq_bytes_iff x.id id, find-keep id p gs g u.1, find-Fresh x.id p gs u.0)

pub find-snoc :
    (id : Bytes) (gs : List Grant) (x g : Grant)
    → find_grant id gs ≡ some g
    → find_grant id (gs ++ x ∷ []) ≡ some g
unfolding find_grant
find-snoc id [] x g h = cc
find-snoc id (y ∷ gs) x g h = ground (arith, find-snoc id gs x g)

pub find-All :
    (P : Grant → Type 0) (id : Bytes) (gs : List Grant) (g : Grant)
    → All P gs
    → find_grant id gs ≡ some g
    → P g
unfolding find_grant
find-All P id [] g a h = absurd (ground arith)
find-All P id (x ∷ gs) g a h = elim (Bool-cases (eq_bytes x.id id)) [
  | inl e ↦ (let same : x ≡ g = ground arith in subst P same a.0)
  | inr e ↦ find-All P id gs g a.1 (ground arith)
]

pub find-id : (id : Bytes) (gs : List Grant) (g : Grant) → find_grant id gs ≡ some g → g.id ≡ id
unfolding find_grant
find-id id [] g h = cc
find-id id (x ∷ gs) g h = ground (arith, eq_bytes_iff x.id id, find-id id gs g)

-- Only the entry that is found changes.
pub All-update_found :
    (P : Grant → Type 0) (id : Bytes) (f : Grant → Grant) (gs : List Grant) (g : Grant)
    → find_grant id gs ≡ some g
    → P (f g)
    → All P gs
    → All P (update_grant id f gs)
unfolding find_grant update_grant
All-update_found P id f [] g h p a = tt
All-update_found P id f (x ∷ gs) g h p a = elim (Bool-cases (eq_bytes x.id id)) [
  | inl e ↦ (let same : g ≡ x = ground arith in rw e (subst (λ y. P (f y)) same p, a.1))
  | inr e ↦ rw e (a.0, All-update_found P id f gs g (ground arith) p a.1)
]
