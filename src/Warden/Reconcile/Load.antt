-- ===== src/Warden/Reconcile/Load.antt =====
-- What the state file and the slices give: one grant for each id, none of them signalled.
use grantd.Base.{
  ◌≡◌, ◌≢◌, refl, false, Option, none, some, List, [], ◌∷◌, Bytes, arith, All, eq_bytes,
  eq_bytes_iff, inl, inr, Bool-cases,
}
use grantd.Protocol.Ids.{valid_grant_id}
use grantd.Warden.State.{Grant, find_grant}
use grantd.Warden.State.Maps.{Fresh, Unique, find-none-Fresh}
use grantd.Warden.Attach.{fresh_grant}
use grantd.Warden.Reconcile.{Saved, restored, put_grant, load_from, add_missing, with_found}

-- What is loaded has not been signalled, and stands under one key each.
abbrev pub Unmarked : Grant → Type 0
Unmarked g = g.term_sent ≡ false

Fresh-put :
    (g : Grant) (id : Bytes) (gs : List Grant) → g.id ≢ id → Fresh id gs → Fresh id (put_grant g gs)
unfolding put_grant
Fresh-put g id [] n h = (n, tt)
Fresh-put g id (x ∷ gs) n h = ground (arith, Fresh-put g id gs n h.1)

Unique-put : (g : Grant) (gs : List Grant) → Unique gs → Unique (put_grant g gs)
unfolding put_grant
Unique-put g [] u = (tt, tt)
Unique-put g (x ∷ gs) u = elim (Bool-cases (eq_bytes x.id g.id)) [
  | inl e ↦
      (let same = (eq_bytes_iff x.id g.id).0 e in
        rw e (let h : Fresh g.id gs = rw same at u.0 in (h, u.1)))
  | inr e ↦
      rw e
        (Fresh-put g x.id gs (λ d. ground (arith, eq_bytes_iff x.id g.id)) u.0, Unique-put g gs u.1)
]

Unmarked-put :
    (g : Grant) (gs : List Grant) → Unmarked g → All Unmarked gs → All Unmarked (put_grant g gs)
unfolding put_grant
Unmarked-put g [] m a = (m, tt)
Unmarked-put g (x ∷ gs) m a = ground (arith, Unmarked-put g gs m a.1)

pub load_from-loads :
    (out : List Grant) (ss : List Saved)
    → Unique out
    → All Unmarked out
    → Unique (load_from out ss) × All Unmarked (load_from out ss)
unfolding load_from
load_from-loads out [] u a = (u, a)
load_from-loads out (s ∷ ss) u a = elim (Bool-cases (valid_grant_id s.id)) [
  | inl e ↦ rw e (
      load_from-loads (put_grant (restored s) out) ss (Unique-put (restored s) out u)
        (Unmarked-put (restored s) out (unfold restored in refl) a))
  | inr e ↦ rw e (load_from-loads out ss u a)
]

add_missing-loads :
    (o : Option Grant) (id : Bytes) (gs : List Grant)
    → find_grant id gs ≡ o
    → Unique gs
    → All Unmarked gs
    → Unique (add_missing o id gs) × All Unmarked (add_missing o id gs)
unfolding add_missing fresh_grant
add_missing-loads none id gs e u a = ((find-none-Fresh id gs e, u), (refl, a))
add_missing-loads (some g) id gs e u a = (u, a)

pub with_found-loads :
    (gs : List Grant) (ids : List Bytes)
    → Unique gs
    → All Unmarked gs
    → Unique (with_found gs ids) × All Unmarked (with_found gs ids)
unfolding with_found
with_found-loads gs [] u a = (u, a)
with_found-loads gs (id ∷ ids) u a =
    let (u', a') = add_missing-loads (find_grant id gs) id gs refl u a in
    with_found-loads (add_missing (find_grant id gs) id gs) ids u' a'
