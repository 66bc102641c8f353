-- ===== src/Warden/Reconcile/Laws.antt =====
-- What a warden that has started supervises.
use mathlib.Core.Path.{subst}
use grantd.Base.{
  ℕ, ◌≡◌, ◌≢◌, refl, sym, Bool, true, false, inl, inr, Bool-cases, Option, none, some, List, [],
  ◌∷◌, map, Bytes, ◌<ℤ◌, leb_ℤ, arith, All, eq_bytes, eq_bytes_iff, if◌then◌else◌,
}
use grantd.Protocol.Ids.{valid_grant_id}
use grantd.Warden.State.{
  Proc, GrantInfo, Answer, unknown, unreachable, known, is_some, open_state, closing, Grant, Warden,
  find_grant, keep,
}
use grantd.Warden.State.Maps.{find-map, map_some, KeepsId}
use grantd.Warden.Closing.{Reading, is_alive}
use grantd.Warden.Closing.Rounds.{All-imp}
use grantd.Warden.Attach.{fresh_grant}
use grantd.Warden.Reconcile.{
  Saved, restored, put_grant, load_from, load_state, add_missing, with_found, reconcile_info,
  must_close, reconcile_grant, reconcile_in, reconcile,
}

-- Open as the signer says; or closing, unsignalled.
pub data Settled (read_proc : ℕ → Option Proc) (at : Reading) (answer : Answer) (g : Grant)
    : Type 0 where
  stays_open :
      (info : GrantInfo)
      → answer ≡ known info
      → info.revoked_at ≡ none
      → at.checked <ℤ info.expires_at
      → g.state ≡ open_state
      → g.deadline ≡ info.expires_at
      → All (λ s. is_alive read_proc s ≡ true) g.sessions
      → Settled read_proc at answer g
  ends : g.state ≡ closing → g.term_sent ≡ false → Settled read_proc at answer g

keep-passes : {A : Type 0} (p : A → Bool) (xs : List A) → All (λ x. p x ≡ true) (keep p xs)
unfolding keep
keep-passes p [] = tt
keep-passes p (x ∷ xs) = elim (Bool-cases (p x)) [
  | inl e ↦ rw e (e, keep-passes p xs)
  | inr e ↦ rw e (keep-passes p xs)
]

reconcile_info-Settled :
    (read_proc : ℕ → Option Proc) (at : Reading) (info : GrantInfo) (g : Grant)
    → Settled read_proc at (known info) (reconcile_info read_proc at info g)
unfolding reconcile_info must_close
reconcile_info-Settled read_proc at info g = elim (Bool-cases (is_some info.revoked_at)) [
  | inl e ↦ rw e (ends refl refl)
  | inr e ↦ rw e (elim (Bool-cases (leb_ℤ info.expires_at at.checked)) [
    | inl o ↦ rw o (ends refl refl)
    | inr o ↦ rw o (
        stays_open info refl (ground arith) (ground arith) refl refl
          (keep-passes (is_alive read_proc) g.sessions))
  ])
]

reconcile_grant-Settled :
    (read_proc : ℕ → Option Proc) (at : Reading) (answer : Answer) (g : Grant)
    → Settled read_proc at answer (reconcile_grant read_proc at answer g)
unfolding reconcile_grant must_close
reconcile_grant-Settled read_proc at unknown g = ends refl refl
reconcile_grant-Settled read_proc at unreachable g = ends refl refl
reconcile_grant-Settled read_proc at (known info) g = reconcile_info-Settled read_proc at info g

-- The grant is supervised.
abbrev pub Has : List Grant → Bytes → Type 0
Has gs id = find_grant id gs ≢ none

Has-put-same : (g : Grant) (gs : List Grant) → Has (put_grant g gs) g.id
unfolding put_grant find_grant
Has-put-same g [] = ground (arith, eq_bytes_iff g.id g.id)
Has-put-same g (x ∷ xs) = ground (arith, Has-put-same g xs, eq_bytes_iff g.id g.id)

Has-put : (id : Bytes) (g : Grant) (gs : List Grant) → Has gs id → Has (put_grant g gs) id
unfolding put_grant find_grant
Has-put id g [] h = absurd (h refl)
Has-put id g (x ∷ xs) h = elim (Bool-cases (eq_bytes x.id g.id)) [
  | inl e ↦ ground (arith, eq_bytes_iff x.id g.id, eq_bytes_iff g.id id, eq_bytes_iff x.id id)
  | inr e ↦ ground (arith, Has-put id g xs)
]

load_from-keeps :
    (id : Bytes) (out : List Grant) (ss : List Saved) → Has out id → Has (load_from out ss) id
unfolding load_from
load_from-keeps id out [] h = h
load_from-keeps id out (s ∷ ss) h =
    load_from-keeps id (if valid_grant_id s.id then put_grant (restored s) out else out) ss
      (ground (arith, Has-put id (restored s) out h))

-- Of the state file, the entries with a well-formed id.
abbrev Loaded : List Grant → Saved → Type 0
Loaded gs s = valid_grant_id s.id ≡ true → Has gs s.id

load_from-Loaded : (out : List Grant) (ss : List Saved) → All (Loaded (load_from out ss)) ss
unfolding load_from
load_from-Loaded out [] = tt
load_from-Loaded out (s ∷ ss) = (
  λ v.
      load_from-keeps s.id (if valid_grant_id s.id then put_grant (restored s) out else out) ss
        (rw v (unfold restored in Has-put-same (restored s) out)),
  load_from-Loaded (if valid_grant_id s.id then put_grant (restored s) out else out) ss,
)

add_missing-Has :
    (id : Bytes) (o : Option Grant) (gs : List Grant)
    → find_grant id gs ≡ o
    → Has (add_missing o id gs) id
unfolding add_missing fresh_grant find_grant
add_missing-Has id none gs e = ground (arith, eq_bytes_iff id id)
add_missing-Has id (some g) gs e = ground arith

add_missing-keeps :
    (id j : Bytes) (o : Option Grant) (gs : List Grant) → Has gs j → Has (add_missing o id gs) j
unfolding add_missing find_grant
add_missing-keeps id j none gs h = ground arith
add_missing-keeps id j (some g) gs h = h

with_found-keeps :
    (j : Bytes) (gs : List Grant) (ids : List Bytes) → Has gs j → Has (with_found gs ids) j
unfolding with_found
with_found-keeps j gs [] h = h
with_found-keeps j gs (id ∷ ids) h =
    with_found-keeps j (add_missing (find_grant id gs) id gs) ids
      (add_missing-keeps id j (find_grant id gs) gs h)

with_found-Has : (gs : List Grant) (ids : List Bytes) → All (Has (with_found gs ids)) ids
unfolding with_found
with_found-Has gs [] = tt
with_found-Has gs (id ∷ ids) = (
  with_found-keeps id (add_missing (find_grant id gs) id gs) ids
      (add_missing-Has id (find_grant id gs) gs refl),
  with_found-Has (add_missing (find_grant id gs) id gs) ids,
)

map_some-some : (f : Grant → Grant) (o : Option Grant) → o ≢ none → map_some f o ≢ none
map_some-some f none h = absurd (h refl)
map_some-some f (some g) h = ground arith

Has-map :
    (f : Grant → Grant) (id : Bytes) (gs : List Grant) → KeepsId f → Has gs id → Has (map f gs) id
Has-map f id gs k h = rw (find-map id f gs k) (map_some-some f (find_grant id gs) h)

reconcile_info-KeepsId :
    (read_proc : ℕ → Option Proc) (at : Reading) (info : GrantInfo)
    → KeepsId (reconcile_info read_proc at info)
unfolding reconcile_info must_close
reconcile_info-KeepsId read_proc at info g = ground arith

pub reconcile_grant-KeepsId :
    (read_proc : ℕ → Option Proc) (at : Reading) (answer : Answer)
    → KeepsId (reconcile_grant read_proc at answer)
unfolding reconcile_grant must_close
reconcile_grant-KeepsId read_proc at unknown g = refl
reconcile_grant-KeepsId read_proc at unreachable g = refl
reconcile_grant-KeepsId read_proc at (known info) g = reconcile_info-KeepsId read_proc at info g

reconcile_in-KeepsId :
    (read_proc : ℕ → Option Proc) (clock : Bytes → Reading) (signer : Bytes → Answer)
    → KeepsId (reconcile_in read_proc clock signer)
unfolding reconcile_in
reconcile_in-KeepsId read_proc clock signer g =
    reconcile_grant-KeepsId read_proc (clock g.id) (signer g.id) g

-- What each grant of the started warden is, by the answer and the clocks at its id.
abbrev pub SettledBy : (ℕ → Option Proc) → (Bytes → Reading) → (Bytes → Answer) → Grant → Type 0
SettledBy read_proc clock signer g = Settled read_proc (clock g.id) (signer g.id) g

reconcile_in-SettledBy :
    (read_proc : ℕ → Option Proc) (clock : Bytes → Reading) (signer : Bytes → Answer) (g : Grant)
    → SettledBy read_proc clock signer (reconcile_in read_proc clock signer g)
reconcile_in-SettledBy read_proc clock signer g =
    subst (λ id. Settled read_proc (clock id) (signer id) (reconcile_in read_proc clock signer g))
      (sym (reconcile_in-KeepsId read_proc clock signer g))
      (unfold reconcile_in in reconcile_grant-Settled read_proc (clock g.id) (signer g.id) g)

map-All :
    {A B : Type 0} (P : B → Type 0) (f : A → B) (xs : List A)
    → ((x : A) → P (f x))
    → All P (map f xs)
map-All P f [] h = tt
map-All P f (x ∷ xs) h = (h x, map-All P f xs h)

-- What a started warden supervises.
pub record Supervises (read_proc : ℕ → Option Proc) (clock : Bytes → Reading)
    (signer : Bytes → Answer) (saved : List Saved) (ids : List Bytes) (w : Warden) : Type 0 where
  pub is_ready : w.ready ≡ true
  pub settled : All (SettledBy read_proc clock signer) w.grants
  pub of_file : All (λ s. valid_grant_id s.id ≡ true → Has w.grants s.id) saved
  pub of_slices : All (Has w.grants) ids

-- A warden that Reconcile makes ready has reached the signer, and supervises every grant that the state
-- file names by a well-formed id or whose slice is on the machine. Each is open only as one that the
-- signer knows, neither revoked nor over, with the signer's deadline and only the sessions whose
-- process is still the one that attached; each other one, one that the signer could not be asked
-- about too, is closing and is to be signalled.
pub reconcile_sound :
    (ping : Bool) (read_proc : ℕ → Option Proc) (clock : Bytes → Reading) (signer : Bytes → Answer)
    (saved : List Saved) (ids : List Bytes) (w w' : Warden)
    → reconcile ping read_proc clock signer saved ids w ≡ (true, w')
    → (ping ≡ true) × Supervises read_proc clock signer saved ids w'
unfolding reconcile load_state
reconcile_sound false read_proc clock signer saved ids w w' h = absurd (ground arith)
reconcile_sound true read_proc clock signer saved ids w w' h =
    let f = reconcile_in read_proc clock signer in
    let all = with_found (load_from [] saved) ids in
    let grants : w'.grants ≡ map f all = ground arith in
    let kept : (id : Bytes) → Has all id → Has (map f all) id =
      λ id. Has-map f id all (reconcile_in-KeepsId read_proc clock signer) in
    (
      refl,
      record {
        is_ready = ground arith;
        settled = rw grants (
            map-All (SettledBy read_proc clock signer) f all
              (reconcile_in-SettledBy read_proc clock signer));
        of_file = rw grants (
            All-imp _ _ saved
              (λ s l v. kept s.id (with_found-keeps s.id (load_from [] saved) ids (l v)))
              (load_from-Loaded [] saved));
        of_slices = rw grants (All-imp _ _ ids kept (with_found-Has (load_from [] saved) ids));
      },
    )
