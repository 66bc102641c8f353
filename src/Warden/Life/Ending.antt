-- ===== src/Warden/Life/Ending.antt =====
-- A grant that is not open stays so.
use grantd.Base.{
  ◌≡◌, refl, ap, ◌∙◌, true, false, not, Option, none, some, List, map, Bytes, Int64, Result, ok,
  err, ◌⊎◌, inl, inr, Bool-cases, arith, eq_bytes_iff,
}
use grantd.Warden.State.{
  Proc, GrantInfo, closed, Session, Grant, Warden, Config, Refusal, is_open, find_grant,
  update_grant,
}
use grantd.Warden.State.Maps.{
  KeepsId, map_some, Unique-map, find-map, find-update, find-keep, find-snoc,
}
use grantd.Warden.Admission.{admit, admissible, record_admission, expire_pending}
use grantd.Warden.Closing.{
  Pass, enforce_grant, enforce_deadlines, poll_grant, poll_one, prune_grant, prune_sessions,
  forgotten, advance_grant, advance_closing,
}
use grantd.Warden.Closing.Laws.{
  Ends, Ends-refl, enforce_grant-KeepsId, poll_grant-KeepsId, prune_grant-KeepsId,
  advance_grant-KeepsId, enforce_grant-not_open, poll_grant-not_open, prune_grant-Ends,
  advance_grant-Ends,
}
use grantd.Warden.Attach.{
  Times, take_pending, with_deadline, open_found, open_grant, add_session, record_found,
  record_session,
}
use grantd.Warden.Life.{
  Step, admitting, taking, opening, recording, enforcing, polling, expiring, pruning, advancing,
}
use grantd.Warden.Life.Reachable.{IsValid}

-- Where the grant is after a call: there still, further on its way; or closed, and gone.
abbrev pub Remains : Bytes → Grant → Warden → Type 0
Remains id g w =
    ((g' : Grant) × (find_grant id w.grants ≡ some g') × Ends g g')
    ⊎ ((find_grant id w.grants ≡ none) × (g' : Grant) × Ends g g' × (g'.state ≡ closed))

same-Remains :
    (id : Bytes) (g : Grant) (w : Warden) → find_grant id w.grants ≡ some g → Remains id g w
same-Remains id g w h = inl (g, h, Ends-refl g)

record_admission-grants :
    (user : Bytes) (created : Int64) (r : Result Refusal (Bytes × (Proc × GrantInfo))) (w : Warden)
    → (record_admission user created r w).1.grants ≡ w.grants
unfolding record_admission
record_admission-grants user created (err e) w = refl
record_admission-grants user created (ok (g, (sshd, info))) w = ground arith

-- A change of every grant.
map-Remains :
    (f : Grant → Grant) (id : Bytes) (g : Grant) (w : Warden)
    → KeepsId f
    → Ends g (f g)
    → find_grant id w.grants ≡ some g
    → Remains id g (record w { grants = map f w.grants })
map-Remains f id g w k e h = inl (f g, find-map id f w.grants k ∙ ap (map_some f) h, e)

-- A change of one grant, which leaves this one alone.
update-Remains :
    (j : Bytes) (f : Grant → Grant) (id : Bytes) (g : Grant) (gs : List Grant)
    → KeepsId f
    → f g ≡ g
    → find_grant id gs ≡ some g
    → find_grant id (update_grant j f gs) ≡ some g
update-Remains j f id g gs k e h = ground (arith, find-update j id f gs k)

-- A change of the one grant that is found open, which is another.
other-Remains :
    (j : Bytes) (f : Grant → Grant) (id : Bytes) (g x : Grant) (gs : List Grant)
    → KeepsId f
    → find_grant j gs ≡ some x
    → is_open x.state ≡ true
    → is_open g.state ≡ false
    → find_grant id gs ≡ some g
    → find_grant id (update_grant j f gs) ≡ some g
other-Remains j f id g x gs k q o c h = ground (arith, find-update j id f gs k, eq_bytes_iff id j)

open_found-Remains :
    (at : Times) (info : GrantInfo) (j : Bytes) (o : Option Grant) (id : Bytes) (g : Grant)
    (w : Warden)
    → find_grant j w.grants ≡ o
    → is_open g.state ≡ false
    → find_grant id w.grants ≡ some g
    → find_grant id (open_found at info j o w).1.grants ≡ some g
unfolding open_found
open_found-Remains at info j none id g w q c h = find-snoc id w.grants _ g h
open_found-Remains at info j (some x) id g w q c h = elim (Bool-cases (is_open x.state)) [
  | inl o ↦ rw o (
      other-Remains j (with_deadline at info) id g x w.grants (λ y. unfold with_deadline in refl) q
        o c h)
  | inr o ↦ rw o h
]

record_found-Remains :
    (s : Session) (j : Bytes) (o : Option Grant) (id : Bytes) (g : Grant) (w : Warden)
    → find_grant j w.grants ≡ o
    → is_open g.state ≡ false
    → find_grant id w.grants ≡ some g
    → find_grant id (record_found s j o w).1.grants ≡ some g
unfolding record_found
record_found-Remains s j none id g w q c h = h
record_found-Remains s j (some x) id g w q c h = elim (Bool-cases (is_open x.state)) [
  | inl o ↦
      rw o
        (other-Remains j (add_session s) id g x w.grants (λ y. unfold add_session in refl) q o c h)
  | inr o ↦ rw o h
]

forgotten-closed : (now : Int64) (g : Grant) → forgotten now g ≡ true → g.state ≡ closed
unfolding forgotten
forgotten-closed now g h = ground arith

advance-Remains :
    (cfg : Config) (passes : Bytes → Pass) (now : Int64) (id : Bytes) (g : Grant) (w : Warden)
    → IsValid w
    → find_grant id w.grants ≡ some g
    → Remains id g (advance_closing cfg passes now w)
unfolding advance_closing
advance-Remains cfg passes now id g w v h =
    let f = advance_grant cfg passes in
    let k = advance_grant-KeepsId cfg passes in
    let e : find_grant id (map f w.grants) ≡ some (f g) =
      find-map id f w.grants k ∙ ap (map_some f) h in
    let found =
      find-keep id (λ x. not (forgotten now x)) (map f w.grants) (f g)
        (Unique-map f w.grants k v.unique) e in
    elim (Bool-cases (forgotten now (f g))) [
      | inl b ↦ inr (
        ground (arith, found),
        f g,
        advance_grant-Ends cfg passes g,
        forgotten-closed now (f g) b,
      )
      | inr b ↦ inl (f g, ground (arith, found), advance_grant-Ends cfg passes g)
    ]

-- Whatever call comes next, a grant that is closing or closed is not reopened: it is there with the
-- same deadline, at least as far on its way from open to closed, and with no session that it did not
-- have before; or it is closed, and forgotten.
pub Step-Remains :
    {w w' : Warden} (id : Bytes) (g : Grant)
    → Step w w'
    → IsValid w
    → find_grant id w.grants ≡ some g
    → is_open g.state ≡ false
    → Remains id g w'
unfolding admit take_pending enforce_deadlines poll_one expire_pending prune_sessions open_grant
    record_session
Step-Remains {w} id g (admitting cfg read_proc signer now created before caller user key_id serial)
      v h c =
    inl (
      g,
      ap (find_grant id) (
            record_admission-grants user created
              (admissible cfg read_proc signer now before caller user key_id serial) w)
          ∙ h,
      Ends-refl g,
    )
Step-Remains {w} id g (taking sshd) v h c = inl (g, h, Ends-refl g)
Step-Remains {w} id g (opening at info j) v h c =
    inl (g, open_found-Remains at info j (find_grant j w.grants) id g w refl c h, Ends-refl g)
Step-Remains {w} id g (recording s j) v h c =
    inl (g, record_found-Remains s j (find_grant j w.grants) id g w refl c h, Ends-refl g)
Step-Remains {w} id g (enforcing now mono) v h c =
    map-Remains (enforce_grant now mono) id g w (enforce_grant-KeepsId now mono)
      (rw (enforce_grant-not_open now mono g c) (Ends-refl g)) h
Step-Remains {w} id g (polling at a j) v h c = inl (
  g,
  update-Remains j (poll_grant at a) id g w.grants (poll_grant-KeepsId at a)
      (poll_grant-not_open at a g c) h,
  Ends-refl g,
)
Step-Remains {w} id g (expiring cfg now) v h c = inl (g, h, Ends-refl g)
Step-Remains {w} id g (pruning read_proc) v h c =
    map-Remains (prune_grant read_proc) id g w (prune_grant-KeepsId read_proc)
      (prune_grant-Ends read_proc g) h
Step-Remains {w} id g (advancing cfg passes now) v h c = advance-Remains cfg passes now id g w v h
