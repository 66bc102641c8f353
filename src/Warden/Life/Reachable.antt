-- ===== src/Warden/Life/Reachable.antt =====
-- What holds of the warden's state between two calls.
use grantd.Base.{
  ℕ, ◌≡◌, ◌≢◌, refl, Bool, true, false, Option, none, some, List, [], ◌∷◌, map, Bytes, Int64,
  Result, ok, err, arith, All, ◌==◌, ==_iff, inl, inr, Bool-cases,
}
use grantd.Warden.State.{
  Proc, GrantInfo, Answer, Session, Grant, Pending, Warden, Refusal, is_open, find_grant, keep,
}
use grantd.Warden.State.Maps.{
  Unique, KeepsId, All-map, All-keep, All-update, All-snoc, Unique-map, Unique-keep, Unique-update,
  Unique-snoc, find-none-Fresh, find-All, All-update_found,
}
use grantd.Warden.Admission.{admit, admissible, record_admission, put_pending, expire_pending}
use grantd.Warden.Closing.{
  Reading, enforce_grant, enforce_deadlines, poll_grant, poll_one, prune_grant, prune_sessions,
  advance_grant, advance_closing,
}
use grantd.Warden.Closing.Laws.{
  enforce_grant-KeepsId, poll_grant-KeepsId, prune_grant-KeepsId, advance_grant-KeepsId,
}
use grantd.Warden.Attach.{
  Times, take_pending, delete_pending, with_deadline, fresh_grant, open_found, open_grant,
  add_session, record_found, record_session,
}
use grantd.Warden.Reconcile.{Saved, load_from, load_state, reconcile_in, booted, reconcile}
use grantd.Warden.Reconcile.Load.{Unmarked, load_from-loads, with_found-loads}
use grantd.Warden.Reconcile.Laws.{reconcile_grant-KeepsId}
use grantd.Warden.Life.{
  Step, admitting, taking, opening, recording, enforcing, polling, expiring, pruning, advancing,
  Reach, start, next,
}
use grantd.Warden.Life.Invariant.{
  IsSound, enforce_grant-IsSound, poll_grant-IsSound, prune_grant-IsSound, advance_grant-IsSound,
  with_deadline-IsSound, fresh-IsSound, add_session-IsSound, reconcile_grant-IsSound,
}

abbrev pub FreshPid : ℕ → List Pending → Type 0
FreshPid pid ps = All (λ (q : Pending). q.sshd.pid ≢ pid) ps

abbrev pub UniquePids : List Pending → Type 0
UniquePids [] = Unit {0}
UniquePids (p ∷ ps) = FreshPid p.sshd.pid ps × UniquePids ps

pub record IsValid (w : Warden) : Type 0 where
  pub unique : Unique w.grants
  pub sound : All IsSound w.grants
  pub pids : UniquePids w.pending

FreshPid-put :
    (p : Pending) (pid : ℕ) (ps : List Pending)
    → p.sshd.pid ≢ pid
    → FreshPid pid ps
    → FreshPid pid (put_pending p ps)
unfolding put_pending
FreshPid-put p pid [] n h = (n, tt)
FreshPid-put p pid (q ∷ qs) n h = ground (arith, FreshPid-put p pid qs n h.1)

UniquePids-put : (p : Pending) (ps : List Pending) → UniquePids ps → UniquePids (put_pending p ps)
unfolding put_pending
UniquePids-put p [] u = (tt, tt)
UniquePids-put p (q ∷ qs) u = elim (Bool-cases (q.sshd.pid == p.sshd.pid)) [
  | inl e ↦
      (let same = (==_iff q.sshd.pid p.sshd.pid).0 e in
        rw e (let h : FreshPid p.sshd.pid qs = rw same at u.0 in (h, u.1)))
  | inr e ↦ rw e (
    FreshPid-put p q.sshd.pid qs (λ d. ground (arith, ==_iff q.sshd.pid p.sshd.pid)) u.0,
    UniquePids-put p qs u.1,
  )
]

UniquePids-keep : (t : Pending → Bool) (ps : List Pending) → UniquePids ps → UniquePids (keep t ps)
unfolding keep
UniquePids-keep t [] u = tt
UniquePids-keep t (q ∷ qs) u =
    ground (
      arith,
      All-keep (λ (p : Pending). p.sshd.pid ≢ q.sshd.pid) t qs u.0,
      UniquePids-keep t qs u.1,
    )

record_admission-IsValid :
    (user : Bytes) (created : Int64) (r : Result Refusal (Bytes × (Proc × GrantInfo))) (w : Warden)
    → IsValid w
    → IsValid (record_admission user created r w).1
unfolding record_admission
record_admission-IsValid user created (err e) w v = v
record_admission-IsValid user created (ok (g, (sshd, info))) w v =
    let u =
      UniquePids-put
        (record {
          sshd = sshd;
          grant_id = g;
          user = user;
          deadline = info.expires_at;
          created = created;
        })
        w.pending v.pids in
    ground (arith, u)

open_found-IsValid :
    (at : Times) (info : GrantInfo) (id : Bytes) (o : Option Grant) (w : Warden)
    → find_grant id w.grants ≡ o
    → IsValid w
    → IsValid (open_found at info id o w).1
unfolding open_found
open_found-IsValid at info id none w e v = record {
  unique =
      Unique-snoc w.grants (with_deadline at info (fresh_grant id)) v.unique
        (find-none-Fresh id w.grants e);
  sound =
      All-snoc IsSound w.grants (with_deadline at info (fresh_grant id)) v.sound
        (fresh-IsSound at info id);
  pids = v.pids;
}
open_found-IsValid at info id (some g) w e v =
    let u = Unique-update id (with_deadline at info) w.grants (λ h. refl) v.unique in
    let s =
      All-update IsSound id (with_deadline at info) w.grants (with_deadline-IsSound at info)
        v.sound in
    ground (arith, u, s)

record_found-IsValid :
    (x : Session) (id : Bytes) (o : Option Grant) (w : Warden)
    → find_grant id w.grants ≡ o
    → IsValid w
    → IsValid (record_found x id o w).1
unfolding record_found
record_found-IsValid x id none w e v = v
record_found-IsValid x id (some g) w e v = elim (Bool-cases (is_open g.state)) [
  | inr c ↦ rw c v
  | inl c ↦ rw c (record {
    unique = Unique-update id (add_session x) w.grants (λ h. refl) v.unique;
    sound =
        All-update_found IsSound id (add_session x) w.grants g e
          (add_session-IsSound x g c (find-All IsSound id w.grants g v.sound e)) v.sound;
    pids = v.pids;
  })
]

mapped-IsValid :
    (f : Grant → Grant) (w : Warden)
    → KeepsId f
    → ((g : Grant) → IsSound g → IsSound (f g))
    → IsValid w
    → IsValid (record w { grants = map f w.grants })
mapped-IsValid f w k s v = record {
  unique = Unique-map f w.grants k v.unique;
  sound = All-map IsSound IsSound f w.grants s v.sound;
  pids = v.pids;
}

-- Every call keeps the invariant.
pub Step-IsValid : {w w' : Warden} → Step w w' → IsValid w → IsValid w'
unfolding admit take_pending delete_pending enforce_deadlines poll_one expire_pending prune_sessions
    advance_closing open_grant record_session
Step-IsValid {w} (admitting cfg read_proc signer now created before caller user key_id serial) v =
    record_admission-IsValid user created
      (admissible cfg read_proc signer now before caller user key_id serial) w v
Step-IsValid {w} (taking sshd) v = record {
  unique = v.unique;
  sound = v.sound;
  pids = UniquePids-keep _ w.pending v.pids;
}
Step-IsValid {w} (opening at info id) v =
    open_found-IsValid at info id (find_grant id w.grants) w refl v
Step-IsValid {w} (recording s id) v = record_found-IsValid s id (find_grant id w.grants) w refl v
Step-IsValid {w} (enforcing now mono) v =
    mapped-IsValid (enforce_grant now mono) w (enforce_grant-KeepsId now mono)
      (enforce_grant-IsSound now mono) v
Step-IsValid {w} (polling at a id) v = record {
  unique = Unique-update id (poll_grant at a) w.grants (poll_grant-KeepsId at a) v.unique;
  sound = All-update IsSound id (poll_grant at a) w.grants (poll_grant-IsSound at a) v.sound;
  pids = v.pids;
}
Step-IsValid {w} (expiring cfg now) v = record {
  unique = v.unique;
  sound = v.sound;
  pids = UniquePids-keep _ w.pending v.pids;
}
Step-IsValid {w} (pruning read_proc) v =
    mapped-IsValid (prune_grant read_proc) w (prune_grant-KeepsId read_proc)
      (prune_grant-IsSound read_proc) v
Step-IsValid {w} (advancing cfg passes now) v =
    let m =
      mapped-IsValid (advance_grant cfg passes) w (advance_grant-KeepsId cfg passes)
        (advance_grant-IsSound cfg passes) v in
    record {
      unique = Unique-keep _ _ m.unique;
      sound = All-keep IsSound _ _ m.sound;
      pids = v.pids;
    }

reconcile_in-KeepsId :
    (read_proc : ℕ → Option Proc) (clock : Bytes → Reading) (signer : Bytes → Answer)
    → KeepsId (reconcile_in read_proc clock signer)
unfolding reconcile_in
reconcile_in-KeepsId read_proc clock signer g =
    reconcile_grant-KeepsId read_proc (clock g.id) (signer g.id) g

reconcile-IsValid :
    (ping : Bool) (read_proc : ℕ → Option Proc) (clock : Bytes → Reading) (signer : Bytes → Answer)
    (saved : List Saved) (ids : List Bytes)
    → IsValid (reconcile ping read_proc clock signer saved ids booted).1
unfolding reconcile load_state reconcile_in
reconcile-IsValid false read_proc clock signer saved ids = record {
  unique = tt;
  sound = tt;
  pids = tt;
}
reconcile-IsValid true read_proc clock signer saved ids =
    let (u, a) = load_from-loads [] saved tt tt in
    let (u', a') = with_found-loads (load_from [] saved) ids u a in
    record {
      unique =
          Unique-map (reconcile_in read_proc clock signer) _
            (reconcile_in-KeepsId read_proc clock signer) u';
      sound =
          All-map Unmarked IsSound (reconcile_in read_proc clock signer) _
            (λ g m. reconcile_grant-IsSound read_proc (clock g.id) (signer g.id) g m) a';
      pids = tt;
    }

-- In every state that a warden reaches after it was started, no grant and no pending admission stands
-- twice, and each grant is sound: an open one has not been signalled and has a deadline by the
-- monotonic clock, a closed one holds no session and no process.
pub Reach-IsValid : {w : Warden} → Reach w → IsValid w
Reach-IsValid (start ping read_proc clock signer saved ids) =
    reconcile-IsValid ping read_proc clock signer saved ids
Reach-IsValid (next r s) = Step-IsValid s (Reach-IsValid r)
