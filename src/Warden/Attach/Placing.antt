-- ===== src/Warden/Attach/Placing.antt =====
-- What an attachment has established.
use grantd.Base.{
  ℕ, ◌≡◌, ◌≢◌, refl, true, Option, none, some, List, [], ◌∷◌, ◌++◌, Bytes, ◌+ℤ◌, sub64, Result, ok,
  err, arith, eq_bytes_iff, inl, inr, Bool-cases,
}
use grantd.Warden.State.{
  Proc, GrantInfo, Session, Grant, Pending, Warden, Config, Refusal, is_open, find_grant,
  find_pending, update_grant, keep,
}
use grantd.Warden.State.Maps.{find-update}
use grantd.Warden.Closing.{seconds}
use grantd.Warden.Attach.{
  delete_pending, attaching, take_pending, Times, check_pending, with_deadline, fresh_grant,
  open_found, open_grant, Placement, placed, slice_failed, scope_failed, misplaced, placement_ok,
  add_session, record_found, record_session, place, World, session_of, attach_checked, attach_from,
  attach,
}
use grantd.Warden.Attach.Laws.{Called, attaching-ok, Vouched, check_pending-ok}

-- The grant that the session is in: open, with this session.
pub record Attached (s : Session) (id : Bytes) (before after : Warden) (g : Grant) : Type 0 where
  pub found : find_grant id before.grants ≡ some g
  pub is_open_now : is_open g.state ≡ true
  pub recorded : find_grant id after.grants ≡ some (add_session s g)
  pub others : (j : Bytes) → j ≢ id → find_grant j after.grants ≡ find_grant j before.grants

record_found-ok :
    (s : Session) (id : Bytes) (o : Option Grant) (w w' : Warden)
    → find_grant id w.grants ≡ o
    → record_found s id o w ≡ (ok tt, w')
    → (g : Grant) × Attached s id w w' g
unfolding record_found
record_found-ok s id none w w' f h = absurd (ground arith)
record_found-ok s id (some g) w w' f h = elim (Bool-cases (is_open g.state)) [
  | inr e ↦ absurd (ground arith)
  | inl e ↦
      (let changed : w'.grants ≡ update_grant id (add_session s) w.grants = ground arith in
        let keeps : (x : Grant) → (add_session s x).id ≡ x.id = λ x. unfold add_session in refl in
        (
          g,
          record {
            found = f;
            is_open_now = e;
            recorded = rw changed (
                rw (find-update id id (add_session s) w.grants keeps)
                  (rw ((eq_bytes_iff id id).1 refl) (rw f refl)));
            others = λ j n. rw changed (
                rw (find-update id j (add_session s) w.grants keeps)
                  (ground (arith, eq_bytes_iff j id)));
          },
        ))
]

record_session-ok :
    (s : Session) (id : Bytes) (w w' : Warden)
    → record_session s id w ≡ (ok tt, w')
    → (g : Grant) × Attached s id w w' g
unfolding record_session
record_session-ok s id w w' h = record_found-ok s id (find_grant id w.grants) w w' refl h

-- The grant that the attachment opens: with the signer's deadline, and open if it was there.
pub record Opened (at : Times) (info : GrantInfo) (id : Bytes) (before after : Warden)
    : Type 0 where
  pub grant : Grant
  pub found : find_grant id after.grants ≡ some grant
  pub is_open_now : is_open grant.state ≡ true
  pub bounded : grant.deadline ≡ info.expires_at
  pub anchored : grant.deadline_mono ≡ some (at.mono +ℤ seconds (sub64 info.expires_at at.unix))

find-append :
    (id : Bytes) (gs : List Grant) (x : Grant)
    → x.id ≡ id
    → find_grant id gs ≡ none
    → find_grant id (gs ++ x ∷ []) ≡ some x
unfolding find_grant
find-append id [] x e h = rw ((eq_bytes_iff x.id id).1 e) refl
find-append id (y ∷ gs) x e h = ground (arith, find-append id gs x e)

open_found-ok :
    (at : Times) (info : GrantInfo) (id : Bytes) (o : Option Grant) (w w' : Warden)
    → find_grant id w.grants ≡ o
    → open_found at info id o w ≡ (ok tt, w')
    → Opened at info id w w'
unfolding open_found
open_found-ok at info id none w w' f h =
    let new = with_deadline at info (fresh_grant id) in
    let changed : w'.grants ≡ w.grants ++ new ∷ [] = ground arith in
    record {
      grant = new;
      found = rw changed (find-append id w.grants new (unfold with_deadline fresh_grant in refl) f);
      is_open_now = unfold with_deadline fresh_grant is_open in refl;
      bounded = unfold with_deadline in refl;
      anchored = unfold with_deadline in refl;
    }
open_found-ok at info id (some g) w w' f h = elim (Bool-cases (is_open g.state)) [
  | inr e ↦ absurd (ground arith)
  | inl e ↦
      (let changed : w'.grants ≡ update_grant id (with_deadline at info) w.grants = ground arith in
        let keeps : (x : Grant) → (with_deadline at info x).id ≡ x.id =
          λ x. unfold with_deadline in refl in
        record {
          grant = with_deadline at info g;
          found = rw changed (
              rw (find-update id id (with_deadline at info) w.grants keeps)
                (rw ((eq_bytes_iff id id).1 refl) (rw f refl)));
          is_open_now = unfold with_deadline in e;
          bounded = unfold with_deadline in refl;
          anchored = unfold with_deadline in refl;
        })
]

-- The grant was opened, the process was placed, and the session recorded.
pub record Placed (at : Times) (put : Placement) (s : Session) (between : Warden → Warden)
    (id : Bytes) (info : GrantInfo) (w2 w' : Warden) : Type 0 where
  pub in_place : put ≡ placed
  pub opened : Warden
  pub opens : Opened at info id w2 opened
  pub grant : Grant
  pub attached : Attached s id (between opened) w' grant

placement_ok-ok : (put : Placement) {u : Unit {0}} → placement_ok put ≡ ok u → put ≡ placed
unfolding placement_ok
placement_ok-ok slice_failed h = cc
placement_ok-ok scope_failed h = cc
placement_ok-ok misplaced h = cc
placement_ok-ok placed h = refl

place_from-ok :
    (at : Times) (put : Placement) (s : Session) (between : Warden → Warden) (id : Bytes)
    (info : GrantInfo) (w2 w3 w' : Warden) (r : Result Refusal (Unit {0}))
    (q : Result Refusal (Unit {0}))
    → open_grant at info id w2 ≡ (r, w3)
    → placement_ok put ≡ q
    → (elim r [
      | err e ↦ (err e, w3)
      | ok u ↦ elim q [ err e ↦ (err e, between w3) | ok u' ↦ record_session s id (between w3) ]
    ])
      ≡ (ok tt, w')
    → Placed at put s between id info w2 w'
place_from-ok at put s between id info w2 w3 w' (err e) q o p h = absurd (ground arith)
place_from-ok at put s between id info w2 w3 w' (ok u) (err e) o p h = absurd (ground arith)
place_from-ok at put s between id info w2 w3 w' (ok u) (ok u') o p h =
    let (g, a) = record_session-ok s id (between w3) w' h in
    record {
      in_place = placement_ok-ok put p;
      opened = w3;
      opens = unfold open_grant in open_found-ok at info id _ w2 w3 refl o;
      grant = g;
      attached = a;
    }

place-ok :
    (at : Times) (put : Placement) (s : Session) (between : Warden → Warden) (id : Bytes)
    (info : GrantInfo) (w2 w' : Warden)
    → place at put s between id info w2 ≡ (ok tt, w')
    → Placed at put s between id info w2 w'
unfolding place
place-ok at put s between id info w2 w' h =
    place_from-ok at put s between id info w2 (open_grant at info id w2).1 w'
      (open_grant at info id w2).0 (placement_ok put) refl refl h

-- Between the calls that it makes: the pending admission is taken by this call, so that no other
-- attachment finds it.
find-deleted : (pid : ℕ) (ps : List Pending) → find_pending pid (delete_pending pid ps) ≡ none
unfolding find_pending delete_pending keep
find-deleted pid [] = refl
find-deleted pid (q ∷ qs) = ground (arith, find-deleted pid qs)

-- What an attachment is.
pub record Attaches (cfg : Config) (x : World) (caller : Proc) (user : Bytes) (w w' : Warden)
    (sshd : Proc) (p : Pending) (info : GrantInfo) : Type 0 where
  pub called : Called x.read_proc w caller sshd
  pub pending : find_pending sshd.pid w.pending ≡ some p
  pub vouched : Vouched cfg x.signer x.times sshd user p info
  pub taken : Warden
  pub taken_grants : taken.grants ≡ w.grants
  pub consumed : find_pending sshd.pid taken.pending ≡ none
  pub placing :
      Placed x.times x.put
        (session_of cfg x sshd p.grant_id)
        x.second
        p.grant_id
        info
        (x.first taken)
        w'

attach_checked-ok :
    (cfg : Config) (x : World) (sshd : Proc) (r : Result Refusal (Pending × GrantInfo))
    (w1 w' : Warden)
    → attach_checked cfg x sshd r w1 ≡ (ok tt, w')
    → (p : Pending) × (info : GrantInfo) × (r ≡ ok (p, info))
      × Placed x.times x.put
          (session_of cfg x sshd p.grant_id)
          x.second
          p.grant_id
          info
          (x.first w1)
          w'
unfolding attach_checked
attach_checked-ok cfg x sshd (err e) w1 w' h = absurd (ground arith)
attach_checked-ok cfg x sshd (ok (p, info)) w1 w' h =
    (p, info, refl, place-ok x.times x.put _ x.second p.grant_id info (x.first w1) w' h)

attach_from-ok :
    (cfg : Config) (x : World) (user : Bytes) (caller : Proc) (r : Result Refusal Proc)
    (w w' : Warden)
    → attaching x.read_proc w caller ≡ r
    → attach_from cfg x user r w ≡ (ok tt, w')
    → (sshd : Proc) × (p : Pending) × (info : GrantInfo) × Attaches cfg x caller user w w' sshd p
        info
unfolding attach_from take_pending
attach_from-ok cfg x user caller (err e) w w' a h = absurd (ground arith)
attach_from-ok cfg x user caller (ok sshd) w w' a h =
    let w1 : Warden = record w { pending = delete_pending sshd.pid w.pending } in
    let (p, info, checked, put) =
      attach_checked-ok cfg x sshd
        (check_pending cfg x.signer x.times sshd user (find_pending sshd.pid w.pending)) w1 w' h in
    let (found, vouched) =
      check_pending-ok cfg x.signer x.times sshd user (find_pending sshd.pid w.pending) p info
        checked in
    (
      sshd,
      p,
      info,
      record {
        called = attaching-ok x.read_proc w caller sshd a;
        pending = found;
        vouched = vouched;
        taken = w1;
        taken_grants = refl;
        consumed = find-deleted sshd.pid w.pending;
        placing = put;
      },
    )

-- When Attach succeeds, whatever ran in the moments in which it gives up the lock: the warden was
-- ready and the caller root, below a root process named as sshd is; that same process, by pid and
-- start time, had a pending admission of this user, no older than its time to live, which the call
-- consumed; the signer, asked again, knows its grant, for this user, redeemed, neither revoked nor
-- over, with time left; the grant was opened with the signer's deadline on both clocks; systemd placed
-- the process; and the grant, still open at the end, holds the session, other grants being left.
pub attach_sound :
    (cfg : Config) (x : World) (caller : Proc) (user : Bytes) (w w' : Warden)
    → attach cfg x caller user w ≡ (ok tt, w')
    → (sshd : Proc) × (p : Pending) × (info : GrantInfo) × Attaches cfg x caller user w w' sshd p
        info
unfolding attach
attach_sound cfg x caller user w w' h =
    attach_from-ok cfg x user caller (attaching x.read_proc w caller) w w' refl h
