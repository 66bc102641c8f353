-- ===== src/Warden/Attach.antt =====
-- go/warden/warden.go: Attach, in the parts between which it gives up the lock: the pending admission is
-- taken, the grant is opened, systemd places the process, the session is recorded. Each part is given
-- the state that it finds, so that other calls may come between them. What systemd and the kernel
-- answer is an argument, and so are the clocks.
pub mod Laws
pub mod Placing
use grantd.Base.{
  ℕ, Bool, true, false, not, ◌&&◌, Option, none, some, List, [], ◌∷◌, ◌++◌, Bytes, ℤ, Int64, pos,
  ◌+ℤ◌, sub64, ltb_ℤ, leb_ℤ, Result, ok, err, codes, ◌==◌, eq_bytes, if◌then◌else◌, ◌>>=◌, ◌>>◌,
}
use grantd.Warden.State.{
  Proc, same_process, GrantInfo, Answer, open_state, Session, Grant, Pending, Warden, Config,
  not_root, no_admission, recycled, other_user, admission_old, no_time_left, no_slice, no_scope,
  not_placed, closed_meanwhile, grant_not_open, Refusal, not_ready, denied, guard, present, is_open,
  find_grant, find_pending, update_grant, keep,
}
use grantd.Warden.Admission.{sshd_of, check_grant, admits}
use grantd.Warden.Closing.{seconds}
use grantd.Warden.Units.{scope_unit, scope_cgroup}

-- delete(w.pending, pid)
unfoldable pub delete_pending : ℕ → List Pending → List Pending
delete_pending pid = keep (λ q. not (q.sshd.pid == pid))

-- Who calls, and the sshd process above it.
unfoldable pub attaching : (ℕ → Option Proc) → Warden → Proc → Result Refusal Proc
unfolding guard sshd_of
attaching read_proc w caller = do
  guard w.ready not_ready
  guard (caller.uid == 0) (denied not_root)
  sshd_of read_proc caller

unfoldable pub take_pending : Proc → Warden → Option Pending × Warden
unfolding find_pending delete_pending
take_pending sshd w =
    (find_pending sshd.pid w.pending, record w { pending = delete_pending sshd.pid w.pending })

-- What Attach reads of the clocks: the wall clock in nanoseconds and, for checkGrant and for the time
-- left, in seconds; and the monotonic clock.
pub record Times : Type 0 where
  pub nanos : Int64
  pub checked : Int64
  pub unix : Int64
  pub mono : ℤ

-- The rules on the pending admission, and the signer asked again.
unfoldable pub check_pending :
    Config
    → (Bytes → Answer)
    → Times
    → Proc
    → Bytes
    → Option Pending
    → Result Refusal (Pending × GrantInfo)
unfolding guard present check_grant
check_pending cfg signer at sshd user found = do
  p ← present found (denied no_admission)
  guard (same_process p.sshd sshd) (denied recycled)
  guard (eq_bytes p.user user) (denied other_user)
  guard (not (ltb_ℤ (p.created +ℤ cfg.pending_ttl) at.nanos)) (denied admission_old)
  info ← check_grant (signer p.grant_id) user [] at.checked
  guard (ltb_ℤ (pos 0) (seconds (sub64 info.expires_at at.unix))) (denied no_time_left)
  ok (p, info)

-- The grant's deadlines by the signer's answer.
unfoldable pub with_deadline : Times → GrantInfo → Grant → Grant
with_deadline at info g = record g {
  deadline = info.expires_at;
  deadline_mono = some (at.mono +ℤ seconds (sub64 info.expires_at at.unix));
}

unfoldable pub fresh_grant : Bytes → Grant
fresh_grant id = record {
  id = id;
  deadline = pos 0;
  state = open_state;
  reason = [];
  sessions = [];
  remaining = [];
  deadline_mono = none;
  term_sent = false;
  closing_since = none;
}

-- The grant is there and open, or it is made; `g` is w.grants[id].
unfoldable pub open_found :
    Times → GrantInfo → Bytes → Option Grant → Warden → Result Refusal (Unit {0}) × Warden
unfolding with_deadline fresh_grant is_open
open_found at info id none w =
    (ok tt, record w { grants = w.grants ++ with_deadline at info (fresh_grant id) ∷ [] })
open_found at info id (some g) w =
    if is_open g.state
    then (ok tt, record w { grants = update_grant id (with_deadline at info) w.grants })
    else (err (denied grant_not_open), w)

unfoldable pub open_grant : Times → GrantInfo → Bytes → Warden → Result Refusal (Unit {0}) × Warden
unfolding open_found
open_grant at info id w = open_found at info id (find_grant id w.grants) w

-- What systemd did: StartSlice failed with no cgroup there, StartScope failed, or the process was or
-- was not read back in the cgroup wanted.
pub data Placement : Type 0 where
  slice_failed scope_failed misplaced placed : Placement

unfoldable pub placement_ok : Placement → Result Refusal (Unit {0})
placement_ok slice_failed = err (denied no_slice)
placement_ok scope_failed = err (denied no_scope)
placement_ok misplaced = err (denied not_placed)
placement_ok placed = ok tt

-- g.Sessions[s.PID] = s
unfoldable pub put_session : Session → List Session → List Session
put_session s [] = s ∷ []
put_session s (q ∷ qs) = if q.pid == s.pid then s ∷ qs else q ∷ put_session s qs

unfoldable pub add_session : Session → Grant → Grant
unfolding put_session
add_session s g = record g { sessions = put_session s g.sessions }

-- The last lock. A grant that was closed and forgotten since the second lock is not in the map, and
-- the pointer's state is not open; that another of its id was made since then is left out.
unfoldable pub record_found :
    Session → Bytes → Option Grant → Warden → Result Refusal (Unit {0}) × Warden
unfolding add_session is_open
record_found s id none w = (err (denied closed_meanwhile), w)
record_found s id (some g) w =
    if is_open g.state
    then (ok tt, record w { grants = update_grant id (add_session s) w.grants })
    else (err (denied closed_meanwhile), w)

unfoldable pub record_session : Session → Bytes → Warden → Result Refusal (Unit {0}) × Warden
unfolding record_found
record_session s id w = record_found s id (find_grant id w.grants) w

-- After the signer's answer: the grant is opened in the state `w2`, and the session recorded in the
-- state that `between` makes of what the opening leaves.
unfoldable pub place :
    Times
    → Placement
    → Session
    → (Warden → Warden)
    → Bytes
    → GrantInfo
    → Warden
    → Result Refusal (Unit {0}) × Warden
unfolding open_grant placement_ok record_session
place at put s between id info w2 =
    let (r, w3) = open_grant at info id w2 in
    elim r [
      | err e ↦ (err e, w3)
      | ok u ↦ elim (placement_ok put) [
        | err e ↦ (err e, between w3)
        | ok u' ↦ record_session s id (between w3)
      ]
    ]

-- What is outside of one call of Attach: the machine, and what other calls do while it has no lock.
pub record World : Type 0 where
  pub read_proc : ℕ → Option Proc
  pub signer : Bytes → Answer
  pub times : Times
  pub put : Placement
  pub decimal : ℕ → Bytes
  pub first : Warden → Warden
  pub second : Warden → Warden

unfoldable pub session_of : Config → World → Proc → Bytes → Session
unfolding scope_unit scope_cgroup
session_of cfg x sshd id = record {
  pid = sshd.pid;
  start_time = sshd.start_time;
  scope = scope_unit x.decimal cfg.slice id sshd.pid;
  cgroup = scope_cgroup x.decimal cfg.slice id sshd.pid;
  since = x.times.unix;
}

unfoldable pub attach_checked :
    Config
    → World
    → Proc
    → Result Refusal (Pending × GrantInfo)
    → Warden
    → Result Refusal (Unit {0}) × Warden
unfolding place session_of
attach_checked cfg x sshd (err e) w = (err e, w)
attach_checked cfg x sshd (ok (p, info)) w =
    place x.times x.put (session_of cfg x sshd p.grant_id) x.second p.grant_id info (x.first w)

unfoldable pub attach_from :
    Config → World → Bytes → Result Refusal Proc → Warden → Result Refusal (Unit {0}) × Warden
unfolding take_pending check_pending attach_checked
attach_from cfg x user (err e) w = (err e, w)
attach_from cfg x user (ok sshd) w =
    let (found, w1) = take_pending sshd w in
    attach_checked cfg x sshd (check_pending cfg x.signer x.times sshd user found) w1

unfoldable pub attach : Config → World → Proc → Bytes → Warden → Result Refusal (Unit {0}) × Warden
unfolding attaching attach_from
attach cfg x caller user w = attach_from cfg x user (attaching x.read_proc w caller) w
