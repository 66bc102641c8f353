-- ===== src/Warden/Closing.antt =====
-- go/warden/warden.go: how a grant ends. enforceDeadlines, pollSigner, closeLocked, advanceClosing,
-- terminate, finalize, pruneSessions, and one round of Run. Only these calls, which one goroutine
-- makes in turn, change a grant that is not open. What they log is left out, and the state file, which
-- they write after each change.
pub mod Laws
pub mod Rounds
pub mod Polls
pub mod Kill
use grantd.Base.{
  ℕ, suc, ◌*◌, ◌-◌, ◌+◌, Bool, true, false, not, ◌&&◌, ◌||◌, Option, none, some, List, [], ◌∷◌, map,
  Bytes, ℤ, Int64, pos, negsuc, ◌+ℤ◌, ◌-ℤ◌, sub64, wrap64, ltb_ℤ, leb_ℤ, codes, ◌==◌, if◌then◌else◌,
}
use grantd.Warden.State.{
  Proc, GrantInfo, Answer, unknown, unreachable, known, State, open_state, closing, closed, Session,
  Grant, Warden, Config, is_some, is_open, is_closing, update_grant, keep,
}
use grantd.Warden.Admission.{expire_pending}

-- time.Duration(d) * time.Second
unfoldable pub seconds : Int64 → Int64
seconds (pos n) = wrap64 (pos (n * 1000000000))
seconds (negsuc n) = wrap64 (negsuc (suc n * 1000000000 - 1))

-- closeLocked
unfoldable pub close_grant : Bytes → Grant → Grant
close_grant reason g =
    if is_open g.state
    then (record g { state = closing; reason = reason; term_sent = false })
    else g

-- `!g.deadlineMono.IsZero() && !mono.Before(g.deadlineMono)`
unfoldable pub mono_passed : ℤ → Option ℤ → Bool
mono_passed mono none = false
mono_passed mono (some deadline) = not (ltb_ℤ mono deadline)

-- The body of enforceDeadlines, at the wall clock's seconds and the monotonic clock.
unfoldable pub enforce_grant : Int64 → ℤ → Grant → Grant
unfolding close_grant mono_passed is_open
enforce_grant now mono g =
    if not (is_open g.state)
    then g
    else if mono_passed mono g.deadline_mono || leb_ℤ g.deadline now
    then close_grant (codes "deadline reached") g
    else g

unfoldable pub enforce_deadlines : Int64 → ℤ → Warden → Warden
enforce_deadlines now mono w = record w { grants = map (enforce_grant now mono) w.grants }

-- The clocks that pollSigner reads for one grant: the wall clock's seconds twice, and the other.
pub record Reading : Type 0 where
  pub checked : Int64
  pub anchored : Int64
  pub mono : ℤ

-- The switch of pollSigner.
unfoldable pub poll_info : Reading → GrantInfo → Grant → Grant
unfolding close_grant is_open
poll_info at info g =
    if is_some info.revoked_at
    then close_grant (codes "revoked") g
    else if leb_ℤ info.expires_at at.checked
    then close_grant (codes "expired") g
    else if ltb_ℤ info.expires_at g.deadline
    then (record g {
      deadline = info.expires_at;
      deadline_mono = some (at.mono +ℤ seconds (sub64 info.expires_at at.anchored));
    })
    else g

unfoldable pub poll_answer : Reading → Answer → Grant → Grant
unfolding poll_info
poll_answer at unknown g = close_grant (codes "signer no longer knows this grant") g
poll_answer at unreachable g = g
poll_answer at (known info) g = poll_info at info g

unfoldable pub poll_grant : Reading → Answer → Grant → Grant
unfolding poll_answer is_open
poll_grant at answer g = if is_open g.state then poll_answer at answer g else g

unfoldable pub poll_one : Reading → Answer → Bytes → Warden → Warden
poll_one at answer id w = record w { grants = update_grant id (poll_grant at answer) w.grants }

unfoldable pub open_ids : List Grant → List Bytes
unfolding is_open
open_ids [] = []
open_ids (g ∷ gs) = if is_open g.state then g.id ∷ open_ids gs else open_ids gs

unfoldable pub poll_ids : (Bytes → Reading) → (Bytes → Answer) → List Bytes → Warden → Warden
poll_ids clock signer [] w = w
poll_ids clock signer (id ∷ ids) w =
    poll_ids clock signer ids (poll_one (clock id) (signer id) id w)

-- The whole poll, when no call comes between its parts.
unfoldable pub poll_signer : (Bytes → Reading) → (Bytes → Answer) → Warden → Warden
unfolding open_ids poll_ids
poll_signer clock signer w = poll_ids clock signer (open_ids w.grants) w

-- A session whose sshd process is the one that was attached.
unfoldable pub is_alive : (ℕ → Option Proc) → Session → Bool
is_alive read_proc s = elim (read_proc s.pid) [
  | none ↦ false
  | some cur ↦ cur.start_time == s.start_time
]

unfoldable pub prune_grant : (ℕ → Option Proc) → Grant → Grant
prune_grant read_proc g = record g { sessions = keep (is_alive read_proc) g.sessions }

unfoldable pub prune_sessions : (ℕ → Option Proc) → Warden → Warden
unfolding prune_grant
prune_sessions read_proc w = record w { grants = map (prune_grant read_proc) w.grants }

-- The cgroup of a grant as terminate finds it: whether it exists, cgroup.events, where none is an
-- error, and the pids.
pub record Group : Type 0 where
  pub found : Bool
  pub populated : Option Bool
  pub procs : List ℕ

pub data Sent : Type 0 where
  nothing sigterm sigkill : Sent

unfoldable pub mark_term : Int64 → Grant → Grant
mark_term now g =
    if g.term_sent then g else (record g { term_sent = true; closing_since = some now })

-- `now.Sub(since)`: since the zero time it is the greatest duration.
unfoldable pub elapsed : Int64 → Option Int64 → ℤ
elapsed now none = pos 9223372036854775807
elapsed now (some since) = now -ℤ since

unfoldable pub finalize : Int64 → Grant → Grant
finalize now g = record g {
  state = closed;
  remaining = [];
  closing_since = some now;
  sessions = [];
}

-- What terminate reads: its clock at each of its readings, in nanoseconds, and the group.
pub record Pass : Type 0 where
  pub first : Int64
  pub later : Int64
  pub finalized : Int64
  pub group : Group

unfoldable pub outcome : Pass → Option Bool → Grant → Grant
outcome p none g = g
outcome p (some true) g = record g { remaining = p.group.procs }
outcome p (some false) g = finalize p.finalized g

unfoldable pub signalled : Config → Pass → Grant → Grant × Sent
unfolding elapsed outcome
signalled cfg p g = if not p.group.found then (finalize p.finalized g, nothing) else (
  outcome p p.group.populated g,
  if ltb_ℤ (elapsed p.later g.closing_since) cfg.term_grace then sigterm else sigkill,
)

unfoldable pub terminate : Config → Pass → Grant → Grant × Sent
unfolding mark_term signalled
terminate cfg p g = signalled cfg p (mark_term p.first g)

unfoldable pub advance_grant : Config → (Bytes → Pass) → Grant → Grant
unfolding is_closing
advance_grant cfg passes g = if is_closing g.state then (terminate cfg (passes g.id) g).0 else g

-- `g.State == Closed && time.Since(g.closingSince) > 30*time.Second`
unfoldable pub forgotten : Int64 → Grant → Bool
forgotten now g = elim g.state [
  | open_state ↦ false
  | closing ↦ false
  | closed ↦ ltb_ℤ (pos 30000000000) (elapsed now g.closing_since)
]

unfoldable pub advance_closing : Config → (Bytes → Pass) → Int64 → Warden → Warden
unfolding advance_grant forgotten
advance_closing cfg passes now w = record w {
  grants = keep (λ g. not (forgotten now g)) (map (advance_grant cfg passes) w.grants);
}

-- What one round of Run reads.
pub record Round : Type 0 where
  pub unix : Int64
  pub mono : ℤ
  pub poll_due : Bool
  pub clock : Bytes → Reading
  pub signer : Bytes → Answer
  pub nanos : Int64
  pub read_proc : ℕ → Option Proc
  pub passes : Bytes → Pass
  pub advanced : Int64

-- One round of Run, when no call comes between its parts.
unfoldable pub run_round : Config → Round → Warden → Warden
run_round cfg r w =
    let w1 = enforce_deadlines r.unix r.mono w in
    let w2 = if r.poll_due then poll_signer r.clock r.signer w1 else w1 in
    let w3 = expire_pending cfg r.nanos w2 in
    advance_closing cfg r.passes r.advanced (prune_sessions r.read_proc w3)
