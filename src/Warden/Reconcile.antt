-- ===== src/Warden/Reconcile.antt =====
-- go/warden/warden.go: Reconcile, after a restart. What the state file holds, the grants whose slices are
-- on the machine, the signer's answers and the process table are arguments.
pub mod Load
pub mod Laws
use grantd.Base.{
  ℕ, Bool, true, false, not, ◌&&◌, ◌||◌, Option, none, some, List, [], ◌∷◌, map, Bytes, ℤ, Int64,
  ◌+ℤ◌, sub64, leb_ℤ, Result, ok, err, codes, eq_bytes, if◌then◌else◌,
}
use grantd.Protocol.Ids.{valid_grant_id}
use grantd.Warden.State.{
  Proc, GrantInfo, Answer, unknown, unreachable, known, State, open_state, closing, Session, Grant,
  Pending, Warden, is_some, find_grant, keep,
}
use grantd.Warden.Closing.{Reading, seconds, is_alive}
use grantd.Warden.Attach.{fresh_grant}

-- What the state file keeps of a grant: its exported fields.
pub record Saved : Type 0 where
  pub id : Bytes
  pub deadline : Int64
  pub state : State
  pub reason : Bytes
  pub sessions : List Session
  pub remaining : List ℕ

unfoldable pub restored : Saved → Grant
restored s = record {
  id = s.id;
  deadline = s.deadline;
  state = s.state;
  reason = s.reason;
  sessions = s.sessions;
  remaining = s.remaining;
  deadline_mono = none;
  term_sent = false;
  closing_since = none;
}

-- out[g.ID] = g, for the well-formed ids: a later entry of the file replaces an earlier one.
unfoldable pub put_grant : Grant → List Grant → List Grant
put_grant g [] = g ∷ []
put_grant g (h ∷ hs) = if eq_bytes h.id g.id then g ∷ hs else h ∷ put_grant g hs

unfoldable pub load_from : List Grant → List Saved → List Grant
unfolding restored put_grant
load_from out [] = out
load_from out (s ∷ ss) =
    load_from (if valid_grant_id s.id then put_grant (restored s) out else out) ss

unfoldable pub load_state : List Saved → List Grant
unfolding load_from
load_state = load_from []

-- A grant of its own for the id of a slice that is not in the file: `g` is loaded[id].
unfoldable pub add_missing : Option Grant → Bytes → List Grant → List Grant
add_missing none id gs = fresh_grant id ∷ gs
add_missing (some g) id gs = gs

unfoldable pub with_found : List Grant → List Bytes → List Grant
unfolding add_missing
with_found gs [] = gs
with_found gs (id ∷ ids) = with_found (add_missing (find_grant id gs) id gs) ids

unfoldable pub must_close : Bytes → Grant → Grant
must_close reason g = record g { state = closing; reason = reason; term_sent = false }

-- The switch of Reconcile.
unfoldable pub reconcile_info : (ℕ → Option Proc) → Reading → GrantInfo → Grant → Grant
unfolding must_close
reconcile_info read_proc at info g =
    if is_some info.revoked_at
    then must_close (codes "revoked") g
    else if leb_ℤ info.expires_at at.checked
    then must_close (codes "expired") g
    else (record g {
      state = open_state;
      deadline = info.expires_at;
      deadline_mono = some (at.mono +ℤ seconds (sub64 info.expires_at at.anchored));
      sessions = keep (is_alive read_proc) g.sessions;
    })

unfoldable pub reconcile_grant : (ℕ → Option Proc) → Reading → Answer → Grant → Grant
unfolding reconcile_info must_close
reconcile_grant read_proc at unknown g = must_close (codes "unknown to the signer after restart") g
reconcile_grant read_proc at unreachable g =
    must_close (codes "could not be verified after restart") g
reconcile_grant read_proc at (known info) g = reconcile_info read_proc at info g

unfoldable pub reconcile_in :
    (ℕ → Option Proc) → (Bytes → Reading) → (Bytes → Answer) → Grant → Grant
unfolding reconcile_grant
reconcile_in read_proc clock signer g = reconcile_grant read_proc (clock g.id) (signer g.id) g

-- New.
abbrev pub booted : Warden
booted = record { grants = []; pending = []; ready = false }

-- `ping` says whether the signer answered. The grants replace those of the state; none is an error.
unfoldable pub reconcile :
    Bool
    → (ℕ → Option Proc)
    → (Bytes → Reading)
    → (Bytes → Answer)
    → List Saved
    → List Bytes
    → Warden
    → Bool × Warden
unfolding load_state with_found reconcile_in
reconcile ping read_proc clock signer saved ids w = if not ping then (false, w) else (
  true,
  record w {
    grants = map (reconcile_in read_proc clock signer) (with_found (load_state saved) ids);
    ready = true;
  },
)
