-- ===== src/Warden/Life.antt =====
-- The warden as a state machine: the calls of go/warden/warden.go that change its state, each as one
-- step, in any order and with any answers of the machine, the clocks and the signer.
pub mod Invariant
pub mod Reachable
pub mod Ending
use grantd.Base.{ℕ, Bool, Option, List, Bytes, ℤ, Int64}
use grantd.Warden.State.{Proc, GrantInfo, Answer, Session, Warden, Config}
use grantd.Warden.Admission.{admit, expire_pending}
use grantd.Warden.Closing.{
  Reading, Pass, enforce_deadlines, poll_one, prune_sessions, advance_closing,
}
use grantd.Warden.Attach.{Times, take_pending, open_grant, record_session}
use grantd.Warden.Reconcile.{Saved, booted, reconcile}

pub data Step (w : Warden) : Warden → Type 0 where
  admitting :
      (cfg : Config) (read_proc : ℕ → Option Proc) (signer : Bytes → Answer) (now created : Int64)
      (before : Warden) (caller : Proc) (user key_id serial : Bytes)
      → Step w (admit cfg read_proc signer now created before w caller user key_id serial).1
  taking : (sshd : Proc) → Step w (take_pending sshd w).1
  opening : (at : Times) (info : GrantInfo) (id : Bytes) → Step w (open_grant at info id w).1
  recording : (s : Session) (id : Bytes) → Step w (record_session s id w).1
  enforcing : (now : Int64) (mono : ℤ) → Step w (enforce_deadlines now mono w)
  polling : (at : Reading) (answer : Answer) (id : Bytes) → Step w (poll_one at answer id w)
  expiring : (cfg : Config) (now : Int64) → Step w (expire_pending cfg now w)
  pruning : (read_proc : ℕ → Option Proc) → Step w (prune_sessions read_proc w)
  advancing :
      (cfg : Config) (passes : Bytes → Pass) (now : Int64)
      → Step w (advance_closing cfg passes now w)

-- The states that a warden reaches after it has been started.
pub data Reach : Warden → Type 0 where
  start :
      (ping : Bool) (read_proc : ℕ → Option Proc) (clock : Bytes → Reading)
      (signer : Bytes → Answer) (saved : List Saved) (ids : List Bytes)
      → Reach (reconcile ping read_proc clock signer saved ids booted).1
  next : {w w' : Warden} → Reach w → Step w w' → Reach w'
