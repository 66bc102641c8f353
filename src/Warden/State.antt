-- ===== src/Warden/State.antt =====
-- go/warden/warden.go and go/warden/proc.go: the types of the warden, and its maps as lists. The reads
-- of /proc, the signer's answer and the clocks are arguments of the calls.
pub mod Laws
pub mod Maps
use grantd.Base.{
  ℕ, Bool, true, false, ◌&&◌, ◌||◌, Option, none, some, List, [], ◌∷◌, Bytes, Int64, Result, ok,
  err, codes, ◌==◌, eq_bytes, if◌then◌else◌,
}
use grantd.Signer.Lifetime.{LifetimeGrant}

pub record Proc : Type 0 where
  pub pid : ℕ
  pub ppid : ℕ
  pub uid : ℕ
  pub start_time : ℕ
  pub exe : Bytes
  pub cgroup : Bytes

unfoldable pub same_process : Proc → Proc → Bool
same_process p other = (p.pid == other.pid) && (p.start_time == other.start_time)

unfoldable pub is_sshd : Proc → Bool
is_sshd p = eq_bytes p.exe (codes "sshd") || eq_bytes p.exe (codes "sshd-session")

-- api.LifetimeGrant
abbrev pub GrantInfo : Type 0
GrantInfo = LifetimeGrant

-- What GrantSource.Grant returns: ErrGrantUnknown, another error, or the grant.
pub data Answer : Type 0 where
  unknown unreachable : Answer
  known : GrantInfo → Answer

pub data State : Type 0 where
  open_state closing closed : State

pub record Session : Type 0 where
  pub pid : ℕ
  pub start_time : ℕ
  pub scope : Bytes
  pub cgroup : Bytes
  pub since : Int64

-- A zero time is none. The times of the clocks are in nanoseconds, the deadline in seconds.
pub record Grant : Type 0 where
  pub id : Bytes
  pub deadline : Int64
  pub state : State
  pub reason : Bytes
  pub sessions : List Session
  pub remaining : List ℕ
  pub deadline_mono : Option Int64
  pub term_sent : Bool
  pub closing_since : Option Int64

pub record Pending : Type 0 where
  pub sshd : Proc
  pub grant_id : Bytes
  pub user : Bytes
  pub deadline : Int64
  pub created : Int64

-- The map of grants is keyed by their ids, the map of pending admissions by the pids of their sshd.
-- The configuration is an argument of the calls that read it; `signerDownSince` is never read.
pub record Warden : Type 0 where
  pub grants : List Grant
  pub pending : List Pending
  pub ready : Bool

-- The fields of Config that the calls below read and that are not arguments of theirs.
pub record Config : Type 0 where
  pub ssh_user : Bytes
  pub slice : Bytes
  pub admit_uid : ℕ
  pub term_grace : Int64
  pub pending_ttl : Int64

pub data Reason : Type 0 where
  no_parent parent_not_root parent_not_sshd : Reason
  grant_unknown grant_unverified wrong_user revoked expired not_redeemed wrong_serial : Reason
  wrong_caller wrong_login bad_key_id no_serial grant_not_open : Reason
  not_root no_admission recycled other_user admission_old no_time_left : Reason
  no_slice no_scope not_placed closed_meanwhile : Reason

pub data Refusal : Type 0 where
  not_ready : Refusal
  denied : Reason → Refusal

unfoldable pub guard : Bool → Refusal → Result Refusal (Unit {0})
guard true e = ok tt
guard false e = err e

unfoldable pub present : {A : Type 0} → Option A → Refusal → Result Refusal A
present none e = err e
present (some a) e = ok a

abbrev pub is_some : {A : Type 0} → Option A → Bool
is_some none = false
is_some (some a) = true

unfoldable pub is_open : State → Bool
is_open open_state = true
is_open closing = false
is_open closed = false

unfoldable pub is_closing : State → Bool
is_closing open_state = false
is_closing closing = true
is_closing closed = false

-- w.grants[id]
unfoldable pub find_grant : Bytes → List Grant → Option Grant
find_grant id [] = none
find_grant id (g ∷ gs) = if eq_bytes g.id id then some g else find_grant id gs

-- What a pointer to the grant changes.
unfoldable pub update_grant : Bytes → (Grant → Grant) → List Grant → List Grant
update_grant id f [] = []
update_grant id f (g ∷ gs) = if eq_bytes g.id id then f g ∷ gs else g ∷ update_grant id f gs

-- range over the map, deleting the entries that fail the test.
unfoldable pub keep {ℓ} : {A : Type ℓ} → (A → Bool) → List A → List A
keep p [] = []
keep p (a ∷ as') = let rest = keep p as' in if p a then a ∷ rest else rest

unfoldable pub find_pending : ℕ → List Pending → Option Pending
find_pending pid [] = none
find_pending pid (q ∷ qs) = if q.sshd.pid == pid then some q else find_pending pid qs
