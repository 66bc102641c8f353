-- ===== src/Warden/Admission.antt =====
-- go/warden/warden.go: sshdOf, checkGrant and Admit, with the state that they read and write; and the
-- process of go/warden/proc.go. The reads of /proc, the signer's answer and the clock are arguments.
-- Admit takes the lock more than once: it is given the state at its first reads and the state at its
-- last lock, between which other calls may have run, and returns the state that it leaves.
pub mod Laws
use grantd.Base.{
  ℕ, Bool, true, false, not, ◌&&◌, ◌||◌, Option, none, some, List, [], ◌∷◌, Bytes, Int64, leb_ℤ,
  ◌+ℤ◌, ltb_ℤ, Result, ok, err, codes, ◌==◌, eq_bytes, if◌then◌else◌, ◌>>=◌, ◌>>◌,
}
use grantd.Warden.KeyId.{parse_key_id}
use grantd.Warden.State.{
  Proc, is_sshd, GrantInfo, Answer, unknown, unreachable, known, State, Grant, Pending, Warden,
  Config, Reason, no_parent, parent_not_root, parent_not_sshd, grant_unknown, grant_unverified,
  wrong_user, revoked, expired, not_redeemed, wrong_serial, wrong_caller, wrong_login, bad_key_id,
  no_serial, grant_not_open, Refusal, not_ready, denied, guard, present, is_some, is_open, keep,
}

-- `read_proc` is ReadProc.
unfoldable pub sshd_of : (ℕ → Option Proc) → Proc → Result Refusal Proc
unfolding guard present
sshd_of read_proc caller = do
  parent ← present (read_proc caller.ppid) (denied no_parent)
  guard (parent.uid == 0) (denied parent_not_root)
  guard (is_sshd parent) (denied parent_not_sshd)
  ok parent

-- The cases of checkGrant, in order, at a time in seconds.
unfoldable pub check_info : GrantInfo → Bytes → Bytes → Int64 → Result Refusal GrantInfo
check_info g user serial now =
    if not (eq_bytes g.ssh_user user)
    then err (denied wrong_user)
    else if is_some g.revoked_at
    then err (denied revoked)
    else if leb_ℤ g.expires_at now
    then err (denied expired)
    else if not (is_some g.redeemed_at)
    then err (denied not_redeemed)
    else if not (eq_bytes serial []) && not (eq_bytes g.certificate_serial serial)
    then err (denied wrong_serial)
    else ok g

unfoldable pub check_grant : Answer → Bytes → Bytes → Int64 → Result Refusal GrantInfo
unfolding check_info
check_grant unknown user serial now = err (denied grant_unknown)
check_grant unreachable user serial now = err (denied grant_unverified)
check_grant (known g) user serial now = check_info g user serial now

-- `g, ok := w.grants[id]; ok && g.State != Open` does not hold.
unfoldable pub admits : Bytes → List Grant → Bool
unfolding is_open
admits id [] = true
admits id (g ∷ gs) = if eq_bytes g.id id then is_open g.state else admits id gs

-- w.pending[p.sshd.PID] = p
unfoldable pub put_pending : Pending → List Pending → List Pending
put_pending p [] = p ∷ []
put_pending p (q ∷ qs) = if q.sshd.pid == p.sshd.pid then p ∷ qs else q ∷ put_pending p qs

-- Up to the last lock: the grant's id, the sshd process and the signer's answer.
unfoldable pub admissible :
    Config
    → (ℕ → Option Proc)
    → (Bytes → Answer)
    → Int64
    → Warden
    → Proc
    → Bytes
    → Bytes
    → Bytes
    → Result Refusal (Bytes × (Proc × GrantInfo))
unfolding guard present sshd_of check_grant
admissible cfg read_proc signer now w caller user key_id serial = do
  guard w.ready not_ready
  guard (caller.uid == cfg.admit_uid) (denied wrong_caller)
  guard (eq_bytes user cfg.ssh_user) (denied wrong_login)
  ids ← present (parse_key_id key_id) (denied bad_key_id)
  guard (not (eq_bytes serial [])) (denied no_serial)
  sshd ← sshd_of read_proc caller
  guard (admits ids.0 w.grants) (denied grant_not_open)
  info ← check_grant (signer ids.0) user serial now
  ok (ids.0, (sshd, info))

-- The last lock, at the state that it finds.
unfoldable pub record_admission :
    Bytes
    → Int64
    → Result Refusal (Bytes × (Proc × GrantInfo))
    → Warden
    → Result Refusal Bytes × Warden
record_admission user created (err e) w = (err e, w)
record_admission user created (ok (grant_id, (sshd, info))) w =
    if admits grant_id w.grants
    then (
      ok user,
      record w {
        pending =
            put_pending
              (record {
                sshd = sshd;
                grant_id = grant_id;
                user = user;
                deadline = info.expires_at;
                created = created;
              })
              w.pending;
      },
    )
    else (err (denied grant_not_open), w)

unfoldable pub admit :
    Config
    → (ℕ → Option Proc)
    → (Bytes → Answer)
    → Int64
    → Int64
    → Warden
    → Warden
    → Proc
    → Bytes
    → Bytes
    → Bytes
    → Result Refusal Bytes × Warden
unfolding admissible record_admission
admit cfg read_proc signer now created before w caller user key_id serial =
    record_admission user created
      (admissible cfg read_proc signer now before caller user key_id serial) w

-- `now.Sub(p.created) > w.cfg.PendingTTL`, by the exact difference. The source's saturates at the
-- ends of an int64, which only a TTL of the greatest int64 would show.
unfoldable pub expire_pending : Config → Int64 → Warden → Warden
expire_pending cfg now w = record w {
  pending = keep (λ p. not (ltb_ℤ (p.created +ℤ cfg.pending_ttl) now)) w.pending;
}
