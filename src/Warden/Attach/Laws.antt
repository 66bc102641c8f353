-- ===== src/Warden/Attach/Laws.antt =====
-- What the checks of an attachment have established.
use grantd.Base.{
  ℕ, ◌≡◌, refl, ap, ◌∙◌, true, not, Option, some, [], Bytes, Int64, pos, ◌<ℤ◌, ◌≤ℤ◌, ◌+ℤ◌, sub64,
  ltb_ℤ, ok, arith, ◌==◌, ==_iff, eq_bytes, eq_bytes_iff, >>=-eq-ok,
}
use grantd.Warden.State.{
  Proc, same_process, GrantInfo, Answer, unknown, unreachable, known, Pending, Warden, Config,
  guard, present,
}
use grantd.Warden.State.Laws.{guard-true, present-some}
use grantd.Warden.Admission.{check_info, check_grant}
use grantd.Warden.Admission.Laws.{Current, IsParent, sshd_of-ok}
use grantd.Warden.Closing.{seconds}
use grantd.Warden.Attach.{attaching, Times, check_pending}

-- Who attached.
pub record Called (read_proc : ℕ → Option Proc) (w : Warden) (caller sshd : Proc) : Type 0 where
  pub is_ready : w.ready ≡ true
  pub by_root : caller.uid ≡ 0
  pub parent : IsParent read_proc caller sshd

pub attaching-ok :
    (read_proc : ℕ → Option Proc) (w : Warden) (caller sshd : Proc)
    → attaching read_proc w caller ≡ ok sshd
    → Called read_proc w caller sshd
unfolding attaching
attaching-ok read_proc w caller sshd h =
    let (_, a1, e1) = >>=-eq-ok (guard w.ready _) _ h in
    let (_, a2, e2) = >>=-eq-ok (guard (caller.uid == 0) _) _ e1 in
    record {
      is_ready = guard-true _ _ a1;
      by_root = (==_iff caller.uid 0).0 (guard-true _ _ a2);
      parent = sshd_of-ok read_proc caller sshd e2;
    }

check_info-live :
    (g i : GrantInfo) (user : Bytes) (now : Int64)
    → check_info g user [] now ≡ ok i
    → (g ≡ i) × Current g user g.certificate_serial now
unfolding check_info
check_info-live g i user now h = (
  ground arith,
  record {
    for_user = ground (arith, eq_bytes_iff g.ssh_user user);
    not_revoked = ground arith;
    not_expired = ground arith;
    redeemed = ground arith;
    issued = refl;
  },
)

check_grant-live :
    (a : Answer) (i : GrantInfo) (user : Bytes) (now : Int64)
    → check_grant a user [] now ≡ ok i
    → (a ≡ known i) × Current i user i.certificate_serial now
unfolding check_grant
check_grant-live unknown i user now h = cc
check_grant-live unreachable i user now h = cc
check_grant-live (known g) i user now h =
    let (e, c) = check_info-live g i user now h in (ap known e, rw e at c)

-- What is pending for this sshd process, and what the signer says now.
pub record Vouched (cfg : Config) (signer : Bytes → Answer) (at : Times) (sshd : Proc)
    (user : Bytes) (p : Pending) (info : GrantInfo) : Type 0 where
  pub same : same_process p.sshd sshd ≡ true
  pub for_user : p.user ≡ user
  pub recent : at.nanos ≤ℤ p.created +ℤ cfg.pending_ttl
  pub answered : signer p.grant_id ≡ known info
  pub current : Current info user info.certificate_serial at.checked
  pub time_left : pos 0 <ℤ seconds (sub64 info.expires_at at.unix)

pub check_pending-ok :
    (cfg : Config) (signer : Bytes → Answer) (at : Times) (sshd : Proc) (user : Bytes)
    (found : Option Pending) (p : Pending) (info : GrantInfo)
    → check_pending cfg signer at sshd user found ≡ ok (p, info)
    → (found ≡ some p) × Vouched cfg signer at sshd user p info
unfolding check_pending
check_pending-ok cfg signer at sshd user found p info h =
    let (p', a1, e1) = >>=-eq-ok (present found _) _ h in
    let (_, a2, e2) = >>=-eq-ok (guard (same_process p'.sshd sshd) _) _ e1 in
    let (_, a3, e3) = >>=-eq-ok (guard (eq_bytes p'.user user) _) _ e2 in
    let (_, a4, e4) =
      >>=-eq-ok (guard (not (ltb_ℤ (p'.created +ℤ cfg.pending_ttl) at.nanos)) _) _ e3 in
    let (info', a5, e5) = >>=-eq-ok (check_grant (signer p'.grant_id) user [] at.checked) _ e4 in
    let (_, a6, e6) =
      >>=-eq-ok (guard (ltb_ℤ (pos 0) (seconds (sub64 info'.expires_at at.unix))) _) _ e5 in
    let same_p : p' ≡ p = ground arith in
    let same_i : info' ≡ info = ground arith in
    let (answered, current) = check_grant-live (signer p'.grant_id) info' user at.checked a5 in
    let v : Vouched cfg signer at sshd user p' info' = record {
      same = guard-true _ _ a2;
      for_user = (eq_bytes_iff p'.user user).0 (guard-true _ _ a3);
      recent = ground (arith, guard-true _ _ a4);
      answered = answered;
      current = current;
      time_left = ground (arith, guard-true _ _ a6);
    } in
    (present-some found _ a1 ∙ ap some same_p, rw same_p at (rw same_i at v))
