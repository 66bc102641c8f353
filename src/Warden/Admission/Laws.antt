-- ===== src/Warden/Admission/Laws.antt =====
-- What an admission has established.
use grantd.Base.{
  ℕ, ◌≡◌, ◌≢◌, refl, sym, ap, ◌∙◌, true, not, Option, none, some, List, [], ◌∷◌, Bytes, Int64, ◌<ℤ◌,
  Result, ok, err, arith, ◌==◌, ==_iff, eq_bytes, eq_bytes_iff, >>=-eq-ok, if◌then◌else◌,
}
use grantd.Protocol.Ids.{valid_grant_id, valid_agent_id}
use grantd.SshCert
use grantd.Warden.KeyId.{parse_key_id}
use grantd.Warden.KeyId.Laws.{parse_key_id_sound}
use grantd.Warden.State.{
  Proc, GrantInfo, Answer, unknown, unreachable, known, Pending, Warden, Config, Refusal, guard,
  present, is_sshd,
}
use grantd.Warden.State.{find_pending}
use grantd.Warden.State.Laws.{guard-true, present-some}
use grantd.Warden.Admission.{
  sshd_of, check_info, check_grant, admits, put_pending, admissible, record_admission, admit,
}

-- The signer knows the grant, which is for this user, redeemed and neither revoked nor over, and
-- for which this certificate was issued.
pub record Current (g : GrantInfo) (user serial : Bytes) (now : Int64) : Type 0 where
  pub for_user : g.ssh_user ≡ user
  pub not_revoked : g.revoked_at ≡ none
  pub not_expired : now <ℤ g.expires_at
  pub redeemed : g.redeemed_at ≢ none
  pub issued : g.certificate_serial ≡ serial

check_info-ok :
    (g i : GrantInfo) (user serial : Bytes) (now : Int64)
    → serial ≢ []
    → check_info g user serial now ≡ ok i
    → (g ≡ i) × Current g user serial now
unfolding check_info
check_info-ok g i user serial now s h = (
  ground arith,
  record {
    for_user = ground (arith, eq_bytes_iff g.ssh_user user);
    not_revoked = ground arith;
    not_expired = ground arith;
    redeemed = ground arith;
    issued = ground (arith, eq_bytes_iff serial [], eq_bytes_iff g.certificate_serial serial);
  },
)

check_grant-ok :
    (a : Answer) (i : GrantInfo) (user serial : Bytes) (now : Int64)
    → serial ≢ []
    → check_grant a user serial now ≡ ok i
    → (a ≡ known i) × Current i user serial now
unfolding check_grant
check_grant-ok unknown i user serial now s h = cc
check_grant-ok unreachable i user serial now s h = cc
check_grant-ok (known g) i user serial now s h =
    let (e, c) = check_info-ok g i user serial now s h in (ap known e, rw e at c)

-- The sshd process that the certificate was presented to.
pub record IsParent (read_proc : ℕ → Option Proc) (caller sshd : Proc) : Type 0 where
  pub read : read_proc caller.ppid ≡ some sshd
  pub is_root : sshd.uid ≡ 0
  pub named : is_sshd sshd ≡ true

pub sshd_of-ok :
    (read_proc : ℕ → Option Proc) (caller sshd : Proc)
    → sshd_of read_proc caller ≡ ok sshd
    → IsParent read_proc caller sshd
unfolding sshd_of
sshd_of-ok read_proc caller sshd h =
    let (p, a1, e1) = >>=-eq-ok (present (read_proc caller.ppid) _) _ h in
    let (_, a2, e2) = >>=-eq-ok (guard (p.uid == 0) _) _ e1 in
    let (_, a3, e3) = >>=-eq-ok (guard (is_sshd p) _) _ e2 in
    let same : p ≡ sshd = ground arith in
    record {
      read = present-some _ _ a1 ∙ ap some same;
      is_root = ground (arith, guard-true _ _ a2, same);
      named = ap is_sshd (sym same) ∙ guard-true _ _ a3;
    }

pub find-put :
    (p : Pending) (ps : List Pending) (pid : ℕ)
    → find_pending pid (put_pending p ps)
      ≡ (if p.sshd.pid == pid then some p else find_pending pid ps)
unfolding put_pending find_pending
find-put p [] pid = ground arith
find-put p (q ∷ qs) pid = ground (arith, find-put p qs pid)

-- What an admission is.
pub record Admits (cfg : Config) (read_proc : ℕ → Option Proc) (signer : Bytes → Answer)
    (now created : Int64) (before w w' : Warden) (caller : Proc) (user key_id serial : Bytes)
    (grant_id agent_id : Bytes) (sshd : Proc) (info : GrantInfo) : Type 0 where
  pub is_ready : before.ready ≡ true
  pub by_command : caller.uid ≡ cfg.admit_uid
  pub enrolled : user ≡ cfg.ssh_user
  pub label : key_id ≡ SshCert.key_id grant_id agent_id
  pub grant_formed : valid_grant_id grant_id ≡ true
  pub agent_formed : valid_agent_id agent_id ≡ true
  pub parent : IsParent read_proc caller sshd
  pub answered : signer grant_id ≡ known info
  pub current : Current info user serial now
  pub not_closing : admits grant_id w.grants ≡ true
  pub grants_kept : w'.grants ≡ w.grants
  pub ready_kept : w'.ready ≡ w.ready
  pub pends :
      (pid : ℕ)
      → find_pending pid w'.pending ≡ (
          if sshd.pid == pid
          then some (record {
            sshd = sshd;
            grant_id = grant_id;
            user = user;
            deadline = info.expires_at;
            created = created;
          })
          else find_pending pid w.pending)

record_admission-ok :
    (user : Bytes) (created : Int64) (r : Result Refusal (Bytes × (Proc × GrantInfo)))
    (w w' : Warden) (principal : Bytes)
    → record_admission user created r w ≡ (ok principal, w')
    → (grant_id : Bytes) × (sshd : Proc) × (info : GrantInfo) × (r ≡ ok (grant_id, (sshd, info)))
      × (principal ≡ user)
      × (admits grant_id w.grants ≡ true)
      × (w' ≡ record w {
        pending =
            put_pending
              (record {
                sshd = sshd;
                grant_id = grant_id;
                user = user;
                deadline = info.expires_at;
                created = created;
              })
              w.pending;
      })
unfolding record_admission
record_admission-ok user created (err e) w w' principal h = absurd (ground arith)
record_admission-ok user created (ok (g, (sshd, info))) w w' principal h =
    (g, sshd, info, refl, ground arith, ground arith, ground arith)

-- When Admit returns a principal, whatever ran between its first reads and its last lock: the warden
-- was ready, the caller is the admission command's account, the principal is the enrolled user; the
-- certificate's label is the one that the authority writes for a well-formed grant id and agent id;
-- the caller's parent is a process of root named as sshd is; the signer knows the grant, for that
-- user, redeemed, neither revoked nor expired, and with this certificate's serial; the grant is not
-- closing on this host; and all that has changed is that this sshd's pending admission is this one.
pub admit_sound :
    (cfg : Config) (read_proc : ℕ → Option Proc) (signer : Bytes → Answer) (now created : Int64)
    (before w w' : Warden) (caller : Proc) (user key_id serial principal : Bytes)
    → admit cfg read_proc signer now created before w caller user key_id serial ≡ (ok principal, w')
    → (principal ≡ cfg.ssh_user)
      × (grant_id : Bytes) × (agent_id : Bytes) × (sshd : Proc) × (info : GrantInfo) × Admits cfg
          read_proc signer now created before w w' caller user key_id serial grant_id agent_id sshd
          info
unfolding admit admissible
admit_sound cfg read_proc signer now created before w w' caller user key_id serial principal h =
    let (g, sshd, info, r, q, op, st) =
      record_admission-ok user created
        (admissible cfg read_proc signer now before caller user key_id serial) w w' principal h in
    let (_, a1, e1) = >>=-eq-ok (guard before.ready _) _ r in
    let (_, a2, e2) = >>=-eq-ok (guard (caller.uid == cfg.admit_uid) _) _ e1 in
    let (_, a3, e3) = >>=-eq-ok (guard (eq_bytes user cfg.ssh_user) _) _ e2 in
    let (ids, a4, e4) = >>=-eq-ok (present (parse_key_id key_id) _) _ e3 in
    let (_, a5, e5) = >>=-eq-ok (guard (not (eq_bytes serial [])) _) _ e4 in
    let (sshd', a6, e6) = >>=-eq-ok (sshd_of read_proc caller) _ e5 in
    let (_, a7, e7) = >>=-eq-ok (guard (admits ids.0 before.grants) _) _ e6 in
    let (info', a8, e8) = >>=-eq-ok (check_grant (signer ids.0) user serial now) _ e7 in
    let ne : serial ≢ [] = ground (arith, guard-true _ _ a5, eq_bytes_iff serial []) in
    let u : user ≡ cfg.ssh_user = (eq_bytes_iff user cfg.ssh_user).0 (guard-true _ _ a3) in
    let i1 : ids.0 ≡ g = ground arith in
    let i2 : sshd' ≡ sshd = ground arith in
    let i3 : info' ≡ info = ground arith in
    let (known_info, cur) = check_grant-ok (signer ids.0) info' user serial now ne a8 in
    let (lab, gf, af) = parse_key_id_sound key_id ids.0 ids.1 (present-some _ _ a4) in
    (
      q ∙ u,
      g,
      ids.1,
      sshd,
      info,
      record {
        is_ready = guard-true _ _ a1;
        by_command = (==_iff caller.uid cfg.admit_uid).0 (guard-true _ _ a2);
        enrolled = u;
        label = lab ∙ ap (λ (x : Bytes). SshCert.key_id x ids.1) i1;
        grant_formed = ap valid_grant_id (sym i1) ∙ gf;
        agent_formed = af;
        parent = rw i2 at (sshd_of-ok read_proc caller sshd' a6);
        answered = ap signer (sym i1) ∙ known_info ∙ ap known i3;
        current = rw i3 at cur;
        not_closing = op;
        grants_kept = ap (λ (x : Warden). x.grants) st;
        ready_kept = ap (λ (x : Warden). x.ready) st;
        pends =
            λ pid. ap (λ (x : Warden). find_pending pid x.pending) st ∙ find-put _ w.pending pid;
      },
    )
