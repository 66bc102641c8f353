-- ===== src/Warden/Tests/Life.antt =====
-- The warden at one grant: attached, supervised, ended, and found again after a restart.
use grantd.Base.{
  ◌≡◌, refl, true, false, none, some, List, [], ◌∷◌, Bytes, pos, ℕ, ok, codes, All, ◌<ℤ◌, ◌≤ℤ◌,
  eq_bytes, sub64, wrap64, bits64, of_bits64, ◌-ℤ◌, ◌+ℤ◌, inr, arith,
}
use grantd.Protocol.Ids.{valid_grant_id}
use grantd.Std.Base32.{all_b32, is_b32_char}
use grantd.Warden.State.{
  Proc, Answer, unreachable, open_state, closing, closed, Session, Grant, Warden, find_grant,
  is_open, is_sshd, same_process, find_pending, update_grant, keep, guard, present,
}
use grantd.Warden.Admission.{sshd_of, check_grant, check_info}
use grantd.Warden.Closing.{Reading, Group, Pass, Round, run_round, seconds, enforce_deadlines}
use grantd.Warden.Closing.Rounds.{IfOpen, run_round-Bounded}
use grantd.Warden.Closing.Polls.{Confirmed, run_round-Confirmed}
use grantd.Warden.Closing.Kill.{Gone, passes, passes-close}
use grantd.Warden.Attach.{
  World, placed, attach, attaching, attach_from, take_pending, delete_pending, check_pending,
  attach_checked, place, open_grant, open_found, with_deadline, fresh_grant, placement_ok,
  record_session, record_found, add_session, put_session, session_of,
}
use grantd.Std.Strings.{trim_suffix}
use grantd.Warden.Units.{stem, slice_unit, discover_grant_ids}
use grantd.Warden.Units.Laws.{Children, no_child, own, foreign, discover_grant_ids-Children}
use grantd.Warden.Reconcile.{
  Saved, booted, reconcile, load_state, load_from, restored, put_grant, with_found, add_missing,
  reconcile_in, reconcile_grant, must_close,
}
use grantd.Warden.Reconcile.Laws.{Supervises, reconcile_sound}
use grantd.Warden.Life.{enforcing, Reach, start, next}
use grantd.Warden.Life.Reachable.{IsValid, Reach-IsValid}
use grantd.Warden.Life.Ending.{Remains, Step-Remains}
use grantd.Warden.Tests.{grant_id_valid, cfg, caller, table, signer, admitted, grant_id}

abbrev pub root_helper : Proc
root_helper = record caller { uid = 0 }

abbrev pub machine : World
machine = record {
  read_proc = table;
  signer = signer;
  times = record { nanos = pos 1010; checked = pos 1010; unix = pos 1010; mono = pos 50 };
  put = placed;
  decimal = λ pid. codes "400";
  first = λ w. w;
  second = λ w. w;
}

abbrev after : Warden
after = (attach cfg machine root_helper (codes "visitor") admitted).1

attach_runs : attach cfg machine root_helper (codes "visitor") admitted ≡ (ok tt, after)
unfolding attach attaching guard present sshd_of is_sshd eq_bytes attach_from take_pending
    find_pending delete_pending keep check_pending same_process check_grant check_info seconds sub64
    wrap64 bits64 of_bits64 ◌-ℤ◌ ◌+ℤ◌ attach_checked place open_grant open_found find_grant
    with_deadline fresh_grant placement_ok record_session record_found is_open update_grant
    add_session put_session session_of
attach_runs = refl

abbrev session : Session
session = record {
  pid = 400;
  start_time = 7;
  scope = codes "grantd-g.scope";
  cgroup = codes "/grantd.slice";
  since = pos 1010;
}

abbrev saved : List Saved
saved =
    record {
      id = grant_id;
      deadline = pos 2700;
      state = open_state;
      reason = [];
      sessions = session ∷ [];
      remaining = [];
    }
    ∷ []

abbrev clock : Bytes → Reading
clock id = record { checked = pos 1100; anchored = pos 1100; mono = pos 10 }

abbrev restarted : Warden
restarted = (reconcile true table clock signer saved (codes "g_other" ∷ []) booted).1

reconcile_runs :
    reconcile true table clock signer saved (codes "g_other" ∷ []) booted ≡ (true, restarted)
unfolding reconcile
reconcile_runs = refl

reconcile_sound_example :
    (true ≡ true) × Supervises table clock signer saved (codes "g_other" ∷ []) restarted
reconcile_sound_example =
    reconcile_sound true table clock signer saved (codes "g_other" ∷ []) booted restarted
      reconcile_runs

abbrev reached : Reach (enforce_deadlines (pos 1200) (pos 10) restarted)
reached =
    next (start true table clock signer saved (codes "g_other" ∷ []))
      (enforcing (pos 1200) (pos 10))

Reach-IsValid_example : IsValid (enforce_deadlines (pos 1200) (pos 10) restarted)
Reach-IsValid_example = Reach-IsValid reached

-- After a restart at which the signer does not answer, the grant is closing.
abbrev silent : Bytes → Answer
silent id = unreachable

abbrev unverified : Warden
unverified = (reconcile true table clock silent saved [] booted).1

abbrev ending : Grant
ending = record {
  id = grant_id;
  deadline = pos 2700;
  state = closing;
  reason = codes "could not be verified after restart";
  sessions = session ∷ [];
  remaining = [];
  deadline_mono = none;
  term_sent = false;
  closing_since = none;
}

unverified_ending : find_grant grant_id unverified.grants ≡ some ending
unfolding reconcile load_state load_from restored put_grant with_found add_missing reconcile_in
    reconcile_grant must_close valid_grant_id all_b32 is_b32_char find_grant eq_bytes
unverified_ending = refl

ending_not_open : is_open closing ≡ false
unfolding is_open
ending_not_open = refl

Step-Remains_example : Remains grant_id ending (enforce_deadlines (pos 1200) (pos 10) unverified)
Step-Remains_example =
    Step-Remains grant_id ending (enforcing (pos 1200) (pos 10))
      (Reach-IsValid (start true table clock silent saved [])) unverified_ending ending_not_open

abbrev empty : Group
empty = record { found = true; populated = some false; procs = [] }

abbrev busy : Group
busy = record { found = true; populated = some true; procs = 400 ∷ [] }

abbrev pass_at : ℕ → Group → Pass
pass_at t c = record { first = pos t; later = pos t; finalized = pos t; group = c }

abbrev round : Round
round = record {
  unix = pos 1100;
  mono = pos 60;
  poll_due = true;
  clock = clock;
  signer = signer;
  nanos = pos 1100;
  read_proc = table;
  passes = λ id. pass_at 1100 busy;
  advanced = pos 1100;
}

not_later : pos 1100 ≤ℤ pos 1100
not_later = omega arith

run_round-Bounded_example :
    All (IfOpen (λ g. pos 1100 <ℤ g.deadline)) (run_round cfg round restarted).grants
run_round-Bounded_example = run_round-Bounded cfg round restarted (λ id. not_later)

run_round-Confirmed_example :
    All (IfOpen (Confirmed clock signer)) (run_round cfg round restarted).grants
run_round-Confirmed_example =
    run_round-Confirmed cfg round restarted
      (Reach-IsValid (start true table clock signer saved (codes "g_other" ∷ []))).unique refl

empty-Gone : Gone empty
empty-Gone = inr refl

grace_passed : pos 100 +ℤ pos 5000000000 ≤ℤ pos 5000000200
unfolding ◌+ℤ◌
grace_passed = omega arith

passes-close_example :
    (passes cfg
      (pass_at 100 busy
        ∷ pass_at 200 busy
        ∷ pass_at 5000000200 busy
        ∷ pass_at 5000000300 empty
        ∷ [])
      ending).state
    ≡ closed
passes-close_example =
    passes-close cfg (pass_at 100 busy) (pass_at 200 busy ∷ []) (pass_at 5000000200 busy)
      (pass_at 5000000300 empty) ending refl refl grace_passed (λ k. empty-Gone)

-- A child that is no slice of a grant stands before one that is.
foreign_first :
    Children
      (codes "grantd.slice")
      (codes "init.scope" ∷ codes "grantd-g_aaaaaaaaaaaaaaaa.slice" ∷ [])
      (grant_id ∷ [])
unfolding slice_unit stem trim_suffix eq_bytes
foreign_first =
    foreign (codes "init.scope") (λ id v e. absurd (ground (arith, e)))
      (own grant_id grant_id_valid no_child)

discover_grant_ids-Children_example :
    discover_grant_ids
      (codes "grantd.slice")
      (some (codes "init.scope" ∷ codes "grantd-g_aaaaaaaaaaaaaaaa.slice" ∷ []))
    ≡ grant_id ∷ []
discover_grant_ids-Children_example = discover_grant_ids-Children foreign_first
