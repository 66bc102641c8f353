-- ===== src/Warden/Life/Invariant.antt =====
-- What holds of each grant between two calls.
use grantd.Base.{
  ℕ, ◌≡◌, ◌≢◌, refl, Bool, true, false, Option, none, some, List, [], ◌∷◌, Bytes, ℤ, Int64, arith,
  inl, inr, Bool-cases,
}
use grantd.Warden.State.{
  Proc, GrantInfo, Answer, unknown, unreachable, known, open_state, closing, closed, Session, Grant,
  Config, is_open, is_closing, keep,
}
use grantd.Warden.Closing.{
  Reading, Pass, enforce_grant, poll_grant, prune_grant, finalize, mark_term, outcome, signalled,
  terminate, advance_grant, is_alive,
}
use grantd.Warden.Attach.{Times, with_deadline, fresh_grant, add_session}
use grantd.Warden.Reconcile.{reconcile_grant}

-- An open grant has not been signalled and has a deadline by the monotonic clock; a closed one holds
-- nothing; and the clocks that terminate and the forgetting read are there.
pub record IsSound (g : Grant) : Type 0 where
  pub open_unmarked : g.state ≡ open_state → g.term_sent ≡ false
  pub open_bounded : g.state ≡ open_state → g.deadline_mono ≢ none
  pub closed_sessions : g.state ≡ closed → g.sessions ≡ []
  pub closed_remaining : g.state ≡ closed → g.remaining ≡ []
  pub closed_since : g.state ≡ closed → g.closing_since ≢ none
  pub marked_since : g.term_sent ≡ true → g.closing_since ≢ none

pub enforce_grant-IsSound :
    (now : Int64) (mono : ℤ) (g : Grant) → IsSound g → IsSound (enforce_grant now mono g)
unfolding enforce_grant
enforce_grant-IsSound now mono g s = ground arith

pub poll_grant-IsSound :
    (at : Reading) (a : Answer) (g : Grant) → IsSound g → IsSound (poll_grant at a g)
unfolding poll_grant
poll_grant-IsSound at unknown g s = ground arith
poll_grant-IsSound at unreachable g s = ground arith
poll_grant-IsSound at (known i) g s = ground arith

keep-nil : {A : Type 0} (p : A → Bool) (xs : List A) → xs ≡ [] → keep p xs ≡ []
unfolding keep
keep-nil p [] h = refl
keep-nil p (x ∷ xs) h = cc

pub prune_grant-IsSound :
    (read_proc : ℕ → Option Proc) (g : Grant) → IsSound g → IsSound (prune_grant read_proc g)
unfolding prune_grant
prune_grant-IsSound read_proc g s = ground (arith, keep-nil (is_alive read_proc) g.sessions)

outcome-IsSound :
    (p : Pass) (b : Option Bool) (g : Grant)
    → g.state ≡ closing
    → IsSound g
    → IsSound (outcome p b g)
unfolding outcome finalize
outcome-IsSound p none g c s = s
outcome-IsSound p (some true) g c s = ground arith
outcome-IsSound p (some false) g c s = ground arith

signalled-IsSound :
    (cfg : Config) (p : Pass) (g : Grant)
    → g.state ≡ closing
    → IsSound g
    → IsSound (signalled cfg p g).0
unfolding signalled finalize
signalled-IsSound cfg p g c s = elim (Bool-cases p.group.found) [
  | inl e ↦ rw e (outcome-IsSound p p.group.populated g c s)
  | inr e ↦ rw e (ground arith)
]

mark_term-IsSound :
    (now : Int64) (g : Grant)
    → g.state ≡ closing
    → IsSound g
    → ((mark_term now g).state ≡ closing) × IsSound (mark_term now g)
unfolding mark_term
mark_term-IsSound now g c s = ground arith

closing_of : (g : Grant) → is_closing g.state ≡ true → g.state ≡ closing
unfolding is_closing
closing_of g h = ground arith

pub advance_grant-IsSound :
    (cfg : Config) (passes : Bytes → Pass) (g : Grant)
    → IsSound g
    → IsSound (advance_grant cfg passes g)
unfolding advance_grant terminate
advance_grant-IsSound cfg passes g s = elim (Bool-cases (is_closing g.state)) [
  | inr e ↦ rw e s
  | inl e ↦
      (let p = passes g.id in
        let (c, m) = mark_term-IsSound p.first g (closing_of g e) s in
        rw e (signalled-IsSound cfg p (mark_term p.first g) c m))
]

pub with_deadline-IsSound :
    (at : Times) (info : GrantInfo) (g : Grant) → IsSound g → IsSound (with_deadline at info g)
unfolding with_deadline
with_deadline-IsSound at info g s = ground arith

pub add_session-IsSound :
    (x : Session) (g : Grant) → is_open g.state ≡ true → IsSound g → IsSound (add_session x g)
unfolding add_session is_open
add_session-IsSound x g o s = ground arith

pub fresh-IsSound :
    (at : Times) (info : GrantInfo) (id : Bytes) → IsSound (with_deadline at info (fresh_grant id))
unfolding with_deadline fresh_grant
fresh-IsSound at info id = ground arith

pub reconcile_grant-IsSound :
    (read_proc : ℕ → Option Proc) (at : Reading) (a : Answer) (g : Grant)
    → g.term_sent ≡ false
    → IsSound (reconcile_grant read_proc at a g)
unfolding reconcile_grant
reconcile_grant-IsSound read_proc at unknown g t = ground arith
reconcile_grant-IsSound read_proc at unreachable g t = ground arith
reconcile_grant-IsSound read_proc at (known i) g t = ground arith
