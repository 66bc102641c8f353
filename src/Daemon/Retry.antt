-- ===== src/Daemon/Retry.antt =====
-- go/daemon/rendezvous/rendezvous.go: Run and the waits between its sessions, in nanoseconds. A round
-- says where its context is seen cancelled and what its session meets; `int63n` is rand.Int63n, with the
-- state of the source that it draws from. What it logs is left out.
pub mod Laws
use grantd.Base.{
  ℕ, ◌+◌, ◌*◌, ◌/◌, Bool, true, false, Option, none, some, List, [], ◌∷◌, ltb, if◌then◌else◌, Bytes,
  Result, ok, err,
}
use grantd.Daemon.Session.{World, session}

abbrev pub second : ℕ
second = 1_000_000_000

abbrev pub min_backoff : ℕ
min_backoff = 1 * second

abbrev pub max_backoff : ℕ
max_backoff = 60 * second

pub record Round : Type 0 where
  -- ctx.Err() is set before the session, and after it.
  pub cancelled_before : Bool
  pub cancelled_after : Bool
  -- What the session meets.
  pub world : World
  -- ctx.Done() ends the wait.
  pub cancelled_waiting : Bool
  pub source : ℕ

-- Run returns ctx.Err() or nil.
pub data Returned : Type 0 where
  context_error no_error : Returned

-- `err != nil` after the session.
unfoldable pub is_error : {E A : Type 0} → Result E A → Bool
is_error (ok a) = false
is_error (err e) = true

unfoldable pub fails : Bytes → Round → Bool
unfolding is_error
fails origin r = is_error (session origin r.world).1

-- The wait after a session that ended with an error or without one.
unfoldable pub next_backoff : Bool → ℕ → ℕ
next_backoff failed backoff =
    let doubled = backoff * 2 in
    let capped = if ltb max_backoff doubled then max_backoff else doubled in
    if failed then capped else min_backoff

-- One round, with what follows it.
unfoldable pub one_round : Round → ℕ → List ℕ × Option Returned → List ℕ × Option Returned
one_round r wait rest =
    if r.cancelled_before
    then ([], some context_error)
    else if r.cancelled_after
    then ([], some no_error)
    else if r.cancelled_waiting
    then (wait ∷ [], some no_error)
    else (wait ∷ rest.0, rest.1)

unfoldable pub jitter : (ℕ → ℕ → ℕ) → ℕ → ℕ → ℕ
jitter int63n d source = d / 2 + int63n source d

module _ (int63n : ℕ → ℕ → ℕ) (origin : Bytes) where
  -- The waits that are begun, and what Run returns, none while it goes on.
  unfoldable pub run_from : ℕ → List Round → List ℕ × Option Returned
  unfolding jitter next_backoff one_round fails
  run_from backoff [] = ([], none)
  run_from backoff (r ∷ rs) =
      let wait = jitter int63n backoff r.source in
      let rest = run_from (next_backoff (fails origin r) backoff) rs in one_round r wait rest

  unfoldable pub run : List Round → List ℕ × Option Returned
  unfolding run_from
  run rs = run_from min_backoff rs
