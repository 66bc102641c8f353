-- ===== src/Daemon/Tests/Retry.antt =====
-- The daemon's waits, with a source of random numbers that is a remainder.
use grantd.Base.{
  ℕ, ◌%◌, ◌<◌, ◌≡◌, refl, true, false, none, some, [], ◌∷◌, ◌++◌, arith, length, Bytes, codes,
}
use grantd.Daemon.Session.{World, session}
use grantd.Daemon.Retry.{Round, no_error, run}
use grantd.Daemon.Retry.Laws.{Spaced, run-Spaced, run-returns}

abbrev drawn : ℕ → ℕ → ℕ
drawn source n = source % n

drawn_below : (source n : ℕ) → 0 < n → drawn source n < n
drawn_below source n h = grind arith

abbrev origin : Bytes
origin = codes "https://grantd.dev"

-- The signer does not answer.
abbrev world : World
world = record {
  status = none;
  registration = none;
  connect_auth = λ path. none;
  service = λ url reg. none;
  accepts = λ url auth. false;
  cancelled = false;
}

-- A session that fails, and one during whose wait the daemon is stopped.
abbrev failing : Round
failing = record {
  cancelled_before = false;
  cancelled_after = false;
  world = world;
  cancelled_waiting = false;
  source = 4_000_000_000;
}

abbrev stopped : Round
stopped = record {
  cancelled_before = false;
  cancelled_after = false;
  world = world;
  cancelled_waiting = true;
  source = 1_250_000_000;
}

waits :
    run drawn origin (failing ∷ failing ∷ stopped ∷ [])
    ≡ (500_000_000 ∷ 1_000_000_000 ∷ 3_250_000_000 ∷ [], some no_error)
unfolding run session
waits = refl

run-Spaced_example : Spaced 0 (run drawn origin (failing ∷ failing ∷ stopped ∷ [])).0
run-Spaced_example =
    run-Spaced drawn drawn_below origin (failing ∷ failing ∷ stopped ∷ [])
      (refl, (refl, (refl, tt)))

run-returns_example :
    ((run drawn origin (failing ∷ failing ∷ [])).1 ≡ none)
    × (length (run drawn origin (failing ∷ failing ∷ [])).0 ≡ 2)
    × ((run drawn origin ((failing ∷ failing ∷ []) ++ stopped ∷ failing ∷ [])).1 ≡ some no_error)
    × (run drawn origin ((failing ∷ failing ∷ []) ++ stopped ∷ failing ∷ [])
        ≡ run drawn origin ((failing ∷ failing ∷ []) ++ stopped ∷ []))
run-returns_example =
    run-returns drawn origin (failing ∷ failing ∷ []) (failing ∷ []) stopped (refl, (refl, tt)) refl
