-- ===== src/Daemon/Retry/Laws.antt =====
-- When the daemon stops, and how long it waits between two connections.
use grantd.Base.{
  ℕ, zero, suc, ◌+◌, ◌*◌, ◌^◌, ◌≤◌, ◌<◌, ◌≡◌, refl, sym, ap, ◌∙◌, Bool, true, false, ◌||◌, Option,
  none, some, List, [], ◌∷◌, ◌++◌, All, ltb, arith, length, if◌then◌else◌, not, Bool-cases, inl,
  inr, Bytes, Result, ok, err,
}
use grantd.Protocol.Envelopes.{HostRegisterRequest}
use grantd.Signer.Grants.{ConnectAuth}
use grantd.Signer.Api.{Status}
use grantd.Daemon.Client.{heard}
use grantd.Daemon.Session.{
  Ended, World, ws_url, connect_path, register, serve, dial_with, connect, session_with, session,
}
use native.Mathlib.Numerals.{towards_suc}
use grantd.Daemon.Retry.{
  Round, Returned, context_error, no_error, second, min_backoff, max_backoff, next_backoff, jitter,
  one_round, run_from, run, is_error, fails,
}

-- The context is seen cancelled in a round.
abbrev pub stops : Round → Bool
stops r = r.cancelled_before || r.cancelled_after || r.cancelled_waiting

abbrev pub result : Round → Returned
result r = if r.cancelled_before then context_error else no_error

-- 2^n seconds, and sixty at most.
unfoldable pub spacing : ℕ → ℕ
spacing n = let d = 2 ^ n * second in if ltb max_backoff d then max_backoff else d

-- The waits from the one before which n sessions have failed: each is half of its range at least, and
-- below one and a half of it.
abbrev pub Spaced : ℕ → List ℕ → Type 0
Spaced n [] = Unit {0}
Spaced n (w ∷ ws) = (spacing n ≤ 2 * w + 1) × (2 * w < 3 * spacing n) × Spaced (n + 1) ws

Spaced-round :
    (n : ℕ) (r : Round) (w : ℕ) (rest : List ℕ × Option Returned)
    → Spaced n (w ∷ rest.0)
    → Spaced n (one_round r w rest).0
unfolding one_round
Spaced-round n r w rest h = ground arith

Spaced-cancelled :
    (n : ℕ) (r : Round) (w : ℕ) (rest : List ℕ × Option Returned)
    → r.cancelled_after ≡ true
    → Spaced n (one_round r w rest).0
unfolding one_round
Spaced-cancelled n r w rest h = ground arith

-- A session ends without an error only if its context is done.
serve-fails :
    (w : World) (url : Bytes) (auth : ConnectAuth)
    → w.cancelled ≡ false
    → is_error (serve w url auth).1 ≡ true
unfolding serve is_error
serve-fails w url auth h = ground arith

dial_with-fails :
    (origin : Bytes) (w : World) (path : Bytes) (a : Option ConnectAuth)
    → w.cancelled ≡ false
    → is_error (dial_with origin w path a).1 ≡ true
unfolding dial_with
dial_with-fails origin w path none h = unfold is_error in refl
dial_with-fails origin w path (some auth) h = serve-fails w (ws_url origin path) auth h

connect-fails :
    (origin : Bytes) (w : World) (r : Result Ended HostRegisterRequest)
    → w.cancelled ≡ false
    → is_error (connect origin w r).1 ≡ true
unfolding connect
connect-fails origin w (err e) h = unfold is_error in refl
connect-fails origin w (ok reg) h =
    let path = connect_path reg.registration.host_id in
    dial_with-fails origin w path (heard (w.connect_auth path)) h

session_with-fails :
    (origin : Bytes) (w : World) (s : Option Status)
    → w.cancelled ≡ false
    → is_error (session_with origin w s).1 ≡ true
unfolding session_with
session_with-fails origin w none h = unfold is_error in refl
session_with-fails origin w (some s) h = connect-fails origin w (register origin w).1 h

-- The context of a session is derived from that of Run, and only done before its return if that is.
abbrev pub IsDerived : Round → Type 0
IsDerived r = (not r.world.cancelled || r.cancelled_after) ≡ true

IsDerived-fails :
    (origin : Bytes) (r : Round) → IsDerived r → r.cancelled_after ≡ false → fails origin r ≡ true
unfolding fails session
IsDerived-fails origin r d h =
    session_with-fails origin r.world (heard r.world.status) (ground arith)

one_round-quiet :
    (r : Round) (w : ℕ) (rest : List ℕ × Option Returned)
    → stops r ≡ false
    → one_round r w rest ≡ (w ∷ rest.0, rest.1)
unfolding one_round
one_round-quiet r w rest h = ground arith

one_round-stops :
    (r : Round) (w : ℕ) (rest rest' : List ℕ × Option Returned)
    → stops r ≡ true
    → (one_round r w rest ≡ one_round r w rest') × ((one_round r w rest).1 ≡ some (result r))
unfolding one_round
one_round-stops r w rest rest' h = (ground arith, ground arith)

spacing_zero : spacing 0 ≡ min_backoff
unfolding spacing
spacing_zero = refl

pow_pos : (n : ℕ) → 0 < 2 ^ n
pow_pos zero = omega arith
pow_pos (suc n) = omega (arith, pow_pos n)

next_backoff-spacing : (n : ℕ) → next_backoff true (spacing n) ≡ spacing (n + 1)
unfolding next_backoff spacing
next_backoff-spacing n =
    let e : 2 ^ (n + 1) ≡ 2 * 2 ^ n = simp towards_suc (omega arith) in ground arith

spacing_pos : (n : ℕ) → 0 < spacing n
unfolding spacing
spacing_pos n = ground (arith, pow_pos n)

module _ (int63n : ℕ → ℕ → ℕ) (draws : (source n : ℕ) → 0 < n → int63n source n < n)
    (origin : Bytes) where
  jitter-low : (n source : ℕ) → spacing n ≤ 2 * jitter int63n (spacing n) source + 1
  unfolding jitter
  jitter-low n source = omega arith

  jitter-high : (n source : ℕ) → 2 * jitter int63n (spacing n) source < 3 * spacing n
  unfolding jitter
  jitter-high n source = omega (arith, draws source (spacing n) (spacing_pos n))

  run_from-Spaced :
      (n : ℕ) (rs : List Round)
      → All IsDerived rs
      → Spaced n (run_from int63n origin (spacing n) rs).0
  unfolding run_from jitter
  run_from-Spaced n [] d = tt
  run_from-Spaced n (r ∷ rs) d = elim (Bool-cases r.cancelled_after) [
    | inl e ↦ Spaced-cancelled n r _ _ e
    | inr e ↦
        let later = run_from-Spaced (n + 1) rs d.1 in
        rw (IsDerived-fails origin r d.0 e, next_backoff-spacing n)
          (Spaced-round n r _ _ (jitter-low n r.source, jitter-high n r.source, later))
  ]

  -- If a session's context is done only when that of Run is, the first wait of a daemon is half a
  -- second at least and below one and a half, and the range doubles from each wait to the next, up to
  -- thirty and ninety seconds; nothing takes it back, since no wait is begun after a session that
  -- ended without an error.
  pub run-Spaced : (rs : List Round) → All IsDerived rs → Spaced 0 (run int63n origin rs).0
  unfolding run
  run-Spaced rs d = rw spacing_zero at (run_from-Spaced 0 rs d)

module _ (int63n : ℕ → ℕ → ℕ) (origin : Bytes) where
  run_from-quiet :
      (b : ℕ) (before : List Round)
      → All (λ q. stops q ≡ false) before
      → ((run_from int63n origin b before).1 ≡ none)
        × (length (run_from int63n origin b before).0 ≡ length before)
  unfolding run_from
  run_from-quiet b [] quiet = (refl, refl)
  run_from-quiet b (q ∷ qs) quiet =
      let ih = run_from-quiet (next_backoff (fails origin q) b) qs quiet.1 in
      rw (one_round-quiet q _ _ quiet.0) (ih.0, omega (arith, ih.1))

  run_from-returns :
      (b : ℕ) (before after : List Round) (r : Round)
      → All (λ q. stops q ≡ false) before
      → stops r ≡ true
      → ((run_from int63n origin b (before ++ r ∷ after)).1 ≡ some (result r))
        × (run_from int63n origin b (before ++ r ∷ after)
            ≡ run_from int63n origin b (before ++ r ∷ []))
  unfolding run_from
  run_from-returns b [] after r quiet stop =
      let (same, end) =
        one_round-stops r (jitter int63n b r.source)
          (run_from int63n origin (next_backoff (fails origin r) b) after)
          (run_from int63n origin (next_backoff (fails origin r) b) []) stop in
      (end, same)
  run_from-returns b (q ∷ qs) after r quiet stop =
      let ih = run_from-returns (next_backoff (fails origin q) b) qs after r quiet.1 stop in
      let w = jitter int63n b q.source in
      let on = λ (x : List ℕ × Option Returned). one_round-quiet q w x quiet.0 in
      (
        ap (λ x. x.1) (on _) ∙ ih.0,
        on _ ∙ ap (λ (x : List ℕ × Option Returned). (w ∷ x.0, x.1)) ih.1 ∙ sym (on _),
      )

  -- Before the first round in which its context is seen cancelled Run goes on, with one wait for each
  -- round; in that round it returns, with the context's error if it sees it before the session and
  -- with nil otherwise, and no round after it is begun.
  pub run-returns :
      (before after : List Round) (r : Round)
      → All (λ q. stops q ≡ false) before
      → stops r ≡ true
      → ((run int63n origin before).1 ≡ none)
        × (length (run int63n origin before).0 ≡ length before)
        × ((run int63n origin (before ++ r ∷ after)).1 ≡ some (result r))
        × (run int63n origin (before ++ r ∷ after) ≡ run int63n origin (before ++ r ∷ []))
  unfolding run
  run-returns before after r quiet stop =
      let (goes_on, waits) = run_from-quiet min_backoff before quiet in
      let (returns, same) = run_from-returns min_backoff before after r quiet stop in
      (goes_on, waits, returns, same)
