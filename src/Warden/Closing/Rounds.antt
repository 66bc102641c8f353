-- ===== src/Warden/Closing/Rounds.antt =====
-- What one round of the warden's loop guarantees of the grants that it leaves open.
use mathlib.Core.Path.{subst}
use mathlib.Core.Bool.{false≢true}
use grantd.Base.{
  ℕ, ◌≡◌, refl, sym, ap, ◌∙◌, true, false, Option, List, [], ◌∷◌, map, Bytes, ℤ, Int64, ◌≤ℤ◌, ◌<ℤ◌,
  inl, inr, Bool-cases, ◌≤◌, arith, All, if◌then◌else◌,
}
use grantd.Warden.State.{
  Proc, State, Answer, unknown, unreachable, known, Grant, Warden, Config, is_open, is_closing,
}
use grantd.Warden.State.Maps.{All-map, All-keep, All-update}
use grantd.Warden.Admission.{expire_pending}
use grantd.Warden.Closing.{
  enforce_grant, enforce_deadlines, Reading, poll_grant, poll_one, open_ids, poll_ids, poll_signer,
  prune_grant, prune_sessions, Pass, advance_grant, advance_closing, Round, run_round,
}
use grantd.Warden.Closing.Laws.{advance_grant-Ends, rank}

pub All-imp :
    {A : Type 0} (P Q : A → Type 0) (gs : List A) → ((g : A) → P g → Q g) → All P gs → All Q gs
All-imp P Q [] h a = tt
All-imp P Q (g ∷ gs) h a = (h g a.0, All-imp P Q gs h a.1)

All-unit : {A : Type 0} (gs : List A) → All (λ g. Unit {0}) gs
All-unit [] = tt
All-unit (g ∷ gs) = (tt, All-unit gs)

-- Open, and not past its deadline at this time.
abbrev pub Bounded : Int64 → Grant → Type 0
Bounded now g = is_open g.state ≡ true → now <ℤ g.deadline

enforce_grant-Bounded :
    (now : Int64) (mono : ℤ) (g : Grant) → Bounded now (enforce_grant now mono g)
unfolding enforce_grant
enforce_grant-Bounded now mono g = ground arith

poll_grant-Bounded :
    (now : Int64) (at : Reading) (a : Answer) (g : Grant)
    → now ≤ℤ at.checked
    → Bounded now g
    → Bounded now (poll_grant at a g)
unfolding poll_grant
poll_grant-Bounded now at unknown g t b = ground arith
poll_grant-Bounded now at unreachable g t b = ground arith
poll_grant-Bounded now at (known i) g t b = ground arith

poll_ids-Bounded :
    (now : Int64) (clock : Bytes → Reading) (signer : Bytes → Answer) (ids : List Bytes)
    (w : Warden)
    → ((id : Bytes) → now ≤ℤ (clock id).checked)
    → All (Bounded now) w.grants
    → All (Bounded now) (poll_ids clock signer ids w).grants
unfolding poll_ids poll_one
poll_ids-Bounded now clock signer [] w t a = a
poll_ids-Bounded now clock signer (id ∷ ids) w t a =
    poll_ids-Bounded now clock signer ids (poll_one (clock id) (signer id) id w) t (
      All-update (Bounded now) id (poll_grant (clock id) (signer id)) w.grants
        (λ g b. poll_grant-Bounded now (clock id) (signer id) g (t id) b) a)

later-not_open : (s s' : State) → is_closing s ≡ true → rank s ≤ rank s' → is_open s' ≡ false
unfolding is_closing is_open
later-not_open s s' h r = ground arith

-- A grant that is open after the last part of a round was not changed by it.
advance_grant-open :
    (cfg : Config) (passes : Bytes → Pass) (g : Grant)
    → is_open (advance_grant cfg passes g).state ≡ true
    → g ≡ advance_grant cfg passes g
unfolding advance_grant
advance_grant-open cfg passes g h = elim (Bool-cases (is_closing g.state)) [
  | inr e ↦ rw e refl
  | inl e ↦
      (let n =
          later-not_open g.state (advance_grant cfg passes g).state e
            (advance_grant-Ends cfg passes g).forward in
        absurd (false≢true (sym n ∙ h)))
]

-- What holds of the grants that are open, of any kind, holds of those that a round's last parts leave
-- open.
abbrev pub IfOpen : (Grant → Type 0) → Grant → Type 0
IfOpen P g = is_open g.state ≡ true → P g

advance_grant-IfOpen :
    (P : Grant → Type 0) (cfg : Config) (passes : Bytes → Pass) (g : Grant)
    → IfOpen P g
    → IfOpen P (advance_grant cfg passes g)
advance_grant-IfOpen P cfg passes g h o =
    let e = advance_grant-open cfg passes g o in
    subst P e (h (ap (λ (x : Grant). is_open x.state) e ∙ o))

advance_closing-IfOpen :
    (P : Grant → Type 0) (cfg : Config) (passes : Bytes → Pass) (now : Int64) (w : Warden)
    → All (IfOpen P) w.grants
    → All (IfOpen P) (advance_closing cfg passes now w).grants
unfolding advance_closing
advance_closing-IfOpen P cfg passes now w a =
    All-keep (IfOpen P) _ (map (advance_grant cfg passes) w.grants) (
      All-map (IfOpen P) (IfOpen P) (advance_grant cfg passes) w.grants
        (advance_grant-IfOpen P cfg passes) a)

-- A property that does not read the sessions.
abbrev pub ForAnySessions : (Grant → Type 0) → Type 0
ForAnySessions P = (read_proc : ℕ → Option Proc) (g : Grant) → P g → P (prune_grant read_proc g)

pub ending-IfOpen :
    (P : Grant → Type 0) (cfg : Config) (r : Round) (w : Warden)
    → ForAnySessions P
    → All (IfOpen P) w.grants
    → All
        (IfOpen P)
        (advance_closing cfg r.passes r.advanced
          (prune_sessions r.read_proc (expire_pending cfg r.nanos w))).grants
unfolding prune_sessions expire_pending
ending-IfOpen P cfg r w k a =
    advance_closing-IfOpen P cfg r.passes r.advanced
      (record w {
        pending = (expire_pending cfg r.nanos w).pending;
        grants = map (prune_grant r.read_proc) w.grants;
      })
      (All-map (IfOpen P) (IfOpen P) (prune_grant r.read_proc) w.grants
        (λ g h o. k r.read_proc g (h o)) a)

-- A grant that is open after a round of the loop has its deadline still before it, if the clock does not
-- run backwards while the round polls: the round closes every grant whose deadline has passed, and
-- takes no deadline from the signer that has.
pub run_round-Bounded :
    (cfg : Config) (r : Round) (w : Warden)
    → ((id : Bytes) → r.unix ≤ℤ (r.clock id).checked)
    → All (IfOpen (λ g. r.unix <ℤ g.deadline)) (run_round cfg r w).grants
unfolding run_round poll_signer enforce_deadlines
run_round-Bounded cfg r w t =
    let w1 = enforce_deadlines r.unix r.mono w in
    let b : All (Bounded r.unix) w1.grants =
      All-map (λ g. Unit {0}) (Bounded r.unix) (enforce_grant r.unix r.mono) w.grants
        (λ g u. enforce_grant-Bounded r.unix r.mono g) (All-unit w.grants) in
    let w2 = if r.poll_due then poll_signer r.clock r.signer w1 else w1 in
    let c : All (Bounded r.unix) w2.grants = elim (Bool-cases r.poll_due) [
      | inl e ↦ rw e (poll_ids-Bounded r.unix r.clock r.signer (open_ids w1.grants) w1 t b)
      | inr e ↦ rw e b
    ] in
    ending-IfOpen (λ g. r.unix <ℤ g.deadline) cfg r w2 (λ p g h. unfold prune_grant in h) c
