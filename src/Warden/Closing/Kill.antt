-- ===== src/Warden/Closing/Kill.antt =====
-- How the passes over a closing grant bring it to its end.
use grantd.Base.{
  ◌≡◌, refl, ap, ◌∙◌, Bool, true, false, Option, none, some, List, [], ◌∷◌, ◌++◌, Int64, ◌≤ℤ◌, ◌+ℤ◌,
  ◌-ℤ◌, ltb_ℤ, if◌then◌else◌, ◌⊎◌, inl, inr, Bool-cases, arith,
}
use grantd.Warden.State.{closing, closed, Grant, Config}
use grantd.Warden.Closing.{
  sigterm, sigkill, mark_term, elapsed, finalize, Group, Pass, outcome, signalled, terminate,
  advance_grant,
}

-- One pass after another over one grant.
abbrev pub passes : Config → List Pass → Grant → Grant
passes cfg [] g = g
passes cfg (p ∷ ps) g = passes cfg ps (advance_grant cfg (λ id. p) g)

-- The group is not there, or cgroup.events says that no process is in it.
abbrev pub Gone : Group → Type 0
Gone c = (c.found ≡ false) ⊎ (c.populated ≡ some false)

-- Signalled first at this time, and not yet ended; or ended.
abbrev Waiting : Int64 → Grant → Type 0
Waiting first g = (g.state ≡ closing) × (g.term_sent ≡ true) × (g.closing_since ≡ some first)

abbrev Underway : Int64 → Grant → Type 0
Underway first g = Waiting first g ⊎ (g.state ≡ closed)

outcome-Underway :
    (first : Int64) (p : Pass) (b : Option Bool) (g : Grant)
    → Waiting first g
    → Underway first (outcome p b g)
unfolding outcome finalize
outcome-Underway first p none g h = inl h
outcome-Underway first p (some true) g h = inl h
outcome-Underway first p (some false) g h = inr refl

signalled-Underway :
    (first : Int64) (cfg : Config) (p : Pass) (g : Grant)
    → Waiting first g
    → Underway first (signalled cfg p g).0
unfolding signalled finalize
signalled-Underway first cfg p g h = elim (Bool-cases p.group.found) [
  | inl e ↦ rw e (outcome-Underway first p p.group.populated g h)
  | inr e ↦ rw e (inr refl)
]

mark_term-marked : (now : Int64) (g : Grant) → g.term_sent ≡ true → mark_term now g ≡ g
unfolding mark_term
mark_term-marked now g h = ground arith

mark_term-Waiting :
    (now : Int64) (g : Grant)
    → g.state ≡ closing
    → g.term_sent ≡ false
    → Waiting now (mark_term now g)
unfolding mark_term
mark_term-Waiting now g s h = ground arith

advance_grant-closing :
    (cfg : Config) (p : Pass) (g : Grant)
    → g.state ≡ closing
    → advance_grant cfg (λ id. p) g ≡ (terminate cfg p g).0
unfolding advance_grant
advance_grant-closing cfg p g s = ground arith

advance_grant-closed :
    (cfg : Config) (p : Pass) (g : Grant) → g.state ≡ closed → advance_grant cfg (λ id. p) g ≡ g
unfolding advance_grant
advance_grant-closed cfg p g s = ground arith

terminate-Waiting :
    (first : Int64) (cfg : Config) (p : Pass) (g : Grant)
    → Waiting first g
    → terminate cfg p g ≡ signalled cfg p g
unfolding terminate
terminate-Waiting first cfg p g h = ap (signalled cfg p) (mark_term-marked p.first g h.1)

advance_grant-Underway :
    (first : Int64) (cfg : Config) (p : Pass) (g : Grant)
    → Underway first g
    → Underway first (advance_grant cfg (λ id. p) g)
advance_grant-Underway first cfg p g (inl h) =
    rw (advance_grant-closing cfg p g h.0)
      (rw (terminate-Waiting first cfg p g h) (signalled-Underway first cfg p g h))
advance_grant-Underway first cfg p g (inr s) = rw (advance_grant-closed cfg p g s) (inr s)

passes-Underway :
    (first : Int64) (cfg : Config) (ps : List Pass) (g : Grant)
    → Underway first g
    → Underway first (passes cfg ps g)
passes-Underway first cfg [] g h = h
passes-Underway first cfg (p ∷ ps) g h =
    passes-Underway first cfg ps (advance_grant cfg (λ id. p) g)
      (advance_grant-Underway first cfg p g h)

passes-append :
    (cfg : Config) (ps qs : List Pass) (g : Grant)
    → passes cfg (ps ++ qs) g ≡ passes cfg qs (passes cfg ps g)
passes-append cfg [] qs g = refl
passes-append cfg (p ∷ ps) qs g = passes-append cfg ps qs (advance_grant cfg (λ id. p) g)

grace-over :
    (first now grace : Int64) (since : Option Int64)
    → since ≡ some first
    → first +ℤ grace ≤ℤ now
    → (if ltb_ℤ (elapsed now since) grace then sigterm else sigkill) ≡ sigkill
unfolding elapsed ◌+ℤ◌ ◌-ℤ◌
grace-over first now grace none h t = absurd (ground arith)
grace-over first now grace (some since) h t = ground arith

-- Once the grace has passed, a group that is there is killed.
signalled-kills :
    (first : Int64) (cfg : Config) (p : Pass) (g : Grant)
    → Waiting first g
    → first +ℤ cfg.term_grace ≤ℤ p.later
    → ((signalled cfg p g).1 ≡ sigkill) ⊎ ((signalled cfg p g).0.state ≡ closed)
unfolding signalled finalize
signalled-kills first cfg p g h t = elim (Bool-cases p.group.found) [
  | inl e ↦ rw e (inl (grace-over first p.later cfg.term_grace g.closing_since h.2 t))
  | inr e ↦ rw e (inr refl)
]

signalled-Gone :
    (cfg : Config) (p : Pass) (g : Grant) → Gone p.group → (signalled cfg p g).0.state ≡ closed
unfolding signalled outcome finalize
signalled-Gone cfg p g (inl e) = ground arith
signalled-Gone cfg p g (inr e) = elim (Bool-cases p.group.found) [
  | inl f ↦ rw f (rw e refl)
  | inr f ↦ rw f refl
]

last-closes :
    (first : Int64) (cfg : Config) (p : Pass) (g : Grant)
    → Underway first g
    → ((g.state ≡ closing) → Gone p.group)
    → (advance_grant cfg (λ id. p) g).state ≡ closed
last-closes first cfg p g (inl h) k =
    rw (advance_grant-closing cfg p g h.0)
      (rw (terminate-Waiting first cfg p g h) (signalled-Gone cfg p g (k h.0)))
last-closes first cfg p g (inr s) k = rw (advance_grant-closed cfg p g s) s

killed-closes :
    (first : Int64) (cfg : Config) (q r : Pass) (g : Grant)
    → Underway first g
    → first +ℤ cfg.term_grace ≤ℤ q.later
    → ((terminate cfg q g).1 ≡ sigkill → Gone r.group)
    → (advance_grant cfg (λ id. r) (advance_grant cfg (λ id. q) g)).state ≡ closed
killed-closes first cfg q r g (inr s) t k =
    rw (advance_grant-closed cfg q g s) (rw (advance_grant-closed cfg r g s) s)
killed-closes first cfg q r g (inl h) t k =
    let same = terminate-Waiting first cfg q g h in
    let step : advance_grant cfg (λ id. q) g ≡ (signalled cfg q g).0 =
      advance_grant-closing cfg q g h.0 ∙ ap (λ x. x.0) same in
    let gone : ((signalled cfg q g).1 ≡ sigkill) → Gone r.group = λ e. k (ap (λ x. x.1) same ∙ e) in
    rw step (elim (signalled-kills first cfg q g h t) [
      | inl e ↦
          last-closes first cfg r (signalled cfg q g).0 (signalled-Underway first cfg q g h)
            (λ s. gone e)
      | inr e ↦ rw (advance_grant-closed cfg r (signalled cfg q g).0 e) e
    ])

-- A closing grant is closed by the pass after the first one that the grace is over at, whatever the
-- passes before saw of its cgroup, if the processes that a SIGKILL was sent to are gone by that pass:
-- a pass that comes a grace after the first either sends SIGKILL or finds the cgroup gone.
pub passes-close :
    (cfg : Config) (p : Pass) (ps : List Pass) (q r : Pass) (g : Grant)
    → g.state ≡ closing
    → g.term_sent ≡ false
    → p.first +ℤ cfg.term_grace ≤ℤ q.later
    → ((terminate cfg q (passes cfg (p ∷ ps) g)).1 ≡ sigkill → Gone r.group)
    → (passes cfg (p ∷ (ps ++ (q ∷ r ∷ []))) g).state ≡ closed
passes-close cfg p ps q r g s m t k =
    let marked : Underway p.first (advance_grant cfg (λ id. p) g) =
      rw (advance_grant-closing cfg p g s) (
        unfold terminate in
        signalled-Underway p.first cfg p (mark_term p.first g) (mark_term-Waiting p.first g s m)) in
    rw (passes-append cfg ps (q ∷ r ∷ []) (advance_grant cfg (λ id. p) g)) (
      killed-closes p.first cfg q r (passes cfg (p ∷ ps) g)
        (passes-Underway p.first cfg ps (advance_grant cfg (λ id. p) g) marked) t k)
