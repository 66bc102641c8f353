-- ===== src/Warden/Closing/Laws.antt =====
-- What each call does to one grant: the key stays, a closed door stays closed, and a group that is
-- ended ends.
use grantd.Base.{
  ℕ, ◌≡◌, refl, sym, ap, ◌∙◌, Bool, true, false, ◌&&◌, Option, none, some, List, [], ◌∷◌, Bytes, ℤ,
  Int64, ◌≤◌, Bool-cases, inl, inr, arith,
}
use grantd.Warden.State.{
  Proc, Answer, unknown, unreachable, known, State, open_state, closing, closed, Session, Grant,
  Config, is_open, is_closing, keep,
}
use grantd.Warden.State.Maps.{KeepsId}
use grantd.Warden.Closing.{
  enforce_grant, Reading, poll_grant, prune_grant, mark_term, finalize, Pass, outcome, signalled,
  terminate, advance_grant,
}

-- Open, closing, closed.
abbrev pub rank : State → ℕ
rank open_state = 0
rank closing = 1
rank closed = 2

-- How a grant that is not open may change: forward, with no later deadline and no session added.
pub record Ends (g g' : Grant) : Type 0 where
  pub same_id : g'.id ≡ g.id
  pub forward : rank g.state ≤ rank g'.state
  pub deadline_kept : g'.deadline ≡ g.deadline
  pub left : Session → Bool
  pub sessions_left : g'.sessions ≡ keep left g.sessions

keep-all : {A : Type 0} (xs : List A) → keep (λ x. true) xs ≡ xs
unfolding keep
keep-all [] = refl
keep-all (x ∷ xs) = ap (λ ys. x ∷ ys) (keep-all xs)

keep-none : {A : Type 0} (xs : List A) → keep (λ x. false) xs ≡ []
unfolding keep
keep-none [] = refl
keep-none (x ∷ xs) = keep-none xs

pub Ends-refl : (g : Grant) → Ends g g
Ends-refl g = record {
  same_id = refl;
  forward = omega arith;
  deadline_kept = refl;
  left = λ s. true;
  sessions_left = sym (keep-all g.sessions);
}

pub enforce_grant-KeepsId : (now : Int64) (mono : ℤ) → KeepsId (enforce_grant now mono)
unfolding enforce_grant
enforce_grant-KeepsId now mono g = ground arith

pub poll_grant-KeepsId : (at : Reading) (a : Answer) → KeepsId (poll_grant at a)
unfolding poll_grant
poll_grant-KeepsId at unknown g = ground arith
poll_grant-KeepsId at unreachable g = ground arith
poll_grant-KeepsId at (known i) g = ground arith

pub prune_grant-KeepsId : (read_proc : ℕ → Option Proc) → KeepsId (prune_grant read_proc)
unfolding prune_grant
prune_grant-KeepsId read_proc g = refl

outcome-id : (p : Pass) (b : Option Bool) → KeepsId (outcome p b)
unfolding outcome finalize
outcome-id p none g = refl
outcome-id p (some true) g = refl
outcome-id p (some false) g = refl

pub terminate-KeepsId : (cfg : Config) (p : Pass) → KeepsId (λ g. (terminate cfg p g).0)
unfolding terminate signalled finalize mark_term
terminate-KeepsId cfg p g = ground (arith, outcome-id p p.group.populated (mark_term p.first g))

pub advance_grant-KeepsId :
    (cfg : Config) (passes : Bytes → Pass) → KeepsId (advance_grant cfg passes)
unfolding advance_grant
advance_grant-KeepsId cfg passes g = ground (arith, terminate-KeepsId cfg (passes g.id) g)

-- Of a grant that is not open, enforcing and polling change nothing.
pub enforce_grant-not_open :
    (now : Int64) (mono : ℤ) (g : Grant) → is_open g.state ≡ false → enforce_grant now mono g ≡ g
unfolding enforce_grant
enforce_grant-not_open now mono g h = ground arith

pub poll_grant-not_open :
    (at : Reading) (a : Answer) (g : Grant) → is_open g.state ≡ false → poll_grant at a g ≡ g
unfolding poll_grant
poll_grant-not_open at a g h = ground arith

pub prune_grant-Ends : (read_proc : ℕ → Option Proc) (g : Grant) → Ends g (prune_grant read_proc g)
unfolding prune_grant
prune_grant-Ends read_proc g = record {
  same_id = refl;
  forward = omega arith;
  deadline_kept = refl;
  left = _;
  sessions_left = refl;
}

finalize-Ends : (now : Int64) (g : Grant) → Ends g (finalize now g)
unfolding finalize
finalize-Ends now g = record {
  same_id = refl;
  forward = ground arith;
  deadline_kept = refl;
  left = λ s. false;
  sessions_left = sym (keep-none g.sessions);
}

mark_term-Ends : (now : Int64) (g : Grant) → Ends g (mark_term now g)
unfolding mark_term
mark_term-Ends now g = record {
  same_id = ground arith;
  forward = ground arith;
  deadline_kept = ground arith;
  left = λ s. true;
  sessions_left = ground (arith, keep-all g.sessions);
}

outcome-Ends : (p : Pass) (b : Option Bool) (g : Grant) → Ends g (outcome p b g)
unfolding outcome
outcome-Ends p none g = Ends-refl g
outcome-Ends p (some true) g = record {
  same_id = refl;
  forward = omega arith;
  deadline_kept = refl;
  left = λ s. true;
  sessions_left = sym (keep-all g.sessions);
}
outcome-Ends p (some false) g = finalize-Ends p.finalized g

keep-keep :
    {A : Type 0} (p q : A → Bool) (xs : List A) → keep p (keep q xs) ≡ keep (λ x. q x && p x) xs
unfolding keep
keep-keep p q [] = refl
keep-keep p q (x ∷ xs) = ground (arith, keep-keep p q xs)

pub Ends-trans : (g h k : Grant) → Ends g h → Ends h k → Ends g k
Ends-trans g h k a b = record {
  same_id = b.same_id ∙ a.same_id;
  forward = omega (arith, a.forward, b.forward);
  deadline_kept = b.deadline_kept ∙ a.deadline_kept;
  left = λ s. a.left s && b.left s;
  sessions_left =
      b.sessions_left ∙ ap (keep b.left) a.sessions_left ∙ keep-keep b.left a.left g.sessions;
}

signalled-Ends : (cfg : Config) (p : Pass) (g : Grant) → Ends g (signalled cfg p g).0
unfolding signalled
signalled-Ends cfg p g = elim (Bool-cases p.group.found) [
  | inl e ↦ rw e (outcome-Ends p p.group.populated g)
  | inr e ↦ rw e (finalize-Ends p.finalized g)
]

pub terminate-Ends : (cfg : Config) (p : Pass) (g : Grant) → Ends g (terminate cfg p g).0
unfolding terminate
terminate-Ends cfg p g =
    Ends-trans g (mark_term p.first g) (signalled cfg p (mark_term p.first g)).0
      (mark_term-Ends p.first g) (signalled-Ends cfg p (mark_term p.first g))

pub advance_grant-Ends :
    (cfg : Config) (passes : Bytes → Pass) (g : Grant) → Ends g (advance_grant cfg passes g)
unfolding advance_grant
advance_grant-Ends cfg passes g = elim (Bool-cases (is_closing g.state)) [
  | inl e ↦ rw e (terminate-Ends cfg (passes g.id) g)
  | inr e ↦ rw e (Ends-refl g)
]
