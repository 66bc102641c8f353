-- ===== src/Warden/State/Laws.antt =====
-- Inversions of the warden's checks.
use grantd.Base.{◌≡◌, Bool, true, Option, none, some, ok, arith}
use grantd.Warden.State.{Refusal, guard, present}

pub guard-true : (b : Bool) (e : Refusal) {u : Unit {0}} → guard b e ≡ ok u → b ≡ true
unfolding guard
guard-true b e h = ground arith

pub present-some :
    {A : Type 0} (o : Option A) (e : Refusal) {a : A} → present o e ≡ ok a → o ≡ some a
unfolding present
present-some none e h = cc
present-some (some a) e h = ground arith
