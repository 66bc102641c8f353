-- ===== src/Base/Results.antt =====
-- Go's `(value, error)` pairs: a function that returns an error returns no value that is used.
use mathlib.Core.Path.{◌≡◌, refl}

pub data Result (E A : Type 0) : Type 0 where
  ok : A → Result E A
  err : E → Result E A

infixl 5 ◌>>=◌ ◌>>◌
abbrev pub ◌>>=◌ : {E A B : Type 0} → Result E A → (A → Result E B) → Result E B
ok a >>= f = f a
err e >>= f = err e

abbrev pub ◌>>◌ : {E B : Type 0} → Result E (Unit {0}) → Result E B → Result E B
first >> second = first >>= λ _. second

-- A chain that succeeds succeeds at its head.
pub >>=-eq-ok :
    {E A B : Type 0} (head : Result E A) (rest : A → Result E B) {result : B}
    → (head >>= rest) ≡ ok result
    → (a : A) × (head ≡ ok a) × (rest a ≡ ok result)
>>=-eq-ok (err failure) rest fails = cc
>>=-eq-ok (ok a) rest succeeds = (a, refl, succeeds)
