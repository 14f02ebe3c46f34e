-- ===== src/Prelude/Results.antt =====
-- Go's (value, error) pairs: a value where the error is nil, and an error otherwise.

use mathlib.Core.Path.{◌≡◌, refl}

pub data Result (E A : Type 0) : Type 0 where
  ok : A → Result E A
  err : E → Result E A

infixl 5 ◌>>=◌
abbrev pub ◌>>=◌ : {E A B : Type 0} → Result E A → (A → Result E B) → Result E B
ok a >>= f = f a
err e >>= f = err e

-- `fmt.Errorf("…: %w", err)`
abbrev pub wrap : {E A : Type 0} → (E → E) → Result E A → Result E A
wrap f (ok a) = ok a
wrap f (err e) = err (f e)

-- A chain that succeeds: its first step did, and so did the rest.
pub >>=-eq-ok :
    {E A B : Type 0} (m : Result E A) (f : A → Result E B) (b : B)
    → (m >>= f) ≡ ok b
    → (a : A) × (m ≡ ok a) × (f a ≡ ok b)
>>=-eq-ok (ok a) f b h = (a, refl, h)
>>=-eq-ok (err e) f b h = cc
