-- ===== src/Prelude/Lists.antt =====
-- Lists measured, indexed and cut by native numbers, under the library's names.
use Prim.Native.Nat.{ℕ, zero, suc, ◌+◌, ◌-◌, ◌≤◌, min}
use Prim.Native.Nat.add
use mathlib.Core.Path.{◌≡◌, refl, ap}
use mathlib.Core.List.{List, [], ◌∷◌, ◌++◌}
use mathlib.Core.Option.{Option, none, some}
use native.Mathlib.Omega.{arith}

module _ {ℓ} {A : Type ℓ} where
  abbrev pub length : List A → ℕ
  length [] = 0
  length (x ∷ xs) = suc (length xs)

  abbrev pub get_elem? : List A → ℕ → Option A
  get_elem? [] i = none
  get_elem? (x ∷ xs) zero = some x
  get_elem? (x ∷ xs) (suc i) = get_elem? xs i

  abbrev pub get_or : List A → ℕ → A → A
  get_or [] i d = d
  get_or (x ∷ xs) zero d = x
  get_or (x ∷ xs) (suc i) d = get_or xs i d

  -- A write out of range changes nothing.
  abbrev pub set : List A → ℕ → A → List A
  set [] i v = []
  set (x ∷ xs) zero v = v ∷ xs
  set (x ∷ xs) (suc i) v = x ∷ set xs i v

  abbrev pub take : ℕ → List A → List A
  take zero xs = []
  take (suc n) [] = []
  take (suc n) (x ∷ xs) = x ∷ take n xs

  abbrev pub drop : ℕ → List A → List A
  drop zero xs = xs
  drop (suc n) [] = []
  drop (suc n) (x ∷ xs) = drop n xs

  abbrev pub replicate : ℕ → A → List A
  replicate zero a = []
  replicate (suc n) a = a ∷ replicate n a

  pub length-append : (xs ys : List A) → length (xs ++ ys) ≡ length xs + length ys
  length-append [] ys = omega arith
  length-append (x ∷ xs) ys = omega (arith, length-append xs ys)

  pub length-replicate : (n : ℕ) (a : A) → length (replicate n a) ≡ n
  length-replicate zero a = refl
  length-replicate (suc n) a = ap suc (length-replicate n a)

  pub take-append-drop : (n : ℕ) (xs : List A) → take n xs ++ drop n xs ≡ xs
  take-append-drop zero xs = refl
  take-append-drop (suc n) [] = refl
  take-append-drop (suc n) (x ∷ xs) = ap (λ l. x ∷ l) (take-append-drop n xs)

  pub length-take : (n : ℕ) (xs : List A) → length (take n xs) ≡ min n (length xs)
  length-take zero xs = omega arith
  length-take (suc n) [] = omega arith
  length-take (suc n) (x ∷ xs) = omega (arith, length-take n xs)

  pub length-drop : (n : ℕ) (xs : List A) → length (drop n xs) ≡ length xs - n
  length-drop zero xs = omega arith
  length-drop (suc n) [] = omega arith
  length-drop (suc n) (x ∷ xs) = omega (arith, length-drop n xs)

  -- The part of a joined list behind its first part, and the first part itself.
  pub drop-append_add :
      (xs ys : List A) (n m k : ℕ) → length xs ≡ n → n + m ≡ k → drop k (xs ++ ys) ≡ drop m ys
  drop-append_add [] ys n m k h e = ap (λ i. drop i ys) (omega arith)
  drop-append_add (x ∷ xs) ys n m zero h e = absurd (omega arith)
  drop-append_add (x ∷ xs) ys n m (suc k) h e =
      drop-append_add xs ys (n - 1) m k (omega arith) (omega arith)

  pub take-append_self : (xs ys : List A) (n : ℕ) → length xs ≡ n → take n (xs ++ ys) ≡ xs
  take-append_self [] ys zero h = refl
  take-append_self [] ys (suc n) h = absurd (omega arith)
  take-append_self (x ∷ xs) ys zero h = absurd (omega arith)
  take-append_self (x ∷ xs) ys (suc n) h = ap (λ l. x ∷ l) (take-append_self xs ys n (omega arith))

  -- A list of known length by its elements.
  abbrev pub tabulate : ℕ → (ℕ → A) → List A
  tabulate zero f = []
  tabulate (suc n) f = f 0 ∷ tabulate n (λ i. f (suc i))

  pub eq-tabulate :
      (xs : List A) (n : ℕ) (d : A) → length xs ≡ n → xs ≡ tabulate n (λ i. get_or xs i d)
  eq-tabulate [] zero d h = refl
  eq-tabulate [] (suc n) d h = absurd (omega arith)
  eq-tabulate (x ∷ xs) zero d h = absurd (omega arith)
  eq-tabulate (x ∷ xs) (suc n) d h = ap (λ l. x ∷ l) (eq-tabulate xs n d (omega arith))

  pub split-tabulate :
      (n : ℕ) (xs : List A) (d : A)
      → n ≤ length xs
      → xs ≡ tabulate n (λ i. get_or xs i d) ++ drop n xs
  split-tabulate zero xs d h = refl
  split-tabulate (suc n) [] d h = absurd (omega arith)
  split-tabulate (suc n) (x ∷ xs) d h = ap (λ l. x ∷ l) (split-tabulate n xs d (omega arith))

pub take-nil {ℓ} : (A : Type ℓ) (n : ℕ) → take {A = A} n [] ≡ []
take-nil A zero = refl
take-nil A (suc n) = refl

module _ {ℓ} {A : Type ℓ} where
  pub take-add : (n k : ℕ) (xs : List A) → take n xs ++ take k (drop n xs) ≡ take (n + k) xs
  take-add zero k xs = rw (add.zero k)
  take-add (suc n) k [] = rw (take-nil A k, take-nil A (suc n + k))
  take-add (suc n) k (x ∷ xs) = rw (add.suc n k) (ap (λ l. x ∷ l) (take-add n k xs))
