-- ===== src/Prelude/Folds.antt =====
-- Predicates over the elements of a list, and sums.
use Prim.Native.Nat.{ℕ, zero, suc, ◌+◌, ◌≤◌, ◌<◌}
use mathlib.Core.Path.{◌≡◌}
use mathlib.Core.List.{List, [], ◌∷◌, ◌++◌}
use native.Mathlib.Omega.{arith}
use sing_quic.Prelude.Lists.{length, get_or, set, drop}

module _ {ℓ κ} {A : Type ℓ} (P : A → Type κ) where
  abbrev pub All : List A → Type κ
  All [] = Unit {κ}
  All (x ∷ xs) = P x × All xs

  pub All-append : (xs ys : List A) → All xs → All ys → All (xs ++ ys)
  All-append [] ys h k = k
  All-append (x ∷ xs) ys (hx, h) k = (hx, All-append xs ys h k)

  pub All-drop : (n : ℕ) (xs : List A) → All xs → All (drop n xs)
  All-drop zero xs h = h
  All-drop (suc n) [] h = h
  All-drop (suc n) (x ∷ xs) h = All-drop n xs h.1

-- A predicate at every number below `n`.
module _ {κ} (P : ℕ → Type κ) where
  abbrev pub Each : ℕ → Type κ
  Each zero = Unit {κ}
  Each (suc n) = P n × Each n

  pub Each-of : (n : ℕ) → ((i : ℕ) → i < n → P i) → Each n
  Each-of zero f = tt
  Each-of (suc n) f = (f n (omega arith), Each-of n (λ i h. f i (omega arith)))

module _ {ℓ κ μ} {A : Type ℓ} (P : A → Type κ) (Q : A → Type μ) where
  pub All-weaken : (xs : List A) → ((x : A) → P x → Q x) → All P xs → All Q xs
  All-weaken [] f h = tt
  All-weaken (x ∷ xs) f (hx, h) = (f x hx, All-weaken xs f h)

module _ {ℓ} {A : Type ℓ} (f : A → ℕ) where
  abbrev pub sum_by : List A → ℕ
  sum_by [] = 0
  sum_by (x ∷ xs) = f x + sum_by xs

  -- Replacing one element moves the sum by the difference.
  pub sum_by-set :
      (xs : List A) (i : ℕ) (v d : A)
      → i < length xs
      → sum_by (set xs i v) + f (get_or xs i d) ≡ sum_by xs + f v
  sum_by-set [] i v d h = absurd (omega arith)
  sum_by-set (x ∷ xs) zero v d h = omega arith
  sum_by-set (x ∷ xs) (suc i) v d h = omega (arith, sum_by-set xs i v d (omega arith))

  pub le-sum_by : (xs : List A) (i : ℕ) (d : A) → i < length xs → f (get_or xs i d) ≤ sum_by xs
  le-sum_by [] i d h = absurd (omega arith)
  le-sum_by (x ∷ xs) zero d h = omega arith
  le-sum_by (x ∷ xs) (suc i) d h = omega (arith, le-sum_by xs i d (omega arith))
