-- ===== src/Stripe/Outstanding.antt =====
-- The map of the outstanding chunks (queqiao/internal/stripe/stripe.go), and sums over it.
use sing_quic.Prelude.{
  ℕ, suc, ◌+◌, ◌≤◌, ◌<◌, ◌≡◌, refl, false, not, none, some, List, [], ◌∷◌, ◌==◌, if◌then◌else◌,
  arith,
}
use sing_quic.SeqMap.{lookup, put, delete, keys}
use sing_quic.Stripe.Ready.{is_none}
use sing_quic.Stripe.Keys.{Between, Between-widen, Between-le, holds}

module _ {V : Type 0} where
  -- A sum over the entries.
  abbrev pub weigh : (ℕ → V → ℕ) → List (ℕ × V) → ℕ
  weigh g [] = 0
  weigh g ((k, v) ∷ m) = g k v + weigh g m

  pub lookup_below :
      (n b : ℕ) (m : List (ℕ × V)) (k : ℕ) → Between n b (keys m) → k < n → lookup k m ≡ none
  unfolding lookup keys
  lookup_below n b [] k h l = refl
  lookup_below n b ((j, w) ∷ m) k h l = ground (arith, lookup_below (suc j) b m k h.1)

  pub lookup-delete :
      (n b : ℕ) (m : List (ℕ × V)) (k j : ℕ)
      → Between n b (keys m)
      → lookup j (delete k m) ≡ (if k == j then none else lookup j m)
  unfolding lookup delete keys
  lookup-delete n b [] k j h = ground arith
  lookup-delete n b ((i, w) ∷ m) k j h =
      ground (arith, lookup-delete (suc i) b m k j h.1, lookup_below (suc i) b m j h.1)

  pub keys-put :
      (n b : ℕ) (m : List (ℕ × V)) (k : ℕ) (v : V)
      → n ≤ k
      → k < b
      → Between n b (keys m)
      → Between n b (keys (put k v m))
  unfolding put keys
  keys-put n b [] k v l r h = (l, omega arith)
  keys-put n b ((i, w) ∷ m) k v l r h = ground (arith, keys-put (suc i) b m k v)

  pub keys-delete :
      (n b : ℕ) (m : List (ℕ × V)) (k : ℕ) → Between n b (keys m) → Between n b (keys (delete k m))
  unfolding delete keys
  keys-delete n b [] k h = h
  keys-delete n b ((i, w) ∷ m) k h =
      ground (arith, keys-delete (suc i) b m k h.1, Between-widen (suc i) n b b (keys m))

  pub lookup-Between :
      (n b : ℕ) (m : List (ℕ × V)) (k : ℕ)
      → Between n b (keys m)
      → is_none (lookup k m) ≡ false
      → (n ≤ k) × (k < b)
  unfolding lookup keys
  lookup-Between n b [] k h e = cc
  lookup-Between n b ((i, w) ∷ m) k h e =
      ground (arith, lookup-Between (suc i) b m k h.1, Between-le (suc i) b (keys m) h.1)

  pub holds-keys : (m : List (ℕ × V)) (k : ℕ) → holds (keys m) k ≡ not (is_none (lookup k m))
  unfolding lookup keys holds
  holds-keys [] k = refl
  holds-keys ((i, w) ∷ m) k = ground (arith, holds-keys m k)

  delete_below :
      (n b : ℕ) (m : List (ℕ × V)) (k : ℕ) → Between n b (keys m) → k < n → delete k m ≡ m
  unfolding delete keys
  delete_below n b [] k h l = refl
  delete_below n b ((i, w) ∷ m) k h l = ground (arith, delete_below (suc i) b m k h.1)

  -- An entry, and the sum over the others.
  pub weigh-lookup :
      (g : ℕ → V → ℕ) (m : List (ℕ × V)) (k : ℕ) (v : V)
      → lookup k m ≡ some v
      → weigh g m ≡ g k v + weigh g (delete k m)
  unfolding lookup delete
  weigh-lookup g [] k v e = cc
  weigh-lookup g ((i, w) ∷ m) k v e = ground (arith, weigh-lookup g m k v)

  pub weigh-put :
      (g : ℕ → V → ℕ) (n b : ℕ) (m : List (ℕ × V)) (k : ℕ) (v : V)
      → Between n b (keys m)
      → weigh g (put k v m) ≡ g k v + weigh g (delete k m)
  unfolding put delete keys
  weigh-put g n b [] k v h = omega arith
  weigh-put g n b ((i, w) ∷ m) k v h =
      ground (arith, weigh-put g (suc i) b m k v h.1, delete_below (suc i) b m k h.1)

  -- Where there is no entry, none goes.
  pub weigh_missing :
      (g : ℕ → V → ℕ) (m : List (ℕ × V)) (k : ℕ)
      → lookup k m ≡ none
      → weigh g (delete k m) ≡ weigh g m
  unfolding lookup delete
  weigh_missing g [] k e = refl
  weigh_missing g ((i, w) ∷ m) k e = ground (arith, weigh_missing g m k)
