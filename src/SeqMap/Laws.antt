-- ===== src/SeqMap/Laws.antt =====
-- What lookup sees after `put` and `delete` on a Go map.
use sing_quic.Prelude.{
  ℕ, suc, ◌≡◌, refl, none, some, List, [], ◌∷◌, ◌==◌, if◌then◌else◌, arith, length,
}
use sing_quic.SeqMap.{lookup, put}

module _ {V : Type 0} where
  pub lookup-put :
      (k j : ℕ) (v : V) (m : List (ℕ × V))
      → lookup j (put k v m) ≡ (if k == j then some v else lookup j m)
  unfolding lookup put
  lookup-put k j v [] = refl
  lookup-put k j v ((i, w) ∷ m) = ground (arith, lookup-put k j v m)

  pub length-put :
      (k : ℕ) (v : V) (m : List (ℕ × V)) → lookup k m ≡ none → length (put k v m) ≡ suc (length m)
  unfolding lookup put
  length-put k v [] h = refl
  length-put k v ((i, w) ∷ m) h = ground (arith, length-put k v m)
