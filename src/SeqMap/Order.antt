-- ===== src/SeqMap/Order.antt =====
-- The list of keys follows the map.
use sing_quic.Prelude.{ℕ, ◌≡◌, refl, none, List, [], ◌∷◌, arith}
use sing_quic.SeqMap.{lookup, put, keys, search, insert_order, remove_order}

module _ {V : Type 0} where
  -- A new key takes its place in the list.
  pub insert_order-keys :
      (k : ℕ) (v : V) (m : List (ℕ × V))
      → lookup k m ≡ none
      → insert_order (keys m) k ≡ keys (put k v m)
  unfolding insert_order search keys put lookup
  insert_order-keys k v [] h = refl
  insert_order-keys k v ((j, w) ∷ m) h = ground (arith, insert_order-keys k v m)

  -- The first key leaves the list.
  pub remove_order-keys :
      (k : ℕ) (v : V) (m : List (ℕ × V)) → remove_order (keys ((k, v) ∷ m)) k ≡ keys m
  unfolding remove_order search keys
  remove_order-keys k v m = ground arith
