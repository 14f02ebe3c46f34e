-- ===== src/SeqMap.antt =====
-- A Go map keyed by uint64, as queqiao/internal/multipath/reassembly.go uses one, and the sorted
-- list of its keys that the code keeps beside it. A Go map has no order of its own: here its
-- entries are listed by rising key.
pub mod Laws
pub mod Order
use sing_quic.Prelude.{
  ℕ, zero, suc, ◌+◌, Bool, true, false, Option, none, some, List, [], ◌∷◌, ◌++◌, ltb, leb, ◌==◌,
  if◌then◌else◌, ◌&&◌, length, get_or, take, drop,
}

module _ {V : Type 0} where
  unfoldable pub lookup : ℕ → List (ℕ × V) → Option V
  lookup k [] = none
  lookup k ((j, w) ∷ m) = if j == k then some w else lookup k m

  unfoldable pub put : ℕ → V → List (ℕ × V) → List (ℕ × V)
  put k v [] = (k, v) ∷ []
  put k v ((j, w) ∷ m) =
      let rest = put k v m in
      if j == k then (k, v) ∷ m else if ltb k j then (k, v) ∷ (j, w) ∷ m else (j, w) ∷ rest

  unfoldable pub delete : ℕ → List (ℕ × V) → List (ℕ × V)
  delete k [] = []
  delete k ((j, w) ∷ m) = if j == k then m else (j, w) ∷ delete k m

  unfoldable pub keys : List (ℕ × V) → List ℕ
  keys [] = []
  keys ((k, v) ∷ m) = k ∷ keys m

-- `sort.Search(len(order), func(i int) bool { return order[i] >= sequence })`: the first index from
-- which on the keys are no smaller, as package sort promises on a sorted list.
unfoldable pub search : List ℕ → ℕ → ℕ
search [] sequence = 0
search (k ∷ ks) sequence = if leb sequence k then 0 else suc (search ks sequence)

-- `insertOrder`
unfoldable pub insert_order : List ℕ → ℕ → List ℕ
insert_order order sequence =
    let at = search order sequence in take at order ++ (sequence ∷ drop at order)

-- `removeOrder`
unfoldable pub remove_order : List ℕ → ℕ → List ℕ
remove_order order sequence =
    let at = search order sequence in
    if ltb at (length order) && get_or order at 0 == sequence
    then take at order ++ drop (suc at) order
    else order
