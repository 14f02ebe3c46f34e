-- ===== src/Fragments/Slots.antt =====
-- The slots of an item (hysteria2/packet.go): which are filled, and what they hold together.
use sing_quic.Prelude.{
  ℕ, zero, suc, ◌<◌, ◌≤◌, ◌≡◌, ◌≢◌, refl, ap, Option, none, some, List, [], ◌∷◌, ◌++◌, length,
  replicate, get_elem?, set, arith,
}
use sing_quic.Fragments.{Message, gather}

module _ {D : Type 0} where
  -- Each slot is empty, or holds the fragment with its number.
  abbrev pub Matches : List (Option (Message D)) → List (Message D) → Type 0
  Matches [] [] = Unit {0}
  Matches [] (f ∷ fs) = ⊥
  Matches (s ∷ ss) [] = ⊥
  Matches (none ∷ ss) (f ∷ fs) = Matches ss fs
  Matches (some g ∷ ss) (f ∷ fs) = (g ≡ f) × Matches ss fs

  unfoldable pub filled : List (Option (Message D)) → ℕ
  filled [] = 0
  filled (none ∷ ss) = filled ss
  filled (some g ∷ ss) = suc (filled ss)

  -- The payload of the fragments.
  unfoldable pub joined : List (Message D) → List ℕ
  joined [] = []
  joined (f ∷ fs) = f.payload ++ joined fs

  pub length-Matches :
      (ss : List (Option (Message D))) (fs : List (Message D))
      → Matches ss fs
      → length ss ≡ length fs
  length-Matches [] [] m = refl
  length-Matches [] (f ∷ fs) m = absurd m
  length-Matches (s ∷ ss) [] m = absurd m
  length-Matches (none ∷ ss) (f ∷ fs) m = ap suc (length-Matches ss fs m)
  length-Matches (some g ∷ ss) (f ∷ fs) m = ap suc (length-Matches ss fs m.1)

  pub Matches-replicate : (fs : List (Message D)) → Matches (replicate (length fs) none) fs
  Matches-replicate [] = tt
  Matches-replicate (f ∷ fs) = Matches-replicate fs

  pub Matches-set :
      (ss : List (Option (Message D))) (fs : List (Message D)) (i : ℕ) (f : Message D)
      → Matches ss fs
      → get_elem? fs i ≡ some f
      → Matches (set ss i (some f)) fs
  Matches-set [] [] i f m g = m
  Matches-set [] (x ∷ fs) i f m g = absurd m
  Matches-set (s ∷ ss) [] i f m g = absurd m
  Matches-set (none ∷ ss) (x ∷ fs) zero f m g = (ground (arith, g), m)
  Matches-set (some y ∷ ss) (x ∷ fs) zero f m g = (ground (arith, g), m.1)
  Matches-set (none ∷ ss) (x ∷ fs) (suc i) f m g = Matches-set ss fs i f m g
  Matches-set (some y ∷ ss) (x ∷ fs) (suc i) f m g = (m.0, Matches-set ss fs i f m.1 g)

  pub filled-le : (ss : List (Option (Message D))) → filled ss ≤ length ss
  unfolding filled
  filled-le [] = omega arith
  filled-le (none ∷ ss) = omega (arith, filled-le ss)
  filled-le (some g ∷ ss) = omega (arith, filled-le ss)

pub filled-replicate : (D : Type 0) (n : ℕ) → filled (replicate {A = Option (Message D)} n none) ≡ 0
unfolding filled
filled-replicate D zero = refl
filled-replicate D (suc n) = filled-replicate D n

module _ {D : Type 0} where
  pub filled-set :
      (ss : List (Option (Message D))) (i : ℕ) (f : Message D)
      → get_elem? ss i ≡ some none
      → filled (set ss i (some f)) ≡ suc (filled ss)
  unfolding filled
  filled-set [] i f g = absurd (ground (arith, g))
  filled-set (none ∷ ss) zero f g = refl
  filled-set (some y ∷ ss) zero f g = absurd (ground (arith, g))
  filled-set (none ∷ ss) (suc i) f g = filled-set ss i f g
  filled-set (some y ∷ ss) (suc i) f g = ap suc (filled-set ss i f g)

  -- With every slot full the payload is whole.
  pub gather-joined :
      (ss : List (Option (Message D))) (fs : List (Message D))
      → Matches ss fs
      → filled ss ≡ length ss
      → gather ss ≡ some (joined fs)
  unfolding filled gather joined
  gather-joined [] [] m h = refl
  gather-joined [] (f ∷ fs) m h = absurd m
  gather-joined (s ∷ ss) [] m h = absurd m
  gather-joined (none ∷ ss) (f ∷ fs) m h = absurd (omega (arith, filled-le ss))
  gather-joined (some g ∷ ss) (f ∷ fs) m h = rw (gather-joined ss fs m.1 (omega arith), m.0) refl

  pub first_full :
      (ss : List (Option (Message D)))
      → 0 < length ss
      → filled ss ≡ length ss
      → (g : Message D) × (get_elem? ss 0 ≡ some (some g))
  unfolding filled
  first_full [] p h = absurd (omega arith)
  first_full (none ∷ ss) p h = absurd (omega (arith, filled-le ss))
  first_full (some g ∷ ss) p h = (g, refl)

  pub get_elem?_in :
      (fs : List (Message D)) (i : ℕ) (f : Message D) → get_elem? fs i ≡ some f → i < length fs
  get_elem?_in [] i f g = absurd (ground (arith, g))
  get_elem?_in (x ∷ fs) zero f g = omega arith
  get_elem?_in (x ∷ fs) (suc i) f g = omega (arith, get_elem?_in fs i f g)

  pub get_elem?-replicate :
      (n i : ℕ) → i < n → get_elem? (replicate {A = Option (Message D)} n none) i ≡ some none
  get_elem?-replicate zero i h = absurd (omega arith)
  get_elem?-replicate (suc n) zero h = refl
  get_elem?-replicate (suc n) (suc i) h = get_elem?-replicate n i (omega arith)

  -- A slot stands for every fragment.
  pub slot_of :
      (ss : List (Option (Message D))) (fs : List (Message D)) (i : ℕ) (f : Message D)
      → Matches ss fs
      → get_elem? fs i ≡ some f
      → get_elem? ss i ≢ none
  slot_of [] [] i f m g = λ _. absurd (ground (arith, g))
  slot_of [] (x ∷ fs) i f m g = absurd m
  slot_of (s ∷ ss) [] i f m g = absurd m
  slot_of (s ∷ ss) (x ∷ fs) zero f m g = λ p. absurd (ground (arith, p))
  slot_of (none ∷ ss) (x ∷ fs) (suc i) f m g = slot_of ss fs i f m g
  slot_of (some y ∷ ss) (x ∷ fs) (suc i) f m g = slot_of ss fs i f m.1 g
