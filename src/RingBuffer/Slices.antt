-- ===== src/RingBuffer/Slices.antt =====
-- Parts of slices and writes into them, for congestion_meta2/ringbuffer.go.
use sing_quic.Prelude.{
  ℕ, zero, suc, ◌+◌, ◌<◌, ◌≤◌, ◌≡◌, refl, ap, List, [], ◌∷◌, ◌++◌, length, get_or, get_elem?, set,
  take, drop, arith,
}

module _ {T : Type 0} where
  pub length-set : (xs : List T) (i : ℕ) (v : T) → length (set xs i v) ≡ length xs
  length-set [] i v = refl
  length-set (x ∷ xs) zero v = refl
  length-set (x ∷ xs) (suc i) v = ap suc (length-set xs i v)

  pub drop-set_ge :
      (h t j : ℕ) (xs : List T) (v : T) → h + j ≡ t → drop h (set xs t v) ≡ set (drop h xs) j v
  drop-set_ge zero t j xs v e = λ i. set xs (same i) v
    where
      same : t ≡ j
      same = omega arith
  drop-set_ge (suc h) t j [] v e = refl
  drop-set_ge (suc h) zero j (x ∷ xs) v e = absurd (omega arith)
  drop-set_ge (suc h) (suc t) j (x ∷ xs) v e = drop-set_ge h t j xs v (omega arith)

  pub take-set_ge : (h t : ℕ) (xs : List T) (v : T) → h ≤ t → take h (set xs t v) ≡ take h xs
  take-set_ge zero t xs v e = refl
  take-set_ge (suc h) t [] v e = refl
  take-set_ge (suc h) zero (x ∷ xs) v e = absurd (omega arith)
  take-set_ge (suc h) (suc t) (x ∷ xs) v e = ap (λ l. x ∷ l) (take-set_ge h t xs v (omega arith))

  pub drop-set_lt : (h t : ℕ) (xs : List T) (v : T) → t < h → drop h (set xs t v) ≡ drop h xs
  drop-set_lt zero t xs v e = absurd (omega arith)
  drop-set_lt (suc h) t [] v e = refl
  drop-set_lt (suc h) zero (x ∷ xs) v e = refl
  drop-set_lt (suc h) (suc t) (x ∷ xs) v e = drop-set_lt h t xs v (omega arith)

  pub take-set_lt :
      (h t : ℕ) (xs : List T) (v : T) → t < h → take h (set xs t v) ≡ set (take h xs) t v
  take-set_lt zero t xs v e = absurd (omega arith)
  take-set_lt (suc h) t [] v e = refl
  take-set_lt (suc h) zero (x ∷ xs) v e = refl
  take-set_lt (suc h) (suc t) (x ∷ xs) v e = ap (λ l. x ∷ l) (take-set_lt h t xs v (omega arith))

  pub set-append_left :
      (xs ys : List T) (i : ℕ) (v : T) → i < length xs → set (xs ++ ys) i v ≡ set xs i v ++ ys
  set-append_left [] ys i v h = absurd (omega arith)
  set-append_left (x ∷ xs) ys zero v h = refl
  set-append_left (x ∷ xs) ys (suc i) v h =
      ap (λ l. x ∷ l) (set-append_left xs ys i v (omega arith))

  pub set-append_right :
      (xs ys : List T) (i j : ℕ) (v : T) → length xs + j ≡ i → set (xs ++ ys) i v ≡ xs ++ set ys j v
  set-append_right [] ys i j v h = λ k. set ys (same k) v
    where
      same : i ≡ j
      same = omega arith
  set-append_right (x ∷ xs) ys zero j v h = absurd (omega arith)
  set-append_right (x ∷ xs) ys (suc i) j v h =
      ap (λ l. x ∷ l) (set-append_right xs ys i j v (omega arith))

  -- Writing just past a prefix extends it.
  pub take-set_self :
      (n : ℕ) (xs : List T) (v : T)
      → n < length xs
      → take (suc n) (set xs n v) ≡ take n xs ++ (v ∷ [])
  take-set_self n [] v h = absurd (omega arith)
  take-set_self zero (x ∷ xs) v h = refl
  take-set_self (suc n) (x ∷ xs) v h = ap (λ l. x ∷ l) (take-set_self n xs v (omega arith))

  pub take-append_le : (n : ℕ) (xs ys : List T) → n ≤ length xs → take n (xs ++ ys) ≡ take n xs
  take-append_le zero xs ys h = refl
  take-append_le (suc n) [] ys h = absurd (omega arith)
  take-append_le (suc n) (x ∷ xs) ys h = ap (λ l. x ∷ l) (take-append_le n xs ys (omega arith))

  pub take-length : (n : ℕ) (xs : List T) → length xs ≤ n → take n xs ≡ xs
  take-length zero [] h = refl
  take-length zero (x ∷ xs) h = absurd (omega arith)
  take-length (suc n) [] h = refl
  take-length (suc n) (x ∷ xs) h = ap (λ l. x ∷ l) (take-length n xs (omega arith))

  pub drop-length : (n : ℕ) (xs : List T) → length xs ≤ n → drop n xs ≡ []
  drop-length zero [] h = refl
  drop-length zero (x ∷ xs) h = absurd (omega arith)
  drop-length (suc n) [] h = refl
  drop-length (suc n) (x ∷ xs) h = drop-length n xs (omega arith)

  -- The element at `h` stands in front of what follows it.
  pub drop_cons :
      (h : ℕ) (xs : List T) (d : T) → h < length xs → drop h xs ≡ get_or xs h d ∷ drop (suc h) xs
  drop_cons h [] d e = absurd (omega arith)
  drop_cons zero (x ∷ xs) d e = refl
  drop_cons (suc h) (x ∷ xs) d e = drop_cons h xs d (omega arith)

  pub take_snoc :
      (h : ℕ) (xs : List T) (d : T)
      → h < length xs
      → take (suc h) xs ≡ take h xs ++ (get_or xs h d ∷ [])
  take_snoc h [] d e = absurd (omega arith)
  take_snoc zero (x ∷ xs) d e = refl
  take_snoc (suc h) (x ∷ xs) d e = ap (λ l. x ∷ l) (take_snoc h xs d (omega arith))

  pub get_elem?-take : (n i : ℕ) (xs : List T) → i < n → get_elem? (take n xs) i ≡ get_elem? xs i
  get_elem?-take zero i xs h = absurd (omega arith)
  get_elem?-take (suc n) i [] h = refl
  get_elem?-take (suc n) zero (x ∷ xs) h = refl
  get_elem?-take (suc n) (suc i) (x ∷ xs) h = get_elem?-take n i xs (omega arith)

  pub get_elem?-append_left :
      (xs ys : List T) (i : ℕ) → i < length xs → get_elem? (xs ++ ys) i ≡ get_elem? xs i
  get_elem?-append_left [] ys i h = absurd (omega arith)
  get_elem?-append_left (x ∷ xs) ys zero h = refl
  get_elem?-append_left (x ∷ xs) ys (suc i) h = get_elem?-append_left xs ys i (omega arith)

  pub get_elem?-append_right :
      (xs ys : List T) (i j : ℕ) → length xs + j ≡ i → get_elem? (xs ++ ys) i ≡ get_elem? ys j
  get_elem?-append_right [] ys i j h = ap (get_elem? ys) {x = i} (omega arith)
  get_elem?-append_right (x ∷ xs) ys zero j h = absurd (omega arith)
  get_elem?-append_right (x ∷ xs) ys (suc i) j h = get_elem?-append_right xs ys i j (omega arith)

  pub get_elem?-drop :
      (h i k : ℕ) (xs : List T) → h + i ≡ k → get_elem? (drop h xs) i ≡ get_elem? xs k
  get_elem?-drop zero i k xs e = ap (get_elem? xs) {x = i} (omega arith)
  get_elem?-drop (suc h) i k [] e = refl
  get_elem?-drop (suc h) i zero (x ∷ xs) e = absurd (omega arith)
  get_elem?-drop (suc h) i (suc k) (x ∷ xs) e = get_elem?-drop h i k xs (omega arith)
