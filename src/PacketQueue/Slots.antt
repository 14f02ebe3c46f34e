-- ===== src/PacketQueue/Slots.antt =====
-- Looking up a packet number in a list of entries
-- (congestion_meta2/packet_number_indexed_queue.go).
use sing_quic.Prelude.{
  ℕ, zero, suc, ◌+◌, ◌<◌, ◌≤◌, ◌≡◌, refl, ap, true, false, Option, none, some, List, [], ◌∷◌, ◌++◌,
  length, get_elem?, set, replicate, arith, ltb, ◌==◌, Bool-cases, inl, inr, if◌then◌else◌,
}
use sing_quic.PacketQueue.{Entry, zero_entry}

module _ {T : Type 0} where
  abbrev pub shown : Entry T → Option T
  shown e = if e.present then some e.entry else none

  -- The entries, the first of which has the number `first`.
  unfoldable pub look : ℕ → List (Entry T) → ℕ → Option T
  look first [] m = none
  look first (e ∷ es) m = if first == m then shown e else look (suc first) es m

  unfoldable pub count : List (Entry T) → ℕ
  count [] = 0
  count (e ∷ es) = (if e.present then 1 else 0) + count es

  pub look_below : (first m : ℕ) (es : List (Entry T)) → m < first → look first es m ≡ none
  unfolding look
  look_below first m [] h = refl
  look_below first m (e ∷ es) h = ground (arith, look_below (suc first) m es)

  pub look_above :
      (first m : ℕ) (es : List (Entry T)) → first + length es ≤ m → look first es m ≡ none
  unfolding look
  look_above first m [] h = refl
  look_above first m (e ∷ es) h = ground (arith, look_above (suc first) m es)

  abbrev pub shown_at : Option (Entry T) → Option T
  shown_at none = none
  shown_at (some e) = shown e

  pub look-get_elem? :
      (first i m : ℕ) (es : List (Entry T))
      → first + i ≡ m
      → look first es m ≡ shown_at (get_elem? es i)
  unfolding look
  look-get_elem? first i m [] h = refl
  look-get_elem? first zero m (e ∷ es) h = ground arith
  look-get_elem? first (suc i) m (e ∷ es) h =
      ground (arith, look-get_elem? (suc first) i m es (omega arith))

  pub look-append :
      (first end m : ℕ) (es gs : List (Entry T))
      → first + length es ≡ end
      → look first (es ++ gs) m ≡ (if ltb m end then look first es m else look end gs m)
  unfolding look
  look-append first end m [] gs h = elim (Bool-cases (ltb m end)) [
    | inl below ↦ rw below (look_below first m gs (ground (arith, below)))
    | inr above ↦ rw above (ap (λ k. look k gs m) {x = first} (omega arith))
  ]
  look-append first end m (e ∷ es) gs h =
      ground (arith, look-append (suc first) end m es gs (omega arith))

  pub look-replicate : (z : T) (first k m : ℕ) → look first (replicate k (zero_entry z)) m ≡ none
  unfolding look
  look-replicate z first zero m = refl
  look-replicate z first (suc k) m = ground (arith, look-replicate z (suc first) k m)

  pub look-set :
      (first i m : ℕ) (es : List (Entry T)) (e : Entry T)
      → i < length es
      → e.present ≡ false
      → look first (set es i e) m ≡ (if first + i == m then none else look first es m)
  unfolding look
  look-set first i m [] e h p = absurd (omega arith)
  look-set first zero m (x ∷ es) e h p = ground (arith, look_below (suc first) m es)
  look-set first (suc i) m (x ∷ es) e h p =
      ground (arith, look-set (suc first) i m es e (omega arith) p)

  pub count-append : (es gs : List (Entry T)) → count (es ++ gs) ≡ count es + count gs
  unfolding count
  count-append [] gs = ground arith
  count-append (e ∷ es) gs = ground (arith, count-append es gs)

  pub count-replicate : (z : T) (k : ℕ) → count (replicate k (zero_entry z)) ≡ 0
  unfolding count
  count-replicate z zero = refl
  count-replicate z (suc k) = ground (arith, count-replicate z k)

  pub count-set :
      (i : ℕ) (es : List (Entry T)) (x e : Entry T)
      → get_elem? es i ≡ some x
      → x.present ≡ true
      → e.present ≡ false
      → count (set es i e) + 1 ≡ count es
  unfolding count
  count-set i [] x e g p q = absurd (ground (arith, g))
  count-set zero (y ∷ es) x e g p q = ground (arith, g)
  count-set (suc i) (y ∷ es) x e g p q = ground (arith, count-set i es x e g p q)
