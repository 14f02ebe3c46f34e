-- ===== src/Reassembly/Spans.antt =====
-- The ranges that `ReceivedRanges` (queqiao/internal/multipath/reassembly.go) reports: their
-- order, and the bytes in them.
use sing_quic.Prelude.{
  ℕ, suc, ◌+◌, ◌<◌, ◌≤◌, ◌≡◌, true, false, Option, none, some, List, [], ◌∷◌, length, u64_mod,
  arith, ◌==◌, Bool-cases, inl, inr, subst, ◌⊎◌, ◌↔◌,
}
use native.Mathlib.Decide.{dec_lt}
use sing_quic.AckRanges.{InRanges}
use sing_quic.AckRanges.RoundTrip.{IsRanges}
use sing_quic.Reassembly.{Segment}
use sing_quic.Reassembly.Inv.{IsSegment, Chain, Chain-le, after}
use sing_quic.Reassembly.Holds.{InBuffer, Spans}
use sing_quic.Reassembly.Report.{spans}

-- The range that is still growing.
unfoldable pub Growing : ℕ → Option (ℕ × ℕ) → List (ℕ × Segment) → Type 0
Growing low none m = Chain low m
Growing low (some (a, b)) m = (low ≤ a) × (a < b) × (b < u64_mod) × Chain b m

-- How the growing range goes on past an entry.
module _ (k low : ℕ) (s : Segment) (m : List (ℕ × Segment)) where
  behind : (b : ℕ) → Chain b ((k, s) ∷ m) → s.final ≡ false → Chain (k + length s.payload) m
  behind b c more =
      Chain-le (after s) (k + length s.payload) m (omega (arith, c.0, c.2.data_ more)) c.4

  Growing-fin : (last : Option (ℕ × ℕ)) → Growing low last ((k, s) ∷ m) → Growing low last m
  unfolding Growing
  Growing-fin none g = Chain-le (after s) low m (omega (arith, g.0, g.1)) g.4
  Growing-fin (some (a, b)) (l, p, u, c) =
      (l, p, u, Chain-le (after s) b m (omega (arith, c.0, c.1)) c.4)

  Growing-new :
      (b : ℕ)
      → s.final ≡ false
      → b ≤ k
      → Chain b ((k, s) ∷ m)
      → Growing b (some (k, k + length s.payload)) m
  unfolding Growing
  Growing-new b more l c =
      (l, omega (arith, c.2.data_ more), omega (arith, c.2.fits, c.0), behind b c more)

  Growing-join :
      (a : ℕ)
      → s.final ≡ false
      → Growing low (some (a, k)) ((k, s) ∷ m)
      → Growing low (some (a, k + length s.payload)) m
  unfolding Growing
  Growing-join a more (l, p, u, c) = (l, omega arith, omega (arith, c.2.fits, c.0), behind k c more)

pub spans-IsRanges :
    (m : List (ℕ × Segment)) (low : ℕ) (last : Option (ℕ × ℕ))
    → Growing low last m
    → IsRanges low (spans m last)
unfolding Growing spans
spans-IsRanges [] low none g = tt
spans-IsRanges [] low (some (a, b)) g = (g.0, g.1, g.2, tt)
spans-IsRanges ((k, s) ∷ m) low none g = elim (Bool-cases s.final) [
  | inl fin ↦ rw fin (spans-IsRanges m low none (Growing-fin k low s m none g))
  | inr more ↦
      rw more (
        spans-IsRanges m low (some (k, k + length s.payload))
          (Growing-new k low s m low more g.1 g))
]
spans-IsRanges ((k, s) ∷ m) low (some (a, b)) g = elim (Bool-cases s.final) [
  | inl fin ↦ rw fin (spans-IsRanges m low (some (a, b)) (Growing-fin k low s m (some (a, b)) g))
  | inr more ↦ elim (Bool-cases (b == k)) [
    | inl meets ↦
        let e : b ≡ k = ground arith in
        rw (more, meets)
          (spans-IsRanges m low (some (a, k + length s.payload)) (
            Growing-join k low s m a more
              (subst (λ j. Growing low (some (a, j)) ((k, s) ∷ m)) e g)))
    | inr gap ↦
        rw (more, gap)
          (
            g.0,
            g.1,
            g.2,
            spans-IsRanges m b (some (k, k + length s.payload))
                (Growing-new k low s m b more g.3.1 g.3),
          )
  ]
]

unfoldable pub InLast : Option (ℕ × ℕ) → ℕ → Type 0
InLast none x = ⊥
InLast (some (a, b)) x = (a ≤ x) × (x < b)

-- How the offsets of the growing range go on past an entry.
pub through : {A B C : Type 0} → A ↔ B → B ↔ C → A ↔ C
through f g = (λ a. g.0 (f.0 a), λ c. f.1 (g.1 c))

under : {L A B : Type 0} → A ↔ (⊥ ⊎ B) → (L ⊎ A) ↔ (L ⊎ B)
under {L} {A} {B} f = (to, back)
  where
    to : L ⊎ A → L ⊎ B
    to (inl l) = inl l
    to (inr a) = inr (elim (f.0 a) [ inl n ↦ absurd n | inr b ↦ b ])

    back : L ⊎ B → L ⊎ A
    back (inl l) = inl l
    back (inr b) = inr (f.1 (inr b))

module _ (k x : ℕ) (s : Segment) (B : Type 0) where
  widen_fin :
      (last : Option (ℕ × ℕ))
      → s.final ≡ true
      → IsSegment s
      → (InLast last x ⊎ B) ↔ (InLast last x ⊎ (Spans s x ⊎ B))
  widen_fin last fin good = (to, back)
    where
      to : InLast last x ⊎ B → InLast last x ⊎ (Spans s x ⊎ B)
      to (inl l) = inl l
      to (inr b) = inr (inr b)

      back : InLast last x ⊎ (Spans s x ⊎ B) → InLast last x ⊎ B
      back (inl l) = inl l
      back (inr (inl h)) = absurd (omega (arith, good.fin fin))
      back (inr (inr b)) = inr b

  widen_new :
      s.sequence ≡ k → (InLast (some (k, k + length s.payload)) x ⊎ B) ↔ (⊥ ⊎ (Spans s x ⊎ B))
  unfolding InLast
  widen_new e = (to, back)
    where
      to : (k ≤ x) × (x < k + length s.payload) ⊎ B → ⊥ ⊎ (Spans s x ⊎ B)
      to (inl l) = inr (inl (omega arith))
      to (inr b) = inr (inr b)

      back : ⊥ ⊎ (Spans s x ⊎ B) → (k ≤ x) × (x < k + length s.payload) ⊎ B
      back (inl n) = absurd n
      back (inr (inl h)) = inl (omega arith)
      back (inr (inr b)) = inr b

  widen_join :
      (a b : ℕ)
      → b ≡ k
      → a < b
      → s.sequence ≡ k
      → (InLast (some (a, k + length s.payload)) x ⊎ B) ↔ (InLast (some (a, b)) x ⊎ (Spans s x ⊎ B))
  unfolding InLast
  widen_join a b e p q = (to, back)
    where
      to : (a ≤ x) × (x < k + length s.payload) ⊎ B → (a ≤ x) × (x < b) ⊎ (Spans s x ⊎ B)
      to (inl l) = elim (dec_lt x b) [ yes h ↦ inl (l.0, h) | no h ↦ inr (inl (omega arith)) ]
      to (inr r) = inr (inr r)

      back : (a ≤ x) × (x < b) ⊎ (Spans s x ⊎ B) → (a ≤ x) × (x < k + length s.payload) ⊎ B
      back (inl l) = inl (omega arith)
      back (inr (inl h)) = inl (omega arith)
      back (inr (inr r)) = inr r

pub spans-InRanges :
    (m : List (ℕ × Segment)) (low x : ℕ) (last : Option (ℕ × ℕ))
    → Growing low last m
    → InRanges (spans m last) x ↔ (InLast last x ⊎ InBuffer m x)
unfolding Growing spans InLast
spans-InRanges [] low x none g = (λ h. absurd h, elim [ inl h ↦ h | inr h ↦ h ])
spans-InRanges [] low x (some (a, b)) g = (λ h. h, λ h. h)
spans-InRanges ((k, s) ∷ m) low x none g = elim (Bool-cases s.final) [
  | inl fin ↦ rw fin (
      through (spans-InRanges m low x none (Growing-fin k low s m none g))
        (widen_fin k x s (InBuffer m x) none fin g.2))
  | inr more ↦ rw more (
      through
        (spans-InRanges m low x (some (k, k + length s.payload))
          (Growing-new k low s m low more g.1 g))
        (widen_new k x s (InBuffer m x) g.0))
]
spans-InRanges ((k, s) ∷ m) low x (some (a, b)) g = elim (Bool-cases s.final) [
  | inl fin ↦ rw fin (
      through (spans-InRanges m low x (some (a, b)) (Growing-fin k low s m (some (a, b)) g))
        (widen_fin k x s (InBuffer m x) (some (a, b)) fin g.3.2))
  | inr more ↦ elim (Bool-cases (b == k)) [
    | inl meets ↦
        let e : b ≡ k = ground arith in
        rw (more, meets)
          (through
            (spans-InRanges m low x (some (a, k + length s.payload)) (
              Growing-join k low s m a more
                (subst (λ j. Growing low (some (a, j)) ((k, s) ∷ m)) e g)))
            (widen_join k x s (InBuffer m x) a b e g.1 g.3.0))
    | inr gap ↦
        rw (more, gap)
          (under (
            through
              (spans-InRanges m b x (some (k, k + length s.payload))
                (Growing-new k low s m b more g.3.1 g.3))
              (widen_new k x s (InBuffer m x) g.3.0)))
  ]
]

pub length-spans :
    (m : List (ℕ × Segment))
    → (length (spans m none) ≤ length m)
      × ((a : ℕ × ℕ) → length (spans m (some a)) ≤ suc (length m))
unfolding spans
length-spans [] = (omega arith, λ a. omega arith)
length-spans ((k, s) ∷ m) = (
  ground (arith, length-spans m, (length-spans m).1 (k, k + length s.payload)),
  λ (a, b). ground (
    arith,
    (length-spans m).1 (a, b),
    (length-spans m).1 (a, k + length s.payload),
    (length-spans m).1 (k, k + length s.payload),
  ),
)
