-- ===== src/AckTrack/Sets.antt =====
-- The set of acknowledged offsets, against which queqiao/internal/pep/acktrack.go is proved.
use sing_quic.Prelude.{
  ℕ, ◌<◌, ◌≤◌, ◌≡◌, Bool, false, ◌&&◌, ◌||◌, List, [], ◌∷◌, ◌++◌, ltb, leb, arith, Option, none,
  some,
}
use sing_quic.AckRanges.{Range}
use sing_quic.AckTrack.{AckTracker}

unfoldable pub in_ranges : List Range → ℕ → Bool
in_ranges [] x = false
in_ranges ((low, high) ∷ rs) x = (leb low x && ltb x high) || in_ranges rs x

-- Whether the byte at `x` is acknowledged.
abbrev pub acked_in : ℕ → List Range → ℕ → Bool
acked_in cumulative ranges x = ltb x cumulative || in_ranges ranges x

abbrev pub acked : AckTracker → ℕ → Bool
acked t x = acked_in t.cumulative t.ranges x

-- Ranges past `low` in order, none empty, with a gap before each.
abbrev pub Apart : ℕ → List Range → Type 0
Apart low [] = Unit {0}
Apart low ((a, b) ∷ rs) = (low < a) × (a < b) × Apart b rs

-- The tracker's ranges lie past the cumulative point, with gaps.
abbrev pub IsNormal : AckTracker → Type 0
IsNormal t = Apart t.cumulative t.ranges

pub in_ranges-append :
    (rs qs : List Range) (x : ℕ) → in_ranges (rs ++ qs) x ≡ in_ranges rs x || in_ranges qs x
unfolding in_ranges
in_ranges-append [] qs x = ground arith
in_ranges-append ((a, b) ∷ rs) qs x = ground (arith, in_ranges-append rs qs x)

pub Apart-le : (low low' : ℕ) (rs : List Range) → low' ≤ low → Apart low rs → Apart low' rs
Apart-le low low' [] h c = tt
Apart-le low low' ((a, b) ∷ rs) h c = (omega arith, c.1, c.2)

-- Nothing below the first range is in the set.
pub in_ranges-Apart :
    (low x : ℕ) (rs : List Range) → Apart low rs → x ≤ low → in_ranges rs x ≡ false
unfolding in_ranges
in_ranges-Apart low x [] c h = ground arith
in_ranges-Apart low x ((a, b) ∷ rs) c h = ground (arith, in_ranges-Apart b x rs c.2)

-- Ranges in order, none empty, with gaps between them: what `mergeLocked` leaves.
abbrev pub Merged : List Range → Type 0
Merged [] = Unit {0}
Merged ((a, b) ∷ rs) = (a < b) × Apart b rs

pub Merged-of_Apart : (low : ℕ) (rs : List Range) → Apart low rs → Merged rs
Merged-of_Apart low [] c = tt
Merged-of_Apart low ((a, b) ∷ rs) c = (c.1, c.2)

-- The code has come to an end, and the result satisfies `P`.
abbrev pub Ends {ℓ} : {A : Type ℓ} → (A → Type 0) → Option A → Type 0
Ends P none = ⊥
Ends P (some a) = P a
