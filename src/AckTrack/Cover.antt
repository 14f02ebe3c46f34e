-- ===== src/AckTrack/Cover.antt =====
-- `coveredLocked` (queqiao/internal/pep/acktrack.go) decides whether a whole range is acknowledged.
use sing_quic.Prelude.{
  ℕ, ◌<◌, ◌≤◌, ◌≡◌, refl, true, false, List, [], ◌∷◌, ltb, arith, if◌then◌else◌, ◌↔◌, Bool-cases,
  inl, inr,
}
use sing_quic.AckRanges.{Range}
use sing_quic.AckTrack.{
  AckTracker, covered, covered_in, covered_loop, covers, snapshot, highest, highest_loop,
}
use sing_quic.AckTrack.Sets.{in_ranges, in_ranges-Apart, acked, Apart, IsNormal}

loop_sound :
    (start end x : ℕ) (rs : List Range)
    → covered_loop start end rs ≡ true
    → start ≤ x
    → x < end
    → in_ranges rs x ≡ true
unfolding covered_loop in_ranges
loop_sound start end x [] h l u = cc
loop_sound start end x ((a, b) ∷ rs) h l u =
    ground (arith, loop_sound b end x rs, loop_sound start end x rs)

-- The first offset of the range that is not in the set.
loop_gap : ℕ → ℕ → List Range → ℕ
loop_gap start end [] = start
loop_gap start end ((a, b) ∷ rs) =
    if ltb start a then start else loop_gap (if ltb start b then b else start) end rs

loop_complete :
    (low start end : ℕ) (rs : List Range)
    → covered_loop start end rs ≡ false
    → start < end
    → Apart low rs
    → let x = loop_gap start end rs in (start ≤ x) × (x < end) × (in_ranges rs x ≡ false)
unfolding covered_loop loop_gap in_ranges
loop_complete low start end [] h l c = (omega arith, omega arith, refl)
loop_complete low start end ((a, b) ∷ rs) h l c = ground (
  arith,
  in_ranges-Apart b start rs c.2,
  loop_complete b b end rs,
  loop_complete b start end rs,
  c.2,
)

-- When `Covered` says yes, every byte of the range is acknowledged.
pub covered-acked :
    (t : AckTracker) (start end x : ℕ)
    → covered t start end ≡ true
    → start ≤ x
    → x < end
    → acked t x ≡ true
unfolding covered covered_in
covered-acked t start end x h l u =
    ground
      (arith, loop_sound (if ltb start t.cumulative then t.cumulative else start) end x t.ranges)

-- When it says no, some byte of the range is not acknowledged.
pub covered-eq_false :
    (t : AckTracker) (start end : ℕ)
    → IsNormal t
    → covered t start end ≡ false
    → (x : ℕ) × (start ≤ x) × (x < end) × (acked t x ≡ false)
unfolding covered covered_in
covered-eq_false t start end n h =
    let from = if ltb start t.cumulative then t.cumulative else start in
    let gap = loop_complete t.cumulative from end t.ranges in
    (
      loop_gap from end t.ranges,
      ground (arith, gap, n),
      ground (arith, gap, n),
      ground (arith, gap, n),
    )

-- A snapshot answers as the tracker did when it was taken.
pub covers-snapshot :
    (t : AckTracker) (start end : ℕ) → covers (snapshot t) start end ≡ covered t start end
unfolding covers snapshot covered covered_in
covers-snapshot t start end = ground arith

highest_loop-ge : (top : ℕ) (rs : List Range) → top ≤ highest_loop top rs
unfolding highest_loop
highest_loop-ge top [] = omega arith
highest_loop-ge top ((a, b) ∷ rs) =
    ground (arith, highest_loop-ge (if ltb top b then b else top) rs)

highest_loop-in_ranges :
    (top x : ℕ) (rs : List Range) → in_ranges rs x ≡ true → x < highest_loop top rs
unfolding highest_loop in_ranges
highest_loop-in_ranges top x [] h = cc
highest_loop-in_ranges top x ((a, b) ∷ rs) h = ground (
  arith,
  highest_loop-ge (if ltb top b then b else top) rs,
  highest_loop-in_ranges (if ltb top b then b else top) x rs,
)

-- No acknowledged byte lies at `highest` or above.
pub acked-lt-highest : (t : AckTracker) (x : ℕ) → acked t x ≡ true → x < highest (snapshot t)
unfolding highest snapshot
acked-lt-highest t x h =
    ground
      (arith, highest_loop-ge t.cumulative t.ranges, highest_loop-in_ranges t.cumulative x t.ranges)

-- On a tracker in order, Covered says yes exactly when every byte of the range is acknowledged.
pub covered_iff :
    (t : AckTracker) (start end : ℕ)
    → IsNormal t
    → (covered t start end ≡ true) ↔ ((x : ℕ) → start ≤ x → x < end → acked t x ≡ true)
covered_iff t start end n = (
  λ h x l u. covered-acked t start end x h l u,
  λ all. elim (Bool-cases (covered t start end)) [
    | inl e ↦ e
    | inr e ↦
        let (x, l, u, not_acked) = covered-eq_false t start end n e in cc (all x l u, not_acked)
  ],
)
