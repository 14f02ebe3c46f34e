-- ===== src/AckTrack/Compact.antt =====
-- `compactLocked` (queqiao/internal/pep/acktrack.go): it ends, keeps the acknowledged set, and
-- leaves only ranges past the cumulative point.
use sing_quic.Prelude.{
  ℕ, zero, suc, ◌<◌, ◌≤◌, ◌≡◌, ◌∙◌, refl, true, false, List, [], ◌∷◌, arith, length, Option, none,
  some, Bool-cases, inl, inr,
}
use sing_quic.AckRanges.{Range}
use sing_quic.AckTrack.{AckTracker, Pass, compact_pass, compact_loop, compact}
use sing_quic.AckTrack.Sets.{
  in_ranges, acked_in, acked, Apart, Apart-le, Merged, Merged-of_Apart, Ends, IsNormal,
}

pass-acked :
    (cumulative x : ℕ) (rs : List Range)
    → acked_in (compact_pass cumulative rs).cumulative (compact_pass cumulative rs).kept x
      ≡ acked_in cumulative rs x
unfolding compact_pass in_ranges
pass-acked cumulative x [] = ground arith
pass-acked cumulative x ((a, b) ∷ rs) =
    ground (arith, pass-acked cumulative x rs, pass-acked b x rs)

pass-grows :
    (cumulative : ℕ) (rs : List Range) → cumulative ≤ (compact_pass cumulative rs).cumulative
unfolding compact_pass
pass-grows cumulative [] = omega arith
pass-grows cumulative ((a, b) ∷ rs) = ground (arith, pass-grows cumulative rs, pass-grows b rs)

pass-Apart :
    (cumulative low : ℕ) (rs : List Range)
    → Apart low rs
    → Apart low (compact_pass cumulative rs).kept
unfolding compact_pass
pass-Apart cumulative low [] c = tt
pass-Apart cumulative low ((a, b) ∷ rs) c = ground (
  arith,
  pass-Apart cumulative b rs c.2,
  pass-Apart b b rs c.2,
  Apart-le b low (compact_pass cumulative rs).kept,
  Apart-le b low (compact_pass b rs).kept,
)

pass-length :
    (cumulative : ℕ) (rs : List Range) → (length (compact_pass cumulative rs).kept ≤ length rs)
unfolding compact_pass
pass-length cumulative [] = omega arith
pass-length cumulative ((a, b) ∷ rs) = ground (arith, pass-length cumulative rs, pass-length b rs)

-- A pass that makes progress takes a range away.
pass-progress :
    (cumulative : ℕ) (rs : List Range)
    → (compact_pass cumulative rs).progress ≡ true
    → length (compact_pass cumulative rs).kept < length rs
unfolding compact_pass
pass-progress cumulative [] h = cc
pass-progress cumulative ((a, b) ∷ rs) h =
    ground (arith, pass-progress cumulative rs, pass-length cumulative rs, pass-length b rs)

pass-Merged :
    (cumulative : ℕ) (rs : List Range) → Merged rs → Merged (compact_pass cumulative rs).kept
unfolding compact_pass
pass-Merged cumulative [] c = tt
pass-Merged cumulative ((a, b) ∷ rs) c = ground (
  arith,
  pass-Apart cumulative b rs c.1,
  Merged-of_Apart b (compact_pass cumulative rs).kept,
  pass-Apart b b rs c.1,
  Merged-of_Apart b (compact_pass b rs).kept,
)

-- A pass that makes none changes nothing, since all the ranges lie past the cumulative point.
pass_idle :
    (cumulative : ℕ) (rs : List Range)
    → (compact_pass cumulative rs).progress ≡ false
    → Merged rs
    → Apart cumulative (compact_pass cumulative rs).kept
unfolding compact_pass
pass_idle cumulative [] h c = tt
pass_idle cumulative ((a, b) ∷ rs) h c = ground (arith, pass-Apart cumulative b rs c.1)

pass_idle_cumulative :
    (cumulative : ℕ) (rs : List Range)
    → (compact_pass cumulative rs).progress ≡ false
    → (compact_pass cumulative rs).cumulative ≡ cumulative
unfolding compact_pass
pass_idle_cumulative cumulative [] h = refl
pass_idle_cumulative cumulative ((a, b) ∷ rs) h = ground (arith, pass_idle_cumulative cumulative rs)

-- The set is the same, and its ranges lie past the cumulative point.
Compacted : ℕ → List Range → ℕ → ℕ × List Range → Type 0
Compacted cumulative ranges x (cumulative', ranges') =
    (acked_in cumulative' ranges' x ≡ acked_in cumulative ranges x)
    × Apart cumulative' ranges'
    × (cumulative ≤ cumulative')

loop-Compacted :
    (fuel cumulative x : ℕ) (rs : List Range)
    → length rs < fuel
    → Merged rs
    → Ends (Compacted cumulative rs x) (compact_loop fuel cumulative rs)
unfolding compact_loop Compacted
loop-Compacted zero cumulative x rs l c = absurd (omega arith)
loop-Compacted (suc fuel) cumulative x rs l c =
    elim (Bool-cases (compact_pass cumulative rs).progress) [
      | inl more ↦ rw more (
          onward (compact_loop fuel p.cumulative p.kept) (
            loop-Compacted fuel p.cumulative x p.kept
              (omega (arith, pass-progress cumulative rs more)) (pass-Merged cumulative rs c)))
      | inr idle ↦ rw idle (
        pass-acked cumulative x rs,
        rw (pass_idle_cumulative cumulative rs idle) (pass_idle cumulative rs idle c),
        pass-grows cumulative rs,
      )
    ]
  where
    p : Pass
    p = compact_pass cumulative rs

    onward :
        (out : Option (ℕ × List Range))
        → Ends (Compacted p.cumulative p.kept x) out
        → Ends (Compacted cumulative rs x) out
    onward none h = h
    onward (some (c', r')) h =
        (h.0 ∙ pass-acked cumulative x rs, h.1, omega (arith, h.2, pass-grows cumulative rs))

-- `compactLocked` on merged ranges ends, with the same acknowledged set and all ranges past the
-- cumulative point.
pub compact-acked :
    (t : AckTracker) (x : ℕ)
    → Merged t.ranges
    → Ends
        (λ t'.
          (acked t' x ≡ acked t x)
          × IsNormal t'
          × (t.cumulative ≤ t'.cumulative)
          × (t'.gen ≡ t.gen)
          × (t'.closed ≡ t.closed))
        (compact t)
unfolding compact Compacted
compact-acked t x c = go (compact_loop (suc (length p.kept)) p.cumulative p.kept) (
    loop-Compacted (suc (length p.kept)) p.cumulative x p.kept (omega arith)
      (pass-Merged t.cumulative t.ranges c))
  where
    p : Pass
    p = compact_pass t.cumulative t.ranges

    go :
        (out : Option (ℕ × List Range))
        → Ends (Compacted p.cumulative p.kept x) out
        → Ends
            (λ t'.
              (acked t' x ≡ acked t x)
              × IsNormal t'
              × (t.cumulative ≤ t'.cumulative)
              × (t'.gen ≡ t.gen)
              × (t'.closed ≡ t.closed))
            (elim out [
              | none ↦ none
              | some (c', r') ↦ some (record t { cumulative = c'; ranges = r' })
            ])
    go none h = h
    go (some (c', r')) h = (
      h.0 ∙ pass-acked t.cumulative x t.ranges,
      h.1,
      omega (arith, h.2, pass-grows t.cumulative t.ranges),
      refl,
      refl,
    )
