-- ===== src/AckTrack/Tests.antt =====
-- Acknowledgements that arrive out of order (queqiao/internal/pep/acktrack.go).
use sing_quic.Prelude.{◌↔◌, ℕ, ◌<◌, ◌≤◌, ◌≡◌, refl, Bool, true, false, some, [], ◌∷◌, arith}
use sing_quic.AckTrack.{
  AckTracker, advance, add, append_new, merge, coalesce_all, coalesce, sort_ranges, insert_range,
  before, compact, compact_loop, compact_pass, bump, covered, covered_in, covered_loop, wait_round,
  ready, blocks, tracker_closed, close,
}
use sing_quic.AckTrack.Sets.{in_ranges, acked, Ends, IsNormal}
use sing_quic.AckTrack.Cover.{covered_iff}
use sing_quic.AckTrack.Ops.{Gained, advance-Gained, add-Gained}

-- Acknowledged up to 4, and from 6 to 9.
abbrev tracker : AckTracker
tracker = record { cumulative = 4; ranges = (6, 9) ∷ []; closed = false; gen = 3 }

tracker-IsNormal : IsNormal tracker
tracker-IsNormal = omega arith

-- Two ranges that overlap what is there, one that joins up, and one that is known.
add_overlapping :
    add tracker ((12, 14) ∷ (8, 12) ∷ (2, 3) ∷ [])
    ≡ some (true, record tracker { ranges = (6, 14) ∷ []; gen = 4 })
unfolding add append_new covered covered_in covered_loop merge coalesce_all coalesce sort_ranges
    insert_range before compact compact_loop compact_pass bump
add_overlapping = refl

add_known : add tracker ((2, 3) ∷ (6, 8) ∷ (5, 5) ∷ []) ≡ some (false, tracker)
unfolding add append_new covered covered_in covered_loop
add_known = refl

-- The cumulative point meets the range and moves to its end.
advance_folds : advance tracker 6 ≡ some (record tracker { cumulative = 9; ranges = []; gen = 4 })
unfolding advance compact compact_loop compact_pass bump
advance_folds = refl

wait_outcomes :
    (wait_round tracker 6 9 false ≡ ready)
    × (wait_round tracker 3 6 false ≡ blocks)
    × (wait_round (close tracker) 3 6 true ≡ tracker_closed)
unfolding wait_round covered covered_in covered_loop close
wait_outcomes = (refl, refl, refl)

covered_yes : covered tracker 6 9 ≡ true
unfolding covered covered_in covered_loop
covered_yes = refl

covered_no : covered tracker 3 6 ≡ false
unfolding covered covered_in covered_loop
covered_no = refl

byte_8 : acked tracker 8 ≡ true
unfolding in_ranges
byte_8 = refl

add-Gained_example :
    Ends {A = Bool × AckTracker}
      (λ p. Gained tracker 5 (in_ranges ((5, 7) ∷ []) 5) p.1)
      (add tracker ((5, 7) ∷ []))
add-Gained_example = add-Gained tracker ((5, 7) ∷ []) 5 tracker-IsNormal

advance-Gained_example : Ends (Gained tracker 5 true) (advance tracker 6)
advance-Gained_example = advance-Gained tracker 6 5 tracker-IsNormal

covered_iff_example :
    (covered tracker 6 9 ≡ true) ↔ ((x : ℕ) → 6 ≤ x → x < 9 → acked tracker x ≡ true)
covered_iff_example = covered_iff tracker 6 9 tracker-IsNormal
