-- ===== src/WindowedFilter/Tests.antt =====
-- Samples of a maximum over a window of eight rounds (congestion_meta2/windowed_filter.go).
use sing_quic.Prelude.{ℕ, ◌-◌, ◌≤◌, ◌≡◌, refl, arith}
use sing_quic.WindowedFilter.{
  WindowedFilter, Estimate, max_filter, min_filter, new_filter, update, reset, place, expire,
  promote, renew,
}
use sing_quic.WindowedFilter.Order.{IsMax, update-IsMax}

abbrev estimate : ℕ → ℕ → Estimate ℕ
estimate s t = record { sample = s; time = t }

abbrev filter : WindowedFilter ℕ
filter = record {
  window_length = 8;
  best = estimate 90 1;
  second = estimate 70 4;
  third = estimate 60 6;
}

filter-IsMax : IsMax filter 6
filter-IsMax = omega arith

update_first :
    update 0 max_filter (new_filter 0 max_filter 8) (estimate 5 3)
    ≡ record { window_length = 8; best = estimate 5 3; second = estimate 5 3; third = estimate 5 3 }
unfolding update reset place expire promote renew max_filter new_filter
update_first = refl

-- A larger sample takes the places of the smaller ones, and an old best one makes room.
update_steps :
    (update 0 max_filter filter (estimate 75 7)
      ≡ record filter { second = estimate 75 7; third = estimate 75 7 })
    × (update 0 max_filter filter (estimate 50 10)
        ≡ record filter { best = estimate 70 4; second = estimate 60 6; third = estimate 50 10 })
    × (update 0 max_filter filter (estimate 50 13)
        ≡ record filter { best = estimate 60 6; second = estimate 50 13; third = estimate 50 13 })
    × (update 0 max_filter filter (estimate 50 15)
        ≡ record filter { best = estimate 50 15; second = estimate 50 15; third = estimate 50 15 })
unfolding update reset place expire promote renew max_filter
update_steps = (refl, refl, refl, refl)

update_minimum :
    update 0 min_filter filter (estimate 20 7)
    ≡ record filter { best = estimate 20 7; second = estimate 20 7; third = estimate 20 7 }
unfolding update reset place expire promote renew min_filter
update_minimum = refl

update-IsMax_example :
    IsMax (update 0 max_filter filter (estimate 50 10)) 10
    × (10 - (update 0 max_filter filter (estimate 50 10)).best.time ≤ 8)
    × (50 ≤ (update 0 max_filter filter (estimate 50 10)).best.sample)
update-IsMax_example = update-IsMax filter 6 (estimate 50 10) filter-IsMax (omega arith)
