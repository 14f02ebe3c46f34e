-- ===== src/WindowedFilter/Order.antt =====
-- The order of the three estimates (congestion_meta2/windowed_filter.go).
use sing_quic.Prelude.{ℕ, ◌-◌, ◌≤◌, ◌≡◌, Bool, false, ◌||◌, ltb, arith, inl, inr, Bool-cases, subst}
use sing_quic.WindowedFilter.{
  WindowedFilter, Estimate, max_filter, update, reset, place, expire, promote, renew, is_level,
  at_least,
}

-- Of the filter for maxima: the estimates fall in value and rise in time, up to `now`.
pub record IsMax (f : WindowedFilter ℕ) (now : ℕ) : Type 0 where
  pub best_second : f.second.sample ≤ f.best.sample
  pub second_third : f.third.sample ≤ f.second.sample
  pub older : f.best.time ≤ f.second.time
  pub newer : f.second.time ≤ f.third.time
  pub past : f.third.time ≤ now

-- The sample has its place: no estimate is smaller, and the third is within the window.
record IsPlaced (f : WindowedFilter ℕ) (new : Estimate ℕ) : Type 0 where
  ordered : IsMax f new.time
  smallest : new.sample ≤ f.third.sample
  recent : new.time - f.third.time ≤ f.window_length

place-IsPlaced :
    (f : WindowedFilter ℕ) (now : ℕ) (new : Estimate ℕ)
    → IsMax f now
    → now ≤ new.time
    → new.sample ≤ f.best.sample
    → new.time - f.third.time ≤ f.window_length
    → IsPlaced (place 0 max_filter f new) new
      × ((place 0 max_filter f new).window_length ≡ f.window_length)
unfolding place max_filter
place-IsPlaced f now new v h b r =
    ground (arith, v.best_second, v.second_third, v.older, v.newer, v.past)

-- What `Update` leaves.
record IsUpdated (window : ℕ) (new : Estimate ℕ) (f : WindowedFilter ℕ) : Type 0 where
  ordered : IsMax f new.time
  recent : new.time - f.best.time ≤ window
  best : new.sample ≤ f.best.sample

promote-IsUpdated :
    (f : WindowedFilter ℕ) (new : Estimate ℕ)
    → IsPlaced f new
    → IsUpdated f.window_length new (promote 0 max_filter f new)
unfolding promote
promote-IsUpdated f new p = ground (arith, p.ordered, p.smallest, p.recent)

renew-IsUpdated :
    (f : WindowedFilter ℕ) (new : Estimate ℕ)
    → IsPlaced f new
    → new.time - f.best.time ≤ f.window_length
    → IsUpdated f.window_length new (renew 0 max_filter f new)
unfolding renew max_filter
renew-IsUpdated f new p r = ground (arith, p.ordered, p.smallest, p.recent)

reset-IsUpdated :
    (f : WindowedFilter ℕ) (new : Estimate ℕ)
    → IsUpdated f.window_length new (reset 0 max_filter f new)
unfolding reset
reset-IsUpdated f new = ground arith

expire-IsUpdated :
    (f : WindowedFilter ℕ) (new : Estimate ℕ)
    → IsPlaced f new
    → IsUpdated f.window_length new (expire 0 max_filter f new)
unfolding expire
expire-IsUpdated f new p = elim (Bool-cases (ltb f.window_length (new.time - f.best.time))) [
  | inl out ↦ rw out (promote-IsUpdated f new p)
  | inr within ↦ rw within (renew-IsUpdated f new p (ground (arith, within)))
]

smaller : (a b : ℕ) → at_least (max_filter a b) ≡ false → a ≤ b
unfolding max_filter
smaller a b h = ground (arith, h)

-- `Update` of a filter for maxima, at a time that is not before the last one, keeps the estimates
-- ordered: they fall in value and rise in time. Afterwards the best estimate is no older than the
-- window, and no smaller than the new sample.
pub update-IsMax :
    (f : WindowedFilter ℕ) (now : ℕ) (new : Estimate ℕ)
    → IsMax f now
    → now ≤ new.time
    → let f' = update 0 max_filter f new in
      IsMax f' new.time
      × (new.time - f'.best.time ≤ f.window_length)
      × (new.sample ≤ f'.best.sample)
unfolding update
update-IsMax f now new v h = elim (Bool-cases is_reset) [
  | inl yes_ ↦ rw yes_ (facts (reset 0 max_filter f new) (reset-IsUpdated f new))
  | inr no_ ↦ rw no_ (facts (expire 0 max_filter (place 0 max_filter f new) new) (kept no_))
]
  where
    is_reset : Bool
    is_reset =
        is_level (max_filter f.best.sample 0)
        || (at_least (max_filter new.sample f.best.sample)
            || ltb f.window_length (new.time - f.third.time))

    facts :
        (g : WindowedFilter ℕ)
        → IsUpdated f.window_length new g
        → IsMax g new.time
          × (new.time - g.best.time ≤ f.window_length)
          × (new.sample ≤ g.best.sample)
    facts g u = (u.ordered, u.recent, u.best)

    kept :
        is_reset ≡ false
        → IsUpdated f.window_length new (expire 0 max_filter (place 0 max_filter f new) new)
    kept no_ =
        let (p, w) =
          place-IsPlaced f now new v h (smaller new.sample f.best.sample (ground (arith, no_)))
            (ground (arith, no_)) in
        subst (λ k. IsUpdated k new (expire 0 max_filter (place 0 max_filter f new) new)) w
          (expire-IsUpdated (place 0 max_filter f new) new p)
