-- ===== src/WindowedFilter.antt =====
-- congestion_meta2/windowed_filter.go: the best of the samples of a window, by three estimates.
-- Times are natural numbers; the differences of times are the code's where a new time does not lie
-- before the times of the estimates.
pub mod Order
mod Tests
use sing_quic.Prelude.{
  ℕ, ◌+◌, ◌-◌, ◌/◌, Bool, true, false, not, ◌&&◌, ◌||◌, ltb, leb, if◌then◌else◌,
}

-- What a comparator returns: 1, 0 or -1.
pub data Sign : Type 0 where
  above level below : Sign

-- `MaxFilter` and `MinFilter`
unfoldable pub max_filter : ℕ → ℕ → Sign
max_filter a b = if ltb b a then above else if ltb a b then below else level

unfoldable pub min_filter : ℕ → ℕ → Sign
min_filter a b = if ltb a b then above else if ltb b a then below else level

-- `f.comparator(a, b) == 0` and `f.comparator(a, b) >= 0`
abbrev pub is_level : Sign → Bool
is_level above = false
is_level level = true
is_level below = false

abbrev pub at_least : Sign → Bool
at_least above = true
at_least level = true
at_least below = false

pub record Estimate (V : Type 0) : Type 0 where
  pub sample : V
  pub time : ℕ

-- `WindowedFilter`, with the three elements of `estimates`.
pub record WindowedFilter (V : Type 0) : Type 0 where
  pub window_length : ℕ
  pub best : Estimate V
  pub second : Estimate V
  pub third : Estimate V

module _ {V : Type 0} (zero_value : V) (comparator : V → V → Sign) where
  -- `NewWindowedFilter`
  unfoldable pub new_filter : ℕ → WindowedFilter V
  new_filter window =
      let none_yet : Estimate V = record { sample = zero_value; time = 0 } in
      record { window_length = window; best = none_yet; second = none_yet; third = none_yet }

  -- `Clear`
  unfoldable pub clear : WindowedFilter V → WindowedFilter V
  unfolding new_filter
  clear f = new_filter f.window_length

  -- `Reset`
  unfoldable pub reset : WindowedFilter V → Estimate V → WindowedFilter V
  reset f new = record f { best = new; second = new; third = new }

  -- The part of `Update` that puts the sample among the estimates.
  unfoldable pub place : WindowedFilter V → Estimate V → WindowedFilter V
  place f new =
      if at_least (comparator new.sample f.second.sample)
      then record f { second = new; third = new }
      else if at_least (comparator new.sample f.third.sample)
      then record f { third = new }
      else f

  -- The part that promotes the second and third best, where the best is out of the window.
  unfoldable pub promote : WindowedFilter V → Estimate V → WindowedFilter V
  promote f new =
      if ltb f.window_length (new.time - f.second.time)
      then record f { best = f.third; second = new; third = new }
      else record f { best = f.second; second = f.third; third = new }

  -- The part that takes new estimates from the second quarter or half of the window.
  unfoldable pub renew : WindowedFilter V → Estimate V → WindowedFilter V
  renew f new =
      if is_level (comparator f.second.sample f.best.sample)
        && ltb (f.window_length / 4) (new.time - f.second.time)
      then record f { second = new; third = new }
      else if is_level (comparator f.third.sample f.second.sample)
          && ltb (f.window_length / 2) (new.time - f.third.time)
      then record f { third = new }
      else f

  -- What `Update` does to the estimates that it keeps.
  unfoldable pub expire : WindowedFilter V → Estimate V → WindowedFilter V
  unfolding promote renew
  expire f new = if ltb f.window_length (new.time - f.best.time) then promote f new else renew f new

  -- `Update`
  unfoldable pub update : WindowedFilter V → Estimate V → WindowedFilter V
  unfolding reset place expire
  update f new =
      if is_level (comparator f.best.sample zero_value)
        || (at_least (comparator new.sample f.best.sample)
            || ltb f.window_length (new.time - f.third.time))
      then reset f new
      else expire (place f new) new
