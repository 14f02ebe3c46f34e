-- ===== src/MemLimit/Tests.antt =====
-- Two flows on one budget (queqiao/internal/memlimit/budget.go).
use sing_quic.Prelude.{◌≡◌, ◌≢◌, refl, true, false, none, some, [], ◌∷◌, arith}
use sing_quic.MemLimit.{
  Budget, charge, try_acquire, release, acquire, acquire_pass, wake, panicked, too_large, new,
}
use sing_quic.MemLimit.Flows.{Client, Reach, idle, start, next, tries, parks, releases, resumes}
use sing_quic.MemLimit.Safety.{IsSafe, Reach-IsSafe, release-ne-panicked}

abbrev two : Client
two = record {
  budget = record { capacity = 10; used = 0; peak = 0; waiters = 0 };
  flows = idle ∷ idle ∷ [];
}

-- The first flow holds six bytes.
abbrev first : Budget
first = record { capacity = 10; used = 6; peak = 6; waiters = 0 }

-- The second asks for seven and parks.
abbrev second : Budget
second = record first { waiters = 1 }

-- The first gives four back.
abbrev third : Budget
third = record second { used = 2 }

-- The second has its seven.
abbrev last : Client
last = record {
  budget = record { capacity = 10; used = 9; peak = 9; waiters = 0 };
  flows = record { held = 2; waiting = none } ∷ record { held = 7; waiting = none } ∷ [];
}

run : Reach two last
unfolding try_acquire acquire acquire_pass release wake charge
run =
    next
      (next
        (next (next start (tries two 0 6 first (omega arith) refl refl))
          (parks _ 1 7 false second (omega arith) refl refl))
        (releases _ 0 4 third (omega arith) refl (omega arith) refl))
      (resumes _ 1 7 false last.budget (omega arith) refl refl)

two-IsSafe : IsSafe two
two-IsSafe = omega arith

acquire_more_than_capacity : acquire first 11 false ≡ too_large
unfolding acquire
acquire_more_than_capacity = refl

release_more_than_used : release (some first) 7 ≡ panicked
unfolding release
release_more_than_used = refl

no_budget : (new 0 ≡ none) × (try_acquire none 1000 ≡ (true, none))
unfolding new try_acquire
no_budget = (refl, refl)

Reach-IsSafe_example : IsSafe last
Reach-IsSafe_example = Reach-IsSafe two-IsSafe run

release-ne-panicked_example : release (some last.budget) 2 ≢ panicked
release-ne-panicked_example = release-ne-panicked 0 2 two-IsSafe run (omega arith) (omega arith)
