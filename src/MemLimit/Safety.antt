-- ===== src/MemLimit/Safety.antt =====
-- What holds of a budget (queqiao/internal/memlimit/budget.go) whatever its flows do.
use sing_quic.Prelude.{
  ℕ, ◌+◌, ◌-◌, ◌≤◌, ◌<◌, ◌≡◌, ◌≢◌, none, some, List, length, sum_by, sum_by-set, le-sum_by, arith,
}
use sing_quic.MemLimit.{Budget, try_acquire, release, acquire, wake}
use sing_quic.MemLimit.{panicked}
use sing_quic.MemLimit.Flows.{Flow, Client, Step, Reach, idle, flow, moved, is_waiting, start, next}
use sing_quic.MemLimit.Flows.{tries, enters, parks, resumes, parks_again, gives_up, releases}

abbrev pub held_by : List Flow → ℕ
held_by fs = sum_by (λ f. f.held) fs

abbrev pub waiting_in : List Flow → ℕ
waiting_in fs = sum_by is_waiting fs

-- The account is exact, and within the capacity.
pub record IsSafe (c : Client) : Type 0 where
  pub exact : c.budget.used ≡ held_by c.flows
  pub counted : c.budget.waiters ≡ waiting_in c.flows
  pub peaked : c.budget.used ≤ c.budget.peak
  pub bounded : c.budget.peak ≤ c.budget.capacity

-- A step that moves the budget and one flow by the same amounts keeps the account.
module _ (c : Client) (i : ℕ) (b : Budget) (f : Flow) (h : i < length c.flows) (s : IsSafe c) where
  moved-IsSafe :
      b.capacity ≡ c.budget.capacity
      → b.used + (flow c i).held ≡ c.budget.used + f.held
      → b.waiters + is_waiting (flow c i) ≡ c.budget.waiters + is_waiting f
      → b.used ≤ b.peak
      → b.peak ≤ b.capacity
      → IsSafe (moved c i b f)
  moved-IsSafe cap used waits peak top =
      omega (
        arith,
        sum_by-set (λ f. f.held) c.flows i f idle h,
        sum_by-set is_waiting c.flows i f idle h,
      )

-- A parked flow is counted.
waiters_pos :
    (c : Client) (i n : ℕ)
    → i < length c.flows
    → IsSafe c
    → (flow c i).waiting ≡ some n
    → 0 < c.budget.waiters
waiters_pos c i n h s w = ground (arith, le-sum_by is_waiting c.flows i idle h)

-- Each critical section keeps the account exact.
pub Step-IsSafe : {c d : Client} → Step c d → IsSafe c → IsSafe d
unfolding try_acquire release acquire wake
Step-IsSafe (tries c i n b h w e) s =
    ground (arith, moved-IsSafe c i b (record { held = (flow c i).held + n; waiting = none }) h s)
Step-IsSafe (enters c i n k b h w e) s =
    ground (arith, moved-IsSafe c i b (record { held = (flow c i).held + n; waiting = none }) h s)
Step-IsSafe (parks c i n k b h w e) s =
    ground (arith, moved-IsSafe c i b (record { held = (flow c i).held; waiting = some n }) h s)
Step-IsSafe (resumes c i n k b h w e) s = ground (
  arith,
  waiters_pos c i n h s w,
  moved-IsSafe c i b (record { held = (flow c i).held + n; waiting = none }) h s,
)
Step-IsSafe (parks_again c i n k b h w e) s = ground (
  arith,
  waiters_pos c i n h s w,
  moved-IsSafe c i b (record { held = (flow c i).held; waiting = some n }) h s,
)
Step-IsSafe (gives_up c i n h w) s = ground (
  arith,
  waiters_pos c i n h s w,
  moved-IsSafe c i (wake c.budget) (record { held = (flow c i).held; waiting = none }) h s,
)
Step-IsSafe (releases c i n b h w l e) s =
    ground (arith, moved-IsSafe c i b (record { held = (flow c i).held - n; waiting = none }) h s)

-- After any interleaving of the flows' critical sections, from a client whose account is exact, the
-- account is exact: the bytes in use are those that the flows hold, they stay within the peak and
-- the peak within the capacity, and the waiters are the parked flows.
pub Reach-IsSafe : {c d : Client} → IsSafe c → Reach c d → IsSafe d
Reach-IsSafe s start = s
Reach-IsSafe s (next r t) = Step-IsSafe t (Reach-IsSafe s r)

-- Nor does a flow that releases no more than it holds ever meet the panic of `Release`.
pub release-ne-panicked :
    {c d : Client} (i n : ℕ)
    → IsSafe c
    → Reach c d
    → i < length d.flows
    → n ≤ (flow d i).held
    → release (some d.budget) n ≢ panicked
unfolding release
release-ne-panicked {d = d} i n s r h l =
    ground (arith, Reach-IsSafe s r, le-sum_by (λ f. f.held) d.flows i idle h)
