-- ===== src/MemLimit.antt =====
-- queqiao/internal/memlimit/budget.go: the byte budget that all flows of a client share.
-- A request `n` is the length of a payload, so the code's `n <= 0` is `n == 0` here.
pub mod Flows
pub mod Safety
mod Tests
use sing_quic.Prelude.{
  ℕ, ◌+◌, ◌-◌, Bool, true, false, Option, none, some, ltb, leb, ◌==◌, if◌then◌else◌, max,
}

-- `Budget`. The generation channel carries no value: a parked request is woken by every release.
pub record Budget : Type 0 where
  pub capacity : ℕ
  pub used : ℕ
  pub peak : ℕ
  pub waiters : ℕ

-- `New`: no budget at all where the capacity is zero.
unfoldable pub new : ℕ → Option Budget
new capacity =
    if capacity == 0
    then none
    else some (record { capacity = capacity; used = 0; peak = 0; waiters = 0 })

-- `b.used += request; if b.used > b.peak { b.peak = b.used }`
unfoldable pub charge : Budget → ℕ → Budget
charge b n = record b {
  used = b.used + n;
  peak = if ltb b.peak (b.used + n) then b.used + n else b.peak;
}

unfoldable pub try_acquire : Option Budget → ℕ → Bool × Option Budget
unfolding charge
try_acquire none n = (true, none)
try_acquire (some b) n =
    if n == 0
    then (true, some b)
    else if ltb (b.capacity - b.used) n
    then (false, some b)
    else (true, some (charge b n))

-- What `Release` leaves behind. The panic is an outcome of its own.
pub data Released : Type 0 where
  done : Option Budget → Released
  panicked : Released

unfoldable pub release : Option Budget → ℕ → Released
release none n = done none
release (some b) n =
    if n == 0
    then done (some b)
    else if ltb b.used n
    then panicked
    else done (some (record b { used = b.used - n }))

-- One pass through the locked part of `Acquire`: it ends, or the request parks.
pub data Attempt : Type 0 where
  too_large cancelled : Attempt
  granted : Budget → Attempt
  parked : Budget → Attempt

-- A pass of the `for` loop, once the request is known to fit the capacity.
unfoldable pub acquire_pass : Budget → ℕ → Bool → Attempt
unfolding charge
acquire_pass b n is_cancelled =
    if is_cancelled
    then cancelled
    else if leb n (b.capacity - b.used)
    then granted (charge b n)
    else parked (record b { waiters = b.waiters + 1 })

-- The first pass, with the test against the capacity in front of the loop.
unfoldable pub acquire : Budget → ℕ → Bool → Attempt
unfolding acquire_pass
acquire b n is_cancelled =
    if n == 0
    then granted b
    else if ltb b.capacity n
    then too_large
    else acquire_pass b n is_cancelled

-- A parked request wakes, by a release or by cancellation: `b.waiters--`.
unfoldable pub wake : Budget → Budget
wake b = record b { waiters = b.waiters - 1 }

pub record Snapshot : Type 0 where
  pub capacity : ℕ
  pub used : ℕ
  pub peak : ℕ
  pub waiters : ℕ

unfoldable pub snapshot : Option Budget → Snapshot
snapshot none = record { capacity = 0; used = 0; peak = 0; waiters = 0 }
snapshot (some b) = record {
  capacity = b.capacity;
  used = b.used;
  peak = b.peak;
  waiters = b.waiters;
}
