-- ===== src/Stripe.antt =====
-- queqiao/internal/stripe/stripe.go: the scheduler that hands the chunks of one stream to lanes.
-- This file has its state and the accounts of the lanes; the children have the operations.
--
-- `produce` makes one chunk object for each offset, so an offset stands for the pointer to a chunk:
-- the ready set lists offsets, and what the objects hold (payload, marks, reservation) is kept by
-- offset. Byte counts stay below 2 ^ 64. Times are natural numbers, and zero is the zero time.
pub mod Lanes
pub mod Ready
pub mod Finish
pub mod Reissue
pub mod Produce
pub mod Keys
pub mod Outstanding
pub mod Exact
pub mod Accounts
pub mod Inv
mod Tests
use sing_quic.Prelude.{
  ℕ, ◌+◌, ◌*◌, ◌-◌, Bool, true, false, Option, none, some, List, [], ◌∷◌, ltb, leb, ◌==◌,
  if◌then◌else◌, length,
}
use sing_quic.MemLimit.{Budget}

-- The numbers of `Config`; a number that is not positive is zero.
pub record Config : Type 0 where
  pub chunk_size : ℕ
  pub lane_window : ℕ
  pub max_outstanding : ℕ
  pub max_outstanding_bytes : ℕ
  pub reliable_reissue_burst : ℕ

unfoldable pub default_config : Config
default_config = record {
  chunk_size = 64 * 1024;
  lane_window = 4;
  max_outstanding = 64;
  max_outstanding_bytes = 16 * 1024 * 1024;
  reliable_reissue_burst = 0;
}

unfoldable pub apply_defaults : Config → Config
unfolding default_config
apply_defaults c =
    let window = if c.lane_window == 0 then default_config.lane_window else c.lane_window in
    let most =
      if c.max_outstanding == 0 then default_config.max_outstanding else c.max_outstanding in
    record c {
      chunk_size = if c.chunk_size == 0 then default_config.chunk_size else c.chunk_size;
      lane_window = window;
      max_outstanding = if ltb most window then window else most;
      max_outstanding_bytes =
          if c.max_outstanding_bytes == 0
          then default_config.max_outstanding_bytes
          else c.max_outstanding_bytes;
    }

-- What the `Windows` of the configuration answer, and `Outstanding` where they have it.
pub record Windows : Type 0 where
  pub total : ℕ
  pub outstanding : Option (ℕ → ℕ → ℕ)
  pub lane : ℕ → ℕ → ℕ

-- What the other functions of the configuration would return during a call: `RetransmitAfter` (zero
-- for none), `Reliable` (always true for none), `Now`, `Retention`.
pub record Environment : Type 0 where
  pub now : ℕ
  pub retransmit_after : ℕ
  pub reliable : ℕ → Bool
  pub retention : Option ℕ
  pub windows : Option Windows

-- A chunk as a lane is handed it: a copy, without the reservation.
pub record Chunk : Type 0 where
  pub offset : ℕ
  pub payload : List ℕ
  pub final : Bool
  pub attempt : ℕ

pub record Attempt : Type 0 where
  pub id : ℕ
  pub lane : ℕ
  pub deadline : ℕ
  pub reliable : Bool
  pub written : Bool

pub record Stats : Type 0 where
  pub chunks_issued : ℕ
  pub chunks_retransmit : ℕ
  pub chunks_completed : ℕ
  pub bytes_issued : ℕ
  pub bytes_retransmit : ℕ
  pub lane_failures : ℕ
  pub source_bytes : ℕ
  pub peak_outstanding : ℕ
  pub completed_by_lane_id : ℕ → ℕ

-- `laneLoad`, `laneBytes`, `laneQueued` (Go maps, which answer zero for a missing key) and
-- `totalBytes`.
pub record Load : Type 0 where
  pub chunks : ℕ → ℕ
  pub bytes : ℕ → ℕ
  pub queued : ℕ → ℕ
  pub total : ℕ

-- The objects of the chunks: `payload`, `final`, `urgent` and `reservation` of the chunk at an
-- offset. `live` has the attempts of each outstanding chunk, by rising offset.
pub record Scheduler : Type 0 where
  pub config : Config
  pub payload : ℕ → List ℕ
  pub final : ℕ → Bool
  pub urgent : ℕ → Bool
  pub reservation : ℕ → ℕ
  pub next_offset : ℕ
  pub pending : List ℕ
  pub live : List (ℕ × List Attempt)
  pub load : Load
  pub live_bytes : ℕ
  pub next_attempt : ℕ
  pub eof : Bool
  pub source_error : Option ℕ
  pub closed : Bool
  pub finished : Bool
  pub stats : Stats
  pub memory : Option Budget

-- `New`
unfoldable pub new : Config → Option Budget → Scheduler
unfolding apply_defaults
new config memory = record {
  config = apply_defaults config;
  payload = λ k. [];
  final = λ k. false;
  urgent = λ k. false;
  reservation = λ k. 0;
  next_offset = 0;
  pending = [];
  live = [];
  load = record { chunks = λ l. 0; bytes = λ l. 0; queued = λ l. 0; total = 0 };
  live_bytes = 0;
  next_attempt = 0;
  eof = false;
  source_error = none;
  closed = false;
  finished = false;
  stats = record {
    chunks_issued = 0;
    chunks_retransmit = 0;
    chunks_completed = 0;
    bytes_issued = 0;
    bytes_retransmit = 0;
    lane_failures = 0;
    source_bytes = 0;
    peak_outstanding = 0;
    completed_by_lane_id = λ l. 0;
  };
  memory = memory;
}

-- A write to a Go map or to a field of an object.
abbrev pub update {ℓ} : {V : Type ℓ} → (ℕ → V) → ℕ → V → ℕ → V
update f k v j = if k == j then v else f j

-- The length of the chunk at an offset.
abbrev pub size : Scheduler → ℕ → ℕ
size s k = length (s.payload k)

-- A call that may run into the panic of the budget's `Release`.
pub data Outcome : Type 0 where
  ran : Scheduler → Outcome
  panicked : Outcome
