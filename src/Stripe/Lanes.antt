-- ===== src/Stripe/Lanes.antt =====
-- The accounts of the lanes (queqiao/internal/stripe/stripe.go).
use sing_quic.Prelude.{
  ℕ, ◌+◌, ◌-◌, Bool, true, false, not, ◌&&◌, ◌||◌, Option, none, some, List, [], ◌∷◌, ltb, leb,
  ◌==◌, if◌then◌else◌,
}
use sing_quic.Stripe.{Load, Attempt, Scheduler, Environment, Windows, update}

-- `releaseQueuedLocked`
unfoldable pub release_queued : Load → ℕ → ℕ → Load
release_queued load lane size = record load {
  queued =
      update load.queued lane (if leb size (load.queued lane) then load.queued lane - size else 0);
}

-- The two byte counts of `releaseLaneLocked`: the flow gives back what the lane does.
unfoldable pub release_bytes : Load → ℕ → ℕ → Load
release_bytes load lane size =
    let given = if leb size (load.bytes lane) then size else load.bytes lane in
    record load {
      bytes = update load.bytes lane (load.bytes lane - given);
      total = if leb given load.total then load.total - given else 0;
    }

-- `releaseLaneLocked`
unfoldable pub release_lane : Load → ℕ → ℕ → Bool → Load
unfolding release_queued release_bytes
release_lane load lane size queued =
    let counted = record load {
      chunks =
          update load.chunks lane
            (if ltb 0 (load.chunks lane) then load.chunks lane - 1 else load.chunks lane);
    } in
    release_bytes (if queued then release_queued counted lane size else counted) lane size

-- The loop of `Complete` over the attempts of a chunk.
unfoldable pub release_all : Load → ℕ → List Attempt → Load
unfolding release_lane
release_all load size [] = load
release_all load size (a ∷ rest) =
    release_all (release_lane load a.lane size (not a.written)) size rest

-- The charge of `takeReadyLocked`.
unfoldable pub charge : Load → ℕ → ℕ → Load
charge load lane size = record load {
  chunks = update load.chunks lane (load.chunks lane + 1);
  bytes = update load.bytes lane (load.bytes lane + size);
  queued = update load.queued lane (load.queued lane + size);
  total = load.total + size;
}

unfoldable pub lane_has_attempt : List Attempt → ℕ → Bool
lane_has_attempt [] lane = false
lane_has_attempt (a ∷ rest) lane = a.lane == lane || lane_has_attempt rest lane

unfoldable pub lane_has_reliable_attempt : List Attempt → ℕ → Bool
lane_has_reliable_attempt [] lane = false
lane_has_reliable_attempt (a ∷ rest) lane =
    a.lane == lane && a.reliable || lane_has_reliable_attempt rest lane

-- `limit > 0 && held+chunk > uint64(limit)`
unfoldable pub exceeds : ℕ → ℕ → ℕ → Bool
exceeds limit held chunk = ltb 0 limit && ltb limit (held + chunk)

-- The bounds that the windows put on the flow and on the lane's unacknowledged bytes.
unfoldable pub window_full : Load → Option Windows → ℕ → ℕ → Bool
unfolding exceeds
window_full load none lane chunk = false
window_full load (some w) lane chunk = exceeds w.total load.total chunk || elim w.outstanding [
  | none ↦ false
  | some outstanding ↦ exceeds (outstanding lane (load.bytes lane)) (load.bytes lane) chunk
]

unfoldable pub lane_full : Load → Option Windows → ℕ → ℕ → Bool
unfolding exceeds
lane_full load none lane chunk = false
lane_full load (some w) lane chunk =
    exceeds (w.lane lane (load.queued lane)) (load.queued lane) chunk

-- `hasRoomLocked`
unfoldable pub has_room : Scheduler → Environment → ℕ → ℕ → ℕ → Bool
unfolding window_full lane_full exceeds
has_room s env lane window_bytes chunk =
    let n = if chunk == 0 then 1 else chunk in
    if s.load.total == 0
    then true
    else if window_full s.load env.windows lane n
    then false
    else if s.load.queued lane == 0
    then true
    else not (exceeds window_bytes (s.load.queued lane) n || lane_full s.load env.windows lane n)
