-- ===== src/Stripe/Finish.antt =====
-- Chunks that arrived, failed or were written, and lanes that died
-- (queqiao/internal/stripe/stripe.go).
use sing_quic.Prelude.{
  ℕ, ◌+◌, ◌-◌, Bool, true, false, not, ◌||◌, Option, none, some, List, [], ◌∷◌, leb, ◌==◌,
  if◌then◌else◌,
}
use sing_quic.SeqMap.{lookup, put, delete}
use sing_quic.MemLimit.{Released, done, release}
use sing_quic.Stripe.{Attempt, Scheduler, Outcome, ran, panicked, Stats, Load, update, size}
use sing_quic.Stripe.Lanes.{release_lane, release_queued, release_all, lane_has_attempt}
use sing_quic.Stripe.Ready.{requeue, remove_pending, pending_has, is_done, is_empty}

-- `signalIfDoneLocked`
unfoldable pub signal_if_done : Scheduler → Scheduler
unfolding is_done
signal_if_done s = if is_done s then record s { finished = true } else s

-- What `Release` leaves of the scheduler's budget.
unfoldable pub with_memory : Scheduler → Released → Outcome
with_memory s (done memory) = ran (record s { memory = memory })
with_memory s Released.panicked = panicked

-- `releaseChunkLocked`
unfoldable pub release_chunk : Scheduler → ℕ → Outcome
unfolding with_memory
release_chunk s k =
    if s.reservation k == 0
    then ran s
    else with_memory (record s { reservation = update s.reservation k 0 })
        (release s.memory (s.reservation k))

unfoldable pub and_signal : Outcome → Outcome
unfolding signal_if_done
and_signal (ran s) = ran (signal_if_done s)
and_signal panicked = panicked

-- The part of `Complete` for a chunk that is outstanding, up to the ready set.
unfoldable pub complete_live : Scheduler → ℕ → ℕ → List Attempt → Scheduler
unfolding release_all
complete_live s lane k attempts = record s {
  load = release_all s.load (size s k) attempts;
  live_bytes = if leb (size s k) s.live_bytes then s.live_bytes - size s k else 0;
  live = delete k s.live;
  stats = record s.stats {
    chunks_completed = s.stats.chunks_completed + 1;
    completed_by_lane_id =
        update s.stats.completed_by_lane_id lane (s.stats.completed_by_lane_id lane + 1);
  };
}

-- `Complete`, for the chunk at offset `k`
unfoldable pub complete : Scheduler → ℕ → ℕ → Outcome
unfolding complete_live release_chunk and_signal remove_pending
complete s lane k = elim (lookup k s.live) [
  | some attempts ↦
      and_signal (release_chunk (remove_pending (complete_live s lane k attempts) k) k)
  | none ↦
      if pending_has s.pending k then and_signal (release_chunk (remove_pending s k) k) else ran s
]

-- The loop of `dropAttemptLocked`: the attempt that it takes out.
unfoldable pub find_attempt : List Attempt → ℕ → ℕ → Option Attempt
find_attempt [] lane id = none
find_attempt (a ∷ rest) lane id =
    if not (a.id == id) || not (a.lane == lane) then find_attempt rest lane id else some a

unfoldable pub remove_attempt : List Attempt → ℕ → ℕ → List Attempt
remove_attempt [] lane id = []
remove_attempt (a ∷ rest) lane id =
    if not (a.id == id) || not (a.lane == lane) then a ∷ remove_attempt rest lane id else rest

unfoldable pub requeue_if_idle : Scheduler → ℕ → List Attempt → Scheduler
unfolding requeue
requeue_if_idle s k attempts = if is_empty attempts then requeue s k else s

abbrev pub count_failure : Stats → Stats
count_failure stats = record stats { lane_failures = stats.lane_failures + 1 }

-- `Fail`, for the chunk at offset `k` with the attempt `id`
unfoldable pub fail : Scheduler → ℕ → ℕ → ℕ → Scheduler
unfolding find_attempt remove_attempt requeue_if_idle
fail s lane k id = elim (lookup k s.live) [
  | none ↦ s
  | some attempts ↦ elim (find_attempt attempts lane id) [
    | none ↦ s
    | some a ↦
        let kept = remove_attempt attempts lane id in
        requeue_if_idle
          (record s {
            live = put k kept s.live;
            load = release_lane s.load a.lane (size s k) (not a.written);
            stats = count_failure s.stats;
          })
          k kept
  ]
]

-- `dropLaneAttemptsLocked`
unfoldable pub drop_lane_attempts : Load → ℕ → List Attempt → ℕ → Load × List Attempt
unfolding release_lane
drop_lane_attempts load size [] lane = (load, [])
drop_lane_attempts load size (a ∷ rest) lane =
    let (load', kept) =
      drop_lane_attempts
        (if a.lane == lane then release_lane load a.lane size (not a.written) else load) size rest
        lane in
    (load', if a.lane == lane then kept else a ∷ kept)

-- The body of the loop of `RetireLane`, for the chunk at offset `k`
unfoldable pub retire_chunk : Scheduler → ℕ → ℕ → Scheduler
unfolding drop_lane_attempts lane_has_attempt requeue_if_idle
retire_chunk s lane k = elim (lookup k s.live) [
  | none ↦ s
  | some attempts ↦
      let (load', kept) = drop_lane_attempts s.load (size s k) attempts lane in
      if lane_has_attempt attempts lane
      then requeue_if_idle
          (record s { live = put k kept s.live; load = load'; stats = count_failure s.stats }) k
          kept
      else s
]

unfoldable pub retire_chunks : Scheduler → ℕ → List ℕ → Scheduler
unfolding retire_chunk
retire_chunks s lane [] = s
retire_chunks s lane (k ∷ ks) = retire_chunks (retire_chunk s lane k) lane ks

-- `delete(s.laneLoad, laneID)` and its two likes
unfoldable pub forget_lane : Load → ℕ → Load
forget_lane load lane = record load {
  chunks = update load.chunks lane 0;
  bytes = update load.bytes lane 0;
  queued = update load.queued lane 0;
}

-- `RetireLane`; `order` is the order in which the range over the Go map visits its keys.
unfoldable pub retire_lane : Scheduler → ℕ → List ℕ → Scheduler
unfolding retire_chunks forget_lane
retire_lane s lane order =
    let s' = retire_chunks s lane order in record s' { load = forget_lane s'.load lane }

-- The loop of `Wrote`: the attempts, and whether one was marked.
unfoldable pub mark_written : List Attempt → ℕ → ℕ → List Attempt × Bool
mark_written [] lane id = ([], false)
mark_written (a ∷ rest) lane id =
    let (marked, found) = mark_written rest lane id in
    if not (a.id == id) || (not (a.lane == lane) || a.written)
    then (a ∷ marked, found)
    else (record a { written = true } ∷ rest, true)

-- `Wrote`, for the chunk at offset `k` with the attempt `id`
unfoldable pub wrote : Scheduler → ℕ → ℕ → ℕ → Scheduler
unfolding mark_written release_queued
wrote s lane k id = elim (lookup k s.live) [
  | none ↦ s
  | some attempts ↦
      let (marked, found) = mark_written attempts lane id in
      if found
      then record s { live = put k marked s.live; load = release_queued s.load lane (size s k) }
      else s
]
