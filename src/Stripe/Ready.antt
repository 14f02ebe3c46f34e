-- ===== src/Stripe/Ready.antt =====
-- Handing out ready chunks (queqiao/internal/stripe/stripe.go): `takeReadyLocked` and a round of
-- `Next`.
use sing_quic.Prelude.{
  ℕ, ◌+◌, ◌%◌, Bool, true, false, not, ◌&&◌, ◌||◌, Option, none, some, List, [], ◌∷◌, ◌++◌, ltb,
  ◌==◌, if◌then◌else◌, length, get_or,
}
use sing_quic.SeqMap.{lookup, put, search, insert_order, remove_order}
use sing_quic.Stripe.{Attempt, Chunk, Scheduler, Environment, Stats, update, size}
use sing_quic.Stripe.Lanes.{has_room, charge, lane_has_reliable_attempt}

-- `pendingHas`
unfoldable pub pending_has : List ℕ → ℕ → Bool
pending_has pending k =
    let at = search pending k in ltb at (length pending) && get_or pending at 0 == k

-- `requeueLocked`
unfoldable pub requeue : Scheduler → ℕ → Scheduler
unfolding pending_has
requeue s k =
    if pending_has s.pending k
    then s
    else record s { urgent = update s.urgent k true; pending = insert_order s.pending k }

-- `removePendingLocked`; the chunk that it returns is the one at the offset, where there is one.
unfoldable pub remove_pending : Scheduler → ℕ → Scheduler
remove_pending s k = record s { pending = remove_order s.pending k }

-- `s.nextAttempt++`, a uint64, past zero.
unfoldable pub attempt_after : ℕ → ℕ
attempt_after n = let next = (n + 1) % 18446744073709551616 in if next == 0 then 1 else next

abbrev pub attempts_of : Option (List Attempt) → List Attempt
attempts_of none = []
attempts_of (some attempts) = attempts

-- The counters of a dispatch: the first of a chunk, or another one.
unfoldable pub count_dispatch : Stats → Bool → ℕ → ℕ → Stats
count_dispatch stats is_first size outstanding = record stats {
  chunks_issued = if is_first then stats.chunks_issued + 1 else stats.chunks_issued;
  bytes_issued = if is_first then stats.bytes_issued + size else stats.bytes_issued;
  chunks_retransmit = if is_first then stats.chunks_retransmit else stats.chunks_retransmit + 1;
  bytes_retransmit = if is_first then stats.bytes_retransmit else stats.bytes_retransmit + size;
  peak_outstanding =
      if ltb stats.peak_outstanding outstanding then outstanding else stats.peak_outstanding;
}

abbrev pub is_none : {A : Type 0} → Option A → Bool
is_none none = true
is_none (some x) = false

-- The part of `takeReadyLocked` behind its tests: the chunk at offset `k` goes to the lane, and
-- `pending` is what remains of the ready set.
unfoldable pub dispatch : Scheduler → Environment → ℕ → ℕ → List ℕ → Chunk × Scheduler
unfolding attempt_after charge count_dispatch
dispatch s env lane k pending =
    let found = lookup k s.live in
    let id = attempt_after s.next_attempt in
    let attempt : Attempt = record {
      id = id;
      lane = lane;
      deadline = if ltb 0 env.retransmit_after then env.now + env.retransmit_after else 0;
      reliable = env.reliable lane;
      written = false;
    } in
    let live = put k (attempts_of found ++ (attempt ∷ [])) s.live in
    (
      record { offset = k; payload = s.payload k; final = s.final k; attempt = id },
      record s {
        urgent = update s.urgent k false;
        pending = pending;
        live = live;
        load = charge s.load lane (size s k);
        live_bytes = if is_none found then s.live_bytes + size s k else s.live_bytes;
        next_attempt = id;
        stats = count_dispatch s.stats (is_none found) (size s k) (length live);
      },
    )

-- The loop of `takeReadyLocked`; `before` is what it has gone past.
unfoldable pub take_from :
    Scheduler → Environment → ℕ → ℕ → List ℕ → List ℕ → Option (Chunk × Scheduler)
unfolding has_room dispatch
take_from s env lane window_bytes before [] = none
take_from s env lane window_bytes before (k ∷ ks) =
    let rest = take_from s env lane window_bytes (before ++ (k ∷ [])) ks in
    if not (has_room s env lane window_bytes (size s k)) && not (s.urgent k)
    then none
    else if lane_has_reliable_attempt (attempts_of (lookup k s.live)) lane
    then rest
    else some (dispatch s env lane k (before ++ ks))

unfoldable pub take_ready : Scheduler → Environment → ℕ → ℕ → Option (Chunk × Scheduler)
unfolding take_from
take_ready s env lane window_bytes = take_from s env lane window_bytes [] s.pending

-- `hasUrgentLocked`
unfoldable pub has_urgent : Scheduler → List ℕ → Bool
has_urgent s [] = false
has_urgent s (k ∷ ks) = s.urgent k

abbrev pub is_empty {ℓ} : {A : Type ℓ} → List A → Bool
is_empty [] = true
is_empty (x ∷ xs) = false

-- `doneLocked`
unfoldable pub is_done : Scheduler → Bool
is_done s = s.eof && is_empty s.pending && is_empty s.live

-- `finishedLocked`
unfoldable pub finished_error : Scheduler → Option ℕ
finished_error s = if is_empty s.pending && is_empty s.live then s.source_error else none

-- One round of the loop of `Next`; `waits` is the wait on the condition.
pub data Round : Type 0 where
  closed cancelled ended waits : Round
  failed : ℕ → Round
  issued : Chunk → Scheduler → Round

unfoldable pub next : Scheduler → Environment → Bool → ℕ → ℕ → Round
unfolding take_ready has_urgent is_done finished_error
next s env is_cancelled lane window_bytes =
    if s.closed
    then closed
    else if is_cancelled
    then cancelled
    else if ltb (s.load.chunks lane) s.config.lane_window || has_urgent s s.pending
    then elim (take_ready s env lane window_bytes) [
      | some (chunk, s') ↦ issued chunk s'
      | none ↦ elim (finished_error s) [
        | some e ↦ failed e
        | none ↦ if is_done s then ended else waits
      ]
    ]
    else waits
