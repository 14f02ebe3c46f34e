-- ===== src/Stripe/Produce.antt =====
-- Reading the source (queqiao/internal/stripe/stripe.go): the critical sections of `produce`, and
-- `Close`.
use sing_quic.Prelude.{
  ℕ, ◌+◌, Bool, true, false, not, ◌&&◌, ◌||◌, Option, none, some, List, [], ◌∷◌, ◌++◌, ltb, leb,
  ◌==◌, if◌then◌else◌, length,
}
use sing_quic.SeqMap.{lookup, keys}
use sing_quic.MemLimit.{release}
use sing_quic.Stripe.{Scheduler, Environment, Outcome, ran, panicked, update, size}
use sing_quic.Stripe.Ready.{is_none, is_empty}
use sing_quic.Stripe.Finish.{release_chunk, signal_if_done, with_memory}

-- `readAheadLimit`
unfoldable pub read_ahead_limit : Scheduler → Environment → ℕ
read_ahead_limit s env = elim env.retention [
  | none ↦ s.config.max_outstanding_bytes
  | some want ↦
      if want == 0 || ltb s.config.max_outstanding_bytes want
      then s.config.max_outstanding_bytes
      else want
]

-- The loop of `retainedBytes` over the ready chunks that are not outstanding.
unfoldable pub ready_bytes : Scheduler → List ℕ → ℕ
ready_bytes s [] = 0
ready_bytes s (k ∷ ks) = (if is_none (lookup k s.live) then size s k else 0) + ready_bytes s ks

-- `retainedBytes`
unfoldable pub retained_bytes : Scheduler → ℕ
unfolding ready_bytes
retained_bytes s = s.live_bytes + ready_bytes s s.pending

-- The test on which the producer waits.
unfoldable pub produce_waits : Scheduler → Environment → Bool
unfolding retained_bytes read_ahead_limit
produce_waits s env =
    not s.closed
    && (leb s.config.max_outstanding (length s.pending + length s.live)
        || leb (read_ahead_limit s env) (retained_bytes s))

-- The section after `Acquire` failed.
unfoldable pub acquire_failed : Scheduler → ℕ → Scheduler
acquire_failed s e = if s.closed then s else record s { source_error = some e; eof = true }

-- The last offset of the ready set ends the stream so far.
unfoldable pub ends_with : Scheduler → List ℕ → Option ℕ
ends_with s [] = none
ends_with s (k ∷ []) = if k + size s k == s.next_offset then some k else none
ends_with s (k ∷ j ∷ ks) = ends_with s (j ∷ ks)

-- `markEOFLocked`
unfoldable pub mark_eof : Scheduler → Scheduler
unfolding ends_with
mark_eof s = elim (ends_with s s.pending) [
  | some k ↦ record s { eof = true; final = update s.final k true }
  | none ↦ record s {
    eof = true;
    payload = update s.payload s.next_offset [];
    final = update s.final s.next_offset true;
    urgent = update s.urgent s.next_offset false;
    reservation = update s.reservation s.next_offset 0;
    pending = s.pending ++ (s.next_offset ∷ []);
  }
]

-- A chunk of the bytes read, with the whole reservation.
unfoldable pub add_chunk : Scheduler → List ℕ → Scheduler
add_chunk s bytes = record s {
  payload = update s.payload s.next_offset bytes;
  final = update s.final s.next_offset false;
  urgent = update s.urgent s.next_offset false;
  reservation = update s.reservation s.next_offset s.config.chunk_size;
  pending = s.pending ++ (s.next_offset ∷ []);
  next_offset = s.next_offset + length bytes;
  stats = record s.stats { source_bytes = s.stats.source_bytes + length bytes };
}

-- What `Read` returned beside the bytes.
pub data ReadError : Type 0 where
  no_error end_of_file : ReadError
  failed : ℕ → ReadError

unfoldable pub after_read : Scheduler → ReadError → Scheduler
unfolding mark_eof signal_if_done
after_read s no_error = s
after_read s end_of_file = signal_if_done (mark_eof s)
after_read s (failed e) = signal_if_done (record s { source_error = some e; eof = true })

unfoldable pub and_after_read : Outcome → ReadError → Outcome
unfolding after_read
and_after_read (ran s) e = ran (after_read s e)
and_after_read panicked e = panicked

-- The section behind `Read`, which reports the bytes read and an error. `Release` of the budget
-- leaves the rest of the state alone, so it is the first step where no byte was read.
unfoldable pub produce_read : Scheduler → List ℕ → ReadError → Outcome
unfolding add_chunk and_after_read
produce_read s bytes e =
    let given_back = with_memory s (release s.memory s.config.chunk_size) in
    if s.closed
    then given_back
    else and_after_read (if is_empty bytes then given_back else ran (add_chunk s bytes)) e

-- The releases of `Close` over the chunks that were seen.
unfoldable pub release_chunks : Scheduler → List ℕ → Outcome
unfolding release_chunk
release_chunks s [] = ran s
release_chunks s (k ∷ ks) = elim (release_chunk s k) [
  | ran s' ↦ release_chunks s' ks
  | panicked ↦ panicked
]

unfoldable pub abandon : Outcome → Outcome
abandon (ran s) = ran (record s { pending = []; live = [] })
abandon panicked = panicked

-- `Close`. A chunk that is ready and outstanding at once is released once, since its reservation is
-- zero afterwards.
unfoldable pub close : Scheduler → Outcome
unfolding release_chunks abandon
close s =
    if s.closed
    then ran s
    else abandon (release_chunks (record s { closed = true }) (s.pending ++ keys s.live))
