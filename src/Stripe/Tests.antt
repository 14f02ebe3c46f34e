-- ===== src/Stripe/Tests.antt =====
-- Two lanes on one stream (queqiao/internal/stripe/stripe.go): lane 1 is reliable, lane 2 is not.
use sing_quic.Prelude.{
  ◌≡◌, ◌≢◌, ◌⊎◌, ◌<◌, refl, Bool, true, false, none, some, List, [], ◌∷◌, ◌==◌, ◌&&◌, ℕ, arith,
}
use sing_quic.SeqMap.{lookup, put, delete, search, insert_order, remove_order}
use sing_quic.MemLimit.{Budget, acquire, release}
use sing_quic.Stripe.{
  Scheduler, Config, Environment, Windows, Chunk, Attempt, Outcome, ran, new, size,
}
use sing_quic.Stripe.Lanes.{lane_has_reliable_attempt}
use sing_quic.Stripe.Ready.{waits, next, issued, dispatch, pending_has, is_empty}
use sing_quic.Stripe.Finish.{complete, fail, wrote, retire_lane}
use sing_quic.Stripe.Reissue.{reissue_below, reissue_expired}
use sing_quic.Stripe.Produce.{
  add_chunk, mark_eof, produce_read, produce_waits, close, no_error, end_of_file,
}
use sing_quic.Stripe.Exact.{Exact}
use sing_quic.Stripe.Inv.Taken.{Taken, next-Taken}
use sing_quic.Stripe.Inv.Admitted.{InWindows, next_within}
use sing_quic.Stripe.Inv.Steps.{
  Flow, Reach, start, further, reserves, reads, hands_out, unlimited, within,
}
use sing_quic.Stripe.Inv.Reached.{fresh_flow, Reach-Exact, Reach-carried, Reach-ends}

abbrev config : Config
config = record {
  chunk_size = 4;
  lane_window = 2;
  max_outstanding = 8;
  max_outstanding_bytes = 100;
  reliable_reissue_burst = 0;
}

abbrev windows : Windows
windows = record { total = 10; outstanding = some (λ l held. 9); lane = λ l q. 8 }

abbrev env : Environment
env = record {
  now = 10;
  retransmit_after = 5;
  reliable = λ l. l == 1;
  retention = none;
  windows = some windows;
}

abbrev later : Environment
later = record env { now = 20 }

-- Three bytes read, and two more.
unfoldable one_read : Scheduler
unfolding new add_chunk
one_read = add_chunk (new config none) (7 ∷ 8 ∷ 9 ∷ [])

unfoldable two_read : Scheduler
unfolding one_read add_chunk
two_read = add_chunk one_read (5 ∷ 6 ∷ [])

-- The first chunk on lane 2, and the other one still ready.
unfoldable first_out : Scheduler
unfolding two_read dispatch
first_out = (dispatch two_read env 2 0 (3 ∷ [])).1

unfoldable first_chunk : Chunk
unfolding two_read dispatch
first_chunk = (dispatch two_read env 2 0 (3 ∷ [])).0

first_next : next two_read env false 2 6 ≡ issued first_chunk first_out
unfolding next first_chunk first_out two_read lookup put delete search insert_order remove_order
    lane_has_reliable_attempt
first_next = refl

-- Lane 2 wrote it, its deadline passed, and it is offered again in front of the other.
reissued :
    let s = (reissue_expired (wrote first_out 2 0 1) later (0 ∷ [])).0 in
    (s.pending ≡ 0 ∷ 3 ∷ []) × (s.load.total ≡ 0) × (s.urgent 0 ≡ true)
unfolding reissue_expired wrote first_out lookup put delete search insert_order remove_order
    lane_has_reliable_attempt
reissued = (refl, refl, refl)

-- A late failure of the attempt that was retired changes nothing.
late_failure :
    let s = (reissue_expired (wrote first_out 2 0 1) later (0 ∷ [])).0 in
    (fail s 2 0 1).stats.lane_failures ≡ 0
unfolding reissue_expired wrote first_out fail lookup put delete search insert_order remove_order
    lane_has_reliable_attempt
late_failure = refl

evidence : (reissue_below (wrote first_out 2 0 1, 0) 5 (0 ∷ [])).1 ≡ 1
unfolding reissue_below wrote first_out lookup put delete search insert_order remove_order
    lane_has_reliable_attempt
evidence = refl

died : (retire_lane first_out 2 (0 ∷ [])).pending ≡ 0 ∷ 3 ∷ []
unfolding retire_lane first_out lookup put delete search insert_order remove_order
    lane_has_reliable_attempt
died = refl

waits_at : produce_waits two_read (record env { retention = some 5 }) ≡ true
unfolding produce_waits two_read lookup put delete search insert_order remove_order
    lane_has_reliable_attempt
waits_at = refl

-- The last chunk is outstanding and offered again when the end of the source is noted: the mark
-- goes on the chunk that is ready, its first copy has none, and when that copy arrives nothing is
-- left to send.
unfoldable tail_offered : Scheduler
unfolding one_read dispatch wrote reissue_expired
tail_offered = (reissue_expired (wrote (dispatch one_read env 2 0 []).1 2 0 1) later (0 ∷ [])).0

abbrev is_over : Outcome → Bool
is_over (ran s) = s.finished && is_empty s.pending
is_over Outcome.panicked = false

marked_late :
    ((dispatch one_read env 2 0 []).0.final ≡ false)
    × ((mark_eof tail_offered).final 0 ≡ true)
    × (is_over (complete (mark_eof tail_offered) 2 0) ≡ true)
unfolding dispatch mark_eof tail_offered complete lookup put delete search insert_order remove_order
    lane_has_reliable_attempt release
marked_late = (refl, refl, refl)

-- A flow that reads twice and hands the first chunk to lane 2.
abbrev flow : Scheduler → Bool → Flow
flow s r = record { scheduler = s; reading = r }

reach_two : Reach (fresh_flow config none) (flow two_read false)
unfolding new produce_read one_read two_read lookup put delete search insert_order remove_order
    lane_has_reliable_attempt
reach_two =
    further
      (further
        (further (further start (reserves none refl refl unlimited))
          (reads (7 ∷ 8 ∷ 9 ∷ []) no_error one_read refl refl))
        (reserves none refl refl unlimited))
      (reads (5 ∷ 6 ∷ []) no_error two_read refl refl)

reach_out : Reach (fresh_flow config none) (flow first_out false)
reach_out = further reach_two (hands_out env false 2 6 first_chunk first_out first_next)

open_out : first_out.closed ≡ false
unfolding first_out
open_out = refl

held_out : 0 < first_out.load.total
unfolding first_out lookup put delete search insert_order remove_order lane_has_reliable_attempt
held_out = omega arith

reserved_out : 0 < first_out.reservation 0
unfolding first_out lookup put delete search insert_order remove_order lane_has_reliable_attempt
reserved_out = omega arith

Reach-Exact_example : Exact first_out.load (size first_out) first_out.live
Reach-Exact_example = Reach-Exact config none (flow first_out false) reach_out open_out

Reach-carried_example :
    (pending_has first_out.pending 0 ≡ true)
    ⊎ ((a : Attempt) × (rest : List Attempt) × (lookup 0 first_out.live ≡ some (a ∷ rest)))
Reach-carried_example = Reach-carried config none (flow first_out false) 0 reach_out reserved_out

-- A budget of three chunks, with `n` bytes in use.
abbrev pool : ℕ → Budget
pool n = record { capacity = 12; used = n; peak = n; waiters = 0 }

-- A flow on that budget that has read one chunk, handed it to lane 2, and reads the next one.
unfoldable pooled : ℕ → Scheduler
unfolding new add_chunk
pooled n = record (add_chunk (new config (some (pool 0))) (7 ∷ 8 ∷ 9 ∷ [])) {
  memory = some (pool n);
}

unfoldable pooled_out : ℕ → Scheduler
unfolding pooled dispatch
pooled_out n = (dispatch (pooled n) env 2 0 []).1

unfoldable pooled_chunk : Chunk
unfolding pooled dispatch
pooled_chunk = (dispatch (pooled 4) env 2 0 []).0

reach_pooled : Reach (fresh_flow config (some (pool 0))) (flow (pooled_out 8) true)
unfolding new produce_read add_chunk pooled pooled_out pooled_chunk next acquire lookup put delete
    search insert_order remove_order lane_has_reliable_attempt
reach_pooled =
    further
      (further
        (further
          (further start (reserves (some (pool 4)) refl refl (within (pool 0) (pool 4) refl)))
          (reads (7 ∷ 8 ∷ 9 ∷ []) no_error (pooled 4) refl refl))
        (hands_out env false 2 0 pooled_chunk (pooled_out 4) refl))
      (reserves (some (pool 8)) refl refl (within (pool 4) (pool 8) refl))

Reach-ends_example :
    (complete (pooled_out 8) 2 0 ≢ Outcome.panicked)
    × (close (pooled_out 8) ≢ Outcome.panicked)
    × (true ≡ true → produce_read (pooled_out 8) [] end_of_file ≢ Outcome.panicked)
Reach-ends_example =
    Reach-ends config (some (pool 0)) (flow (pooled_out 8) true) 2 0 [] end_of_file reach_pooled

next-Taken_example : Taken two_read env 2 6 (first_chunk, first_out)
next-Taken_example = next-Taken two_read env false 2 6 first_chunk first_out first_next

-- Lane 2, which has the first chunk queued, takes the other one too.
unfoldable both_out : Scheduler
unfolding first_out dispatch
both_out = (dispatch first_out env 2 3 []).1

unfoldable second_chunk : Chunk
unfolding first_out dispatch
second_chunk = (dispatch first_out env 2 3 []).0

second_next : next first_out env false 2 0 ≡ issued second_chunk both_out
unfolding next second_chunk both_out first_out lookup put delete search insert_order remove_order
    lane_has_reliable_attempt
second_next = refl

-- With windows that the second chunk does not fit, the lane waits.
abbrev narrow : Windows → Environment
narrow w = record env { windows = some w }

lane_waits :
    (next first_out (narrow (record windows { total = 4 })) false 2 0 ≡ waits)
    × (next first_out (narrow (record windows { outstanding = some (λ l held. 4) })) false 2 0
        ≡ waits)
    × (next first_out (narrow (record windows { lane = λ l q. 4 })) false 2 0 ≡ waits)
unfolding next first_out lookup put delete search insert_order remove_order
    lane_has_reliable_attempt
lane_waits = (refl, refl, refl)

calm_out : first_out.urgent second_chunk.offset ≡ false
unfolding first_out second_chunk lookup put delete search insert_order remove_order
    lane_has_reliable_attempt
calm_out = refl

next_within_example : InWindows windows 2 0 first_out.load both_out.load
next_within_example =
    next_within first_out env false 2 0 second_chunk both_out windows second_next refl held_out
      calm_out
