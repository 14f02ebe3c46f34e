-- ===== src/SlowStart/Tests.antt =====
-- A round of eight samples (congestion_meta1/hybrid_slow_start.go).
use sing_quic.Prelude.{ℕ, ◌≡◌, refl, false, true, ◌&&◌, List, ◌∷◌, replicate, length, leb, arith}
use sing_quic.SlowStart.{
  HybridSlowStart, start_receive_round, should_exit_slow_start, exit_in_round, sample, delay_limit,
  on_packet_acked, is_end_of_round,
}
use sing_quic.SlowStart.Rounds.{observe, all_above, observe-start_receive_round}

abbrev fresh : HybridSlowStart
fresh = record {
  end_packet_number = 0;
  last_sent_packet_number = 9;
  started = false;
  current_min_rtt = 0;
  rtt_sample_count = 0;
  hystart_found = false;
}

-- Forty milliseconds before the round, and sixty in it.
abbrev slow : List ℕ
slow = replicate 8 60000000

abbrev seven : HybridSlowStart
seven = record fresh { started = true; current_min_rtt = 60000000; rtt_sample_count = 7 }

limits :
    (delay_limit 40000000 ≡ 45000000)
    × (delay_limit 1000000 ≡ 5000000)
    × (delay_limit 400000000 ≡ 416000000)
unfolding delay_limit
limits = (refl, refl, refl)

observe-slow : (observe fresh slow 40000000 20).hystart_found ≡ true
unfolding observe should_exit_slow_start exit_in_round sample start_receive_round delay_limit
observe-slow = refl

observe_one_fast : (observe fresh (45000000 ∷ slow) 40000000 20).hystart_found ≡ false
unfolding observe should_exit_slow_start exit_in_round sample start_receive_round delay_limit
observe_one_fast = refl

acked : (on_packet_acked seven 1).started ≡ false
unfolding on_packet_acked is_end_of_round
acked = refl

observe-start_receive_round_example :
    (observe (start_receive_round fresh 9) slow 40000000 20).hystart_found
    ≡ (leb 8 (length slow) && all_above 8 (delay_limit 40000000) slow)
observe-start_receive_round_example =
    observe-start_receive_round 40000000 20 slow fresh 9 refl (omega arith) (omega arith)
