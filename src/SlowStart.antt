-- ===== src/SlowStart.antt =====
-- congestion_meta1/hybrid_slow_start.go: leaving slow start when the round-trip times of a round
-- have risen. Times are nanoseconds.
pub mod Rounds
mod Tests
use sing_quic.Prelude.{
  ℕ, ◌+◌, ◌*◌, ◌/◌, ◌%◌, Bool, true, false, not, ◌&&◌, ◌||◌, ltb, leb, ◌==◌, if◌then◌else◌,
}

abbrev pub low_window : ℕ
low_window = 16

abbrev pub min_samples : ℕ
min_samples = 8

abbrev pub delay_min_threshold_us : ℕ
delay_min_threshold_us = 4000

abbrev pub delay_max_threshold_us : ℕ
delay_max_threshold_us = 16000

pub record HybridSlowStart : Type 0 where
  pub end_packet_number : ℕ
  pub last_sent_packet_number : ℕ
  pub started : Bool
  pub current_min_rtt : ℕ
  pub rtt_sample_count : ℕ
  pub hystart_found : Bool

-- `StartReceiveRound`
unfoldable pub start_receive_round : HybridSlowStart → ℕ → HybridSlowStart
start_receive_round s last_sent = record s {
  end_packet_number = last_sent;
  current_min_rtt = 0;
  rtt_sample_count = 0;
  started = true;
}

-- `IsEndOfRound`
unfoldable pub is_end_of_round : HybridSlowStart → ℕ → Bool
is_end_of_round s ack = ltb s.end_packet_number ack

-- `minRTT + minRTTincreaseThreshold`
unfoldable pub delay_limit : ℕ → ℕ
delay_limit min_rtt =
    let eighth = min_rtt / 1000 / 8 in
    let capped = if ltb eighth delay_max_threshold_us then eighth else delay_max_threshold_us in
    min_rtt + (if ltb capped delay_min_threshold_us then delay_min_threshold_us else capped) * 1000

-- A sample of a round in which no delay was found yet.
unfoldable pub sample : HybridSlowStart → ℕ → ℕ → HybridSlowStart
sample s latest_rtt min_rtt =
    let count = (s.rtt_sample_count + 1) % 4294967296 in
    let current =
      if leb count min_samples && (s.current_min_rtt == 0 || ltb latest_rtt s.current_min_rtt)
      then latest_rtt
      else s.current_min_rtt in
    record s {
      rtt_sample_count = count;
      current_min_rtt = current;
      hystart_found =
          if count == min_samples && ltb (delay_limit min_rtt) current
          then true
          else s.hystart_found;
    }

-- `ShouldExitSlowStart` in a round that has started.
unfoldable pub exit_in_round : HybridSlowStart → ℕ → ℕ → ℕ → Bool × HybridSlowStart
unfolding sample
exit_in_round s latest_rtt min_rtt congestion_window = if s.hystart_found then (true, s) else (
  leb low_window congestion_window && (sample s latest_rtt min_rtt).hystart_found,
  sample s latest_rtt min_rtt,
)

-- `ShouldExitSlowStart`
unfoldable pub should_exit_slow_start : HybridSlowStart → ℕ → ℕ → ℕ → Bool × HybridSlowStart
unfolding start_receive_round exit_in_round
should_exit_slow_start s latest_rtt min_rtt congestion_window =
    exit_in_round (if s.started then s else start_receive_round s s.last_sent_packet_number)
      latest_rtt min_rtt congestion_window

-- `OnPacketSent`
unfoldable pub on_packet_sent : HybridSlowStart → ℕ → HybridSlowStart
on_packet_sent s packet_number = record s { last_sent_packet_number = packet_number }

-- `OnPacketAcked`
unfoldable pub on_packet_acked : HybridSlowStart → ℕ → HybridSlowStart
unfolding is_end_of_round
on_packet_acked s acked_packet_number =
    if is_end_of_round s acked_packet_number then record s { started = false } else s

-- `Restart`
unfoldable pub restart : HybridSlowStart → HybridSlowStart
restart s = record s { started = false; hystart_found = false }
