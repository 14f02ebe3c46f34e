-- ===== src/RatePacer/Tests.antt =====
-- Rate-based pacing on concrete values (congestion_queqiao/pacer.go).
use sing_quic.Prelude.{◌≡◌, refl, arith, ◌≤◌, none, some}
use sing_quic.Pacer.{rounded_up}
use sing_quic.RatePacer.{
  Pacer, budget, new_pacer, new_tuic_pacer, sent_packet, set_burst_floor, set_max_datagram_size,
  time_until_send, max_burst_size, grown_budget,
}
use sing_quic.RatePacer.Waiting.{budget_waited}

-- A pacing delay of a millisecond and first datagrams of 1,280 bytes.
abbrev drained : Pacer
drained = record {
  budget_at_last_sent = 80;
  max_datagram_size = 1280;
  last_sent_time = 5000;
  burst_pacing_delay = 4000000;
  burst_floor = none;
}

sent : sent_packet (new_pacer 1000000 1280) 1000000 5000 12720 ≡ drained
unfolding new_pacer sent_packet max_burst_size
sent = refl

tuic : (new_tuic_pacer 1000000 1280).burst_pacing_delay ≡ 2000000
unfolding new_tuic_pacer
tuic = refl

floored : max_burst_size (set_burst_floor drained (some 355000)) 1000000 ≡ 355000
unfolding max_burst_size set_burst_floor
floored = refl

kept : set_max_datagram_size drained 0 ≡ drained
unfolding set_max_datagram_size
kept = refl

waits : time_until_send 1000000 1280 drained 1000000 ≡ 1205000
unfolding time_until_send rounded_up
waits = refl

ready : budget drained 1000000 1205000 ≡ 1280
unfolding budget max_burst_size grown_budget
ready = refl

reached : time_until_send 1000000 1280 drained 1000000 ≤ 1205000
unfolding time_until_send rounded_up
reached = omega arith

budget_waited_example : drained.max_datagram_size ≤ budget drained 1000000 1205000
budget_waited_example =
    budget_waited 1000000 1280 drained 1000000 1205000 (omega arith) (omega arith) (omega arith)
      (omega arith) reached
