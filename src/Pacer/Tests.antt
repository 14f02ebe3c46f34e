-- ===== src/Pacer/Tests.antt =====
-- Pacing on concrete values (congestion_meta1/pacer.go).
use sing_quic.Prelude.{ℕ, ◌≡◌, refl, arith, ◌≤◌}
use sing_quic.Pacer.{
  Pacer, adjusted_bandwidth, budget, new_pacer, sent_packet, set_max_datagram_size, time_until_send,
}

-- Eight megabits a second, and a quarter more.
abbrev rate : ℕ
rate = 1250000

rate_lem : adjusted_bandwidth 8000000 ≡ rate
unfolding adjusted_bandwidth
rate_lem = refl

-- A datagram of 1,200 bytes that left 100 bytes of the budget.
abbrev drained : Pacer
drained = record { budget_at_last_sent = 100; max_datagram_size = 1200; last_sent_time = 5000 }

burst : (new_pacer 1200 rate).budget_at_last_sent ≡ 12000
unfolding new_pacer
burst = refl

sent : sent_packet (new_pacer 1200 rate) rate 5000 11900 ≡ drained
unfolding new_pacer sent_packet
sent = refl

waits : time_until_send drained rate ≡ 1005000
unfolding time_until_send
waits = refl

slow_waits : time_until_send drained 1100 ≡ 1000005000
unfolding time_until_send
slow_waits = refl

ready : budget drained rate 1005000 ≡ 1350
unfolding budget
ready = refl

larger : (set_max_datagram_size drained 1400).max_datagram_size ≡ 1400
unfolding set_max_datagram_size
larger = refl

reached : time_until_send drained 1100 ≤ 1000005000
unfolding time_until_send
reached = omega arith
