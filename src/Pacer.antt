-- ===== src/Pacer.antt =====
-- congestion_meta1/pacer.go: a token bucket that paces the packets sent. Byte counts, nanoseconds
-- and moments are natural numbers; ten datagrams and the sum of a moment and a delay do not wrap.
-- The bandwidth that `getAdjustedBandwidth` would return is an argument.
pub mod Waiting
mod Tests
use sing_quic.Prelude.{ℕ, ◌+◌, ◌-◌, ◌*◌, ◌/◌, ◌%◌, min, max, Bool, ltb, leb, ◌==◌, if◌then◌else◌}

-- `MinPacingDelay` and `TimerGranularity`, a millisecond each.
abbrev pub min_pacing_delay : ℕ
min_pacing_delay = 1000000

abbrev pub timer_granularity : ℕ
timer_granularity = 1000000

abbrev pub max_burst_size_packets : ℕ
max_burst_size_packets = 10

-- `MaxByteCount`, 2 ^ 62 - 1.
abbrev pub max_byte_count : ℕ
max_byte_count = 4611686018427387903

pub record Pacer : Type 0 where
  pub budget_at_last_sent : ℕ
  pub max_datagram_size : ℕ
  pub last_sent_time : ℕ

-- The closure that `newPacer` makes of `getBandwidth`: from bits to bytes, and a quarter more.
unfoldable pub adjusted_bandwidth : ℕ → ℕ
adjusted_bandwidth bandwidth = ((bandwidth / 8) * 5 % 18446744073709551616) / 4

unfoldable pub time_scaled_bandwidth : Pacer → ℕ → ℕ → ℕ
time_scaled_bandwidth p bw ns =
    if bw == 0
    then 0
    else if ltb (18446744073709551615 / bw) ns
    then max_burst_size_packets * p.max_datagram_size
    else bw * ns / 1000000000

unfoldable pub max_burst_size : Pacer → ℕ → ℕ
unfolding time_scaled_bandwidth
max_burst_size p bw =
    max (time_scaled_bandwidth p bw (min_pacing_delay + timer_granularity))
      (max_burst_size_packets * p.max_datagram_size)

-- `newPacer`, with the bandwidth that its closure would return.
unfoldable pub new_pacer : ℕ → ℕ → Pacer
unfolding max_burst_size
new_pacer initial_max_datagram_size bw =
    let p : Pacer = record {
      budget_at_last_sent = 0;
      max_datagram_size = initial_max_datagram_size;
      last_sent_time = 0;
    } in
    record p { budget_at_last_sent = max_burst_size p bw }

-- `budget := p.budgetAtLastSent + added`, an int64: a sum that wraps is negative, and thereby less
-- than the budget it was added to.
unfoldable pub grown_budget : ℕ → ℕ → ℕ
grown_budget budget added =
    if leb 9223372036854775808 (budget + added) then max_byte_count else budget + added

-- `Budget`; a moment before the last sending adds nothing.
unfoldable pub budget : Pacer → ℕ → ℕ → ℕ
unfolding max_burst_size time_scaled_bandwidth grown_budget
budget p bw now =
    if p.last_sent_time == 0
    then max_burst_size p bw
    else let added =
        if ltb p.last_sent_time now
        then time_scaled_bandwidth p bw (now - p.last_sent_time)
        else 0 in
      min (max_burst_size p bw) (grown_budget p.budget_at_last_sent added)

-- `SentPacket`
unfoldable pub sent_packet : Pacer → ℕ → ℕ → ℕ → Pacer
unfolding budget
sent_packet p bw send_time size =
    let available = budget p bw send_time in
    record p {
      budget_at_last_sent = if ltb available size then 0 else available - size;
      last_sent_time = send_time;
    }

-- The quotient of `diff` and `bw` rounded up.
unfoldable pub rounded_up : ℕ → ℕ → ℕ
rounded_up diff bw = if ltb 0 (diff % bw) then diff / bw + 1 else diff / bw

-- `Max(MinPacingDelay, time.Duration(d))`: a duration is an int64, and a `d` beyond it is negative.
unfoldable pub pacing_delay : ℕ → ℕ
pacing_delay d = if leb 9223372036854775808 d then min_pacing_delay else max min_pacing_delay d

-- `TimeUntilSend`
unfoldable pub time_until_send : Pacer → ℕ → ℕ
unfolding rounded_up pacing_delay
time_until_send p bw =
    if leb p.max_datagram_size p.budget_at_last_sent
    then 0
    else if bw == 0
    then p.last_sent_time + min_pacing_delay
    else let diff =
        1000000000 * (p.max_datagram_size - p.budget_at_last_sent) % 18446744073709551616 in
      p.last_sent_time + pacing_delay (rounded_up diff bw)

-- `SetMaxDatagramSize`
unfoldable pub set_max_datagram_size : Pacer → ℕ → Pacer
set_max_datagram_size p s = record p { max_datagram_size = s }
