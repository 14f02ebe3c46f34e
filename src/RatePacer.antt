-- ===== src/RatePacer.antt =====
-- congestion_queqiao/pacer.go: the token bucket of the rate-based controllers. Byte counts,
-- nanoseconds and moments are natural numbers; ten datagrams and the sum of a moment and a delay do
-- not wrap. The rate that `getBandwidth` would return is an argument.
pub mod Waiting
mod Tests
use sing_quic.Prelude.{
  ℕ, ◌+◌, ◌-◌, ◌*◌, ◌/◌, ◌%◌, Option, none, some, ltb, leb, ◌==◌, if◌then◌else◌,
}
use sing_quic.Pacer.{rounded_up}

abbrev pub max_burst_packets : ℕ
max_burst_packets = 10

-- The value that `burstFloor` would return stands for the function.
pub record Pacer : Type 0 where
  pub budget_at_last_sent : ℕ
  pub max_datagram_size : ℕ
  pub last_sent_time : ℕ
  pub burst_pacing_delay : ℕ
  pub burst_floor : Option ℕ

-- `minByteCount` and `maxByteCount`
unfoldable pub min_byte_count : ℕ → ℕ → ℕ
min_byte_count a b = if ltb a b then a else b

unfoldable pub max_byte_count : ℕ → ℕ → ℕ
max_byte_count a b = if ltb b a then a else b

unfoldable pub max_duration : ℕ → ℕ → ℕ
max_duration a b = if ltb b a then a else b

-- `maxBurstSize`; a product that wraps to a negative number is less than ten datagrams.
unfoldable pub max_burst_size : Pacer → ℕ → ℕ
unfolding max_byte_count
max_burst_size p bps =
    let product = p.burst_pacing_delay * bps % 18446744073709551616 in
    let size =
      max_byte_count (if leb 9223372036854775808 product then 0 else product / 1000000000)
        (max_burst_packets * p.max_datagram_size) in
    elim p.burst_floor [ none ↦ size | some floor ↦ if ltb size floor then floor else size ]

-- `p.budgetAtLastSent + product/1e9`, an int64, or `max_burst` where it is negative.
unfoldable pub grown_budget : ℕ → ℕ → ℕ → ℕ
unfolding min_byte_count
grown_budget budget product max_burst =
    let wrapped = product % 18446744073709551616 in
    let lost = (18446744073709551616 - wrapped) / 1000000000 in
    if leb 9223372036854775808 wrapped
    then (if ltb budget lost then max_burst else min_byte_count max_burst (budget - lost))
    else if leb 9223372036854775808 (budget + wrapped / 1000000000)
    then max_burst
    else min_byte_count max_burst (budget + wrapped / 1000000000)

unfoldable pub budget : Pacer → ℕ → ℕ → ℕ
unfolding min_byte_count max_byte_count
budget p bps now =
    let max_burst = max_burst_size p bps in
    if bps == 0
    then 0
    else if p.last_sent_time == 0
    then max_burst
    else if leb now p.last_sent_time
    then min_byte_count max_burst (max_byte_count 0 p.budget_at_last_sent)
    else if leb 1000000000 (now - p.last_sent_time)
    then max_burst
    else grown_budget p.budget_at_last_sent (bps * (now - p.last_sent_time)) max_burst

unfoldable pub sent_packet : Pacer → ℕ → ℕ → ℕ → Pacer
unfolding budget
sent_packet p bps send_time size =
    let available = budget p bps send_time in
    record p {
      budget_at_last_sent = if ltb available size then 0 else available - size;
      last_sent_time = send_time;
    }

unfoldable pub set_burst_floor : Pacer → Option ℕ → Pacer
set_burst_floor p floor = record p { burst_floor = floor }

unfoldable pub set_max_datagram_size : Pacer → ℕ → Pacer
set_max_datagram_size p size = if ltb 0 size then record p { max_datagram_size = size } else p

-- The constants of the QUIC library.
module _ (min_pacing_delay initial_packet_size : ℕ) where
  abbrev pub default_burst_pacing_delay : ℕ
  default_burst_pacing_delay = 4 * min_pacing_delay

  abbrev pub tuic_burst_pacing_delay : ℕ
  tuic_burst_pacing_delay = min_pacing_delay + 1000000

  unfoldable pub new_pacer_with_burst_delay : ℕ → Pacer
  new_pacer_with_burst_delay delay = record {
    budget_at_last_sent = max_burst_packets * initial_packet_size;
    max_datagram_size = initial_packet_size;
    last_sent_time = 0;
    burst_pacing_delay = if delay == 0 then default_burst_pacing_delay else delay;
    burst_floor = none;
  }

  unfoldable pub new_pacer : Pacer
  unfolding new_pacer_with_burst_delay
  new_pacer = new_pacer_with_burst_delay default_burst_pacing_delay

  unfoldable pub new_tuic_pacer : Pacer
  unfolding new_pacer_with_burst_delay
  new_tuic_pacer = new_pacer_with_burst_delay tuic_burst_pacing_delay

  unfoldable pub time_until_send : Pacer → ℕ → ℕ
  unfolding max_duration
  time_until_send p bps =
      if leb p.max_datagram_size p.budget_at_last_sent
      then 0
      else if bps == 0
      then p.last_sent_time + 1000000000
      else let diff =
          1000000000 * (p.max_datagram_size - p.budget_at_last_sent) % 18446744073709551616 in
        let d = rounded_up diff bps in
        p.last_sent_time
        + max_duration min_pacing_delay (if leb 9223372036854775808 d then 0 else d)
