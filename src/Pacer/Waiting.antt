-- ===== src/Pacer/Waiting.antt =====
-- Waiting as long as the pacer asks (congestion_meta1/pacer.go).
use sing_quic.Prelude.{ℕ, ◌+◌, ◌-◌, ◌*◌, ◌≤◌, ◌<◌, leb, arith, inl, inr, Bool-cases, leb→le}
use sing_quic.Pacer.{
  Pacer, time_scaled_bandwidth, max_burst_size, grown_budget, budget, rounded_up, pacing_delay,
  time_until_send,
}
use native.Mathlib.Nat.{div-add-mod, mod-lt, mul-le-mul_left, div-le_self}

-- Rounding up loses nothing.
pub rounded_up_lem : (diff bw : ℕ) → 0 < bw → diff ≤ bw * rounded_up diff bw
unfolding rounded_up
rounded_up_lem diff bw b =
    let e = div-add-mod diff bw in let l = mod-lt diff b in grind (arith, e, l)

pub rounded_up_le : (diff bw : ℕ) → rounded_up diff bw ≤ diff + 1
unfolding rounded_up
rounded_up_le diff bw = let l = div-le_self diff bw in ground (arith, l)

pacing_delay_le : (d : ℕ) → d < 9223372036854775808 → d ≤ pacing_delay d
unfolding pacing_delay
pacing_delay_le d l = ground (arith, l)

pacing_delay_pos : (d : ℕ) → 0 < pacing_delay d
unfolding pacing_delay
pacing_delay_pos d = ground arith

-- A delay of the length that was computed brings in what was missing, or a whole burst.
time_scaled_bandwidth_reaches :
    (p : Pacer) (bw ns missing : ℕ)
    → 0 < bw
    → missing ≤ p.max_datagram_size
    → 1000000000 * missing ≤ bw * ns
    → missing ≤ time_scaled_bandwidth p bw ns
unfolding time_scaled_bandwidth
time_scaled_bandwidth_reaches p bw ns missing b m e = ground arith

-- A budget that reaches the size of a datagram with what is added since the last sending.
budget-reaches :
    (p : Pacer) (bw now : ℕ)
    → p.max_datagram_size ≤ 8589934592
    → p.last_sent_time < now
    → p.max_datagram_size - p.budget_at_last_sent
      ≤ time_scaled_bandwidth p bw (now - p.last_sent_time)
    → p.max_datagram_size ≤ budget p bw now
unfolding budget grown_budget max_burst_size
budget-reaches p bw now m l e = ground arith

budget-enough :
    (p : Pacer) (bw now : ℕ)
    → p.max_datagram_size ≤ 8589934592
    → p.max_datagram_size ≤ p.budget_at_last_sent
    → p.max_datagram_size ≤ budget p bw now
unfolding budget grown_budget max_burst_size
budget-enough p bw now m l = ground arith

-- The moment that `TimeUntilSend` names while a datagram does not fit the budget.
time_until_send_waits :
    (p : Pacer) (bw now : ℕ)
    → 0 < bw
    → p.max_datagram_size ≤ 8589934592
    → p.budget_at_last_sent < p.max_datagram_size
    → time_until_send p bw ≤ now
    → p.last_sent_time
        + pacing_delay (rounded_up (1000000000 * (p.max_datagram_size - p.budget_at_last_sent)) bw)
      ≤ now
unfolding time_until_send
time_until_send_waits p bw now b m l t = ground (arith, b, m, l, t)

-- Then the delay brings in what the budget lacks.
reaches-time_until_send :
    (p : Pacer) (bw now : ℕ)
    → 0 < bw
    → p.max_datagram_size ≤ 8589934592
    → p.budget_at_last_sent < p.max_datagram_size
    → time_until_send p bw ≤ now
    → p.max_datagram_size ≤ budget p bw now
reaches-time_until_send p bw now b m l t =
    let missing : ℕ = p.max_datagram_size - p.budget_at_last_sent in
    let d = rounded_up (1000000000 * missing) bw in
    let w = time_until_send_waits p bw now b m l t in
    let pos = pacing_delay_pos d in
    let small = rounded_up_le (1000000000 * missing) bw in
    let le = pacing_delay_le d (omega (arith, small, m)) in
    let up = rounded_up_lem (1000000000 * missing) bw b in
    let grown = mul-le-mul_left {m = d} {n = now - p.last_sent_time} bw (omega (arith, w, le)) in
    budget-reaches p bw now m (omega (arith, w, pos)) (
      time_scaled_bandwidth_reaches p bw (now - p.last_sent_time) missing b (omega arith)
        (omega (arith, up, grown)))

-- A pacer with a bandwidth above zero and datagrams of up to 2 ^ 33 bytes has the budget for a
-- whole datagram at the moment that `TimeUntilSend` names, and at every later one.
pub budget-time_until_send :
    (p : Pacer) (bw now : ℕ)
    → 0 < bw
    → p.max_datagram_size ≤ 8589934592
    → time_until_send p bw ≤ now
    → p.max_datagram_size ≤ budget p bw now
budget-time_until_send p bw now b m t =
    elim (Bool-cases (leb p.max_datagram_size p.budget_at_last_sent)) [
      | inl fits ↦ budget-enough p bw now m (leb→le _ _ fits)
      | inr lacks ↦ reaches-time_until_send p bw now b m (ground (arith, lacks)) t
    ]
