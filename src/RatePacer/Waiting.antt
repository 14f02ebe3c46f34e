-- ===== src/RatePacer/Waiting.antt =====
-- Waiting as long as the pacer of the rate-based controllers asks (congestion_queqiao/pacer.go).
use sing_quic.Prelude.{
  ℕ, ◌+◌, ◌-◌, ◌*◌, ◌≤◌, ◌<◌, leb, arith, inl, inr, Bool-cases, leb→le, Option-cases,
}
use sing_quic.Pacer.{rounded_up}
use sing_quic.Pacer.Waiting.{rounded_up_lem, rounded_up_le}
use sing_quic.RatePacer.{
  Pacer, max_burst_size, min_byte_count, max_byte_count, max_duration, grown_budget, budget,
  time_until_send,
}
use native.Mathlib.Nat.{mul-le-mul_left}

-- A burst is never less than a datagram.
max_burst_size_le : (p : Pacer) (bps : ℕ) → p.max_datagram_size ≤ max_burst_size p bps
unfolding max_burst_size max_byte_count
max_burst_size_le p bps = elim (Option-cases p.burst_floor) [
  | inl e ↦ ground (arith, e)
  | inr (x, e) ↦ ground (arith, e)
]

grown_budget_le :
    (size last product max_burst : ℕ)
    → product < 9223372036854775808
    → size ≤ max_burst
    → 1000000000 * (size - last) ≤ product
    → size ≤ grown_budget last product max_burst
unfolding grown_budget min_byte_count
grown_budget_le size last product max_burst l m e = ground arith

-- Less than a second at a rate below 2 ^ 63 / 10 ^ 9 does not wrap.
product_bound : (bps ns : ℕ) → bps ≤ 9223372036 → ns < 1000000000 → bps * ns < 9223372036854775808
product_bound bps ns r l =
    let up = mul-le-mul_left {m = ns} {n = 1000000000} bps (omega (arith, l)) in omega (arith, up)

-- A budget that has grown over an interval long enough.
budget-reaches :
    (p : Pacer) (bps now : ℕ)
    → 0 < bps
    → bps ≤ 9223372036
    → p.last_sent_time < now
    → 1000000000 * (p.max_datagram_size - p.budget_at_last_sent) ≤ bps * (now - p.last_sent_time)
    → p.max_datagram_size ≤ budget p bps now
unfolding budget
budget-reaches p bps now b r l e =
    let m = max_burst_size_le p bps in
    elim (Bool-cases (leb 1000000000 (now - p.last_sent_time))) [
      | inl long ↦ ground (arith, long, m)
      | inr short ↦
          let grown =
            grown_budget_le p.max_datagram_size p.budget_at_last_sent
              (bps * (now - p.last_sent_time)) (max_burst_size p bps)
              (product_bound bps (now - p.last_sent_time) r (ground (arith, short))) m e in
          ground (arith, short, m, grown)
    ]

-- A budget that was enough is not lost by waiting.
budget-enough :
    (p : Pacer) (bps now : ℕ)
    → 0 < bps
    → bps ≤ 9223372036
    → p.max_datagram_size ≤ p.budget_at_last_sent
    → p.max_datagram_size ≤ budget p bps now
unfolding budget min_byte_count max_byte_count
budget-enough p bps now b r l =
    let m = max_burst_size_le p bps in
    elim (Bool-cases (leb now p.last_sent_time)) [
      | inl early ↦ ground (arith, early, m)
      | inr late ↦ budget-reaches p bps now b r (ground (arith, late)) (omega arith)
    ]

module _ (min_pacing_delay initial_packet_size : ℕ) where
  time_until_send_waits :
      (p : Pacer) (bps now : ℕ)
      → 0 < bps
      → p.max_datagram_size ≤ 8589934592
      → p.budget_at_last_sent < p.max_datagram_size
      → time_until_send min_pacing_delay initial_packet_size p bps ≤ now
      → (p.last_sent_time + min_pacing_delay ≤ now)
        × (p.last_sent_time
              + rounded_up (1000000000 * (p.max_datagram_size - p.budget_at_last_sent)) bps
            ≤ now)
  unfolding time_until_send max_duration
  time_until_send_waits p bps now b s l t =
      let small = rounded_up_le (1000000000 * (p.max_datagram_size - p.budget_at_last_sent)) bps in
      ground (arith, b, s, l, t, small)

  -- Where pacing delays are above zero, the rate is above zero and at most (2 ^ 63 - 1) / 10 ^ 9 bytes a
  -- second, and datagrams have up to 2 ^ 33 bytes, the budget suffices for a whole datagram at the
  -- moment that `timeUntilSend` names, and at every later one.
  pub budget_waited :
      (p : Pacer) (bps now : ℕ)
      → 0 < min_pacing_delay
      → 0 < bps
      → bps ≤ 9223372036
      → p.max_datagram_size ≤ 8589934592
      → time_until_send min_pacing_delay initial_packet_size p bps ≤ now
      → p.max_datagram_size ≤ budget p bps now
  budget_waited p bps now d b r s t =
      elim (Bool-cases (leb p.max_datagram_size p.budget_at_last_sent)) [
        | inl fits ↦ budget-enough p bps now b r (leb→le _ _ fits)
        | inr lacks ↦
            let (delay, wait) = time_until_send_waits p bps now b s (ground (arith, lacks)) t in
            let missing : ℕ = 1000000000 * (p.max_datagram_size - p.budget_at_last_sent) in
            let up = rounded_up_lem missing bps b in
            let grown =
              mul-le-mul_left {m = rounded_up missing bps} {n = now - p.last_sent_time} bps
                (omega (arith, wait)) in
            budget-reaches p bps now b r (omega (arith, delay, d)) (omega (arith, up, grown))
      ]
