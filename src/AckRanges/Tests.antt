-- ===== src/AckRanges/Tests.antt =====
-- Two ranges on the wire (queqiao/internal/protocol/frame.go, `EncodeAckRanges`).
use sing_quic.Prelude.{
  ℕ, ◌≤◌, ◌≡◌, refl, List, [], ◌∷◌, length, arith, ok, err, put_u64, put_u32, get_be,
}
use sing_quic.AckRanges.{
  Range, encode_ack_ranges, encode_loop, decode_ack_ranges, decode_loop, inverted, unordered,
  misaligned,
}
use sing_quic.AckRanges.RoundTrip.{
  IsRanges, decode_ack_ranges-encode_ack_ranges, decode_ack_ranges-IsRanges,
}

abbrev two : List Range
two = (2, 5) ∷ (258, 259) ∷ []

abbrev payload : List ℕ
payload =
    0 ∷ 0 ∷ 0 ∷ 0 ∷ 0 ∷ 0 ∷ 0 ∷ 2 ∷ 0 ∷ 0 ∷ 0 ∷ 0 ∷ 0 ∷ 0 ∷ 0 ∷ 5 ∷ 0 ∷ 0 ∷ 0 ∷ 0 ∷ 0 ∷ 0 ∷ 1 ∷ 2
    ∷ 0 ∷ 0 ∷ 0 ∷ 0 ∷ 0 ∷ 0 ∷ 1 ∷ 3 ∷ []

encode_two : encode_ack_ranges two ≡ ok payload
unfolding encode_ack_ranges encode_loop put_u64 put_u32
encode_two = refl

decode_two : decode_ack_ranges payload 1 ≡ ok two
unfolding decode_ack_ranges decode_loop get_be
decode_two = refl

-- The first range starts below the cumulative point, is empty, or is not whole.
decode_errors :
    (decode_ack_ranges payload 3 ≡ err unordered)
    × (encode_ack_ranges ((4, 4) ∷ []) ≡ err inverted)
    × (decode_ack_ranges (1 ∷ []) 0 ≡ err misaligned)
unfolding decode_ack_ranges decode_loop get_be encode_ack_ranges encode_loop
decode_errors = (refl, refl, refl)

decode_ack_ranges-encode_ack_ranges_example :
    (p : List ℕ) × (encode_ack_ranges two ≡ ok p) × (decode_ack_ranges p 1 ≡ ok two)
decode_ack_ranges-encode_ack_ranges_example =
    decode_ack_ranges-encode_ack_ranges two 1 (omega arith) (omega arith)

decode_ack_ranges-IsRanges_example :
    IsRanges 1 two × (length two ≤ 16) × (encode_ack_ranges two ≡ ok payload)
decode_ack_ranges-IsRanges_example =
    decode_ack_ranges-IsRanges payload 1 two (omega arith) decode_two
