-- ===== src/AckRanges.antt =====
-- queqiao/internal/protocol/frame.go, `EncodeAckRanges` and `DecodeAckRanges`: the byte ranges that
-- an acknowledgement carries. A range is the pair of its start and its end.
pub mod RoundTrip
mod Tests
use sing_quic.Prelude.{
  ℕ, zero, suc, ◌≤◌, ◌<◌, ◌⊎◌, ◌+◌, ◌-◌, ◌*◌, ◌/◌, ◌%◌, List, [], ◌∷◌, ◌++◌, ltb, leb, ◌==◌,
  if◌then◌else◌, not, length, take, drop, put_u64, get_be, Result, ok, err, ◌>>=◌,
}

abbrev pub Range : Type 0
Range = ℕ × ℕ

-- The offset lies in one of the ranges.
abbrev pub InRanges : List Range → ℕ → Type 0
InRanges [] x = ⊥
InRanges ((a, b) ∷ rs) x = ((a ≤ x) × (x < b)) ⊎ InRanges rs x

abbrev pub max_ack_ranges : ℕ
max_ack_ranges = 16

abbrev pub ack_range_size : ℕ
ack_range_size = 16

pub data RangeError : Type 0 where
  too_many inverted misaligned unordered : RangeError

-- The loop of `EncodeAckRanges`, on the ranges that are left.
unfoldable pub encode_loop : List Range → List ℕ → Result RangeError (List ℕ)
encode_loop [] payload = ok payload
encode_loop ((start, end) ∷ rs) payload =
    let rest = encode_loop rs ((payload ++ put_u64 start) ++ put_u64 end) in
    if leb end start then err inverted else rest

unfoldable pub encode_ack_ranges : List Range → Result RangeError (List ℕ)
encode_ack_ranges ranges =
    if ltb max_ack_ranges (length ranges) then err too_many else encode_loop ranges []

-- The loop of `DecodeAckRanges`: the rounds that are left, and the payload from here on.
unfoldable pub decode_loop : ℕ → List ℕ → ℕ → List Range → Result RangeError (List Range)
decode_loop zero payload previous_end ranges = ok ranges
decode_loop (suc count) payload previous_end ranges =
    let start = get_be (take 8 payload) in
    let end = get_be (take 8 (drop 8 payload)) in
    let rest =
      decode_loop count (drop ack_range_size payload) end (ranges ++ ((start, end) ∷ [])) in
    if leb end start then err inverted else if ltb start previous_end then err unordered else rest

unfoldable pub decode_ack_ranges : List ℕ → ℕ → Result RangeError (List Range)
decode_ack_ranges payload cumulative =
    if not (length payload % ack_range_size == 0)
    then err misaligned
    else if ltb max_ack_ranges (length payload / ack_range_size)
    then err too_many
    else decode_loop (length payload / ack_range_size) payload cumulative []
