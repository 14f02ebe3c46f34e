-- ===== src/Frame.antt =====
-- queqiao/internal/protocol/frame.go: the 46-byte frame header, and frames in memory and on a
-- stream. A byte slice is a list of numbers. The list of acknowledged ranges is in AckRanges.
pub mod RoundTrip
pub mod Canonical
pub mod Stream
pub mod Writing
mod Tests
use sing_quic.Prelude.{
  ℕ, zero, suc, ◌+◌, ◌-◌, Bool, true, false, ◌&&◌, ◌||◌, not, Option, none, some, List, [], ◌∷◌,
  ◌++◌, ltb, leb, ◌==◌, if◌then◌else◌, bit_and, length, get_or, take, drop, replicate, put_u16,
  put_u32, put_u64, get_be, Result, ok, err, ◌>>=◌, wrap,
}

abbrev pub version : ℕ
version = 1

abbrev pub header_size : ℕ
header_size = 46

abbrev pub max_payload : ℕ
max_payload = 131072

abbrev pub flag_reserve_control : ℕ
flag_reserve_control = 32

abbrev pub flag_ack_ranges : ℕ
flag_ack_ranges = 128

-- The complement in 16 bits of the seven known flags, 0xbf.
abbrev pub unknown_flags : ℕ
unknown_flags = 0xff40

abbrev pub type_open : ℕ
type_open = 1

abbrev pub type_join : ℕ
type_join = 3

abbrev pub type_ack : ℕ
type_ack = 5

abbrev pub type_auth_ok : ℕ
type_auth_ok = 11

abbrev pub class_bulk : ℕ
class_bulk = 2

-- The errors of the file, and those of package io that it returns.
pub data FrameError : Type 0 where
  short_buffer eof unexpected_eof short_write : FrameError
  invalid_magic invalid_header bad_flags payload_limit reserved_bits payload_mismatch : FrameError
  unsupported_version : ℕ → FrameError
  unsupported_header : FrameError → FrameError

pub record Header : Type 0 where
  pub version : ℕ
  pub kind : ℕ
  pub flags : ℕ
  pub session_id : List ℕ
  pub flow_id : ℕ
  pub sequence : ℕ
  pub payload_len : ℕ
  pub class : ℕ

pub record Frame : Type 0 where
  pub header : Header
  pub payload : List ℕ

-- `Type.valid`
unfoldable pub kind_valid : ℕ → Bool
kind_valid t = leb type_open t && leb t type_auth_ok

unfoldable pub reserve_control_flag_valid : ℕ → ℕ → Bool
reserve_control_flag_valid t flags =
    bit_and flags flag_reserve_control == 0 || t == type_open || t == type_join

unfoldable pub ack_ranges_flag_valid : ℕ → ℕ → Bool
ack_ranges_flag_valid t flags = bit_and flags flag_ack_ranges == 0 || t == type_ack

-- The order of the fields on the wire.
unfoldable pub header_bytes : Header → List ℕ
header_bytes h =
    b'W'
    ∷ b'O'
    ∷ h.version
    ∷ h.kind
    ∷ (put_u16 h.flags
        ++ (h.session_id
            ++ (put_u64 h.flow_id
                ++ (put_u64 h.sequence ++ (put_u32 h.payload_len ++ (h.class ∷ 0 ∷ 0 ∷ 0 ∷ []))))))

-- The two tests that `Encode` joins and `Validate` keeps apart.
unfoldable pub fields_valid : Header → Bool
unfolding kind_valid
fields_valid h = h.version == version && (kind_valid h.kind && leb h.class class_bulk)

unfoldable pub flags_valid : Header → Bool
unfolding reserve_control_flag_valid ack_ranges_flag_valid
flags_valid h =
    bit_and h.flags unknown_flags == 0
    && (reserve_control_flag_valid h.kind h.flags && ack_ranges_flag_valid h.kind h.flags)

-- `Header.Encode`: the buffer with its first 46 bytes written.
unfoldable pub encode : Header → List ℕ → Result FrameError (List ℕ)
encode h dst =
    if ltb (length dst) header_size
    then err short_buffer
    else if not (fields_valid h && flags_valid h)
    then err invalid_header
    else if ltb max_payload h.payload_len
    then err payload_limit
    else ok (header_bytes h ++ drop header_size dst)

-- `Header.Validate`
unfoldable pub validate : Header → Result FrameError (Unit {0})
validate h =
    if not (fields_valid h)
    then err invalid_header
    else if not (flags_valid h)
    then err bad_flags
    else if ltb max_payload h.payload_len
    then err payload_limit
    else ok tt

-- `src[lo:hi]`
abbrev pub slice : ℕ → ℕ → List ℕ → List ℕ
slice lo hi src = take (hi - lo) (drop lo src)

-- The header that stands in `src`, before it is checked.
unfoldable pub raw_header : List ℕ → Header
raw_header src = record {
  version = get_or src 2 0;
  kind = get_or src 3 0;
  flags = get_be (slice 4 6 src);
  session_id = slice 6 22 src;
  flow_id = get_be (slice 22 30 src);
  sequence = get_be (slice 30 38 src);
  payload_len = get_be (slice 38 42 src);
  class = get_or src 42 0;
}

unfoldable pub decode_header : List ℕ → Result FrameError Header
decode_header src =
    if ltb (length src) header_size
    then err unexpected_eof
    else if not (get_or src 0 0 == b'W' && get_or src 1 0 == b'O')
    then err invalid_magic
    else if not (get_or src 2 0 == version)
    then err (unsupported_version (get_or src 2 0))
    else (wrap unsupported_header (validate (raw_header src)) >>= λ _.
        if get_or src 43 0 == 0 && (get_or src 44 0 == 0 && get_or src 45 0 == 0)
        then ok (raw_header src)
        else err reserved_bits)

-- `ParseFrame`: one frame that sits whole in memory.
unfoldable pub parse_frame : List ℕ → Result FrameError Frame
parse_frame b =
    if ltb (length b) header_size
    then err unexpected_eof
    else (decode_header (take header_size b) >>= λ h.
        if length (drop header_size b) == h.payload_len
        then ok (record { header = h; payload = drop header_size b })
        else err payload_mismatch)

-- `AppendFrame`: the extended slice, or the error with the slice as it was.
unfoldable pub append_frame : List ℕ → Frame → Result FrameError (List ℕ)
append_frame dst f =
    if ltb max_payload (length f.payload)
    then err payload_limit
    else (encode (record f.header { payload_len = length f.payload }) (replicate header_size 0)
        >>= λ head. ok (dst ++ (head ++ f.payload)))

-- `io.ReadFull` on a stream that ends behind the bytes at hand: what it read, and what is left.
unfoldable pub read_full : ℕ → List ℕ → Result FrameError (List ℕ × List ℕ)
read_full n src =
    if leb n (length src)
    then ok (take n src, drop n src)
    else if length src == 0
    then err eof
    else err unexpected_eof

-- `ReadFrame`: the frame, and what the stream still holds.
unfoldable pub read_frame : List ℕ → Result FrameError (Frame × List ℕ)
unfolding read_full
read_frame src = do
  (raw, rest) ← read_full header_size src
  h ← decode_header raw
  (payload, rest') ← read_full h.payload_len rest
  ok (record { header = h; payload = payload }, rest')
