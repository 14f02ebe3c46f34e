-- ===== src/Frame/Tests.antt =====
-- A data frame in memory, on a stream, and through a writer that takes one byte at a time
-- (queqiao/internal/protocol/frame.go).
use sing_quic.Prelude.{
  ℕ, ◌≤◌, ◌≡◌, refl, sym, List, [], ◌∷◌, ◌++◌, length, take, replicate, Option, none, some, arith,
  ok, err, put_u16, put_u32, put_u64, get_be, append-nil,
}
use sing_quic.Frame.{
  Header, Frame, FrameError, header_bytes, encode, decode_header, append_frame, parse_frame,
  read_frame, read_full, validate, raw_header, fields_valid, flags_valid, kind_valid,
  reserve_control_flag_valid, ack_ranges_flag_valid, payload_mismatch, eof, bad_flags,
  invalid_header, short_buffer,
}
use sing_quic.Frame.RoundTrip.{IsHeader}
use sing_quic.Frame.Canonical.{encode-decode_header}
use sing_quic.Frame.Stream.{append_all, Reads, Reads-append_all}
use sing_quic.Frame.Writing.{
  Writer, write_loop, write_full, write_frame, Wrote, write_full-Wrote, read_frame-write_frame,
}

abbrev header : Header
header = record {
  version = 1;
  kind = 4;
  flags = 1;
  session_id = replicate 16 7;
  flow_id = 3;
  sequence = 258;
  payload_len = 2;
  class = 1;
}

abbrev frame : Frame
frame = record { header = header; payload = 8 ∷ 9 ∷ [] }

abbrev header_wire : List ℕ
header_wire =
    87 ∷ 79 ∷ 1 ∷ 4 ∷ 0 ∷ 1 ∷ 7 ∷ 7 ∷ 7 ∷ 7 ∷ 7 ∷ 7 ∷ 7 ∷ 7 ∷ 7 ∷ 7 ∷ 7 ∷ 7 ∷ 7 ∷ 7 ∷ 7 ∷ 7 ∷ 0 ∷ 0
    ∷ 0 ∷ 0 ∷ 0 ∷ 0 ∷ 0 ∷ 3 ∷ 0 ∷ 0 ∷ 0 ∷ 0 ∷ 0 ∷ 0 ∷ 1 ∷ 2 ∷ 0 ∷ 0 ∷ 0 ∷ 2 ∷ 1 ∷ 0 ∷ 0 ∷ 0 ∷ []

abbrev frame_wire : List ℕ
frame_wire = header_wire ++ (8 ∷ 9 ∷ [])

header-IsHeader : IsHeader header
header-IsHeader = omega arith

encode_header : encode header (replicate 47 5) ≡ ok (header_wire ++ (5 ∷ []))
unfolding encode header_bytes put_u64 put_u32 put_u16 fields_valid flags_valid kind_valid
    reserve_control_flag_valid ack_ranges_flag_valid
encode_header = refl

encode_errors :
    (encode header (replicate 45 0) ≡ err short_buffer)
    × (encode (record header { kind = 12 }) (replicate 46 0) ≡ err invalid_header)
    × (validate (record header { flags = 32 }) ≡ err bad_flags)
unfolding encode validate fields_valid flags_valid kind_valid reserve_control_flag_valid
    ack_ranges_flag_valid
encode_errors = (refl, refl, refl)

decode_wire : decode_header frame_wire ≡ ok header
unfolding decode_header raw_header validate get_be fields_valid flags_valid kind_valid
    reserve_control_flag_valid ack_ranges_flag_valid
decode_wire = refl

append_frames : append_all [] (frame ∷ frame ∷ []) ≡ ok (frame_wire ++ frame_wire)
unfolding append_all append_frame encode header_bytes put_u64 put_u32 put_u16 fields_valid
    flags_valid kind_valid reserve_control_flag_valid ack_ranges_flag_valid
append_frames = refl

append_one : append_frame (1 ∷ []) frame ≡ ok (1 ∷ frame_wire)
unfolding append_frame encode header_bytes put_u64 put_u32 put_u16 fields_valid flags_valid
    kind_valid reserve_control_flag_valid ack_ranges_flag_valid
append_one = refl

-- A byte is missing, or there is none.
parse_short : parse_frame (header_wire ++ (8 ∷ [])) ≡ err payload_mismatch
unfolding parse_frame decode_header raw_header validate get_be fields_valid flags_valid kind_valid
    reserve_control_flag_valid ack_ranges_flag_valid
parse_short = refl

read_nothing : read_frame [] ≡ err eof
unfolding read_frame read_full
read_nothing = refl

abbrev write_byte : List ℕ → List ℕ → ℕ × Option FrameError × List ℕ
write_byte w [] = (0, none, w)
write_byte w (b ∷ bs) = (1, none, w ++ (b ∷ []))

write_byte-le : (w p : List ℕ) → (write_byte w p).0 ≤ length p
write_byte-le w [] = omega arith
write_byte-le w (b ∷ bs) = omega arith

taken-write_byte : (w p : List ℕ) → (write_byte w p).2 ≡ w ++ take (write_byte w p).0 p
taken-write_byte w [] = sym (append-nil w)
taken-write_byte w (b ∷ bs) = refl

abbrev byte_writer : Writer
byte_writer = record {
  W = List ℕ;
  write = write_byte;
  taken = λ w. w;
  write-le = write_byte-le;
  taken-write = taken-write_byte;
}

write_one : write_frame byte_writer (1 ∷ []) frame ≡ some (none, 1 ∷ frame_wire)
unfolding write_frame write_full write_loop append_frame encode header_bytes put_u64 put_u32 put_u16
    fields_valid flags_valid kind_valid reserve_control_flag_valid ack_ranges_flag_valid
write_one = refl

encode-decode_header_example : encode header frame_wire ≡ ok frame_wire
encode-decode_header_example = encode-decode_header frame_wire header (omega arith) decode_wire

Reads-append_all_example :
    Reads (frame ∷ frame ∷ []) ((frame_wire ++ frame_wire) ++ (6 ∷ [])) (6 ∷ [])
Reads-append_all_example =
    Reads-append_all (frame ∷ frame ∷ []) (frame_wire ++ frame_wire) (6 ∷ [])
      (header-IsHeader, (header-IsHeader, tt)) append_frames

write_full-Wrote_example :
    Wrote byte_writer (1 ∷ []) (4 ∷ 5 ∷ []) (write_full byte_writer (1 ∷ []) (4 ∷ 5 ∷ []))
write_full-Wrote_example = write_full-Wrote byte_writer (1 ∷ []) (4 ∷ 5 ∷ [])

read_frame-write_frame_example :
    (buf : List ℕ) × (1 ∷ frame_wire ≡ 1 ∷ buf)
    × (read_frame (buf ++ (6 ∷ [])) ≡ ok (frame, 6 ∷ []))
read_frame-write_frame_example =
    read_frame-write_frame byte_writer (1 ∷ []) (1 ∷ frame_wire) frame (6 ∷ []) header-IsHeader
      write_one
