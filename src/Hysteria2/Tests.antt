-- ===== src/Hysteria2/Tests.antt =====
-- Runs of the codecs of Hysteria 2 with a reader of RFC 9000's integers, and the theorems at
-- concrete values.
use sing_quic.Prelude.{
  ℕ, ◌+◌, ◌-◌, ◌<◌, ◌≡◌, refl, Option, some, none, List, [], ◌∷◌, length, false, take, drop, ok,
  err, arith, leb, ltb, inl, put_u16, put_u32, put_u64, get_be, from_be, if◌then◌else◌,
}
use sing_quic.Fragments.{Message}
use sing_quic.Hysteria2.{
  IsVarint, varint_put, write_v_string, write_tcp_request, write_tcp_response, read_full, discard,
  read_text, skip_padding, read_tcp_request, read_tcp_response, read_v_string, cut_message,
  decode_udp_message, pack, header_size, address_length, padding_length, end_of_stream,
}
use sing_quic.Hysteria2.Requests.{read_tcp_request-write, read_tcp_response-write}
use sing_quic.Hysteria2.Datagrams.{IsMessage, IsSent, frag_udp_message-IsSent}

-- A first byte less its prefix, and `n` bytes behind it.
unfoldable several : ℕ → ℕ → List ℕ → Option (ℕ × List ℕ)
several n b rest =
    if leb n (length rest) then some (get_be (b ∷ take n rest), drop n rest) else none

unfoldable read : List ℕ → Option (ℕ × List ℕ)
read [] = none
read (b ∷ rest) =
    if ltb b 0x40
    then some (b, rest)
    else if ltb b 0x80
    then several 1 (b - 0x40) rest
    else if ltb b 0xc0
    then several 3 (b - 0x80) rest
    else several 7 (b - 0xc0) rest

read_prefixed :
    (b : ℕ) (rest : List ℕ)
    → b < 64
    → (read (b ∷ rest) ≡ some (b, rest))
      × (read ((b + 0x40) ∷ rest) ≡ several 1 b rest)
      × (read ((b + 0x80) ∷ rest) ≡ several 3 b rest)
      × (read ((b + 0xc0) ∷ rest) ≡ several 7 b rest)
unfolding read
read_prefixed b rest h =
    let e : b + 0x40 - 0x40 ≡ b = omega arith in
    let f : b + 0x80 - 0x80 ≡ b = omega arith in
    let g : b + 0xc0 - 0xc0 ≡ b = omega arith in
    (ground arith, rw e (ground arith), rw f (ground arith), rw g (ground arith))

unfoldable len : ℕ → ℕ
len v = if leb v 63 then 1 else if leb v 16383 then 2 else if leb v 1073741823 then 4 else 8

read-IsVarint : IsVarint read len
unfolding several len
read-IsVarint = record {
  len_one = λ v h. ground arith;
  len_two = λ v h k. ground arith;
  len_four = λ v h k. ground arith;
  len_eight = λ v h k. ground arith;
  one = λ b rest h. (read_prefixed b rest h).0;
  two = λ b c rest h k. rw (read_prefixed b (c ∷ rest) h).1 (ground arith);
  four = λ b c d e rest h k. rw (read_prefixed b (c ∷ d ∷ e ∷ rest) h).2 (ground arith);
  eight = λ b c d e f g i j rest h k.
      rw (read_prefixed b (c ∷ d ∷ e ∷ f ∷ g ∷ i ∷ j ∷ rest) h).3 (ground arith);
}

abbrev addr : List ℕ
addr = b'a' ∷ b':' ∷ b'1' ∷ []

abbrev payload : List ℕ
payload = 7 ∷ 8 ∷ []

request_bytes :
    write_tcp_request (b'x' ∷ []) addr payload
    ≡ ok (0x44 ∷ 0x01 ∷ 3 ∷ b'a' ∷ b':' ∷ b'1' ∷ 1 ∷ b'x' ∷ 7 ∷ 8 ∷ [])
unfolding write_tcp_request write_v_string varint_put put_u16 put_u32 put_u64
request_bytes = refl

-- Bad lengths are refused before anything is read.
read_request_errors :
    (read_tcp_request read (0 ∷ 0 ∷ []) ≡ err address_length)
    × (read_tcp_request read (0x48 ∷ 0x01 ∷ []) ≡ err address_length)
    × (read_tcp_request read (1 ∷ b'a' ∷ 0x50 ∷ 0x01 ∷ []) ≡ err padding_length)
unfolding read_tcp_request read_text skip_padding read_full discard read several get_be from_be
read_request_errors = (refl, refl, refl)

read_tcp_request-write_example :
    (out rest : List ℕ) × (write_tcp_request (b'x' ∷ []) addr payload ≡ ok out)
    × (read out ≡ some (0x401, rest))
    × (read_tcp_request read rest ≡ ok (addr, payload))
read_tcp_request-write_example =
    read_tcp_request-write read len read-IsVarint (b'x' ∷ []) addr payload
      (omega arith, omega arith) (omega arith)

read_tcp_response-write_example :
    (out : List ℕ) × (write_tcp_response (b'x' ∷ []) false addr payload ≡ ok out)
    × (read_tcp_response read out
        ≡ ok (record { success = false; message = cut_message addr; rest = payload }))
read_tcp_response-write_example =
    read_tcp_response-write read len read-IsVarint (b'x' ∷ []) false addr payload (omega arith)

abbrev message : Message (List ℕ)
message = record {
  session_id = 258;
  packet_id = 3;
  fragment_id = 0;
  fragment_total = 1;
  destination = addr;
  payload = 1 ∷ 2 ∷ 3 ∷ 4 ∷ 5 ∷ [];
}

abbrev no_domain : List ℕ → ℕ
no_domain s = 0

pack_message :
    pack message
    ≡ ok (0 ∷ 0 ∷ 1 ∷ 2 ∷ 0 ∷ 3 ∷ 0 ∷ 1 ∷ 3 ∷ b'a' ∷ b':' ∷ b'1' ∷ 1 ∷ 2 ∷ 3 ∷ 4 ∷ 5 ∷ [])
unfolding pack write_v_string varint_put put_u16 put_u32 put_u64
pack_message = refl

decode_short :
    decode_udp_message read no_domain (0 ∷ 0 ∷ 1 ∷ 2 ∷ 0 ∷ 3 ∷ 0 ∷ 1 ∷ 3 ∷ b'a' ∷ [])
    ≡ err end_of_stream
unfolding decode_udp_message read_v_string read_text read_full read several get_be from_be
decode_short = refl

message-IsMessage : IsMessage no_domain message
message-IsMessage = record {
  session_range = omega arith;
  packet_range = omega arith;
  fragment_range = (omega arith, omega arith);
  destination_size = omega arith;
  domain_size = inl (omega arith);
}

header_size-message : header_size len message ≡ 12
unfolding header_size len
header_size-message = refl

frag_udp_message-IsSent_example : IsSent no_domain read len read-IsVarint 14 message
frag_udp_message-IsSent_example =
    frag_udp_message-IsSent no_domain read len read-IsVarint message 14 message-IsMessage
      (omega (arith, header_size-message)) (omega (arith, header_size-message))
