-- ===== src/Session/Tests.antt =====
-- Runs of the payload codecs of queqiao/internal/session, and the theorems at concrete values.
use sing_quic.Prelude.{
  ◌≡◌, refl, ◌≤◌, ◌↔◌, ℕ, List, [], ◌∷◌, ◌++◌, ok, err, some, length, true, arith, inl, inr,
  from_be, get_be,
}
use sing_quic.HostPort.{
  ascii_space, latin_space, wide_space, space_size, end_space_size, trim_left, trim_right,
  trim_space, contains, has_bracket, cut_last, bracketed, bare, split_around, split_host_port,
  join_host_port, is_digit, parse, parse_digits, atoi, digits, itoa,
}
use sing_quic.Session.{
  destination_length, destination_form, destination_host, destination_port, invalid_destination,
  sized, host_port, checked_port, has_control, encode_destination, decode_destination, same_bytes,
  is_udp_association, udp_association_marker, encode_udp_packet, decode_udp_packet, UdpPacket,
  UdpAddr, destination_from_udp_addr,
}
use sing_quic.Session.Canonical.{encode_destination-canonical}
use sing_quic.Session.Packet.{decode_udp_packet-encode, encode_udp_packet-decode}
use sing_quic.Session.Replies.{IsIpText, destination_from_udp_addr-canonical}

-- ` ab:053`
abbrev text : List ℕ
text = b' ' ∷ b'a' ∷ b'b' ∷ b':' ∷ b'0' ∷ b'5' ∷ b'3' ∷ []

-- `ab:53`
abbrev canonical : List ℕ
canonical = b'a' ∷ b'b' ∷ b':' ∷ b'5' ∷ b'3' ∷ []

encode_text : encode_destination text ≡ ok canonical
unfolding encode_destination sized host_port checked_port has_control ascii_space latin_space
    wide_space space_size end_space_size trim_left trim_right trim_space contains has_bracket
    cut_last bracketed bare split_around split_host_port join_host_port is_digit parse parse_digits
    atoi digits itoa
encode_text = refl

encode_rejects :
    (encode_destination [] ≡ err destination_length)
    × (encode_destination (b'a' ∷ b':' ∷ b'0' ∷ []) ≡ err destination_port)
    × (encode_destination (b'a' ∷ b':' ∷ b'x' ∷ []) ≡ err destination_port)
    × (encode_destination (b'a' ∷ []) ≡ err destination_form)
    × (encode_destination (b'[' ∷ b' ' ∷ b']' ∷ b':' ∷ b'1' ∷ []) ≡ err destination_host)
unfolding encode_destination sized host_port checked_port has_control ascii_space latin_space
    wide_space space_size end_space_size trim_left trim_right trim_space contains has_bracket
    cut_last bracketed bare split_around split_host_port join_host_port is_digit parse parse_digits
    atoi digits itoa
encode_rejects = (refl, refl, refl, refl, refl)

-- `[::1]:8` keeps its brackets.
encode_brackets :
    encode_destination (b'[' ∷ b':' ∷ b':' ∷ b'1' ∷ b']' ∷ b':' ∷ b'8' ∷ [])
    ≡ ok (b'[' ∷ b':' ∷ b':' ∷ b'1' ∷ b']' ∷ b':' ∷ b'8' ∷ [])
unfolding encode_destination sized host_port checked_port has_control ascii_space latin_space
    wide_space space_size end_space_size trim_left trim_right trim_space contains has_bracket
    cut_last bracketed bare split_around split_host_port join_host_port is_digit parse parse_digits
    atoi digits itoa
encode_brackets = refl

-- A host that is one space of Unicode, U+00A0, in brackets.
abbrev space_host : List ℕ
space_host = b'[' ∷ 0xc2 ∷ 0xa0 ∷ b']' ∷ b':' ∷ b'1' ∷ []

-- Its canonical form, which is refused.
space_host_refused :
    (encode_destination space_host ≡ ok (0xc2 ∷ 0xa0 ∷ b':' ∷ b'1' ∷ []))
    × (decode_destination (0xc2 ∷ 0xa0 ∷ b':' ∷ b'1' ∷ [])
        ≡ err (invalid_destination destination_form))
unfolding encode_destination sized host_port checked_port has_control ascii_space latin_space
    wide_space space_size end_space_size trim_left trim_right trim_space contains has_bracket
    cut_last bracketed bare split_around split_host_port join_host_port is_digit parse parse_digits
    atoi digits itoa decode_destination
space_host_refused = (refl, refl)

-- The marker of an association is no destination.
marker_is_no_destination :
    (is_udp_association udp_association_marker ≡ true)
    × (decode_destination udp_association_marker ≡ err (invalid_destination destination_form))
unfolding encode_destination sized host_port checked_port has_control ascii_space latin_space
    wide_space space_size end_space_size trim_left trim_right trim_space contains has_bracket
    cut_last bracketed bare split_around split_host_port join_host_port is_digit parse parse_digits
    atoi digits itoa decode_destination is_udp_association same_bytes
marker_is_no_destination = (refl, refl)

space_size-canonical : space_size canonical ≡ 0
unfolding ascii_space latin_space wide_space space_size
space_size-canonical = refl

encode_destination-canonical_example :
    (length canonical ≤ 255)
    × ((encode_destination canonical ≡ ok canonical) ↔ (space_size canonical ≡ 0))
encode_destination-canonical_example = encode_destination-canonical text canonical encode_text

decode_udp_packet-encode_example :
    (out : List ℕ) × (encode_udp_packet text (7 ∷ 8 ∷ []) ≡ ok out)
    × (decode_udp_packet out ≡ ok (record { destination = canonical; packet = 7 ∷ 8 ∷ [] }))
decode_udp_packet-encode_example =
    decode_udp_packet-encode text canonical (7 ∷ 8 ∷ []) encode_text space_size-canonical
      (omega arith)

-- The packet with the destination as `ab:053`.
abbrev loose_packet : List ℕ
loose_packet = 0 ∷ 7 ∷ (text ++ (7 ∷ []))

abbrev tight_packet : UdpPacket
tight_packet = record { destination = canonical; packet = 7 ∷ [] }

decode_loose_packet : decode_udp_packet loose_packet ≡ ok tight_packet
unfolding encode_destination sized host_port checked_port has_control ascii_space latin_space
    wide_space space_size end_space_size trim_left trim_right trim_space contains has_bracket
    cut_last bracketed bare split_around split_host_port join_host_port is_digit parse parse_digits
    atoi digits itoa decode_destination decode_udp_packet from_be get_be
decode_loose_packet = refl

encode_udp_packet-decode_example :
    (out : List ℕ) × (encode_udp_packet canonical (7 ∷ []) ≡ ok out)
    × (decode_udp_packet out ≡ ok tight_packet)
    × (length out ≤ length loose_packet)
encode_udp_packet-decode_example =
    encode_udp_packet-decode loose_packet tight_packet decode_loose_packet space_size-canonical

-- `::1`, port 53
abbrev loopback : UdpAddr
loopback = record { ip = some (b':' ∷ b':' ∷ b'1' ∷ []); port = 53 }

abbrev loopback_text : List ℕ
loopback_text = b'[' ∷ b':' ∷ b':' ∷ b'1' ∷ b']' ∷ b':' ∷ b'5' ∷ b'3' ∷ []

loopback-IsIpText : IsIpText (b':' ∷ b':' ∷ b'1' ∷ [])
loopback-IsIpText = record {
  bytes = (
    inr (inl (omega arith, omega arith)),
    (inr (inl (omega arith, omega arith)), (inr (inl (omega arith, omega arith)), tt)),
  );
  some_byte = omega arith;
  at_most = omega arith;
}

loopback_destination : destination_from_udp_addr (some loopback) ≡ ok loopback_text
unfolding destination_from_udp_addr join_host_port contains itoa digits
loopback_destination = refl

destination_from_udp_addr-canonical_example :
    (encode_destination loopback_text ≡ ok loopback_text)
    × (decode_destination loopback_text ≡ ok loopback_text)
destination_from_udp_addr-canonical_example =
    destination_from_udp_addr-canonical loopback (b':' ∷ b':' ∷ b'1' ∷ []) loopback_text refl
      loopback-IsIpText loopback_destination
