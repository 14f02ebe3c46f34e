-- ===== src/Session.antt =====
-- queqiao/internal/session: the payloads of OPEN, PACKET and RESET frames. Texts are lists of
-- bytes.
pub mod Canonical
pub mod Packet
pub mod Replies
mod Tests
use sing_quic.Prelude.{
  ℕ, ◌+◌, ◌-◌, Bool, true, false, ◌&&◌, ◌||◌, not, Option, none, some, List, [], ◌∷◌, ◌++◌, ltb,
  leb, ◌==◌, if◌then◌else◌, length, take, drop, replicate, put_u16, get_be, Result, ok, err, ◌>>=◌,
  wrap,
}
use sing_quic.HostPort.{Pair, trim_space, split_host_port, join_host_port, atoi, itoa}

abbrev pub max_destination_length : ℕ
max_destination_length = 255

abbrev pub max_udp_payload : ℕ
max_udp_payload = 65507

abbrev pub packet_header_length : ℕ
packet_header_length = 2

pub data SessionError : Type 0 where
  destination_length destination_form destination_host destination_port : SessionError
  payload_length packet_too_large packet_truncated udp_destination_length : SessionError
  udp_payload_length udp_source : SessionError
  invalid_destination : SessionError → SessionError
  invalid_udp_destination : SessionError → SessionError

abbrev pub or_else : {A : Type 0} → SessionError → Option A → Result SessionError A
or_else e none = err e
or_else e (some a) = ok a

-- The bytes that `strings.ContainsFunc` looks for; a byte from 128 on belongs to a rune above them.
unfoldable pub has_control : List ℕ → Bool
has_control [] = false
has_control (c ∷ cs) = (leb c 32 || c == 127) || has_control cs

-- The port, where strconv.Atoi reads one between 1 and 65535.
unfoldable pub checked_port : List ℕ → Option ℕ
checked_port s = elim (atoi s) [
  | none ↦ none
  | some p ↦ if ltb p 1 || ltb 65535 p then none else some p
]

unfoldable pub sized : List ℕ → Option (List ℕ)
sized t = if length t == 0 || ltb max_destination_length (length t) then none else some t

-- The host and the port as text, the host not empty.
unfoldable pub host_port : List ℕ → Option Pair
host_port t = elim (split_host_port t) [
  | none ↦ none
  | some p ↦ if length p.before == 0 then none else some p
]

unfoldable pub encode_destination : List ℕ → Result SessionError (List ℕ)
encode_destination destination = do
  t ← or_else destination_length (sized (trim_space destination))
  p ← or_else destination_form (host_port t)
  host ← or_else destination_host (if has_control p.before then none else some p.before)
  port ← or_else destination_port (checked_port p.after)
  ok (join_host_port host (itoa port))

unfoldable pub decode_destination : List ℕ → Result SessionError (List ℕ)
decode_destination payload =
    if length payload == 0 || ltb max_destination_length (length payload)
    then err payload_length
    else wrap invalid_destination (encode_destination payload)

abbrev pub udp_association_marker : List ℕ
udp_association_marker = b'W' ∷ b'O' ∷ b'U' ∷ b'D' ∷ 1 ∷ []

unfoldable pub same_bytes : List ℕ → List ℕ → Bool
same_bytes [] [] = true
same_bytes [] (b ∷ t) = false
same_bytes (a ∷ s) [] = false
same_bytes (a ∷ s) (b ∷ t) = a == b && same_bytes s t

unfoldable pub is_udp_association : List ℕ → Bool
is_udp_association payload = same_bytes payload udp_association_marker

-- The packet for an encoded destination.
unfoldable pub packet_of : List ℕ → List ℕ → Result SessionError (List ℕ)
packet_of d payload =
    if ltb max_udp_payload (length payload)
    then err payload_length
    else if ltb 65535 (length d)
        || ltb (max_udp_payload + max_destination_length + packet_header_length)
            (length d + packet_header_length + length payload)
    then err packet_too_large
    else ok (put_u16 (length d) ++ (d ++ payload))

unfoldable pub encode_udp_packet : List ℕ → List ℕ → Result SessionError (List ℕ)
encode_udp_packet destination payload = do d ← encode_destination destination; packet_of d payload

pub record UdpPacket : Type 0 where
  pub destination : List ℕ
  pub packet : List ℕ

unfoldable pub decode_udp_packet : List ℕ → Result SessionError UdpPacket
decode_udp_packet payload =
    let n : ℕ = get_be (take packet_header_length payload) in
    if ltb (length payload) (packet_header_length + 1)
    then err packet_truncated
    else if n == 0
        || (ltb max_destination_length n || ltb (length payload) (packet_header_length + n))
    then err udp_destination_length
    else (wrap invalid_udp_destination
          (decode_destination (take n (drop packet_header_length payload)))
        >>= λ destination.
            if ltb max_udp_payload (length (drop (packet_header_length + n) payload))
            then err udp_payload_length
            else ok (record {
              destination = destination;
              packet = drop (packet_header_length + n) payload;
            }))

-- `net.UDPAddr`, the address by its text, `none` where it is nil; a negative port is rejected as 0.
pub record UdpAddr : Type 0 where
  pub ip : Option (List ℕ)
  pub port : ℕ

unfoldable pub destination_from_udp_addr : Option UdpAddr → Result SessionError (List ℕ)
destination_from_udp_addr none = err udp_source
destination_from_udp_addr (some a) =
    if ltb a.port 1 || ltb 65535 a.port
    then err udp_source
    else elim a.ip [ none ↦ err udp_source | some text ↦ ok (join_host_port text (itoa a.port)) ]

abbrev pub zero_session_id : List ℕ
zero_session_id = replicate 16 0

unfoldable pub is_zero_session_id : List ℕ → Bool
is_zero_session_id id = same_bytes id zero_session_id

unfoldable pub reset_payload : ℕ → List ℕ → List ℕ
reset_payload code message = code ∷ take 256 message
