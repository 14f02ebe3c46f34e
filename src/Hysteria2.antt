-- ===== src/Hysteria2.antt =====
-- hysteria2/internal/protocol/proxy.go, the requests and responses of the proxy, and the datagrams
-- of hysteria2/packet.go. A reader is the list of the bytes that it still holds.
pub mod Varint
pub mod Requests
pub mod Datagrams
mod Tests
use sing_quic.Prelude.{
  ℕ, ◌+◌, ◌/◌, ◌%◌, ◌<◌, ◌≤◌, ◌≡◌, Bool, true, false, ◌&&◌, Option, none, some, List, [], ◌∷◌, ◌++◌,
  ltb, leb, ◌==◌, if◌then◌else◌, length, take, drop, get_or, put_u16, put_u32, put_u64, get_be,
  Result, ok, err, ◌>>=◌,
}
use sing_quic.Fragments.{Message}

abbrev pub frame_type_tcp_request : ℕ
frame_type_tcp_request = 0x401

abbrev pub max_address_length : ℕ
max_address_length = 2048

abbrev pub max_message_length : ℕ
max_message_length = 2048

abbrev pub max_padding_length : ℕ
max_padding_length = 4096

abbrev pub max_var_int1 : ℕ
max_var_int1 = 63

abbrev pub max_var_int2 : ℕ
max_var_int2 = 16383

abbrev pub max_var_int4 : ℕ
max_var_int4 = 1073741823

abbrev pub max_var_int8 : ℕ
max_var_int8 = 4611686018427387903

-- The errors, and the panic of `varintPut`.
pub data ProtocolError : Type 0 where
  end_of_stream address_length message_length padding_length fqdn_too_long panicked : ProtocolError

abbrev pub or_end : {A : Type 0} → Option A → Result ProtocolError A
or_end none = err end_of_stream
or_end (some a) = ok a

-- What quicvarint.Read and quicvarint.Len promise. They read and measure RFC 9000's variable-length
-- integers, whose first byte says in its two highest bits how many bytes there are.
pub record IsVarint (read : List ℕ → Option (ℕ × List ℕ)) (len : ℕ → ℕ) : Type 0 where
  pub len_one : (v : ℕ) → v ≤ 63 → len v ≡ 1
  pub len_two : (v : ℕ) → 63 < v → v ≤ 16383 → len v ≡ 2
  pub len_four : (v : ℕ) → 16383 < v → v ≤ 1073741823 → len v ≡ 4
  pub len_eight : (v : ℕ) → 1073741823 < v → v ≤ 4611686018427387903 → len v ≡ 8
  pub one : (b : ℕ) (rest : List ℕ) → b < 64 → read (b ∷ rest) ≡ some (b, rest)
  pub two :
      (b c : ℕ) (rest : List ℕ)
      → b < 64
      → c < 256
      → read ((b + 0x40) ∷ c ∷ rest) ≡ some (get_be (b ∷ c ∷ []), rest)
  pub four :
      (b c d e : ℕ) (rest : List ℕ)
      → b < 64
      → (c < 256) × (d < 256) × (e < 256)
      → read ((b + 0x80) ∷ c ∷ d ∷ e ∷ rest) ≡ some (get_be (b ∷ c ∷ d ∷ e ∷ []), rest)
  pub eight :
      (b c d e f g h i : ℕ) (rest : List ℕ)
      → b < 64
      → (c < 256) × (d < 256) × (e < 256) × (f < 256) × (g < 256) × (h < 256) × (i < 256)
      → read ((b + 0xc0) ∷ c ∷ d ∷ e ∷ f ∷ g ∷ h ∷ i ∷ rest)
        ≡ some (get_be (b ∷ c ∷ d ∷ e ∷ f ∷ g ∷ h ∷ i ∷ []), rest)

-- The highest byte is below 0x40, so that `|` with the prefix adds it.
abbrev pub prefixed : ℕ → List ℕ → List ℕ
prefixed p [] = []
prefixed p (b ∷ bs) = (b + p) ∷ bs

-- `varintPut`: the bytes that it writes.
unfoldable pub varint_put : ℕ → Result ProtocolError (List ℕ)
varint_put i =
    if leb i max_var_int1
    then ok (i % 256 ∷ [])
    else if leb i max_var_int2
    then ok (prefixed 0x40 (put_u16 i))
    else if leb i max_var_int4
    then ok (prefixed 0x80 (put_u32 i))
    else if leb i max_var_int8
    then ok (prefixed 0xc0 (put_u64 i))
    else err panicked

-- `WriteVString`
unfoldable pub write_v_string : List ℕ → Result ProtocolError (List ℕ)
write_v_string value = do n ← varint_put (length value); ok (n ++ value)

-- `WriteTCPRequest`, with the padding that it has drawn.
unfoldable pub write_tcp_request : List ℕ → List ℕ → List ℕ → Result ProtocolError (List ℕ)
write_tcp_request padding addr payload = do
  kind ← varint_put frame_type_tcp_request
  address ← write_v_string addr
  n ← varint_put (length padding)
  ok (kind ++ (address ++ (n ++ (padding ++ payload))))

abbrev pub cut_message : List ℕ → List ℕ
cut_message msg = if ltb max_message_length (length msg) then take max_message_length msg else msg

-- `WriteTCPResponse`. The padding's bytes are those that `Extend` leaves in the buffer.
unfoldable pub write_tcp_response : List ℕ → Bool → List ℕ → List ℕ → Result ProtocolError (List ℕ)
write_tcp_response padding success msg payload = do
  message ← write_v_string (cut_message msg)
  n ← varint_put (length padding)
  ok ((if success then 0 else 1) ∷ (message ++ (n ++ (padding ++ payload))))

-- `io.ReadFull`
unfoldable pub read_full : ℕ → List ℕ → Result ProtocolError (List ℕ × List ℕ)
read_full n src = if leb n (length src) then ok (take n src, drop n src) else err end_of_stream

-- `io.CopyN(io.Discard, r, n)`
unfoldable pub discard : ℕ → List ℕ → Result ProtocolError (List ℕ)
discard n src = if leb n (length src) then ok (drop n src) else err end_of_stream

pub record Response : Type 0 where
  pub success : Bool
  pub message : List ℕ
  pub rest : List ℕ

module _ (read_varint : List ℕ → Option (ℕ × List ℕ)) where
  -- The padding, as both requests and responses end with it.
  unfoldable pub skip_padding : List ℕ → Result ProtocolError (List ℕ)
  skip_padding src = do
    (n, rest) ← or_end (read_varint src)
    if ltb max_padding_length n
        then err padding_length
        else if ltb 0 n
        then discard n rest
        else ok rest

  -- A text that must have between `least` and `most` bytes, or `e` is the error.
  unfoldable pub read_text : ℕ → ℕ → ProtocolError → List ℕ → Result ProtocolError (List ℕ × List ℕ)
  read_text least most e src = do
    (n, rest) ← or_end (read_varint src)
    if ltb n least then err e else if ltb most n then err e else read_full n rest

  -- `ReadTCPRequest`: the address, and what the stream still holds.
  unfoldable pub read_tcp_request : List ℕ → Result ProtocolError (List ℕ × List ℕ)
  read_tcp_request src = do
    (addr, rest) ← read_text 1 max_address_length address_length src
    rest' ← skip_padding rest
    ok (addr, rest')

  -- `ReadTCPResponse`; with an error its callers use nothing else.
  unfoldable pub read_tcp_response : List ℕ → Result ProtocolError Response
  read_tcp_response src = do
    (status, rest) ← read_full 1 src
    (message, rest') ← read_text 0 max_message_length message_length rest
    rest'' ← skip_padding rest'
    ok (record { success = get_or status 0 0 == 0; message = message; rest = rest'' })

  -- `ReadVString`
  unfoldable pub read_v_string : List ℕ → Result ProtocolError (List ℕ × List ℕ)
  read_v_string src = read_text 0 max_address_length address_length src

  -- `decodeUDPMessage`, where `fqdn` is the length of the domain name in a destination.
  unfoldable pub decode_udp_message :
      (List ℕ → ℕ) → List ℕ → Result ProtocolError (Message (List ℕ))
  decode_udp_message fqdn src = do
    (session, r1) ← read_full 4 src
    (packet, r2) ← read_full 2 r1
    (id, r3) ← read_full 1 r2
    (total, r4) ← read_full 1 r3
    (destination, r5) ← read_v_string r4
    if ltb 255 (length destination) && ltb 255 (fqdn destination)
        then err fqdn_too_long
        else ok (record {
          session_id = get_be session;
          packet_id = get_be packet;
          fragment_id = get_or id 0 0;
          fragment_total = get_or total 0 0;
          destination = destination;
          payload = r5;
        })

-- `pack`
unfoldable pub pack : Message (List ℕ) → Result ProtocolError (List ℕ)
pack m = do
  destination ← write_v_string m.destination
  ok (
      put_u32 m.session_id
      ++ (put_u16 m.packet_id ++ (m.fragment_id ∷ m.fragment_total ∷ (destination ++ m.payload))))

-- `headerSize`, where `len` is quicvarint.Len.
unfoldable pub header_size : (ℕ → ℕ) → Message (List ℕ) → ℕ
header_size len m = 8 + len (length m.destination) + length m.destination
