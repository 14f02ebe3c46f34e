-- ===== src/Session/Packet.antt =====
-- EncodeUDPPacket and DecodeUDPPacket (queqiao/internal/session/packet.go), and the addresses that
-- a server's replies name.
use sing_quic.Prelude.{
  ℕ, ◌+◌, ◌≤◌, ◌<◌, ◌≡◌, refl, subst, ◌∙◌, ap, List, ◌++◌, length, true, take, drop, put_u16,
  get_be, get_be-put_u16, length-put_u16, arith, length-append, ◌>>=◌, >>=-eq-ok, wrap,
  if◌then◌else◌, length-take, length-drop, Result, ok, err, leb, ltb, take-append_self,
  drop-append_add,
}
use sing_quic.HostPort.{space_size}
use sing_quic.Session.{
  SessionError, invalid_destination, udp_payload_length, invalid_udp_destination,
  encode_destination, decode_destination, encode_udp_packet, packet_of, decode_udp_packet,
  UdpPacket,
}
use sing_quic.Session.Canonical.{
  encode_destination-canonical, decode_destination-canonical, length-encode_destination_pos,
  length-canonical,
}

packet_of-fits :
    (d payload : List ℕ)
    → length d ≤ 255
    → length payload ≤ 65507
    → packet_of d payload ≡ ok (put_u16 (length d) ++ (d ++ payload))
unfolding packet_of
packet_of-fits d payload h k = ground arith

-- A packet by its parts: the length field, the destination's bytes and the datagram.
decode_udp_packet-parts :
    (b d c rest : List ℕ) (n : ℕ)
    → get_be (take 2 b) ≡ n
    → take n (drop 2 b) ≡ d
    → drop (2 + n) b ≡ rest
    → (0 < n) × (n ≤ 255)
    → 2 + n ≤ length b
    → length rest ≤ 65507
    → decode_destination d ≡ ok c
    → decode_udp_packet b ≡ ok (record { destination = c; packet = rest })
unfolding decode_udp_packet
decode_udp_packet-parts b d c rest n en ed er range l k e =
    rw (decode_udp_packet, en, ed, er, e) (ground (arith, range))

decode_udp_packet-packet :
    (d payload : List ℕ)
    → 0 < length d
    → length d ≤ 255
    → length payload ≤ 65507
    → decode_destination d ≡ ok d
    → decode_udp_packet (put_u16 (length d) ++ (d ++ payload))
      ≡ ok (record { destination = d; packet = payload })
decode_udp_packet-packet d payload p h k e =
    let n : ℕ = length d in
    let head : length (put_u16 n) ≡ 2 = length-put_u16 n in
    let b : List ℕ = put_u16 n ++ (d ++ payload) in
    let e2 : drop 2 b ≡ d ++ payload = drop-append_add (put_u16 n) (d ++ payload) 2 0 2 head refl in
    decode_udp_packet-parts b d d payload n
      (ap get_be (take-append_self (put_u16 n) (d ++ payload) 2 head)
        ∙ get_be-put_u16 n (omega arith))
      (ap (take n) e2 ∙ take-append_self d payload n refl)
      (drop-append_add (put_u16 n) (d ++ payload) 2 n (2 + n) head refl
        ∙ drop-append_add d payload n 0 n refl (omega arith))
      (p, h)
      (omega (arith, head, length-append (put_u16 n) (d ++ payload), length-append d payload)) k e

encode_udp_packet-eq :
    (s c payload : List ℕ)
    → encode_destination s ≡ ok c
    → length payload ≤ 65507
    → encode_udp_packet s payload ≡ ok (put_u16 (length c) ++ (c ++ payload))
unfolding encode_udp_packet
encode_udp_packet-eq s c payload h k =
    rw h (packet_of-fits c payload (encode_destination-canonical s c h).0 k)

decode_udp_packet-canonical :
    (s c payload : List ℕ)
    → encode_destination s ≡ ok c
    → space_size c ≡ 0
    → length payload ≤ 65507
    → decode_udp_packet (put_u16 (length c) ++ (c ++ payload))
      ≡ ok (record { destination = c; packet = payload })
decode_udp_packet-canonical s c payload h sp k =
    decode_udp_packet-packet c payload (length-encode_destination_pos s c h)
      (encode_destination-canonical s c h).0 k (decode_destination-canonical s c h sp)

-- A destination that EncodeDestination accepts and whose canonical form has no space of Unicode at
-- its front, with at most 65507 bytes: EncodeUDPPacket makes a packet, and DecodeUDPPacket reads
-- from it the canonical destination and the same bytes.
pub decode_udp_packet-encode :
    (s c payload : List ℕ)
    → encode_destination s ≡ ok c
    → space_size c ≡ 0
    → length payload ≤ 65507
    → (out : List ℕ) × (encode_udp_packet s payload ≡ ok out)
      × (decode_udp_packet out ≡ ok (record { destination = c; packet = payload }))
decode_udp_packet-encode s c payload h sp k = (
  put_u16 (length c) ++ (c ++ payload),
  encode_udp_packet-eq s c payload h k,
  decode_udp_packet-canonical s c payload h sp k,
)

wrap-eq-ok :
    {A : Type 0} (f : SessionError → SessionError) (m : Result SessionError A) (a : A)
    → wrap f m ≡ ok a
    → m ≡ ok a
wrap-eq-ok f (ok b) a h = h
wrap-eq-ok f (err e) a h = absurd cc

decode_destination-eq-ok :
    (d c : List ℕ) → decode_destination d ≡ ok c → (encode_destination d ≡ ok c) × (length d ≤ 255)
unfolding decode_destination
decode_destination-eq-ok d c h =
    let k : leb (length d) 255 ≡ true = ground arith in
    (wrap-eq-ok invalid_destination (encode_destination d) c (ground arith), ground arith)

-- The packet's last part, once the destination is decoded.
packet_end : List ℕ → List ℕ → Result SessionError UdpPacket
packet_end rest c =
    if ltb 65507 (length rest)
    then err udp_payload_length
    else ok (record { destination = c; packet = rest })

packet_end-eq-ok :
    (rest c : List ℕ) (p : UdpPacket)
    → packet_end rest c ≡ ok p
    → (c ≡ p.destination) × (rest ≡ p.packet) × (length rest ≤ 65507)
unfolding packet_end
packet_end-eq-ok rest c p h =
    let k : length rest ≤ 65507 = ground arith in
    let e : record { destination = c; packet = rest } ≡ p = ground arith in
    (ap (λ q. q.destination) e, ap (λ q. q.packet) e, k)

-- What a packet that DecodeUDPPacket accepts is made of.
destination_split :
    (b : List ℕ) (p : UdpPacket)
    → decode_udp_packet b ≡ ok p
    → (d : List ℕ) × (encode_destination d ≡ ok p.destination)
      × (length p.packet ≤ 65507)
      × (2 + length d + length p.packet ≡ length b)
unfolding decode_udp_packet packet_end
destination_split b p h =
    let n : ℕ = get_be (take 2 b) in
    let d : List ℕ = take n (drop 2 b) in
    let rest : List ℕ = drop (2 + n) b in
    let l : 2 + n ≤ length b = ground arith in
    let chain : (wrap invalid_udp_destination (decode_destination d) >>= packet_end rest) ≡ ok p =
      ground arith in
    let (c, e, k) =
      >>=-eq-ok (wrap invalid_udp_destination (decode_destination d)) (packet_end rest) p chain in
    let (f, g, m) = packet_end-eq-ok rest c p k in
    let enc : encode_destination d ≡ ok c =
      (decode_destination-eq-ok d c (wrap-eq-ok invalid_udp_destination _ c e)).0 in
    (
      d,
      enc ∙ ap ok f,
      subst (λ x. length x ≤ 65507) g m,
      omega (arith, ap length g, length-take n (drop 2 b), length-drop 2 b, length-drop (2 + n) b),
    )

length-packet :
    (c payload : List ℕ)
    → length (put_u16 (length c) ++ (c ++ payload)) ≡ 2 + length c + length payload
length-packet c payload = omega (
  arith,
  length-put_u16 (length c),
  length-append (put_u16 (length c)) (c ++ payload),
  length-append c payload,
)

-- What DecodeUDPPacket accepts, EncodeUDPPacket sends on, where no space of Unicode stands at the
-- front of the destination: in a packet that is not longer and that decodes to the same.
pub encode_udp_packet-decode :
    (b : List ℕ) (p : UdpPacket)
    → decode_udp_packet b ≡ ok p
    → space_size p.destination ≡ 0
    → (out : List ℕ) × (encode_udp_packet p.destination p.packet ≡ ok out)
      × (decode_udp_packet out ≡ ok p)
      × (length out ≤ length b)
encode_udp_packet-decode b p h sp =
    let (d, e, k, l) = destination_split b p h in
    let c : List ℕ = p.destination in
    let same : encode_destination c ≡ ok c = (encode_destination-canonical d c e).1.1 sp in
    (
      put_u16 (length c) ++ (c ++ p.packet),
      encode_udp_packet-eq c c p.packet same k,
      decode_udp_packet-canonical c c p.packet same sp k,
      omega (arith, length-packet c p.packet, length-canonical d c e, l),
    )
