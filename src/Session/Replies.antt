-- ===== src/Session/Replies.antt =====
-- DestinationFromUDPAddr (queqiao/internal/session/packet.go): the addresses that replies name.
use sing_quic.Prelude.{
  ℕ, ◌≤◌, ◌<◌, ◌≡◌, refl, List, [], ◌∷◌, length, get_or, some, false, arith, All, ◌⊎◌, ok,
}
use sing_quic.HostPort.{
  has_bracket, contains, join_host_port, itoa, space_size, ascii_space, latin_space, wide_space,
}
use sing_quic.HostPort.Decimal.{length-itoa_five}
use sing_quic.HostPort.Split.{length-join}
use sing_quic.Session.{
  encode_destination, decode_destination, has_control, destination_from_udp_addr, UdpAddr,
}
use sing_quic.Session.Canonical.{encode_destination-join, decode_destination-canonical}

-- The bytes of the text of an IP address: hexadecimal digits, dots and colons.
abbrev pub IsIpByte : ℕ → Type 0
IsIpByte c = (c ≡ 46) ⊎ (((48 ≤ c) × (c ≤ 58)) ⊎ ((97 ≤ c) × (c ≤ 102)))

pub record IsIpText (s : List ℕ) : Type 0 where
  pub bytes : All IsIpByte s
  pub some_byte : 0 < length s
  pub at_most : length s ≤ 45

ip-clean : (h : List ℕ) → All IsIpByte h → (has_bracket h ≡ false) × (has_control h ≡ false)
unfolding has_bracket contains has_control
ip-clean [] d = (refl, refl)
ip-clean (x ∷ xs) d = (ground (arith, d.0, ip-clean xs d.1), ground (arith, d.0, ip-clean xs d.1))

space_size_visible : (s : List ℕ) → 33 ≤ get_or s 0 0 → get_or s 0 0 < 128 → space_size s ≡ 0
unfolding space_size ascii_space latin_space wide_space
space_size_visible s lo hi = ground arith

head_of_ip :
    (h q : List ℕ)
    → All IsIpByte h
    → 0 < length h
    → (33 ≤ get_or (join_host_port h q) 0 0) × (get_or (join_host_port h q) 0 0 < 128)
unfolding join_host_port
head_of_ip [] q d l = absurd (omega arith)
head_of_ip (x ∷ xs) q d l = (ground (arith, d.0), ground (arith, d.0))

destination_from_udp_addr-eq_ok :
    (a : UdpAddr) (text d : List ℕ)
    → a.ip ≡ some text
    → destination_from_udp_addr (some a) ≡ ok d
    → (1 ≤ a.port) × (a.port ≤ 65535) × (d ≡ join_host_port text (itoa a.port))
unfolding destination_from_udp_addr
destination_from_udp_addr-eq_ok a text d e h =
    let k : (1 ≤ a.port) × (a.port ≤ 65535) = (ground arith, ground arith) in
    (k.0, k.1, ground (arith, k))

-- The address of a socket that DestinationFromUDPAddr writes down is a destination that
-- EncodeDestination and DecodeDestination return unchanged, where the text of the IP address has
-- between 1 and 45 bytes, all hexadecimal digits, dots or colons.
pub destination_from_udp_addr-canonical :
    (a : UdpAddr) (text d : List ℕ)
    → a.ip ≡ some text
    → IsIpText text
    → destination_from_udp_addr (some a) ≡ ok d
    → (encode_destination d ≡ ok d) × (decode_destination d ≡ ok d)
destination_from_udp_addr-canonical a text d e t h =
    let (lo, hi, j) = destination_from_udp_addr-eq_ok a text d e h in
    let q : List ℕ = itoa a.port in
    let (b, c) = ip-clean text t.bytes in
    let (v, w) = head_of_ip text q t.bytes t.some_byte in
    let sp : space_size d ≡ 0 = rw j (space_size_visible (join_host_port text q) v w) in
    let l : length (join_host_port text q) ≤ 255 =
      omega (arith, (length-join text q).1, length-itoa_five a.port (omega arith), t.at_most) in
    let stable : encode_destination d ≡ ok d = rw j (
      encode_destination-join text a.port
        (record { no_bracket = b; no_control = c; some_byte = t.some_byte }) lo hi l
        (rw j at sp)) in
    (stable, decode_destination-canonical d d stable sp)
