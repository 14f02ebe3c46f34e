-- ===== src/Hysteria2/Datagrams.antt =====
-- The datagrams of a UDP message (hysteria2/packet.go): packed, cut to size, and decoded.
use sing_quic.Prelude.{
  ℕ, ◌+◌, ◌-◌, ◌<◌, ◌≤◌, ◌≡◌, refl, Option, some, List, [], ◌∷◌, ◌++◌, length, false, ◌&&◌,
  append_assoc, length-append, ok, arith, ltb, inl, inr, Option-cases, subst, ◌⊎◌, All, put_u16,
  put_u32, get_be-put_u16, length-put_u16, length-put_u32, get_be-put_u32,
}
use sing_quic.Fragments.{Message, number, frag_udp_message, cut}
use sing_quic.Fragments.Slots.{joined}
use sing_quic.Fragments.Cut.{Numbered, Fragmented, frag_udp_message-Fragmented}
use sing_quic.Hysteria2.{
  IsVarint, read_v_string, write_v_string, decode_udp_message, pack, header_size, address_length,
}
use sing_quic.Hysteria2.Varint.{IsWritten, varint_put-IsWritten}
use sing_quic.Hysteria2.Requests.{read_full-append, read_text-append}

module _ (fqdn : List ℕ → ℕ) where
  -- The ranges of the fields' Go types, and a destination that decodeUDPMessage does not refuse.
  pub record IsMessage (m : Message (List ℕ)) : Type 0 where
    pub session_range : m.session_id < 4294967296
    pub packet_range : m.packet_id < 65536
    pub fragment_range : (m.fragment_id < 256) × (m.fragment_total < 256)
    pub destination_size : length m.destination ≤ 2048
    pub domain_size : (length m.destination ≤ 255) ⊎ (fqdn m.destination ≤ 255)

  domain_accepted :
      (d : List ℕ)
      → (length d ≤ 255) ⊎ (fqdn d ≤ 255)
      → (ltb 255 (length d) && ltb 255 (fqdn d)) ≡ false
  domain_accepted d h = ground (arith, h)

  module _ (read : List ℕ → Option (ℕ × List ℕ)) (len : ℕ → ℕ) (law : IsVarint read len) where
    -- The datagram of a message: packed without a panic, of the header's size and the payload's, and
    -- decoded to the message.
    pub record IsPacked (m : Message (List ℕ)) : Type 0 where
      pub out : List ℕ
      pub packed : pack m ≡ ok out
      pub size : length out ≡ header_size len m + length m.payload
      pub decoded : decode_udp_message read fqdn out ≡ ok m

    pub pack-IsPacked : (m : Message (List ℕ)) → IsMessage m → IsPacked m
    unfolding pack write_v_string header_size decode_udp_message read_v_string
    pack-IsPacked m h =
        let w : IsWritten read len (length m.destination) =
          varint_put-IsWritten read len law (length m.destination)
            (omega (arith, h.destination_size)) in
        let d : List ℕ = m.destination in
        let text : List ℕ = w.bytes ++ d in
        let r3 : List ℕ = m.fragment_total ∷ (text ++ m.payload) in
        let r2 : List ℕ = m.fragment_id ∷ r3 in
        let r1 : List ℕ = put_u16 m.packet_id ++ r2 in
        record {
          out = put_u32 m.session_id ++ r1;
          packed = rw w.written refl;
          size = omega (
            arith,
            w.size,
            length-append (put_u32 m.session_id) r1,
            length-append (put_u16 m.packet_id) r2,
            length-append text m.payload,
            length-append w.bytes d,
            length-put_u32 m.session_id,
            length-put_u16 m.packet_id,
          );
          decoded =
              rw
                (
                  decode_udp_message,
                  read_v_string,
                  append_assoc w.bytes d m.payload,
                  read_full-append (put_u32 m.session_id)
                      (put_u16 m.packet_id
                        ++ (m.fragment_id ∷ m.fragment_total ∷ (w.bytes ++ (d ++ m.payload))))
                      4 (length-put_u32 m.session_id),
                  read_full-append (put_u16 m.packet_id)
                      (m.fragment_id ∷ m.fragment_total ∷ (w.bytes ++ (d ++ m.payload))) 2
                      (length-put_u16 m.packet_id),
                  read_full-append (m.fragment_id ∷ [])
                      (m.fragment_total ∷ (w.bytes ++ (d ++ m.payload))) 1 refl,
                  read_full-append (m.fragment_total ∷ []) (w.bytes ++ (d ++ m.payload)) 1 refl,
                  read_text-append read len law 0 2048 address_length d m.payload (omega arith)
                      h.destination_size (omega arith) w,
                  domain_accepted d h.domain_size,
                  get_be-put_u32 m.session_id h.session_range,
                  get_be-put_u16 m.packet_id h.packet_range,
                )
                refl;
        }

    -- A fragment of a message that can be packed has the header of the whole.
    IsPart : Message (List ℕ) → Message (List ℕ) → Type 0
    IsPart m f = IsMessage f × (header_size len f ≡ header_size len m)

    number-IsPart :
        (m : Message (List ℕ)) (k n : ℕ) (ps : List (List ℕ))
        → IsMessage m
        → All (IsPart m) (number m k n ps)
    unfolding number header_size IsPart
    number-IsPart m k n [] h = tt
    number-IsPart m k n (p ∷ ps) h = (
      (
        record {
          session_range = h.session_range;
          packet_range = h.packet_range;
          fragment_range = (omega arith, omega arith);
          destination_size = h.destination_size;
          domain_size = h.domain_size;
        },
        refl,
      ),
      number-IsPart m (k + 1) n ps h,
    )

    frag_udp_message-number :
        (m : Message (List ℕ)) (mtu : ℕ) (fs : List (Message (List ℕ)))
        → mtu < length m.payload
        → frag_udp_message m mtu ≡ some fs
        → (ps : List (List ℕ)) × (fs ≡ number m 0 (length ps) ps)
    unfolding frag_udp_message
    frag_udp_message-number m mtu fs l e =
        elim (Option-cases (cut (length m.payload) mtu m.payload)) [
          | inl c ↦ absurd (ground (arith, c))
          | inr (ps, c) ↦ (ps, ground (arith, c))
        ]

    -- A datagram of at most `most` bytes that decodes to the fragment.
    pub record IsDatagram (most : ℕ) (f : Message (List ℕ)) : Type 0 where
      pub out : List ℕ
      pub packed : pack f ≡ ok out
      pub size : length out ≤ most
      pub decoded : decode_udp_message read fqdn out ≡ ok f

    parts-IsDatagram :
        (m : Message (List ℕ)) (most mtu k n : ℕ) (fs : List (Message (List ℕ)))
        → header_size len m + mtu ≤ most
        → All (IsPart m) fs
        → Numbered mtu k n fs
        → All (IsDatagram most) fs
    unfolding IsPart
    parts-IsDatagram m most mtu k n [] h p q = tt
    parts-IsDatagram m most mtu k n (f ∷ fs) h p q =
        let d : IsPacked f = pack-IsPacked f p.0.0 in
        (
          record {
            out = d.out;
            packed = d.packed;
            size = omega (arith, d.size, p.0.1, q.2);
            decoded = d.decoded;
          },
          parts-IsDatagram m most mtu (k + 1) n fs h p.1 q.3,
        )

    -- The fragments of a message and their datagrams.
    pub record IsSent (most : ℕ) (m : Message (List ℕ)) : Type 0 where
      pub fragments : List (Message (List ℕ))
      pub fragmented : frag_udp_message m (most - header_size len m) ≡ some fragments
      pub whole : joined fragments ≡ m.payload
      pub numbered : Numbered (most - header_size len m) 0 (length fragments) fragments
      pub datagrams : All (IsDatagram most) fragments

    -- A message whose fields have their ranges and whose destination is not refused, with room for
    -- its header and a byte more but not for its payload: fragUDPMessage ends, and the payloads of
    -- the fragments, one behind the other, are the payload; each fragment carries its number and the
    -- number of all, as bytes, is packed into a datagram of at most the given size, and is decoded
    -- from it unchanged, where quicvarint.Read keeps to RFC 9000.
    pub frag_udp_message-IsSent :
        (m : Message (List ℕ)) (most : ℕ)
        → IsMessage m
        → header_size len m < most
        → most < header_size len m + length m.payload
        → IsSent most m
    frag_udp_message-IsSent m most h a b =
        let mtu : ℕ = most - header_size len m in
        let f : Fragmented m mtu (frag_udp_message m mtu) =
          frag_udp_message-Fragmented m mtu (omega arith) (omega arith) in
        elim (Option-cases (frag_udp_message m mtu)) [
          | inl e ↦ absurd (subst (Fragmented m mtu) e f)
          | inr (fs, e) ↦
              let (w, n) : Fragmented m mtu (some fs) = subst (Fragmented m mtu) e f in
              let (ps, s) = frag_udp_message-number m mtu fs (omega arith) e in
              record {
                fragments = fs;
                fragmented = e;
                whole = w;
                numbered = n;
                datagrams =
                    parts-IsDatagram m most mtu 0 (length fs) fs (omega arith)
                      (rw s (number-IsPart m 0 (length ps) ps h)) n;
              }
        ]
