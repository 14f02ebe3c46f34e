-- ===== src/Hysteria2/Requests.antt =====
-- The requests and responses of the proxy (hysteria2/internal/protocol/proxy.go), written and read.
use sing_quic.Prelude.{
  ℕ, ◌≤◌, ◌≡◌, refl, Option, some, List, [], ◌∷◌, ◌++◌, length, take, Bool, true, false,
  append_assoc, length-append, take-append_self, drop-append_add, length-take, ok, arith, ltb,
  if◌then◌else◌, ◌==◌,
}
use sing_quic.Hysteria2.{
  IsVarint, ProtocolError, read_full, discard, read_text, skip_padding, read_tcp_request,
  read_tcp_response, write_v_string, write_tcp_request, write_tcp_response, cut_message,
  address_length, message_length,
}
use sing_quic.Hysteria2.Varint.{IsWritten, varint_put-IsWritten}

pub read_full-append :
    (a rest : List ℕ) (n : ℕ) → length a ≡ n → read_full n (a ++ rest) ≡ ok (a, rest)
unfolding read_full
read_full-append a rest n e =
    rw (read_full, take-append_self a rest n e, drop-append_add a rest n 0 n e (omega arith))
      (ground (arith, length-append a rest, e))

discard-append : (a rest : List ℕ) → discard (length a) (a ++ rest) ≡ ok rest
unfolding discard
discard-append a rest =
    rw (discard, drop-append_add a rest (length a) 0 (length a) refl (omega arith))
      (ground (arith, length-append a rest))

cut_le : (n : ℕ) (msg : List ℕ) → length (if◌then◌else◌ (ltb n (length msg)) (take n msg) msg) ≤ n
cut_le n msg = ground (arith, length-take n msg)

cut_message_le : (msg : List ℕ) → length (cut_message msg) ≤ 2048
cut_message_le msg = cut_le 2048 msg

module _ (read : List ℕ → Option (ℕ × List ℕ)) (len : ℕ → ℕ) (law : IsVarint read len) where
  pub read_text-append :
      (least most : ℕ) (e : ProtocolError) (value rest : List ℕ)
      → least ≤ length value
      → length value ≤ most
      → most ≤ 4096
      → (w : IsWritten read len (length value))
      → read_text read least most e (w.bytes ++ (value ++ rest)) ≡ ok (value, rest)
  unfolding read_text
  read_text-append least most e value rest lo hi m w =
      rw (read_text, w.reads (value ++ rest), read_full-append value rest (length value) refl)
        (ground arith)

  skip_padding-append :
      (padding rest : List ℕ)
      → length padding ≤ 4096
      → (w : IsWritten read len (length padding))
      → skip_padding read (w.bytes ++ (padding ++ rest)) ≡ ok rest
  unfolding skip_padding
  skip_padding-append [] rest h w = rw (skip_padding, w.reads rest) refl
  skip_padding-append (p ∷ ps) rest h w =
      rw (skip_padding, w.reads ((p ∷ ps) ++ rest), discard-append (p ∷ ps) rest) (ground arith)

  -- A request with an address of 1 to 2048 bytes and up to 4096 bytes of padding is written without
  -- a panic; it starts with the type 0x401, and behind that ReadTCPRequest reads the address and
  -- leaves the payload, where quicvarint.Read keeps to RFC 9000.
  pub read_tcp_request-write :
      (padding addr payload : List ℕ)
      → (1 ≤ length addr) × (length addr ≤ 2048)
      → length padding ≤ 4096
      → (out rest : List ℕ) × (write_tcp_request padding addr payload ≡ ok out)
        × (read out ≡ some (0x401, rest))
        × (read_tcp_request read rest ≡ ok (addr, payload))
  unfolding write_tcp_request write_v_string read_tcp_request
  read_tcp_request-write padding addr payload a p =
      let k : IsWritten read len 0x401 = varint_put-IsWritten read len law 0x401 (omega arith) in
      let w : IsWritten read len (length addr) =
        varint_put-IsWritten read len law (length addr) (omega (arith, a)) in
      let q : IsWritten read len (length padding) =
        varint_put-IsWritten read len law (length padding) (omega arith) in
      let tail : List ℕ = q.bytes ++ (padding ++ payload) in
      let address : List ℕ = w.bytes ++ addr in
      (
        k.bytes ++ (address ++ tail),
        address ++ tail,
        rw (k.written, w.written, q.written) refl,
        k.reads (address ++ tail),
        rw
            (
              append_assoc w.bytes addr tail,
              read_tcp_request,
              read_text-append 1 2048 address_length addr tail a.0 a.1 (omega arith) w,
              skip_padding-append padding payload p q,
            )
            refl,
      )

  status_bit : (b : Bool) → (if◌then◌else◌ b 0 1 == 0) ≡ b
  status_bit true = refl
  status_bit false = refl

  -- A response with up to 4096 bytes of padding is written without a panic, and ReadTCPResponse
  -- reads the status and the first 2048 bytes of the message and leaves the payload, where
  -- quicvarint.Read keeps to RFC 9000.
  pub read_tcp_response-write :
      (padding : List ℕ) (success : Bool) (msg payload : List ℕ)
      → length padding ≤ 4096
      → (out : List ℕ) × (write_tcp_response padding success msg payload ≡ ok out)
        × (read_tcp_response read out
            ≡ ok (record { success = success; message = cut_message msg; rest = payload }))
  unfolding write_tcp_response write_v_string read_tcp_response
  read_tcp_response-write padding success msg payload p =
      let text : List ℕ = cut_message msg in
      let w : IsWritten read len (length text) =
        varint_put-IsWritten read len law (length text) (omega (arith, cut_message_le msg)) in
      let q : IsWritten read len (length padding) =
        varint_put-IsWritten read len law (length padding) (omega arith) in
      let tail : List ℕ = q.bytes ++ (padding ++ payload) in
      let status : ℕ = if◌then◌else◌ success 0 1 in
      let r : read_full 1 (status ∷ (w.bytes ++ (text ++ tail)))
          ≡ ok (status ∷ [], w.bytes ++ (text ++ tail)) =
        read_full-append (status ∷ []) (w.bytes ++ (text ++ tail)) 1 refl in
      (
        status ∷ ((w.bytes ++ text) ++ tail),
        rw (w.written, q.written) refl,
        rw
            (
              append_assoc w.bytes text tail,
              read_tcp_response,
              r,
              read_text-append 0 2048 message_length text tail (omega arith) (cut_message_le msg)
                  (omega arith) w,
              skip_padding-append padding payload p q,
              status_bit success,
            )
            refl,
      )
