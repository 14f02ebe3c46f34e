-- ===== src/Frame/Canonical.antt =====
-- What `DecodeHeader` accepts is canonical (queqiao/internal/protocol/frame.go): one header has one
-- spelling on the wire.
use sing_quic.Prelude.{
  ℕ, ◌+◌, ◌<◌, ◌≤◌, ◌≡◌, sym, ap, ◌∙◌, List, [], ◌∷◌, ◌++◌, length, drop, get_or, tabulate,
  split-tabulate, ok, arith, All, IsByte, put_u32, put_u64, put_u16, put_u16-get_be, put_u32-get_be,
  put_u64-get_be, get_or-IsByte, get_be, true,
}
use sing_quic.Frame.{
  Header, header_bytes, encode, decode_header, raw_header, validate, max_payload, fields_valid,
  flags_valid,
}
use sing_quic.Frame.RoundTrip.{encode_of_sound}

-- Everything that `DecodeHeader` has checked when it returns a header.
record Checked (src : List ℕ) (h : Header) : Type 0 where
  long : 46 ≤ length src
  magic0 : get_or src 0 0 ≡ b'W'
  magic1 : get_or src 1 0 ≡ b'O'
  raw : raw_header src ≡ h
  fields : fields_valid h ≡ true
  flagged : flags_valid h ≡ true
  fits : h.payload_len ≤ max_payload
  zero43 : get_or src 43 0 ≡ 0
  zero44 : get_or src 44 0 ≡ 0
  zero45 : get_or src 45 0 ≡ 0

decode_header-Checked : (src : List ℕ) (h : Header) → decode_header src ≡ ok h → Checked src h
unfolding decode_header validate
decode_header-Checked src h e = record {
  long = ground arith;
  magic0 = ground arith;
  magic1 = ground arith;
  raw = ground arith;
  fields = ground arith;
  flagged = ground arith;
  fits = ground arith;
  zero43 = ground arith;
  zero44 = ground arith;
  zero45 = ground arith;
}

-- Written back, 46 bytes with the magic and the reserved zeros are the same.
module _ (f : ℕ → ℕ) (byte : (i : ℕ) → f i < 256) (rest : List ℕ) where
  header_bytes-raw_header :
      f 0 ≡ b'W'
      → f 1 ≡ b'O'
      → f 43 ≡ 0
      → f 44 ≡ 0
      → f 45 ≡ 0
      → header_bytes (raw_header (tabulate 46 f ++ rest)) ++ rest ≡ tabulate 46 f ++ rest
  unfolding header_bytes raw_header put_u16 put_u64 put_u32
  header_bytes-raw_header m0 m1 z43 z44 z45 = λ i.
      sym m0 i
      ∷ sym m1 i
      ∷ f 2
      ∷ f 3
      ∷ (put_u16-get_be (f 4) (f 5) (byte 4) (byte 5) i
          ++ (tabulate 16 (λ k. f (k + 6))
              ++ (eight 22 i
                  ++ (eight 30 i
                      ++ (four i ++ (f 42 ∷ sym z43 i ∷ sym z44 i ∷ sym z45 i ∷ rest))))))
    where
      eight : (k : ℕ) → put_u64 (get_be (tabulate 8 (λ j. f (j + k)))) ≡ tabulate 8 (λ j. f (j + k))
      eight k =
          put_u64-get_be _ _ _ _ _ _ _ _ (byte (0 + k)) (byte (1 + k)) (byte (2 + k)) (byte (3 + k))
            (byte (4 + k)) (byte (5 + k)) (byte (6 + k)) (byte (7 + k))

      four : put_u32 (get_be (f 38 ∷ f 39 ∷ f 40 ∷ f 41 ∷ [])) ≡ f 38 ∷ f 39 ∷ f 40 ∷ f 41 ∷ []
      four = put_u32-get_be _ _ _ _ (byte 38) (byte 39) (byte 40) (byte 41)

-- A header that `DecodeHeader` accepts from bytes is written back by `Encode` as the very same
-- bytes: each accepted header has one spelling.
pub encode-decode_header :
    (src : List ℕ) (h : Header) → All IsByte src → decode_header src ≡ ok h → encode h src ≡ ok src
encode-decode_header src h bs e =
    let c = decode_header-Checked src h e in
    let s : src ≡ tabulate 46 (λ i. get_or src i 0) ++ drop 46 src =
      split-tabulate 46 src 0 c.long in
    encode_of_sound h src (record { fields = c.fields; flagged = c.flagged; fits = c.fits }) c.long
    ∙ ap ok (
        ap (λ k. header_bytes k ++ drop 46 src) (sym c.raw ∙ ap raw_header s)
        ∙ header_bytes-raw_header (λ i. get_or src i 0) (λ i. get_or-IsByte src i bs) (drop 46 src)
            c.magic0 c.magic1 c.zero43 c.zero44 c.zero45
        ∙ sym s)
