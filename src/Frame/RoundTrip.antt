-- ===== src/Frame/RoundTrip.antt =====
-- `DecodeHeader` reads back what `Header.Encode` wrote (queqiao/internal/protocol/frame.go).
use sing_quic.Prelude.{
  ℕ, ◌<◌, ◌≤◌, ◌≡◌, refl, sym, true, List, ◌++◌, length, drop, drop-append_add, u64_mod, put_u16,
  put_u32, put_u64, get_be-put_u16, get_be-put_u32, get_be-put_u64, ok, arith, tabulate,
  eq-tabulate, get_or, subst,
}
use sing_quic.Frame.{Header, header_bytes, encode, raw_header, decode_header}
use sing_quic.Frame.{fields_valid, flags_valid, validate, max_payload}

-- The ranges of the fields' Go types.
pub record IsHeader (h : Header) : Type 0 where
  pub flags_range : h.flags < 65536
  pub session_size : length h.session_id ≡ 16
  pub flow_range : h.flow_id < u64_mod
  pub sequence_range : h.sequence < u64_mod
  pub payload_range : h.payload_len < 4294967296

-- The header with its session written out as sixteen bytes.
abbrev spread : Header → Header
spread h = record h { session_id = tabulate 16 (λ i. get_or h.session_id i 0) }

eq-spread : (h : Header) → IsHeader h → h ≡ spread h
eq-spread h r = λ i. record h { session_id = eq-tabulate h.session_id 16 0 r.session_size i }

-- Every field stands where `raw_header` looks for it.
raw_header-spread :
    (h : Header) (rest : List ℕ)
    → IsHeader h
    → raw_header (header_bytes (spread h) ++ rest) ≡ spread h
unfolding raw_header header_bytes put_u64 put_u32 put_u16
raw_header-spread h rest r = λ i. record (spread h) {
  flags = get_be-put_u16 h.flags r.flags_range i;
  flow_id = get_be-put_u64 h.flow_id r.flow_range i;
  sequence = get_be-put_u64 h.sequence r.sequence_range i;
  payload_len = get_be-put_u32 h.payload_len r.payload_range i;
}

pub raw_header-header_bytes :
    (h : Header) (rest : List ℕ) → IsHeader h → raw_header (header_bytes h ++ rest) ≡ h
raw_header-header_bytes h rest r =
    subst (λ k. raw_header (header_bytes k ++ rest) ≡ k) (sym (eq-spread h r))
      (raw_header-spread h rest r)

pub length-header_bytes : (h : Header) → IsHeader h → length (header_bytes h) ≡ 46
unfolding header_bytes put_u64 put_u32 put_u16
length-header_bytes h r = subst (λ k. length (header_bytes k) ≡ 46) (sym (eq-spread h r)) refl

-- What `Encode` checks.
pub record IsSound (h : Header) : Type 0 where
  pub fields : fields_valid h ≡ true
  pub flagged : flags_valid h ≡ true
  pub fits : h.payload_len ≤ max_payload

pub encode-eq_ok :
    (h : Header) (dst out : List ℕ)
    → encode h dst ≡ ok out
    → IsSound h × (46 ≤ length dst) × (out ≡ header_bytes h ++ drop 46 dst)
unfolding encode
encode-eq_ok h dst out e = (
  record { fields = ground arith; flagged = ground arith; fits = ground arith },
  ground arith,
  ground arith,
)

pub encode_of_sound :
    (h : Header) (dst : List ℕ)
    → IsSound h
    → 46 ≤ length dst
    → encode h dst ≡ ok (header_bytes h ++ drop 46 dst)
unfolding encode
encode_of_sound h dst s l = ground arith

version_of_fields : (h : Header) → fields_valid h ≡ true → h.version ≡ 1
unfolding fields_valid
version_of_fields h e = ground arith

validate_of_sound : (h : Header) → IsSound h → validate h ≡ ok tt
unfolding validate
validate_of_sound h s = ground arith

decode_header-spread :
    (h : Header) (rest : List ℕ)
    → IsHeader h
    → IsSound (spread h)
    → decode_header (header_bytes (spread h) ++ rest) ≡ ok (spread h)
unfolding decode_header header_bytes put_u64 put_u32 put_u16
decode_header-spread h rest r s = ground (
  arith,
  raw_header-spread h rest r,
  validate_of_sound (spread h) s,
  version_of_fields (spread h) s.fields,
)

pub decode_header-header_bytes :
    (h : Header) (rest : List ℕ)
    → IsHeader h
    → IsSound h
    → decode_header (header_bytes h ++ rest) ≡ ok h
decode_header-header_bytes h rest r s =
    subst (λ k. decode_header (header_bytes k ++ rest) ≡ ok k) (sym (eq-spread h r))
      (decode_header-spread h rest r (subst IsSound (eq-spread h r) s))

-- What `Encode` accepts it writes so that `DecodeHeader` reads the same header back, and bytes
-- behind the header stay as they were.
pub decode_header-encode :
    (h : Header) (dst out : List ℕ)
    → IsHeader h
    → encode h dst ≡ ok out
    → (decode_header out ≡ ok h) × (drop 46 out ≡ drop 46 dst)
decode_header-encode h dst out r e =
    let (s, l, o) = encode-eq_ok h dst out e in
    (
      rw o (decode_header-header_bytes h (drop 46 dst) r s),
      rw o (drop-append_add (header_bytes h) (drop 46 dst) 46 0 46 (length-header_bytes h r) refl),
    )
