-- ===== src/AckRanges/RoundTrip.antt =====
-- The list of ranges of an acknowledgement, written and read (queqiao/internal/protocol/frame.go).
use sing_quic.Prelude.{
  ℕ, zero, suc, ◌+◌, ◌*◌, ◌/◌, ◌<◌, ◌≤◌, ◌≡◌, refl, sym, ap, ◌∙◌, List, [], ◌∷◌, ◌++◌, length, drop,
  length-append, length-drop, tabulate, split-tabulate, get_or, get_or-IsByte, get_be-lt_u64, ap₂,
  subst, All-drop, put_u32, append-nil, append_assoc, put_u64, get_be, get_be-put_u64,
  length-put_u64, put_u64-get_be, u64_mod, All, IsByte, ok, arith,
}
use sing_quic.AckRanges.{Range, encode_loop, encode_ack_ranges, decode_loop, decode_ack_ranges}

-- Ranges of 64-bit offsets that lie above `low`, none empty, in order and disjoint.
abbrev pub IsRanges : ℕ → List Range → Type 0
IsRanges low [] = Unit {0}
IsRanges low ((start, end) ∷ rs) = (low ≤ start) × (start < end) × (end < u64_mod) × IsRanges end rs

wire : List Range → List ℕ
wire [] = []
wire ((start, end) ∷ rs) = put_u64 start ++ (put_u64 end ++ wire rs)

encode_loop-wire :
    (rs : List Range) (low : ℕ) (out : List ℕ)
    → IsRanges low rs
    → encode_loop rs out ≡ ok (out ++ wire rs)
unfolding encode_loop wire
encode_loop-wire [] low out h = ap ok (sym (append-nil out))
encode_loop-wire ((start, end) ∷ rs) low out (l, p, u, h) = ground (
  arith,
  encode_loop-wire rs end ((out ++ put_u64 start) ++ put_u64 end) h,
  append_assoc out (put_u64 start) (put_u64 end),
  append_assoc out (put_u64 start ++ put_u64 end) (wire rs),
  append_assoc (put_u64 start) (put_u64 end) (wire rs),
  append_assoc (out ++ put_u64 start) (put_u64 end) (wire rs),
  append_assoc out (put_u64 start) (put_u64 end ++ wire rs),
)

length-wire : (rs : List Range) → length (wire rs) ≡ 16 * length rs
unfolding wire
length-wire [] = refl
length-wire ((start, end) ∷ rs) =
    omega (arith, length-wire rs, length-put_u64 start, length-put_u64 end, length-append {0})

decode_loop-wire :
    (rs acc : List Range) (low : ℕ)
    → IsRanges low rs
    → decode_loop (length rs) (wire rs) low acc ≡ ok (acc ++ rs)
unfolding decode_loop wire put_u64 put_u32
decode_loop-wire [] acc low h = ap ok (sym (append-nil acc))
decode_loop-wire ((start, end) ∷ rs) acc low (l, p, u, h) = ground (
  arith,
  get_be-put_u64 start (omega arith),
  get_be-put_u64 end u,
  decode_loop-wire rs (acc ++ ((start, end) ∷ [])) end h,
  append_assoc acc ((start, end) ∷ []) rs,
)

encode_ack_ranges-wire :
    (rs : List Range) (low : ℕ)
    → IsRanges low rs
    → length rs ≤ 16
    → encode_ack_ranges rs ≡ ok (wire rs)
unfolding encode_ack_ranges
encode_ack_ranges-wire rs low h l = ground (arith, encode_loop-wire rs low [] h)

-- Ranges in order above `low`, at most sixteen of them, are accepted by `EncodeAckRanges`, and
-- `DecodeAckRanges` reads them back against any acknowledged offset up to `low`.
pub decode_ack_ranges-encode_ack_ranges :
    (rs : List Range) (low : ℕ)
    → IsRanges low rs
    → length rs ≤ 16
    → (payload : List ℕ) × (encode_ack_ranges rs ≡ ok payload)
      × (decode_ack_ranges payload low ≡ ok rs)
unfolding decode_ack_ranges
decode_ack_ranges-encode_ack_ranges rs low h l = (
  wire rs,
  encode_ack_ranges-wire rs low h l,
  ground (arith, length-wire rs, count, decode_loop-wire rs [] low h),
)
  where
    count : length (wire rs) / 16 ≡ length rs
    count = omega (arith, length-wire rs)

-- What the loop of `DecodeAckRanges` has read.
record Decoded (payload : List ℕ) (low count : ℕ) (acc out : List Range) : Type 0 where
  ranges : List Range
  whole : out ≡ acc ++ ranges
  ordered : IsRanges low ranges
  counted : length ranges ≡ count
  spelled : wire ranges ≡ payload

-- One round, with its sixteen bytes written out.
decode_round :
    (f : ℕ → ℕ) (rest : List ℕ) (count low : ℕ) (acc out : List Range)
    → ((i : ℕ) → f i < 256)
    → decode_loop (suc count) (tabulate 16 f ++ rest) low acc ≡ ok out
    → ((start end : ℕ)
        → decode_loop count rest end (acc ++ ((start, end) ∷ [])) ≡ ok out
        → Decoded rest end count (acc ++ ((start, end) ∷ [])) out)
    → Decoded (tabulate 16 f ++ rest) low (suc count) acc out
unfolding decode_loop wire
decode_round f rest count low acc out byte e more = record {
  ranges = (start, end) ∷ d.ranges;
  whole = d.whole ∙ append_assoc acc ((start, end) ∷ []) d.ranges;
  ordered = (
    ground arith,
    ground arith,
    get_be-lt_u64 _ _ _ _ _ _ _ _ (byte 8) (byte 9) (byte 10) (byte 11) (byte 12) (byte 13)
        (byte 14) (byte 15),
    d.ordered,
  );
  counted = ap suc d.counted;
  spelled = ap₂ ◌++◌ (eight 0) (ap₂ ◌++◌ (eight 8) d.spelled);
}
  where
    start : ℕ
    start = get_be (tabulate 8 f)

    end : ℕ
    end = get_be (tabulate 8 (λ j. f (j + 8)))

    d : Decoded rest end count (acc ++ ((start, end) ∷ [])) out
    d = more start end (ground arith)

    eight : (k : ℕ) → put_u64 (get_be (tabulate 8 (λ j. f (j + k)))) ≡ tabulate 8 (λ j. f (j + k))
    eight k =
        put_u64-get_be _ _ _ _ _ _ _ _ (byte (0 + k)) (byte (1 + k)) (byte (2 + k)) (byte (3 + k))
          (byte (4 + k)) (byte (5 + k)) (byte (6 + k)) (byte (7 + k))

decode_loop-Decoded :
    (count : ℕ) (payload : List ℕ) (low : ℕ) (acc out : List Range)
    → All IsByte payload
    → length payload ≡ 16 * count
    → decode_loop count payload low acc ≡ ok out
    → Decoded payload low count acc out
decode_loop-Decoded zero [] low acc out bs l e = record {
  ranges = [];
  whole = unfold decode_loop in cc (append-nil acc);
  ordered = tt;
  counted = refl;
  spelled = unfold wire in refl;
}
decode_loop-Decoded zero (b ∷ payload) low acc out bs l e = absurd (omega arith)
decode_loop-Decoded (suc count) payload low acc out bs l e =
    let s = split-tabulate 16 payload 0 (omega arith) in
    subst (λ q. Decoded q low (suc count) acc out) (sym s)
      (decode_round (λ i. get_or payload i 0) (drop 16 payload) count low acc out
        (λ i. get_or-IsByte payload i bs) (rw s at e)
        (λ start end more.
          decode_loop-Decoded count (drop 16 payload) end (acc ++ ((start, end) ∷ [])) out
            (All-drop IsByte 16 payload bs) (omega (arith, length-drop 16 payload)) more))

-- What `DecodeAckRanges` accepts from bytes is a list of at most sixteen ranges, none empty, in
-- order above the acknowledged offset and disjoint; and `EncodeAckRanges` writes them back as those
-- bytes.
pub decode_ack_ranges-IsRanges :
    (payload : List ℕ) (cumulative : ℕ) (out : List Range)
    → All IsByte payload
    → decode_ack_ranges payload cumulative ≡ ok out
    → IsRanges cumulative out × (length out ≤ 16) × (encode_ack_ranges out ≡ ok payload)
unfolding decode_ack_ranges
decode_ack_ranges-IsRanges payload cumulative out bs e =
    let d =
      decode_loop-Decoded (length payload / 16) payload cumulative [] out bs (ground arith)
        (ground arith) in
    let few : length d.ranges ≤ 16 = ground (arith, d.counted) in
    let written = encode_ack_ranges-wire d.ranges cumulative d.ordered few ∙ ap ok d.spelled in
    rw d.whole (d.ordered, few, written)
