-- ===== src/Frame/Stream.antt =====
-- Frames one behind the other: what `AppendFrame` wrote, `ReadFrame` and `ParseFrame` take apart
-- (queqiao/internal/protocol/frame.go).
use sing_quic.Prelude.{
  ℕ, ◌≡◌, refl, List, [], ◌∷◌, ◌++◌, length, take, drop, map, length-append, append-nil,
  append_assoc, drop-append_add, take-append_self, Result, ok, err, ◌>>=◌, >>=-eq-ok, arith, All,
  Bool-cases, inl, inr, ltb, replicate,
}
use sing_quic.Frame.{
  Frame, FrameError, header_bytes, encode, decode_header, append_frame, parse_frame, read_frame,
  read_full, max_payload,
}
use sing_quic.Frame.RoundTrip.{
  IsHeader, IsSound, encode-eq_ok, length-header_bytes, decode_header-header_bytes,
}

-- The frame with the length that `AppendFrame` fills in.
abbrev pub framed : Frame → Frame
framed f = record f { header = record f.header { payload_len = length f.payload } }

abbrev pub wire : Frame → List ℕ
wire f = header_bytes (framed f).header ++ f.payload

err-ne-ok : {E A : Type 0} {e : E} {a : A} → err e ≡ ok a → ⊥
err-ne-ok p = cc

-- Reading a prefix of known length from a stream.
read_full-append : (xs ys : List ℕ) (n : ℕ) → length xs ≡ n → read_full n (xs ++ ys) ≡ ok (xs, ys)
unfolding read_full
read_full-append xs ys n h = ground (
  arith,
  length-append xs ys,
  take-append_self xs ys n h,
  drop-append_add xs ys n 0 n h (omega arith),
)

pub append_frame-eq_ok :
    (dst out : List ℕ) (f : Frame)
    → append_frame dst f ≡ ok out
    → IsSound (framed f).header × (out ≡ dst ++ wire f)
unfolding append_frame
append_frame-eq_ok dst out f e = elim (Bool-cases (ltb max_payload (length f.payload))) [
  | inl long ↦ absurd (err-ne-ok (rw long at e))
  | inr fits ↦
      let (h, e1, e2) =
        >>=-eq-ok (encode (framed f).header (replicate 46 0)) (λ h. ok (dst ++ (h ++ f.payload)))
          out (rw fits at e) in
      let (s, l, o) = encode-eq_ok (framed f).header (replicate 46 0) h e1 in
      (s, cc (o, append-nil (header_bytes (framed f).header)))
]

framed-IsHeader :
    (f : Frame) → IsHeader f.header → IsSound (framed f).header → IsHeader (framed f).header
framed-IsHeader f r s = record {
  flags_range = r.flags_range;
  session_size = r.session_size;
  flow_range = r.flow_range;
  sequence_range = r.sequence_range;
  payload_range = omega (arith, s.fits);
}

module _ (f : Frame) (r : IsHeader f.header) (s : IsSound (framed f).header) where
  head : List ℕ
  head = header_bytes (framed f).header

  length-head : length (header_bytes (framed f).header) ≡ 46
  length-head = length-header_bytes (framed f).header (framed-IsHeader f r s)

  decode_header-head : decode_header (header_bytes (framed f).header) ≡ ok (framed f).header
  decode_header-head =
      rw append-nil at (decode_header-header_bytes (framed f).header [] (framed-IsHeader f r s) s)

  pub parse_frame-wire : parse_frame (wire f) ≡ ok (framed f)
  unfolding parse_frame
  parse_frame-wire = ground (
    arith,
    length-head,
    decode_header-head,
    length-append (header_bytes (framed f).header) f.payload,
    take-append_self (header_bytes (framed f).header) f.payload 46 length-head,
    drop-append_add (header_bytes (framed f).header) f.payload 46 0 46 length-head refl,
  )

  pub read_frame-wire : (more : List ℕ) → read_frame (wire f ++ more) ≡ ok (framed f, more)
  unfolding read_frame
  read_frame-wire more =
      rw
        (
          append_assoc,
          read_full-append (header_bytes (framed f).header) (f.payload ++ more) 46 length-head,
        )
        (rw (◌>>=◌, decode_header-head)
          (rw (read_full-append f.payload more (length f.payload) refl)))

-- `AppendFrame` for each frame of a list.
unfoldable pub append_all : List ℕ → List Frame → Result FrameError (List ℕ)
append_all dst [] = ok dst
append_all dst (f ∷ fs) = append_frame dst f >>= λ out. append_all out fs

-- `ReadFrame`, called once for each frame, returns them in order and leaves `rest`.
unfoldable pub Reads : List Frame → List ℕ → List ℕ → Type 0
Reads [] src rest = src ≡ rest
Reads (f ∷ fs) src rest = (mid : List ℕ) × (read_frame src ≡ ok (f, mid)) × Reads fs mid rest

wires : List Frame → List ℕ
wires [] = []
wires (f ∷ fs) = wire f ++ wires fs

append_all-eq_ok :
    (fs : List Frame) (dst out : List ℕ)
    → append_all dst fs ≡ ok out
    → All (λ f. IsSound (framed f).header) fs × (out ≡ dst ++ wires fs)
unfolding append_all wires
append_all-eq_ok [] dst out e = (tt, cc (append-nil dst))
append_all-eq_ok (f ∷ fs) dst out e =
    let (mid, e1, e2) = >>=-eq-ok (append_frame dst f) (λ m. append_all m fs) out e in
    let (s, o) = append_frame-eq_ok dst mid f e1 in
    let (ss, o') = append_all-eq_ok fs mid out e2 in
    ((s, ss), cc (o, o', append_assoc dst (wire f) (wires fs)))

Reads-wires :
    (fs : List Frame) (rest : List ℕ)
    → All (λ f. IsHeader f.header) fs
    → All (λ f. IsSound (framed f).header) fs
    → Reads (map framed fs) (wires fs ++ rest) rest
unfolding Reads wires
Reads-wires [] rest rs ss = refl
Reads-wires (f ∷ fs) rest rs ss = (
  wires fs ++ rest,
  rw (append_assoc (wire f) (wires fs) rest) (read_frame-wire f rs.0 ss.0 (wires fs ++ rest)),
  Reads-wires fs rest rs.1 ss.1,
)

-- Frames that `AppendFrame` accepts one after the other are read back by `ReadFrame`, in order,
-- each with the payload length filled in, and the bytes behind them are left on the stream.
pub Reads-append_all :
    (fs : List Frame) (out rest : List ℕ)
    → All (λ f. IsHeader f.header) fs
    → append_all [] fs ≡ ok out
    → Reads (map framed fs) (out ++ rest) rest
Reads-append_all fs out rest rs e =
    let (ss, o) = append_all-eq_ok fs [] out e in rw o (Reads-wires fs rest rs ss)

-- A frame that `AppendFrame` accepts stands whole behind the bytes that were there, and
-- `ParseFrame` reads it back with the payload length filled in.
pub parse_frame-append_frame :
    (dst out : List ℕ) (f : Frame)
    → IsHeader f.header
    → append_frame dst f ≡ ok out
    → (take (length dst) out ≡ dst) × (parse_frame (drop (length dst) out) ≡ ok (framed f))
parse_frame-append_frame dst out f r e =
    let (s, o) = append_frame-eq_ok dst out f e in
    (
      rw o (take-append_self dst (wire f) (length dst) refl),
      rw (o, drop-append_add dst (wire f) (length dst) 0 (length dst) refl (omega arith))
          (parse_frame-wire f r s),
    )
