-- ===== src/RingBuffer/Places.antt =====
-- `Offset`, `Front` and `Back` on the queue that a ring holds (congestion_meta2/ringbuffer.go), and
-- a write through the pointer that they give.
use sing_quic.Prelude.{
  ℕ, zero, suc, ◌+◌, ◌-◌, ◌%◌, ◌<◌, ◌≤◌, ◌≡◌, refl, sym, ap, ◌∙◌, ◌⊎◌, inl, inr, true, false, ◌||◌,
  Option, none, some, List, [], ◌∷◌, length, get_elem?, set, take, drop, arith, length-drop, ltb,
  leb, ltb→lt, Bool-cases, if◌then◌else◌,
}
use native.Mathlib.Nat.{mod-eq_of_lt, mod-eq-sub-mod}
use sing_quic.RingBuffer.{RingBuffer, len, empty, offset, front, back}
use sing_quic.RingBuffer.Slices.{
  length-set, take-set_lt, get_elem?-take, get_elem?-append_left, get_elem?-append_right,
  get_elem?-drop,
}
use sing_quic.RingBuffer.Contents.{
  rotate, IsValid, contents, rotate-set, length-contents, len-le, empty-len, head-lt, len_pos,
}

-- Where a place of the queue stands in the ring.
place :
    (h i n : ℕ)
    → h < n
    → i < n
    → let t = (h + i) % n in (t < n) × ((h + i ≡ t) ⊎ (h + i ≡ t + n) × (t < h))
place h i n hh hi = elim (Bool-cases (ltb (h + i) n)) [
  | inl e ↦
      let m : (h + i) % n ≡ h + i = mod-eq_of_lt (ltb→lt (h + i) n e) in
      (ground (arith, m, e), inl (sym m))
  | inr e ↦
      let m : (h + i) % n ≡ h + i - n =
        mod-eq-sub-mod {n = h + i} {m = n} (ground (arith, e)) ∙ mod-eq_of_lt (ground (arith, e)) in
      (ground (arith, m, e), inr (ground (arith, m, e), ground (arith, m, e)))
]

module _ {T : Type 0} where
  get_elem?_ge : (xs : List T) (i : ℕ) → length xs ≤ i → get_elem? xs i ≡ none
  get_elem?_ge [] i h = refl
  get_elem?_ge (x ∷ xs) zero h = absurd (omega arith)
  get_elem?_ge (x ∷ xs) (suc i) h = get_elem?_ge xs i (omega arith)

  -- The element `i` places behind the head, round the end of the ring.
  get_elem?-rotate :
      (h i : ℕ) (xs : List T)
      → h < length xs
      → i < length xs
      → get_elem? (rotate h xs) i ≡ get_elem? xs ((h + i) % length xs)
  unfolding rotate
  get_elem?-rotate h i xs hh hi = elim (Bool-cases (ltb (h + i) (length xs))) [
    | inl e ↦
        get_elem?-append_left (drop h xs) (take h xs) i (ground (arith, e, length-drop h xs))
        ∙ get_elem?-drop h i (h + i) xs refl
        ∙ ap (get_elem? xs) (sym (mod-eq_of_lt (ltb→lt (h + i) (length xs) e)))
    | inr e ↦
        get_elem?-append_right (drop h xs) (take h xs) i (h + i - length xs)
          (ground (arith, e, length-drop h xs))
        ∙ get_elem?-take h (h + i - length xs) xs (ground (arith, e))
        ∙ ap (get_elem? xs) (
            sym (
              mod-eq-sub-mod {n = h + i} {m = length xs} (ground (arith, e))
              ∙ mod-eq_of_lt (ground (arith, e))))
  ]

  -- What an index that may be missing selects.
  abbrev pub at : List T → Option ℕ → Option T
  at xs none = none
  at xs (some i) = get_elem? xs i

  -- `Offset` points at the element with that place in the queue, and panics exactly where the
  -- queue has none there.
  pub offset-contents :
      (r : RingBuffer T) (i : ℕ) → IsValid r → at r.ring (offset r i) ≡ get_elem? (contents r) i
  unfolding offset contents
  offset-contents r i v = elim (Bool-cases (empty r || leb (len r) i)) [
    | inl e ↦ rw (e) (sym (get_elem?_ge (contents r) i (outside e)))
    | inr e ↦ rw (e) (sym (inside e))
  ]
    where
      outside : (empty r || leb (len r) i) ≡ true → length (contents r) ≤ i
      outside e = ground (arith, e, length-contents r v, empty-len r)

      inside :
          (empty r || leb (len r) i) ≡ false
          → get_elem? (contents r) i ≡ get_elem? r.ring ((r.head_pos + i) % length r.ring)
      inside e =
          get_elem?-take (len r) i (rotate r.head_pos r.ring) (ground (arith, e))
          ∙ get_elem?-rotate r.head_pos i r.ring (head-lt r v (ground (arith, e)))
              (ground (arith, e, len-le r v))

  -- Both ends are elements at an offset.
  front-offset : (r : RingBuffer T) → IsValid r → front r ≡ offset r 0
  unfolding front offset
  front-offset r v = elim (Bool-cases (empty r)) [
    | inl e ↦ rw (e) refl
    | inr e ↦
        rw (e, nonzero e)
          (ap some (
            sym (
              mod-eq_of_lt {n = r.head_pos + 0} {m = length r.ring} (omega (arith, head-lt r v e))
              ∙ omega arith)))
  ]
    where
      nonzero : empty r ≡ false → leb (len r) 0 ≡ false
      nonzero e = ground (arith, len_pos r v e)

  back-offset : (r : RingBuffer T) → back r ≡ offset r (len r - 1)
  unfolding back offset
  back-offset r = ground arith

  -- `Front` points at the first element and `Back` at the last, and both panic on a buffer that
  -- holds nothing.
  pub ends-contents :
      (r : RingBuffer T)
      → IsValid r
      → (at r.ring (front r) ≡ get_elem? (contents r) 0)
        × (at r.ring (back r) ≡ get_elem? (contents r) (len r - 1))
  ends-contents r v = (
    ap (at r.ring) (front-offset r v) ∙ offset-contents r 0 v,
    ap (at r.ring) (back-offset r) ∙ offset-contents r (len r - 1) v,
  )

  -- Where `Offset` points, inside the queue.
  pub offset-eq_some :
      (r : RingBuffer T) (i : ℕ) → i < len r → offset r i ≡ some ((r.head_pos + i) % length r.ring)
  unfolding offset
  offset-eq_some r i h = elim (Bool-cases (empty r || leb (len r) i)) [
    | inl e ↦ absurd (ground (arith, e, empty-len r))
    | inr e ↦ rw (e) refl
  ]

  -- A write through the pointer that `Offset` gives writes into the queue.
  pub contents-set :
      (r : RingBuffer T) (i : ℕ) (v : T)
      → IsValid r
      → i < len r
      → let r' = record r { ring = set r.ring ((r.head_pos + i) % length r.ring) v } in
        IsValid r' × (contents r' ≡ set (contents r) i v)
  unfolding contents len
  contents-set r i v w h =
      let t = (r.head_pos + i) % length r.ring in
      let p =
        place r.head_pos i (length r.ring) (head-lt r w not_empty) (omega (arith, len-le r w, h)) in
      let same : length (set r.ring t v) ≡ length r.ring = length-set r.ring t v in
      (
        record {
          head_in = rw same w.head_in;
          tail_in = rw same w.tail_in;
          full_at = rw same w.full_at;
        },
        ap (λ n. take n (rotate r.head_pos (set r.ring t v)))
              (ap
                (λ n.
                  if r.full
                  then n
                  else if leb r.head_pos r.tail_pos
                  then r.tail_pos - r.head_pos
                  else r.tail_pos + n - r.head_pos)
                same)
            ∙ ap (take (len r)) (rotate-set r.head_pos t i r.ring v (head-lt r w not_empty) p.0 p.1)
            ∙ take-set_lt (len r) i (rotate r.head_pos r.ring) v h,
      )
    where
      not_empty : empty r ≡ false
      not_empty = elim (Bool-cases (empty r)) [
        | inl e ↦ absurd (omega (arith, empty-len r e, h))
        | inr e ↦ e
      ]
