-- ===== src/RingBuffer/Contents.antt =====
-- The queue that a ring holds (congestion_meta2/ringbuffer.go).
use sing_quic.Prelude.{
  ℕ, ◌+◌, ◌<◌, ◌≤◌, ◌≡◌, refl, sym, ap, ◌∙◌, ◌⊎◌, inl, inr, true, false, List, [], ◌++◌, length,
  set, take, drop, arith, length-append, length-take, length-drop,
}
use sing_quic.RingBuffer.{RingBuffer, init, len, empty, clear}
use sing_quic.RingBuffer.Slices.{
  drop-set_ge, take-set_ge, drop-set_lt, take-set_lt, set-append_left, set-append_right,
}

-- The ring read from its head on.
unfoldable pub rotate : {T : Type 0} → ℕ → List T → List T
rotate h xs = drop h xs ++ take h xs

-- Both positions lie in the ring, or at 0 in a ring without room.
pub record IsValid {T : Type 0} (r : RingBuffer T) : Type 0 where
  pub head_in : (r.head_pos ≡ 0) ⊎ (r.head_pos < length r.ring)
  pub tail_in : (r.tail_pos ≡ 0) ⊎ (r.tail_pos < length r.ring)
  pub full_at : r.full ≡ true → (r.head_pos ≡ r.tail_pos) × (0 < length r.ring)

-- The elements in the order in which `PopFront` returns them.
unfoldable pub contents : {T : Type 0} → RingBuffer T → List T
unfolding rotate
contents r = take (len r) (rotate r.head_pos r.ring)

module _ {T : Type 0} where
  pub length-rotate : (h : ℕ) (xs : List T) → length (rotate h xs) ≡ length xs
  unfolding rotate
  length-rotate h xs =
      omega (arith, length-append (drop h xs) (take h xs), length-take h xs, length-drop h xs)

  pub rotate-set :
      (h t j : ℕ) (xs : List T) (v : T)
      → h < length xs
      → t < length xs
      → (h + j ≡ t) ⊎ (h + j ≡ t + length xs) × (t < h)
      → rotate h (set xs t v) ≡ set (rotate h xs) j v
  unfolding rotate
  rotate-set h t j xs v hh ht (inl e) =
      ap (λ l. l ++ take h (set xs t v)) (drop-set_ge h t j xs v e)
      ∙ ap (λ l. set (drop h xs) j v ++ l) (take-set_ge h t xs v (omega arith))
      ∙ sym (set-append_left (drop h xs) (take h xs) j v (omega (arith, length-drop h xs)))
  rotate-set h t j xs v hh ht (inr c) =
      ap (λ l. l ++ take h (set xs t v)) (drop-set_lt h t xs v c.1)
      ∙ ap (λ l. drop h xs ++ l) (take-set_lt h t xs v c.1)
      ∙ sym (set-append_right (drop h xs) (take h xs) j t v (omega (arith, length-drop h xs, c.0)))

  pub length-contents : (r : RingBuffer T) → IsValid r → length (contents r) ≡ len r
  unfolding contents len
  length-contents r v = ground (
    arith,
    length-take (len r) (rotate r.head_pos r.ring),
    length-rotate r.head_pos r.ring,
    v.head_in,
    v.tail_in,
  )

  pub len-le : (r : RingBuffer T) → IsValid r → len r ≤ length r.ring
  unfolding len
  len-le r v = ground (arith, v.head_in, v.tail_in)

  pub empty-len : (r : RingBuffer T) → empty r ≡ true → len r ≡ 0
  unfolding empty len
  empty-len r e = ground (arith, e)

  pub contents-empty : (r : RingBuffer T) → empty r ≡ true → contents r ≡ []
  unfolding contents empty len
  contents-empty r e = ap (λ n. take n (rotate r.head_pos r.ring)) {y = 0} (ground (arith, e))

  pub head-lt : (r : RingBuffer T) → IsValid r → empty r ≡ false → r.head_pos < length r.ring
  unfolding empty
  head-lt r v e = ground (arith, v.head_in, v.tail_in, v.full_at, e)

  pub len_pos : (r : RingBuffer T) → IsValid r → empty r ≡ false → 0 < len r
  unfolding empty len
  len_pos r v e = ground (arith, v.head_in, v.tail_in, v.full_at, e)

  module _ (z : T) where
    -- `Init` and `Clear` leave a well-formed buffer that holds nothing, whatever its size.
    pub init-contents : (size : ℕ) → IsValid (init z size) × (contents (init z size) ≡ [])
    unfolding init contents len
    init-contents size =
        (record { head_in = inl refl; tail_in = inl refl; full_at = ground arith }, refl)

    pub clear-contents : (r : RingBuffer T) → IsValid (clear z r) × (contents (clear z r) ≡ [])
    unfolding clear init
    clear-contents r = init-contents (length r.ring)
