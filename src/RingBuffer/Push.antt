-- ===== src/RingBuffer/Push.antt =====
-- `PushBack` on the queue that a ring holds (congestion_meta2/ringbuffer.go).
use sing_quic.Prelude.{
  suc, ◌+◌, ◌-◌, ◌*◌, ◌<◌, ◌≡◌, refl, sym, ap, ◌∙◌, ◌⊎◌, inl, inr, true, false, ◌||◌, [], ◌∷◌, ◌++◌,
  append-nil, length, set, take, replicate, arith, length-append, length-replicate,
  take-append_self, ◌==◌, Bool-cases, if◌then◌else◌,
}
use sing_quic.RingBuffer.{RingBuffer, grow, len, put_back, push_back}
use sing_quic.RingBuffer.Slices.{length-set, take-set_self, take-length}
use sing_quic.RingBuffer.Contents.{rotate, IsValid, contents, length-rotate, rotate-set}

module _ {T : Type 0} where
  -- A ring that is not full has room at `len`.
  len-lt :
      (r : RingBuffer T) → IsValid r → r.full ≡ false → 0 < length r.ring → len r < length r.ring
  unfolding len
  len-lt r v f h = ground (arith, v.head_in, v.tail_in, f)

  at_len :
      (r : RingBuffer T)
      → IsValid r
      → r.full ≡ false
      → 0 < length r.ring
      → (r.head_pos + len r ≡ r.tail_pos)
        ⊎ (r.head_pos + len r ≡ r.tail_pos + length r.ring) × (r.tail_pos < r.head_pos)
  unfolding len
  at_len r v f h = ground (arith, v.head_in, v.tail_in, f)

  put_back-len :
      (r : RingBuffer T) (x : T)
      → IsValid r
      → r.full ≡ false
      → 0 < length r.ring
      → len (put_back r x) ≡ suc (len r)
  unfolding len put_back
  put_back-len r x v f h = ground (arith, v.head_in, v.tail_in, f, length-set r.ring r.tail_pos x)

  put_back-IsValid :
      (r : RingBuffer T) (x : T)
      → IsValid r
      → r.full ≡ false
      → 0 < length r.ring
      → IsValid (put_back r x)
  unfolding put_back
  put_back-IsValid r x v f h = record {
    head_in = ground (arith, v.head_in, length-set r.ring r.tail_pos x);
    tail_in = ground (arith, v.tail_in, length-set r.ring r.tail_pos x);
    full_at = ground (arith, f, length-set r.ring r.tail_pos x);
  }

  put_back-contents :
      (r : RingBuffer T) (x : T)
      → IsValid r
      → r.full ≡ false
      → 0 < length r.ring
      → contents (put_back r x) ≡ contents r ++ (x ∷ [])
  unfolding contents put_back
  put_back-contents r x v f h =
      ap (λ n. take n (rotate r.head_pos (set r.ring r.tail_pos x))) (put_back-len r x v f h)
      ∙ ap (take (suc (len r))) (
          rotate-set r.head_pos r.tail_pos (len r) r.ring x (ground (arith, v.head_in))
            (ground (arith, v.tail_in)) (at_len r v f h))
      ∙ take-set_self (len r) (rotate r.head_pos r.ring) x
          (omega (arith, len-lt r v f h, length-rotate r.head_pos r.ring))

  module _ (z : T) where
    grow-IsValid : (r : RingBuffer T) → IsValid (grow z r)
    unfolding grow rotate
    grow-IsValid r = record {
      head_in = inl refl;
      tail_in = ground (
        arith,
        length-rotate r.head_pos r.ring,
        length-append (rotate r.head_pos r.ring) (
            replicate ((if length r.ring * 2 == 0 then 1 else length r.ring * 2) - length r.ring)
              z),
        length-replicate ((if length r.ring * 2 == 0 then 1 else length r.ring * 2) - length r.ring)
            z,
      );
      full_at = ground arith;
    }

    grow-len : (r : RingBuffer T) → len (grow z r) ≡ length r.ring
    unfolding len grow
    grow-len r = ground arith

    grow-contents :
        (r : RingBuffer T)
        → IsValid r
        → (r.full ≡ true) ⊎ (length r.ring ≡ 0)
        → contents (grow z r) ≡ contents r
    unfolding contents grow rotate len
    grow-contents r v h =
        ap (take (len (grow z r))) (append-nil (grow z r).ring)
        ∙ ap (λ n. take n (grow z r).ring) (grow-len r)
        ∙ take-append_self (rotate r.head_pos r.ring)
            (replicate ((if length r.ring * 2 == 0 then 1 else length r.ring * 2) - length r.ring)
              z)
            (length r.ring) (length-rotate r.head_pos r.ring)
        ∙ sym (
            take-length (len r) (rotate r.head_pos r.ring)
              (ground (arith, v.tail_in, v.head_in, length-rotate r.head_pos r.ring)))

    grow-room : (r : RingBuffer T) → IsValid r → 0 < length (grow z r).ring
    unfolding grow rotate
    grow-room r v = ground (
      arith,
      length-append (rotate r.head_pos r.ring)
          (replicate ((if length r.ring * 2 == 0 then 1 else length r.ring * 2) - length r.ring) z),
      length-rotate r.head_pos r.ring,
      length-replicate ((if length r.ring * 2 == 0 then 1 else length r.ring * 2) - length r.ring)
          z,
    )

    -- `PushBack` keeps the buffer well formed and puts the element last, whether or not the ring had
    -- to grow first.
    pub push_back-contents :
        (r : RingBuffer T) (x : T)
        → IsValid r
        → IsValid (push_back z r x) × (contents (push_back z r x) ≡ contents r ++ (x ∷ []))
    unfolding push_back grow
    push_back-contents r x v = elim (Bool-cases (r.full || length r.ring == 0)) [
      | inl e ↦ rw (e) (grown (ground (arith, e)))
      | inr e ↦ rw (e) (
          (
            put_back-IsValid r x v (ground (arith, e)) (ground (arith, e)),
            put_back-contents r x v (ground (arith, e)) (ground (arith, e)),
          ))
    ]
      where
        grown :
            (r.full ≡ true) ⊎ (length r.ring ≡ 0)
            → IsValid (put_back (grow z r) x)
              × (contents (put_back (grow z r) x) ≡ contents r ++ (x ∷ []))
        grown h = (
          put_back-IsValid (grow z r) x (grow-IsValid r) refl (grow-room r v),
          put_back-contents (grow z r) x (grow-IsValid r) refl (grow-room r v)
              ∙ ap (λ l. l ++ (x ∷ [])) (grow-contents r v h),
        )
