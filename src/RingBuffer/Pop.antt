-- ===== src/RingBuffer/Pop.antt =====
-- `PopFront` and `Empty` on the queue that a ring holds (congestion_meta2/ringbuffer.go).
use sing_quic.Prelude.{
  ℕ, suc, ◌+◌, ◌<◌, ◌≡◌, refl, sym, ap, ◌∙◌, inl, inr, Bool, true, false, Option, none, some, List,
  [], ◌∷◌, ◌++◌, append-nil, append_assoc, length, get_or, set, take, drop, arith, length-append,
  length-take, length-drop, ◌==◌, Bool-cases, if◌then◌else◌,
}
use sing_quic.RingBuffer.{RingBuffer, len, empty, pop_front}
use sing_quic.RingBuffer.Slices.{
  length-set, drop-set_lt, take-set_self, take-append_le, take-length, drop-length, drop_cons,
}
use sing_quic.RingBuffer.Contents.{rotate, IsValid, contents, len-le, contents-empty, head-lt}

module _ {T : Type 0} where
  -- `PopFront` of a queue: a panic on the empty one, else its first element and the others.
  abbrev pub Popped : List T → Option (T × RingBuffer T) → Type 0
  Popped [] o = o ≡ none
  Popped (x ∷ xs) o = (r : RingBuffer T) × (o ≡ some (x, r)) × IsValid r × (contents r ≡ xs)

  -- `Empty` tells whether the queue has no element.
  abbrev pub is_nil : List T → Bool
  is_nil [] = true
  is_nil (x ∷ xs) = false

  module _ (z : T) where
    -- What `PopFront` leaves of a buffer that is not empty.
    popped : RingBuffer T → RingBuffer T
    popped r = record {
      ring = set r.ring r.head_pos z;
      head_pos = if r.head_pos + 1 == length r.ring then 0 else r.head_pos + 1;
      tail_pos = r.tail_pos;
      full = false;
    }

    popped-IsValid : (r : RingBuffer T) → IsValid r → empty r ≡ false → IsValid (popped r)
    unfolding popped empty
    popped-IsValid r v e = record {
      head_in = ground (arith, v.head_in, v.tail_in, v.full_at, e, length-set r.ring r.head_pos z);
      tail_in = ground (arith, v.tail_in, length-set r.ring r.head_pos z);
      full_at = ground arith;
    }

    popped-len : (r : RingBuffer T) → IsValid r → empty r ≡ false → suc (len (popped r)) ≡ len r
    unfolding popped empty len
    popped-len r v e =
        ground (arith, v.head_in, v.tail_in, v.full_at, e, length-set r.ring r.head_pos z)

    -- The ring read from one place further on, after the element there was cleared.
    rotate-step :
        (h : ℕ) (xs : List T)
        → h < length xs
        → (b : Bool) → (h + 1 == length xs) ≡ b
        → rotate (if b then 0 else h + 1) (set xs h z) ≡ (drop (suc h) xs ++ take h xs) ++ (z ∷ [])
    unfolding rotate
    rotate-step h xs l true e =
        append-nil (set xs h z)
        ∙ sym (take-length (suc h) (set xs h z) (ground (arith, e, length-set xs h z)))
        ∙ take-set_self h xs z l
        ∙ ap (λ d. (d ++ take h xs) ++ (z ∷ [])) (sym (drop-length (suc h) xs (ground (arith, e))))
    rotate-step h xs l false e =
        ap (λ k. drop k (set xs h z) ++ take k (set xs h z)) {y = suc h} (omega arith)
        ∙ ap (λ d. d ++ take (suc h) (set xs h z)) (drop-set_lt (suc h) h xs z (omega arith))
        ∙ ap (λ d. drop (suc h) xs ++ d) (take-set_self h xs z l)
        ∙ sym (append_assoc (drop (suc h) xs) (take h xs) (z ∷ []))

    contents-popped :
        (r : RingBuffer T)
        → IsValid r
        → empty r ≡ false
        → contents r ≡ get_or r.ring r.head_pos z ∷ contents (popped r)
    unfolding contents rotate popped
    contents-popped r v e =
        ap (λ n. take n (rotate r.head_pos r.ring)) (sym (popped-len r v e))
        ∙ ap (λ l. take (suc (len (popped r))) (l ++ take r.head_pos r.ring))
            (drop_cons r.head_pos r.ring z (head-lt r v e))
        ∙ ap (λ l. get_or r.ring r.head_pos z ∷ l)
            (sym (
              take-append_le (len (popped r))
                (drop (suc r.head_pos) r.ring ++ take r.head_pos r.ring) (z ∷ [])
                (omega (
                  arith,
                  popped-len r v e,
                  len-le r v,
                  head-lt r v e,
                  length-append (drop (suc r.head_pos) r.ring) (take r.head_pos r.ring),
                  length-drop (suc r.head_pos) r.ring,
                  length-take r.head_pos r.ring,
                ))))
        ∙ ap (λ l. get_or r.ring r.head_pos z ∷ take (len (popped r)) l)
            (sym (
              rotate-step r.head_pos r.ring (head-lt r v e) (r.head_pos + 1 == length r.ring) refl))

    -- `PopFront` panics where the buffer holds nothing; otherwise it returns the element that was
    -- put in first, and leaves a well-formed buffer with the others in their order.
    pub pop_front-contents : (r : RingBuffer T) → IsValid r → Popped (contents r) (pop_front z r)
    unfolding pop_front popped
    pop_front-contents r v = elim (Bool-cases (empty r)) [
      | inl e ↦ rw (e, contents-empty r e) refl
      | inr e ↦ rw (e, contents-popped r v e) ((popped r, refl, popped-IsValid r v e, refl))
    ]

    pub empty-contents : (r : RingBuffer T) → IsValid r → empty r ≡ is_nil (contents r)
    empty-contents r v = elim (Bool-cases (empty r)) [
      | inl e ↦ rw (e, contents-empty r e) refl
      | inr e ↦ rw (e, contents-popped r v e) refl
    ]
