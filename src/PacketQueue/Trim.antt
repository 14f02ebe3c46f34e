-- ===== src/PacketQueue/Trim.antt =====
-- `RemoveUpTo` (congestion_meta2/packet_number_indexed_queue.go) against what `GetEntry` finds.
use sing_quic.Prelude.{
  ℕ, zero, suc, ◌-◌, ◌<◌, ◌≡◌, refl, sym, ap, ◌∙◌, subst, true, false, Option, none, some, List, [],
  ◌∷◌, length, arith, ltb, leb, Bool-cases, inl, inr, if◌then◌else◌, Option-cases,
}
use sing_quic.RingBuffer.{len, empty}
use sing_quic.RingBuffer.Contents.{contents, length-contents}
use sing_quic.RingBuffer.Pop.{empty-contents}
use sing_quic.PacketQueue.{
  Entry, PacketQueue, get_entry, zero_entry, clearup, remove_front, remove_loop, remove_up_to,
}
use sing_quic.PacketQueue.Slots.{look, count, look_below}
use sing_quic.PacketQueue.Inv.{IsQueue, view, view-none, view-some, get_entry-view, nothing_at_none}
use sing_quic.PacketQueue.Clear.{
  Holds, Ended, front_of, empty_of, pop_entry-Holds, clear_nil, clearup-IsQueue,
}

module _ {T : Type 0} (z : T) where
  -- The entries below `n` have gone from the front, and what stands under `m` from `n` on has stayed.
  record Trimmed (first : ℕ) (es : List (Entry T)) (n m : ℕ) (q' : PacketQueue T) : Type 0 where
    first' : ℕ
    left : List (Entry T)
    holds : Holds z q' first' left
    same : look first' left m ≡ (if ltb m n then none else look first es m)

  front-Holds :
      (q : PacketQueue T) (first : ℕ) (e : Entry T) (es : List (Entry T))
      → Holds z q first (e ∷ es)
      → (q' : PacketQueue T) × (remove_front z q ≡ some q') × Holds z q' (suc first) es
  unfolding remove_front count
  front-Holds q first e es h =
      let q0 : PacketQueue T = record q {
        present_entries = if e.present then q.present_entries - 1 else q.present_entries;
      } in
      let (q', p, v, c, f, n) = pop_entry-Holds z q0 first e es h.ring h.listed h.numbered in
      (
        q',
        rw (remove_front, front_of z q first (e ∷ es) h) p,
        record { ring = v; listed = c; counted = ground (arith, h.counted, n); numbered = f },
      )

  remove_nil :
      (fuel n : ℕ) (q : PacketQueue T)
      → empty q.entries ≡ true
      → remove_loop z (suc fuel) q n ≡ some q
  unfolding remove_loop
  remove_nil fuel n q e = rw e refl

  remove_stop :
      (fuel first n : ℕ) (q : PacketQueue T)
      → empty q.entries ≡ false
      → q.first_packet ≡ some first
      → leb n first ≡ true
      → remove_loop z (suc fuel) q n ≡ some q
  unfolding remove_loop
  remove_stop fuel first n q a f b = rw a (
      ap
        (λ o. elim o [
          | none ↦ some q
          | some first ↦
              if leb n first
              then some q
              else elim (remove_front z q) [ none ↦ none | some q' ↦ remove_loop z fuel q' n ]
        ])
        f
      ∙ rw b refl)

  remove_step :
      (fuel first n : ℕ) (q q' : PacketQueue T)
      → empty q.entries ≡ false
      → q.first_packet ≡ some first
      → leb n first ≡ false
      → remove_front z q ≡ some q'
      → remove_loop z (suc fuel) q n ≡ remove_loop z fuel q' n
  unfolding remove_loop
  remove_step fuel first n q q' a f b c = rw a (
      ap
        (λ o. elim o [
          | none ↦ some q
          | some first ↦
              if leb n first
              then some q
              else elim (remove_front z q) [ none ↦ none | some q' ↦ remove_loop z fuel q' n ]
        ])
        f
      ∙ rw (b, c) refl)

  remove_loop-Trimmed :
      (es : List (Entry T)) (fuel first n m : ℕ) (q : PacketQueue T)
      → Holds z q first es
      → length es < fuel
      → Ended z (Trimmed first es n m) (remove_loop z fuel q n)
  unfolding look
  remove_loop-Trimmed es zero first n m q h l = absurd (omega arith)
  remove_loop-Trimmed [] (suc fuel) first n m q h l =
      rw (remove_nil fuel n q (empty_of z q first [] h))
        (record { first' = first; left = []; holds = h; same = ground arith })
  remove_loop-Trimmed (e ∷ es) (suc fuel) first n m q h l = elim (Bool-cases (leb n first)) [
    | inl stop ↦
        rw (remove_stop fuel first n q (empty_of z q first (e ∷ es) h) h.numbered stop) (record {
          first' = first;
          left = e ∷ es;
          holds = h;
          same = ground (arith, stop, look_below (suc first) m es);
        })
    | inr more ↦
        let (q', p, h') = front-Holds q first e es h in
        rw (remove_step fuel first n q q' (empty_of z q first (e ∷ es) h) h.numbered more p) (
          weaken more (remove_loop z fuel q' n)
            (remove_loop-Trimmed es fuel (suc first) n m q' h' (omega arith)))
  ]
    where
      weaken :
          leb n first ≡ false
          → (o : Option (PacketQueue T)) → Ended z (Trimmed (suc first) es n m) o
          → Ended z (Trimmed first (e ∷ es) n m) o
      weaken more none x = x
      weaken more (some q') x = record {
        first' = x.first';
        left = x.left;
        holds = x.holds;
        same = x.same ∙ ground (arith, more);
      }

  clearup_nil :
      (q : PacketQueue T)
      → empty q.entries ≡ true
      → clearup z q ≡ some (record q { first_packet = none })
  unfolding clearup
  clearup_nil q e =
      ap
        (λ o. elim o [
          | none ↦ none
          | some q' ↦ some (if empty q'.entries then record q' { first_packet = none } else q')
        ])
        (clear_nil z (len q.entries) q e)
      ∙ rw e refl

  remove_up_to_nil :
      (q : PacketQueue T) (n : ℕ)
      → empty q.entries ≡ true
      → remove_up_to z q n ≡ some (record q { first_packet = none })
  unfolding remove_up_to
  remove_up_to_nil q n e =
      ap (λ o. elim o [ none ↦ none | some q' ↦ clearup z q' ]) (remove_nil (len q.entries) n q e)
      ∙ clearup_nil q e

  -- A queue without entries, with its first number forgotten.
  forgotten-IsQueue :
      (q : PacketQueue T)
      → IsQueue q
      → contents q.entries ≡ []
      → IsQueue (record q { first_packet = none })
  forgotten-IsQueue q v c = record { ring = v.ring; counted = v.counted; starts = rw c tt }

  -- `RemoveUpTo` on a well-formed queue ends without a panic, in a well-formed queue in which
  -- `GetEntry` finds nothing under the numbers below the given one, and under every other number what
  -- it found before.
  pub remove_up_to-get_entry :
      (q : PacketQueue T) (n m : ℕ)
      → IsQueue q
      → Ended z
          (λ q'.
            IsQueue q' × (get_entry q' (some m) ≡ (if ltb m n then none else get_entry q (some m))))
          (remove_up_to z q n)
  unfolding remove_up_to
  remove_up_to-get_entry q n m v = elim (Option-cases q.first_packet) [
    | inl f ↦
        let c = (nothing_at_none q v f).0 in
        let v' = forgotten-IsQueue q v c in
        subst (Ended z Result)
          (sym (remove_up_to_nil q n (empty-contents (zero_entry z) q.entries v.ring ∙ rw c refl)))
          (
            v',
            get_entry-view z (record q { first_packet = none }) m v'
                ∙ view-none (record q { first_packet = none }) m refl
                ∙ rw (get_entry-view z q m v, view-none q m f) (ground arith),
          )
    | inr (first, f) ↦ trimmed first f (remove_loop z (suc (len q.entries)) q n) (
        remove_loop-Trimmed (contents q.entries) (suc (len q.entries)) first n m q
          (record { ring = v.ring; listed = refl; counted = v.counted; numbered = f })
          (omega (arith, length-contents q.entries v.ring)))
  ]
    where
      Result : PacketQueue T → Type 0
      Result q' =
          IsQueue q' × (get_entry q' (some m) ≡ (if ltb m n then none else get_entry q (some m)))

      cleared :
          (first first' : ℕ) (left : List (Entry T))
          → q.first_packet ≡ some first
          → look first' left m ≡ (if ltb m n then none else look first (contents q.entries) m)
          → (o : Option (PacketQueue T))
          → Ended z (λ q'. IsQueue q' × (view q' m ≡ look first' left m)) o
          → Ended z Result o
      cleared first first' left f s none x = x
      cleared first first' left f s (some q') (v', h) = (
        v',
        get_entry-view z q' m v'
            ∙ h
            ∙ s
            ∙ ap (λ o. if ltb m n then none else o)
                (sym (view-some q first m f) ∙ sym (get_entry-view z q m v)),
      )

      trimmed :
          (first : ℕ)
          → q.first_packet ≡ some first
          → (o : Option (PacketQueue T)) → Ended z (Trimmed first (contents q.entries) n m) o
          → Ended z Result (elim o [ none ↦ none | some q' ↦ clearup z q' ])
      trimmed first f none x = x
      trimmed first f (some q') x =
          cleared first x.first' x.left f x.same (clearup z q')
            (clearup-IsQueue z q' x.first' m x.left x.holds)
