-- ===== src/PacketQueue/Clear.antt =====
-- The loops that pop entries from the front, `clearup` and `RemoveUpTo`
-- (congestion_meta2/packet_number_indexed_queue.go).
use sing_quic.Prelude.{
  ℕ, zero, suc, ◌+◌, ◌<◌, ◌≡◌, refl, sym, ap, ◌∙◌, subst, true, false, Option, none, some, List, [],
  ◌∷◌, length, get_elem?, arith, Bool-cases, inl, inr, if◌then◌else◌,
}
use sing_quic.RingBuffer.{len, empty, front, pop_front}
use sing_quic.RingBuffer.Contents.{IsValid, contents, length-contents}
use sing_quic.RingBuffer.Pop.{Popped, is_nil, empty-contents, pop_front-contents}
use sing_quic.RingBuffer.Places.{at, ends-contents}
use sing_quic.PacketQueue.{Entry, PacketQueue, read, zero_entry, pop_entry, clear_loop, clearup}
use sing_quic.PacketQueue.Slots.{look, count, look_below}
use sing_quic.PacketQueue.Inv.{Starts, IsQueue, view, view-none, view-some}

module _ {T : Type 0} (z : T) where
  -- A queue whose entries are `es`, from the number `first` on; the first may be absent.
  pub record Holds (q : PacketQueue T) (first : ℕ) (es : List (Entry T)) : Type 0 where
    pub ring : IsValid q.entries
    pub listed : contents q.entries ≡ es
    pub counted : q.present_entries ≡ count es
    pub numbered : q.first_packet ≡ some first

  -- The loop has ended, in a queue that satisfies `P`.
  abbrev pub Ended : (PacketQueue T → Type 0) → Option (PacketQueue T) → Type 0
  Ended P none = ⊥
  Ended P (some q) = P q

  pub front_of :
      (q : PacketQueue T) (first : ℕ) (es : List (Entry T))
      → Holds q first es
      → read q.entries (front q.entries) ≡ get_elem? es 0
  front_of q first es h =
      go (front q.entries) ∙ (ends-contents q.entries h.ring).0 ∙ ap (λ l. get_elem? l 0) h.listed
    where
      go : (o : Option ℕ) → read q.entries o ≡ at q.entries.ring o
      go none = refl
      go (some i) = refl

  pub empty_of :
      (q : PacketQueue T) (first : ℕ) (es : List (Entry T))
      → Holds q first es
      → empty q.entries ≡ is_nil es
  empty_of q first es h = empty-contents (zero_entry z) q.entries h.ring ∙ ap (is_nil) h.listed

  -- `PopFront` and the step to the next number.
  pub pop_entry-Holds :
      (q : PacketQueue T) (first : ℕ) (e : Entry T) (es : List (Entry T))
      → IsValid q.entries
      → contents q.entries ≡ e ∷ es
      → q.first_packet ≡ some first
      → (q' : PacketQueue T) × (pop_entry z q ≡ some q')
        × IsValid q'.entries
        × (contents q'.entries ≡ es)
        × (q'.first_packet ≡ some (suc first))
        × (q'.present_entries ≡ q.present_entries)
  unfolding pop_entry
  pop_entry-Holds q first e es v c f =
      let (r, popped, v', c') =
        subst (λ l. Popped l (pop_front (zero_entry z) q.entries)) c
          (pop_front-contents (zero_entry z) q.entries v) in
      (
        record q {
          entries = r;
          first_packet = elim q.first_packet [ none ↦ none | some first ↦ some (first + 1) ];
        },
        ap
            (λ o. elim o [
              | none ↦ none
              | some (e, r) ↦ some (record q {
                entries = r;
                first_packet = elim q.first_packet [ none ↦ none | some first ↦ some (first + 1) ];
              })
            ])
            popped,
        v',
        c',
        ap (λ o. elim o [ none ↦ none | some first ↦ some (first + 1) ]) f
            ∙ ap some {x = first + 1} (omega arith),
        refl,
      )

  abbrev pub Fronted : List (Entry T) → Type 0
  Fronted [] = Unit {0}
  Fronted (e ∷ es) = e.present ≡ true

  -- Absent entries have gone from the front, and what stands under `m` has stayed.
  pub record Cleared (first : ℕ) (es : List (Entry T)) (m : ℕ) (q' : PacketQueue T) : Type 0 where
    pub first' : ℕ
    pub left : List (Entry T)
    pub holds : Holds q' first' left
    pub fronted : Fronted left
    pub same : look first' left m ≡ look first es m

  pub clear_nil :
      (fuel : ℕ) (q : PacketQueue T) → empty q.entries ≡ true → clear_loop z (suc fuel) q ≡ some q
  unfolding clear_loop
  clear_nil fuel q e = rw e refl

  clear_present :
      (fuel : ℕ) (q : PacketQueue T) (e : Entry T)
      → empty q.entries ≡ false
      → read q.entries (front q.entries) ≡ some e
      → e.present ≡ true
      → clear_loop z (suc fuel) q ≡ some q
  unfolding clear_loop
  clear_present fuel q e a b c = rw (a, b, c) refl

  clear_absent :
      (fuel : ℕ) (q q' : PacketQueue T) (e : Entry T)
      → empty q.entries ≡ false
      → read q.entries (front q.entries) ≡ some e
      → e.present ≡ false
      → pop_entry z q ≡ some q'
      → clear_loop z (suc fuel) q ≡ clear_loop z fuel q'
  unfolding clear_loop
  clear_absent fuel q q' e a b c d = rw (a, b, c, d) refl

  clear_loop-Cleared :
      (es : List (Entry T)) (fuel first m : ℕ) (q : PacketQueue T)
      → Holds q first es
      → length es < fuel
      → Ended (Cleared first es m) (clear_loop z fuel q)
  unfolding look count
  clear_loop-Cleared es zero first m q h l = absurd (omega arith)
  clear_loop-Cleared [] (suc fuel) first m q h l =
      rw (clear_nil fuel q (empty_of q first [] h))
        (record { first' = first; left = []; holds = h; fronted = tt; same = refl })
  clear_loop-Cleared (e ∷ es) (suc fuel) first m q h l = elim (Bool-cases e.present) [
    | inl here ↦
        rw (clear_present fuel q e (empty_of q first (e ∷ es) h) (front_of q first (e ∷ es) h) here)
          (record { first' = first; left = e ∷ es; holds = h; fronted = here; same = refl })
    | inr gone ↦
        let (q', p, v, c, f, n) = pop_entry-Holds q first e es h.ring h.listed h.numbered in
        let h' : Holds q' (suc first) es = record {
          ring = v;
          listed = c;
          counted = ground (arith, h.counted, n, gone);
          numbered = f;
        } in
        let ih = clear_loop-Cleared es fuel (suc first) m q' h' (omega arith) in
        rw
          (clear_absent fuel q q' e (empty_of q first (e ∷ es) h) (front_of q first (e ∷ es) h) gone
            p)
          (weaken gone (clear_loop z fuel q') ih)
  ]
    where
      weaken :
          e.present ≡ false
          → (o : Option (PacketQueue T)) → Ended (Cleared (suc first) es m) o
          → Ended (Cleared first (e ∷ es) m) o
      weaken gone none x = x
      weaken gone (some q') x = record {
        first' = x.first';
        left = x.left;
        holds = x.holds;
        fronted = x.fronted;
        same = x.same ∙ ground (arith, gone, look_below (suc first) m es);
      }

  -- The last step of `clearup`.
  settled : PacketQueue T → PacketQueue T
  settled q = if empty q.entries then record q { first_packet = none } else q

  settled-IsQueue :
      (q : PacketQueue T) (first m : ℕ) (left : List (Entry T))
      → Holds q first left
      → Fronted left
      → IsQueue (settled q) × (view (settled q) m ≡ look first left m)
  unfolding settled look
  settled-IsQueue q first m [] h p = rw (empty_of q first [] h) (
    record { ring = h.ring; counted = rw h.listed h.counted; starts = rw h.listed tt },
    view-none (record q { first_packet = none }) m refl,
  )
  settled-IsQueue q first m (e ∷ es) h p = rw (empty_of q first (e ∷ es) h) (
    record {
      ring = h.ring;
      counted = h.counted ∙ ap count (sym h.listed);
      starts =
          subst (λ o. Starts o (contents q.entries)) (sym h.numbered)
            (subst (Starts (some first)) (sym h.listed) p);
    },
    view-some q first m h.numbered ∙ ap (λ l. look first l m) h.listed,
  )

  -- `clearup` ends without a panic, in a well-formed queue with the same entries.
  pub clearup-IsQueue :
      (q : PacketQueue T) (first m : ℕ) (es : List (Entry T))
      → Holds q first es
      → Ended (λ q'. IsQueue q' × (view q' m ≡ look first es m)) (clearup z q)
  unfolding clearup settled
  clearup-IsQueue q first m es h = go (clear_loop z (suc (len q.entries)) q) (
      clear_loop-Cleared es (suc (len q.entries)) first m q h
        (omega (arith, length-contents q.entries h.ring, ap length h.listed)))
    where
      go :
          (o : Option (PacketQueue T))
          → Ended (Cleared first es m) o
          → Ended
              (λ q'. IsQueue q' × (view q' m ≡ look first es m))
              (elim o [
                | none ↦ none
                | some q' ↦
                    some (if empty q'.entries then record q' { first_packet = none } else q')
              ])
      go none x = x
      go (some q') x =
          let (v, s) = settled-IsQueue q' x.first' m x.left x.holds x.fronted in (v, s ∙ x.same)
