-- ===== src/PacketQueue/Grown.antt =====
-- The entries of the packet queue (congestion_meta2/packet_number_indexed_queue.go) with a gap and
-- a new entry behind them.
use sing_quic.Prelude.{
  ℕ, zero, suc, ◌+◌, ◌≡◌, refl, sym, ap, ◌∙◌, subst, true, Option, none, some, List, [], ◌∷◌, ◌++◌,
  length, replicate, arith, ◌==◌, if◌then◌else◌, append-nil, append_assoc, length-append,
  length-replicate,
}
use sing_quic.RingBuffer.{RingBuffer, push_back}
use sing_quic.RingBuffer.Contents.{IsValid, contents}
use sing_quic.RingBuffer.Push.{push_back-contents}
use sing_quic.PacketQueue.{Entry, PacketQueue, is_empty, push_gap, zero_entry}
use sing_quic.PacketQueue.Slots.{
  look, count, look_above, look-append, look-replicate, count-append, count-replicate,
}
use sing_quic.PacketQueue.Inv.{Starts, IsQueue, view, view-some}

module _ {T : Type 0} (z : T) where
  push_gap-contents :
      (k : ℕ) (r : RingBuffer (Entry T))
      → IsValid r
      → IsValid (push_gap z k r)
        × (contents (push_gap z k r) ≡ contents r ++ replicate k (zero_entry z))
  unfolding push_gap
  push_gap-contents zero r v = (v, sym (append-nil (contents r)))
  push_gap-contents (suc k) r v =
      let (v', c) = push_back-contents (zero_entry z) r (zero_entry z) v in
      let (v'', c') = push_gap-contents k (push_back (zero_entry z) r (zero_entry z)) v' in
      (
        v'',
        c'
            ∙ ap (λ l. l ++ replicate k (zero_entry z)) c
            ∙ append_assoc (contents r) (zero_entry z ∷ []) (replicate k (zero_entry z)),
      )

  -- Nothing stands in a queue without present entries.
  pub nothing :
      (q : PacketQueue T)
      → IsQueue q
      → is_empty q ≡ true
      → (q.first_packet ≡ none) × (contents q.entries ≡ [])
  unfolding is_empty count
  nothing q v e = go q.first_packet (contents q.entries) refl refl v.starts v.counted
    where
      go :
          (o : Option ℕ) (es : List (Entry T))
          → q.first_packet ≡ o
          → contents q.entries ≡ es
          → Starts o es
          → q.present_entries ≡ count es
          → (q.first_packet ≡ none) × (contents q.entries ≡ [])
      go none [] a b s c = (a, b)
      go none (x ∷ es) a b s c = absurd s
      go (some first) [] a b s c = absurd s
      go (some first) (x ∷ es) a b s c = absurd (ground (arith, e, s, c))

  -- The list of entries after a gap and a present entry were put behind it.
  module _ (x : T) (es : List (Entry T)) (first n gap m : ℕ) where
    grown : List (Entry T)
    grown = (es ++ replicate gap (zero_entry z)) ++ (record { present = true; entry = x } ∷ [])

    count-grown : count grown ≡ count es + 1
    unfolding grown count
    count-grown = ground (
      arith,
      count-append (es ++ replicate gap (zero_entry z)) (record { present = true; entry = x } ∷ []),
      count-append es (replicate gap (zero_entry z)),
      count-replicate z gap,
    )

    look-grown :
        first + length es + gap ≡ n
        → look first grown m ≡ (if n == m then some x else look first es m)
    unfolding grown look
    look-grown h = ground (
      arith,
      look-append first n m (es ++ replicate gap (zero_entry z))
          (record { present = true; entry = x } ∷ [])
          (omega (
            arith,
            length-append es (replicate gap (zero_entry z)),
            length-replicate gap (zero_entry z),
          )),
      look-append first (first + length es) m es (replicate gap (zero_entry z)) refl,
      look-replicate z (first + length es) gap m,
      look_above first m es,
    )

  Starts-grown :
      (x : T) (es : List (Entry T)) (first gap : ℕ)
      → Starts (some first) es
      → Starts (some first) (grown x es first 0 gap 0)
  unfolding grown
  Starts-grown x [] first gap s = absurd s
  Starts-grown x (y ∷ es) first gap s = s

  -- The queue after the entry `x` was put in under `n`, `gap` places behind what was there.
  pub appended :
      (q : PacketQueue T) (x : T) (first n gap m : ℕ)
      → IsQueue q
      → q.first_packet ≡ some first
      → first + length (contents q.entries) + gap ≡ n
      → let q' : PacketQueue T = record {
        entries =
            push_back
              (zero_entry z)
              (push_gap z gap q.entries)
              (record { present = true; entry = x });
        present_entries = q.present_entries + 1;
        first_packet = some first;
      } in
        IsQueue q' × (view q' m ≡ (if n == m then some x else view q m))
  unfolding grown
  appended q x first n gap m v f h =
      let e : Entry T = record { present = true; entry = x } in
      let es = contents q.entries in
      let gs = replicate gap (zero_entry z) in
      let (v1, c1) = push_gap-contents gap q.entries v.ring in
      let (v2, c2) = push_back-contents (zero_entry z) (push_gap z gap q.entries) e v1 in
      let c : contents (push_back (zero_entry z) (push_gap z gap q.entries) e)
          ≡ (es ++ gs) ++ (e ∷ []) =
        c2 ∙ ap (λ l. l ++ (e ∷ [])) c1 in
      (
        record {
          ring = v2;
          counted = rw c (ap (λ k. k + 1) v.counted ∙ sym (count-grown x es first n gap m));
          starts = rw c (Starts-grown x es first gap (subst (λ o. Starts o es) f v.starts));
        },
        view-some
              (record {
                entries = push_back (zero_entry z) (push_gap z gap q.entries) e;
                present_entries = q.present_entries + 1;
                first_packet = some first;
              })
              first m refl
            ∙ ap (λ l. look first l m) c
            ∙ look-grown x es first n gap m h
            ∙ ap (λ o. if n == m then some x else o) (sym (view-some q first m f)),
      )
