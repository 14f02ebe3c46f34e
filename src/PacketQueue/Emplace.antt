-- ===== src/PacketQueue/Emplace.antt =====
-- `Emplace` (congestion_meta2/packet_number_indexed_queue.go) against what `GetEntry` finds.
use sing_quic.Prelude.{
  ℕ, ◌+◌, ◌-◌, ◌≡◌, refl, sym, ap, ◌∙◌, subst, Bool, true, false, ◌&&◌, Option, none, some, arith,
  ltb, leb, ◌==◌, Bool-cases, inl, inr, if◌then◌else◌, Option-cases,
}
use sing_quic.RingBuffer.{len, push_back}
use sing_quic.RingBuffer.Contents.{length-contents}
use sing_quic.RingBuffer.Push.{push_back-contents}
use sing_quic.PacketQueue.{
  PacketQueue, is_empty, last_packet, get_entry, emplace, push_gap, zero_entry,
}
use sing_quic.PacketQueue.Slots.{look, count}
use sing_quic.PacketQueue.Inv.{IsQueue, view, view-none, view-some, get_entry-view, nothing_at_none}
use sing_quic.PacketQueue.Grown.{nothing, appended}

module _ {T : Type 0} (z : T) where
  abbrev pub is_past : ℕ → Option ℕ → Bool
  is_past n none = true
  is_past n (some last) = ltb last n

  -- Whether `Emplace` takes the number: none is in the queue yet, or it lies past the last.
  abbrev pub is_new : PacketQueue T → ℕ → Bool
  is_new q n = is_past n (last_packet q)

  last_packet-none : (q : PacketQueue T) → is_empty q ≡ true → last_packet q ≡ none
  unfolding last_packet
  last_packet-none q e = rw e refl

  last_packet-some :
      (q : PacketQueue T) (first : ℕ)
      → is_empty q ≡ false
      → q.first_packet ≡ some first
      → last_packet q ≡ some (first + (len q.entries - 1))
  unfolding last_packet
  last_packet-some q first e f =
      rw e (ap (λ o. elim o [ none ↦ none | some first ↦ some (first + (len q.entries - 1)) ]) f)

  -- What a call leaves, as `GetEntry` sees it under `m`.
  abbrev pub Emplaced : PacketQueue T → ℕ → ℕ → T → Bool × PacketQueue T → Type 0
  Emplaced q n m x (done, q') =
      (done ≡ is_new q n)
      × IsQueue q'
      × (get_entry q' (some m) ≡ (if is_new q n && n == m then some x else get_entry q (some m)))

  Emplaced-of_view :
      (q q' : PacketQueue T) (n m : ℕ) (x : T)
      → IsQueue q
      → is_new q n ≡ true
      → IsQueue q'
      → view q' m ≡ (if n == m then some x else view q m)
      → Emplaced q n m x (true, q')
  Emplaced-of_view q q' n m x v new v' h = (
    sym new,
    v',
    rw new (
        get_entry-view z q' m v'
        ∙ h
        ∙ ap (λ o. if n == m then some x else o) (sym (get_entry-view z q m v))),
  )

  -- The queue whose only entry is `x`.
  only : PacketQueue T → ℕ → T → PacketQueue T
  only q n x = record {
    entries = push_back (zero_entry z) q.entries (record { present = true; entry = x });
    present_entries = 1;
    first_packet = some n;
  }

  -- The queue after the gap and the entry `x`.
  more : PacketQueue T → ℕ → ℕ → T → PacketQueue T
  more q first n x = record {
    entries =
        push_back (zero_entry z) (push_gap z (n - first - len q.entries) q.entries)
          (record { present = true; entry = x });
    present_entries = q.present_entries + 1;
    first_packet = some first;
  }

  emplace-only :
      (q : PacketQueue T) (n : ℕ) (x : T)
      → is_empty q ≡ true
      → emplace z q (some n) (some x) ≡ (true, only q n x)
  unfolding emplace only
  emplace-only q n x e = rw e refl

  emplace-more :
      (q : PacketQueue T) (first n : ℕ) (x : T)
      → is_empty q ≡ false
      → q.first_packet ≡ some first
      → emplace z q (some n) (some x)
        ≡ (if leb n (first + (len q.entries - 1)) then (false, q) else (true, more q first n x))
  unfolding emplace more
  emplace-more q first n x e f = rw e (
      ap
        (λ o. elim o [
          | none ↦ (false, q)
          | some first ↦ if leb n (first + (len q.entries - 1)) then (false, q) else (
            true,
            record {
              entries =
                  push_back (zero_entry z) (push_gap z (n - first - len q.entries) q.entries)
                    (record { present = true; entry = x });
              present_entries = q.present_entries + 1;
              first_packet = some first;
            },
          )
        ])
        f)

  only-IsQueue :
      (q : PacketQueue T) (n : ℕ) (x : T) → IsQueue q → is_empty q ≡ true → IsQueue (only q n x)
  unfolding only count
  only-IsQueue q n x v e =
      let (v', c) =
        push_back-contents (zero_entry z) q.entries (record { present = true; entry = x }) v.ring in
      let (f, none_) = nothing z q v e in
      record { ring = v'; counted = rw (c, none_) (ground arith); starts = rw (c, none_) refl }

  view-only :
      (q : PacketQueue T) (n m : ℕ) (x : T)
      → IsQueue q
      → is_empty q ≡ true
      → view (only q n x) m ≡ (if n == m then some x else view q m)
  unfolding look only
  view-only q n m x v e =
      let (v', c) =
        push_back-contents (zero_entry z) q.entries (record { present = true; entry = x }) v.ring in
      let (f, none_) = nothing z q v e in
      view-some (only q n x) n m refl ∙ ap (λ l. look n l m) c ∙ rw (none_, view-none q m f) refl

  -- `Emplace` on a well-formed queue takes an entry exactly when its number is past the last one, or
  -- the queue is empty. It keeps the queue well formed; `GetEntry` then finds the entry under its
  -- number, and under every other number what it found before.
  pub emplace-get_entry :
      (q : PacketQueue T) (n m : ℕ) (x : T)
      → IsQueue q
      → Emplaced q n m x (emplace z q (some n) (some x))
  emplace-get_entry q n m x v = elim (Bool-cases (is_empty q)) [
    | inl e ↦
        let new : is_new q n ≡ true = ap (is_past n) (last_packet-none q e) in
        subst (Emplaced q n m x) (sym (emplace-only q n x e)) (
          Emplaced-of_view q (only q n x) n m x v new (only-IsQueue q n x v e)
            (view-only q n m x v e))
    | inr e ↦ elim (Option-cases q.first_packet) [
      | inl f ↦ absurd (without e f)
      | inr (first, f) ↦
          subst (Emplaced q n m x) (sym (emplace-more q first n x e f))
            (split first e f (leb n (first + (len q.entries - 1))) refl)
    ]
  ]
    where
      without : is_empty q ≡ false → q.first_packet ≡ none → ⊥
      without e f = ground (arith, e, nothing_at_none q v f)

      split :
          (first : ℕ)
          → is_empty q ≡ false
          → q.first_packet ≡ some first
          → (b : Bool) → leb n (first + (len q.entries - 1)) ≡ b
          → Emplaced q n m x (if b then (false, q) else (true, more q first n x))
      split first e f true old =
          let no : is_new q n ≡ false =
            ap (is_past n) (last_packet-some q first e f) ∙ ground (arith, old) in
          (sym no, v, rw no refl)
      split first e f false new =
          let yes : is_new q n ≡ true =
            ap (is_past n) (last_packet-some q first e f) ∙ ground (arith, new) in
          let (v', h) =
            appended z q x first n (n - first - len q.entries) m v f
              (ground (arith, new, length-contents q.entries v.ring)) in
          unfold more in Emplaced-of_view q (more q first n x) n m x v yes v' h
