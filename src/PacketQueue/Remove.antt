-- ===== src/PacketQueue/Remove.antt =====
-- `Remove` (congestion_meta2/packet_number_indexed_queue.go) against what `GetEntry` finds.
use sing_quic.Prelude.{
  ℕ, zero, suc, ◌+◌, ◌-◌, ◌%◌, ◌<◌, ◌≤◌, ◌≡◌, refl, sym, ap, ◌∙◌, subst, Bool, true, false, Option,
  none, some, List, [], ◌∷◌, length, get_elem?, set, arith, ◌==◌, inl, inr, if◌then◌else◌,
  Option-cases,
}
use sing_quic.RingBuffer.{len}
use sing_quic.RingBuffer.Contents.{contents, length-contents}
use sing_quic.RingBuffer.Places.{contents-set}
use sing_quic.PacketQueue.{
  Entry, PacketQueue, get_entry, get_entry_wrapper, mark, remove_from, remove, clearup,
}
use sing_quic.PacketQueue.Slots.{look, count, look-set, count-set, look-get_elem?}
use sing_quic.PacketQueue.Inv.{
  Starts, IsQueue, Wrapped, view, view-none, view-some, get_entry-view, get_entry_wrapper-Wrapped,
}
use sing_quic.PacketQueue.Clear.{Holds, Ended, clearup-IsQueue}

module _ {T : Type 0} (z : T) where
  -- What a call leaves, as `GetEntry` sees it under `m`.
  abbrev pub Removed : PacketQueue T → ℕ → ℕ → Option (Option (T × PacketQueue T)) → Type 0
  Removed q n m none = ⊥
  Removed q n m (some none) = get_entry q (some n) ≡ none
  Removed q n m (some (some (x, q'))) =
      (get_entry q (some n) ≡ some x)
      × IsQueue q'
      × (get_entry q' (some m) ≡ (if n == m then none else get_entry q (some m)))

  -- The queue with one entry marked absent.
  mark-Holds :
      (q : PacketQueue T) (first i : ℕ) (e : Entry T)
      → IsQueue q
      → q.first_packet ≡ some first
      → i < len q.entries
      → get_elem? (contents q.entries) i ≡ some e
      → e.present ≡ true
      → Holds z
          (mark z q ((q.entries.head_pos + i) % length q.entries.ring) e)
          first
          (set (contents q.entries) i (record e { present = false }))
  unfolding mark
  mark-Holds q first i e v f l g p =
      let (v', c) = contents-set q.entries i (record e { present = false }) v.ring l in
      record {
        ring = v';
        listed = c;
        counted = omega (
          arith,
          v.counted,
          count-set i (contents q.entries) e (record e { present = false }) g p refl,
        );
        numbered = f;
      }

  remove_missing :
      (q : PacketQueue T) (first n : ℕ)
      → get_entry_wrapper q first n ≡ none
      → remove_from z q first n ≡ some none
  unfolding remove_from
  remove_missing q first n w = rw (remove_from, w) refl

  remove_found :
      (q : PacketQueue T) (first n i : ℕ) (e : Entry T)
      → get_entry_wrapper q first n ≡ some (i, e)
      → remove_from z q first n ≡ (
          if n == first
          then elim (clearup z (mark z q i e)) [ none ↦ none | some q' ↦ some (some (e.entry, q')) ]
          else some (some (e.entry, mark z q i e)))
  unfolding remove_from
  remove_found q first n i e w = rw (remove_from, w) refl

  -- The first entry stays when another one is written.
  Starts-set :
      (first i : ℕ) (es : List (Entry T)) (e : Entry T)
      → 0 < i
      → Starts (some first) es
      → Starts (some first) (set es i e)
  Starts-set first i [] e h s = absurd s
  Starts-set first zero (x ∷ es) e h s = absurd (omega arith)
  Starts-set first (suc i) (x ∷ es) e h s = s

  -- What is found before and after, from what stands in the queue.
  Removed-of_view :
      (q q' : PacketQueue T) (first n m : ℕ) (e : Entry T)
      → IsQueue q
      → q.first_packet ≡ some first
      → first ≤ n
      → n - first < len q.entries
      → get_elem? (contents q.entries) (n - first) ≡ some e
      → e.present ≡ true
      → IsQueue q'
      → view q' m
        ≡ look first (set (contents q.entries) (n - first) (record e { present = false })) m
      → Removed q n m (some (some (e.entry, q')))
  Removed-of_view q q' first n m e v f a l g p v' h = (
    get_entry-view z q n v
        ∙ view-some q first n f
        ∙ look-get_elem? first (n - first) n (contents q.entries) (omega arith)
        ∙ rw (g, p) refl,
    v',
    get_entry-view z q' m v'
        ∙ h
        ∙ look-set first (n - first) m (contents q.entries) (record e { present = false })
            (omega (arith, length-contents q.entries v.ring)) refl
        ∙ ap (λ k. if k == m then none else look first (contents q.entries) m) {y = n} (omega arith)
        ∙ ap (λ o. if n == m then none else o)
            (sym (view-some q first m f) ∙ sym (get_entry-view z q m v)),
  )

  remove_from-Removed :
      (q : PacketQueue T) (first n m : ℕ)
      → IsQueue q
      → q.first_packet ≡ some first
      → Wrapped q first n
      → Removed q n m (remove_from z q first n)
  remove_from-Removed q first n m v f (inl (w, l)) =
      subst (Removed q n m) (sym (remove_missing q first n w))
        (get_entry-view z q n v ∙ view-some q first n f ∙ l)
  remove_from-Removed q first n m v f (inr (e, a, l, g, p, w)) =
      subst (Removed q n m) (sym (remove_found q first n i e w)) (go (n == first) refl)
    where
      i : ℕ
      i = (q.entries.head_pos + (n - first)) % length q.entries.ring

      held :
          Holds z
            (mark z q i e)
            first
            (set (contents q.entries) (n - first) (record e { present = false }))
      held = mark-Holds q first (n - first) e v f l g p

      cleared :
          (o : Option (PacketQueue T))
          → Ended z
              (λ q'.
                IsQueue q'
                × (view q' m
                    ≡ look first
                        (set (contents q.entries) (n - first) (record e { present = false }))
                        m))
              o
          → Removed q n m (elim o [ none ↦ none | some q' ↦ some (some (e.entry, q')) ])
      cleared none x = x
      cleared (some q') (v', h) = Removed-of_view q q' first n m e v f a l g p v' h

      go :
          (b : Bool)
          → (n == first) ≡ b
          → Removed q n m (
              if b
              then elim (clearup z (mark z q i e)) [
                | none ↦ none
                | some q' ↦ some (some (e.entry, q'))
              ]
              else some (some (e.entry, mark z q i e)))
      go true same =
          cleared (clearup z (mark z q i e)) (clearup-IsQueue z (mark z q i e) first m _ held)
      go false other =
          Removed-of_view q (mark z q i e) first n m e v f a l g p
            (record {
              ring = held.ring;
              counted = held.counted ∙ ap count (sym held.listed);
              starts =
                  subst (λ o. Starts o (contents (mark z q i e).entries)) (sym held.numbered)
                    (subst (Starts (some first)) (sym held.listed) (
                      Starts-set first (n - first) (contents q.entries)
                        (record e { present = false }) (ground (arith, other))
                        (subst (λ o. Starts o (contents q.entries)) f v.starts)));
            })
            (view-some (mark z q i e) first m held.numbered ∙ ap (λ k. look first k m) held.listed)

  -- `Remove` on a well-formed queue ends without a panic. It returns false exactly when `GetEntry`
  -- finds nothing under the number; otherwise it hands the entry to the callback, and leaves a
  -- well-formed queue in which `GetEntry` finds nothing under that number, and under every other
  -- number what it found before.
  pub remove-get_entry :
      (q : PacketQueue T) (n m : ℕ) → IsQueue q → Removed q n m (remove z q (some n))
  unfolding remove
  remove-get_entry q n m v = elim (Option-cases q.first_packet) [
    | inl f ↦
        subst (Removed q n m)
          (sym (ap (λ o. elim o [ none ↦ some none | some first ↦ remove_from z q first n ]) f))
          (get_entry-view z q n v ∙ view-none q n f)
    | inr (first, f) ↦
        subst (Removed q n m)
          (sym (ap (λ o. elim o [ none ↦ some none | some first ↦ remove_from z q first n ]) f))
          (remove_from-Removed q first n m v f (get_entry_wrapper-Wrapped z q first v f n))
  ]
