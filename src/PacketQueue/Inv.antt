-- ===== src/PacketQueue/Inv.antt =====
-- When a packet-number queue is well formed, and what `GetEntry` finds in it
-- (congestion_meta2/packet_number_indexed_queue.go).
use sing_quic.Prelude.{
  ℕ, zero, suc, ◌+◌, ◌-◌, ◌%◌, ◌<◌, ◌≤◌, ◌≡◌, ◌≢◌, refl, sym, ap, ◌∙◌, subst, ◌⊎◌, true, false,
  Option, none, some, List, [], ◌∷◌, length, get_elem?, arith, ltb, leb, Bool-cases, inl, inr,
  if◌then◌else◌, Option-cases,
}
use sing_quic.RingBuffer.{len}
use sing_quic.RingBuffer.Contents.{IsValid, contents, length-contents}
use sing_quic.RingBuffer.Places.{at, offset-eq_some, offset-contents}
use sing_quic.PacketQueue.{Entry, PacketQueue, is_empty, get_entry, get_entry_wrapper}
use sing_quic.PacketQueue.Slots.{look, count, look_below, look_above, look-get_elem?}

module _ {T : Type 0} where
  -- A queue with entries knows the number of the first, which is present.
  abbrev pub Starts : Option ℕ → List (Entry T) → Type 0
  Starts none [] = Unit {0}
  Starts none (e ∷ es) = ⊥
  Starts (some first) [] = ⊥
  Starts (some first) (e ∷ es) = e.present ≡ true

  pub record IsQueue (q : PacketQueue T) : Type 0 where
    pub ring : IsValid q.entries
    pub counted : q.present_entries ≡ count (contents q.entries)
    pub starts : Starts q.first_packet (contents q.entries)

  -- What stands in the queue under a number.
  unfoldable pub view : PacketQueue T → ℕ → Option T
  view q m = elim q.first_packet [ none ↦ none | some first ↦ look first (contents q.entries) m ]

  -- `getEntryWraper` finds nothing, or the place of a present entry.
  abbrev pub Wrapped : PacketQueue T → ℕ → ℕ → Type 0
  Wrapped q first n =
      (get_entry_wrapper q first n ≡ none) × (look first (contents q.entries) n ≡ none)
      ⊎ (e : Entry T) × (first ≤ n)
        × (n - first < len q.entries)
        × (get_elem? (contents q.entries) (n - first) ≡ some e)
        × (e.present ≡ true)
        × (get_entry_wrapper q first n
            ≡ some ((q.entries.head_pos + (n - first)) % length q.entries.ring, e))

  count_pos : (first : ℕ) (es : List (Entry T)) → Starts (some first) es → 0 < count es
  unfolding count
  count_pos first [] s = absurd s
  count_pos first (e ∷ es) s = ground (arith, s)

  get_elem?_lt : (es : List (Entry T)) (i : ℕ) → i < length es → get_elem? es i ≢ none
  get_elem?_lt [] i h = absurd (omega arith)
  get_elem?_lt (e ∷ es) zero h = λ p. cc
  get_elem?_lt (e ∷ es) (suc i) h = get_elem?_lt es i (omega arith)

  module _ (z : T) (q : PacketQueue T) (first : ℕ) (v : IsQueue q)
      (f : q.first_packet ≡ some first) where
    pub not_empty : is_empty q ≡ false
    unfolding is_empty
    not_empty = ground (
      arith,
      v.counted,
      count_pos first (contents q.entries) (subst (λ o. Starts o (contents q.entries)) f v.starts),
    )

    wrapped_at :
        (n : ℕ) (e : Entry T)
        → ltb n first ≡ false
        → leb (len q.entries) (n - first) ≡ false
        → get_elem? (contents q.entries) (n - first) ≡ some e
        → get_entry_wrapper q first n ≡ (
            if e.present
            then some ((q.entries.head_pos + (n - first)) % length q.entries.ring, e)
            else none)
    unfolding get_entry_wrapper
    wrapped_at n e a b g =
        let here = offset-eq_some q.entries (n - first) (ground (arith, b)) in
        let found =
          sym (ap (at q.entries.ring) here) ∙ offset-contents q.entries (n - first) v.ring ∙ g in
        rw (not_empty, a, b, here) (rw (found) refl)

    pub get_entry_wrapper-Wrapped : (n : ℕ) → Wrapped q first n
    unfolding get_entry_wrapper
    get_entry_wrapper-Wrapped n = elim (Bool-cases (ltb n first)) [
      | inl below ↦ inl (
        ground (arith, below, not_empty),
        look_below first n (contents q.entries) (ground (arith, below)),
      )
      | inr start ↦ elim (Bool-cases (leb (len q.entries) (n - first))) [
        | inl above ↦ inl (
          ground (arith, start, above, not_empty),
          look_above first n (contents q.entries)
              (ground (arith, start, above, length-contents q.entries v.ring)),
        )
        | inr inside ↦ elim (Option-cases (get_elem? (contents q.entries) (n - first))) [
          | inl out ↦ absurd (
              get_elem?_lt (contents q.entries) (n - first)
                (ground (arith, inside, length-contents q.entries v.ring)) out)
          | inr (e, g) ↦ elim (Bool-cases e.present) [
            | inl here ↦ inr (
              e,
              ground (arith, start),
              ground (arith, inside),
              g,
              here,
              wrapped_at n e start inside g ∙ rw here refl,
            )
            | inr gone ↦ inl (
              wrapped_at n e start inside g ∙ rw gone refl,
              look-get_elem? first (n - first) n (contents q.entries) (ground (arith, start))
                  ∙ rw (g, gone) refl,
            )
          ]
        ]
      ]
    ]

  pub view-none : (q : PacketQueue T) (m : ℕ) → q.first_packet ≡ none → view q m ≡ none
  unfolding view
  view-none q m e =
      ap (λ o. elim o [ none ↦ none | some first ↦ look first (contents q.entries) m ]) e

  pub view-some :
      (q : PacketQueue T) (first m : ℕ)
      → q.first_packet ≡ some first
      → view q m ≡ look first (contents q.entries) m
  unfolding view
  view-some q first m e =
      ap (λ o. elim o [ none ↦ none | some first ↦ look first (contents q.entries) m ]) e

  get_entry_at :
      (q : PacketQueue T) (n : ℕ) (o : Option ℕ)
      → q.first_packet ≡ o
      → get_entry q (some n) ≡ elim o [
        | none ↦ none
        | some first ↦ elim (get_entry_wrapper q first n) [
          | none ↦ none
          | some (i, e) ↦ some e.entry
        ]
      ]
  unfolding get_entry
  get_entry_at q n o e =
      ap
        (λ o. elim o [
          | none ↦ none
          | some first ↦ elim (get_entry_wrapper q first n) [
            | none ↦ none
            | some (i, e) ↦ some e.entry
          ]
        ])
        e

  -- `GetEntry` finds what stands in the queue under the number.
  pub get_entry-view : T → (q : PacketQueue T) (n : ℕ) → IsQueue q → get_entry q (some n) ≡ view q n
  get_entry-view z q n v = elim (Option-cases q.first_packet) [
    | inl e ↦ get_entry_at q n none e ∙ sym (view-none q n e)
    | inr (first, e) ↦
        get_entry_at q n (some first) e
        ∙ found first (get_entry_wrapper-Wrapped z q first v e n)
        ∙ sym (view-some q first n e)
  ]
    where
      found :
          (first : ℕ)
          → Wrapped q first n
          → elim (get_entry_wrapper q first n) [ none ↦ none | some (i, e) ↦ some e.entry ]
            ≡ look first (contents q.entries) n
      found first (inl (w, l)) = rw w (sym l)
      found first (inr (x, a, b, g, p, w)) = rw w (
          sym (
            look-get_elem? first (n - first) n (contents q.entries) (omega arith) ∙ rw (g, p) refl))

  -- A queue without a first number has no entries.
  pub nothing_at_none :
      (q : PacketQueue T)
      → IsQueue q
      → q.first_packet ≡ none
      → (contents q.entries ≡ []) × (is_empty q ≡ true)
  unfolding is_empty count
  nothing_at_none q v f =
      go (contents q.entries) refl (subst (λ o. Starts o (contents q.entries)) f v.starts)
    where
      go :
          (es : List (Entry T))
          → contents q.entries ≡ es
          → Starts none es
          → (contents q.entries ≡ []) × (is_empty q ≡ true)
      go [] c s = (c, ground (arith, v.counted, ap count c))
      go (e ∷ es) c s = absurd s
