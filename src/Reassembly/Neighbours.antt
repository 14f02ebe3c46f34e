-- ===== src/Reassembly/Neighbours.antt =====
-- `checkNeighbours` (queqiao/internal/multipath/reassembly.go): looking at the two neighbours of
-- the insertion point is enough to keep the buffered segments disjoint.
use sing_quic.Prelude.{
  ℕ, zero, suc, ◌-◌, ◌<◌, ◌≤◌, ◌≡◌, refl, ap, Bool, true, false, ◌&&◌, none, some, List, [], ◌∷◌,
  length, arith, ◌==◌, ltb, get_or, Bool-cases, inl, inr,
}
use mathlib.Core.Path.{◌≡⟨◌⟩◌, ◌∎}
use sing_quic.SeqMap.{lookup, put, keys, search}
use sing_quic.Reassembly.{
  Reassembler, Segment, zero_segment, segment_end, check_neighbours, check_previous, check_next,
}
use sing_quic.Reassembly.Inv.{IsSegment, Chain, after}

abbrev pub entry : List (ℕ × Segment) → ℕ → Segment
entry m k = elim (lookup k m) [ none ↦ zero_segment | some s ↦ s ]

-- The two tests, on the buffer and its keys.
abbrev pub clash_before : List (ℕ × Segment) → Segment → Bool
clash_before m s =
    let at = search (keys m) s.sequence in
    ltb 0 at && ltb s.sequence (segment_end (entry m (get_or (keys m) (at - 1) 0)))

abbrev pub clash_behind : List (ℕ × Segment) → Segment → Bool
clash_behind m s =
    let at = search (keys m) s.sequence in
    ltb at (length (keys m)) && ltb (entry m (get_or (keys m) at 0)).sequence (segment_end s)

pub check_neighbours-eq_none :
    (r : Reassembler) (s : Segment)
    → r.order ≡ keys r.buffer
    → check_neighbours r s (segment_end s) ≡ none
    → (clash_before r.buffer s ≡ false) × (clash_behind r.buffer s ≡ false)
unfolding check_neighbours check_previous check_next
check_neighbours-eq_none r s o e = (ground arith, ground arith)

search-le : (m : List (ℕ × Segment)) (k : ℕ) → search (keys m) k ≤ length (keys m)
unfolding search keys
search-le [] k = omega arith
search-le ((j, w) ∷ m) k = ground (arith, search-le m k)

key-ge :
    (low : ℕ) (m : List (ℕ × Segment)) (i : ℕ)
    → Chain low m
    → i < length (keys m)
    → low ≤ get_or (keys m) i 0
unfolding keys
key-ge low [] i c h = absurd (omega arith)
key-ge low ((j, w) ∷ m) zero c h = c.1
key-ge low ((j, w) ∷ m) (suc i) c h =
    omega (arith, key-ge (after w) m i c.4 (omega arith), c.0, c.1)

-- The key in front of the insertion point is smaller.
first-lt : (m : List (ℕ × Segment)) (k : ℕ) → 0 < search (keys m) k → get_or (keys m) 0 0 < k
unfolding search keys
first-lt [] k h = absurd (omega arith)
first-lt ((j, w) ∷ m) k h = ground arith

segment_end-after : (s : Segment) → IsSegment s → segment_end s ≤ after s
unfolding segment_end
segment_end-after s g = ground (arith, g.fits)

pub after-le :
    (s : Segment) (k : ℕ) → IsSegment s → s.sequence < k → segment_end s ≤ k → after s ≤ k
unfolding segment_end
after-le s k g h e = ground (arith, g.fits, g.fin, g.data_)

entry-cons :
    (j k : ℕ) (w : Segment) (m : List (ℕ × Segment)) → j < k → entry ((j, w) ∷ m) k ≡ entry m k
unfolding lookup
entry-cons j k w m h = ground arith

pub entry_self : (j : ℕ) (w : Segment) (m : List (ℕ × Segment)) → entry ((j, w) ∷ m) j ≡ w
unfolding lookup
entry_self j w m = ground arith

get_or-pred : (j at : ℕ) (ks : List ℕ) → 0 < at → get_or (j ∷ ks) at 0 ≡ get_or ks (at - 1) 0
get_or-pred j zero ks h = absurd (omega arith)
get_or-pred j (suc at) ks h = ap (λ i. get_or ks i 0) (omega arith)

module _ (j : ℕ) (w s : Segment) (m : List (ℕ × Segment)) (low : ℕ) (c : Chain low ((j, w) ∷ m))
    (past : j < s.sequence) where
  search-cons : search (keys ((j, w) ∷ m)) s.sequence ≡ suc (search (keys m) s.sequence)
  unfolding search keys
  search-cons = ground arith

  -- The tests on the rest of the buffer are those on the whole.
  clash_behind-tail : clash_behind ((j, w) ∷ m) s ≡ false → clash_behind m s ≡ false
  unfolding keys search
  clash_behind-tail e = ground (
    arith,
    c.0,
    c.1,
    key-ge (after w) m (search (keys m) s.sequence) c.4,
    entry-cons j (get_or (keys m) (search (keys m) s.sequence) 0) w m,
  )

  before : ℕ
  before = get_or (keys m) (search (keys m) s.sequence - 1) 0

  previous-cons :
      0 < search (keys m) s.sequence
      → entry
          ((j, w) ∷ m)
          (get_or (keys ((j, w) ∷ m)) (search (keys ((j, w) ∷ m)) s.sequence - 1) 0)
        ≡ entry m before
  unfolding keys before
  previous-cons h = rw search-cons (
      entry ((j, w) ∷ m) (get_or (j ∷ keys m) (suc (search (keys m) s.sequence) - 1) 0)
      ≡⟨ ap (λ i. entry ((j, w) ∷ m) (get_or (j ∷ keys m) i 0))
          {x = suc (search (keys m) s.sequence) - 1} (omega arith) ⟩
        entry ((j, w) ∷ m) (get_or (j ∷ keys m) (search (keys m) s.sequence) 0)
      ≡⟨ ap (entry ((j, w) ∷ m)) (get_or-pred j (search (keys m) s.sequence) (keys m) h) ⟩
        entry ((j, w) ∷ m) before
      ≡⟨ entry-cons j before w m (
          omega (
            arith,
            c.0,
            c.1,
            key-ge (after w) m (search (keys m) s.sequence - 1) c.4
                (omega (arith, search-le m s.sequence)),
          )) ⟩
        entry m before ∎)

  clash_before-tail : clash_before ((j, w) ∷ m) s ≡ false → clash_before m s ≡ false
  unfolding before
  clash_before-tail e = ground (arith, previous-cons, search-cons)

  after-le_of_clear : clash_before ((j, w) ∷ m) s ≡ false → after w ≤ s.sequence
  unfolding keys search
  after-le_of_clear e = elim (Bool-cases (ltb 0 (search (keys m) s.sequence))) [
    | inl far ↦
        ground (arith, first-lt m s.sequence, key-ge (after w) m 0 c.4, search-le m s.sequence)
    | inr near ↦
        after-le w s.sequence c.2 (omega (arith, c.0))
          (ground (arith, search-cons, entry_self j w m))
  ]

-- A segment that passes both tests takes its place in the chain.
pub put-Chain :
    (m : List (ℕ × Segment)) (low : ℕ) (s : Segment)
    → Chain low m
    → low ≤ s.sequence
    → IsSegment s
    → lookup s.sequence m ≡ none
    → clash_before m s ≡ false
    → clash_behind m s ≡ false
    → Chain low (put s.sequence (record s { charged = true }) m)
unfolding put
put-Chain [] low s c l g n b a =
    (refl, l, record { fin = g.fin; data_ = g.data_; fits = g.fits }, refl, tt)
put-Chain ((j, w) ∷ m) low s c l g n b a = elim (Bool-cases (j == s.sequence)) [
  | inl same ↦ absurd (absent same)
  | inr other ↦ elim (Bool-cases (ltb s.sequence j)) [
    | inl front ↦
        rw (other, front)
          (
            refl,
            l,
            record { fin = g.fin; data_ = g.data_; fits = g.fits },
            refl,
            (c.0, room front, c.2, c.3, c.4),
          )
    | inr behind ↦
        let past : j < s.sequence = ground arith in
        rw (other, behind)
          (
            c.0,
            c.1,
            c.2,
            c.3,
            put-Chain m (after w) s c.4 (after-le_of_clear j w s m low c past b) g (rest past)
                (clash_before-tail j w s m low c past b) (clash_behind-tail j w s m low c past a),
          )
  ]
]
  where
    absent : (j == s.sequence) ≡ true → ⊥
    absent e = unfold lookup in ground (arith, n)

    rest : j < s.sequence → lookup s.sequence m ≡ none
    rest p = unfold lookup in ground (arith, n)

    room : ltb s.sequence j ≡ true → after s ≤ j
    room front =
        after-le s j g (ground arith)
          (unfold keys search in ground (arith, a, entry_self j w m, c.0))
