-- ===== src/AckTrack/Ops.antt =====
-- `Advance` and `Add` (queqiao/internal/pep/acktrack.go) on the set of acknowledged offsets.
use sing_quic.Prelude.{
  ℕ, suc, ◌+◌, ◌%◌, ◌<◌, ◌≤◌, ◌≡◌, ◌∙◌, refl, sym, ap, Bool, true, false, ◌||◌, List, [], ◌∷◌, ◌++◌,
  ltb, leb, ◌==◌, arith, length, Option, none, some, Bool-cases, inl, inr, ◌⊎◌, u64_mod,
}
use sing_quic.AckRanges.{Range}
use sing_quic.AckTrack.{
  AckTracker, covered, covered_in, advance, add, append_new, merge, compact, bump,
}
use sing_quic.AckTrack.Sets.{
  in_ranges, in_ranges-append, acked_in, acked, Apart, Merged-of_Apart, Ends, IsNormal,
}
use sing_quic.AckTrack.Compact.{compact-acked}
use sing_quic.AckTrack.Merge.{AllFull, merge-in_ranges, merge-Merged}
use sing_quic.AckTrack.Cover.{covered-acked}

AllFull-append : (rs : List Range) (a b : ℕ) → AllFull rs → a < b → AllFull (rs ++ ((a, b) ∷ []))
AllFull-append [] a b f h = (h, tt)
AllFull-append ((c, d) ∷ rs) a b f h = (f.0, AllFull-append rs a b f.1 h)

AllFull-of_Apart : (low : ℕ) (rs : List Range) → Apart low rs → AllFull rs
AllFull-of_Apart low [] c = tt
AllFull-of_Apart low ((a, b) ∷ rs) c = (c.1, AllFull-of_Apart b rs c.2)

-- A range that is not covered is not empty.
full_of_uncovered : (t : AckTracker) (a b : ℕ) → covered t a b ≡ false → a < b
unfolding covered covered_in
full_of_uncovered t a b h = ground arith

append_new-AllFull :
    (t : AckTracker) (changed : Bool) (rs : List Range)
    → AllFull t.ranges
    → AllFull (append_new t changed rs).1.ranges
unfolding append_new
append_new-AllFull t changed [] f = f
append_new-AllFull t changed ((a, b) ∷ rs) f = elim (Bool-cases (covered t a b)) [
  | inl known ↦ rw known (append_new-AllFull t changed rs f)
  | inr fresh ↦ rw fresh (
      append_new-AllFull (record t { ranges = t.ranges ++ ((a, b) ∷ []) }) true rs
        (AllFull-append t.ranges a b f (full_of_uncovered t a b fresh)))
]

append_new-acked :
    (t : AckTracker) (changed : Bool) (rs : List Range) (x : ℕ)
    → acked (append_new t changed rs).1 x ≡ acked t x || in_ranges rs x
unfolding append_new in_ranges
append_new-acked t changed [] x = ground arith
append_new-acked t changed ((a, b) ∷ rs) x = elim (Bool-cases (covered t a b)) [
  | inl known ↦
      rw known (ground (arith, append_new-acked t changed rs x, covered-acked t a b x known))
  | inr fresh ↦ rw fresh (
      ground (
        arith,
        append_new-acked (record t { ranges = t.ranges ++ ((a, b) ∷ []) }) true rs x,
        in_ranges-append t.ranges ((a, b) ∷ []) x,
      ))
]

-- Nothing else of the tracker changes, and nothing at all without the flag.
append_new_same :
    (t : AckTracker) (changed : Bool) (rs : List Range)
    → ((append_new t changed rs).1.cumulative ≡ t.cumulative)
      × ((append_new t changed rs).1.gen ≡ t.gen)
      × ((append_new t changed rs).1.closed ≡ t.closed)
unfolding append_new
append_new_same t changed [] = (refl, refl, refl)
append_new_same t changed ((a, b) ∷ rs) = elim (Bool-cases (covered t a b)) [
  | inl known ↦ rw known (append_new_same t changed rs)
  | inr fresh ↦ rw fresh (append_new_same (record t { ranges = t.ranges ++ ((a, b) ∷ []) }) true rs)
]

append_new-true : (t : AckTracker) (rs : List Range) → (append_new t true rs).0 ≡ true
unfolding append_new
append_new-true t [] = refl
append_new-true t ((a, b) ∷ rs) = ground (
  arith,
  append_new-true t rs,
  append_new-true (record t { ranges = t.ranges ++ ((a, b) ∷ []) }) rs,
)

append_new_unchanged :
    (t : AckTracker) (rs : List Range)
    → (append_new t false rs).0 ≡ false
    → (append_new t false rs).1 ≡ t
unfolding append_new
append_new_unchanged t [] h = refl
append_new_unchanged t ((a, b) ∷ rs) h = elim (Bool-cases (covered t a b)) [
  | inl known ↦ rw known (append_new_unchanged t rs (rw known at h))
  | inr fresh ↦
      absurd (ground (arith, append_new-true (record t { ranges = t.ranges ++ ((a, b) ∷ []) }) rs))
]

-- What a call leaves: the set at `x`, the order of the ranges, and the generation that tells the
-- waiters whether there is news.
pub record Gained (t : AckTracker) (x : ℕ) (gain : Bool) (t' : AckTracker) : Type 0 where
  pub set : acked t' x ≡ acked t x || gain
  pub normal : IsNormal t'
  pub grows : t.cumulative ≤ t'.cumulative
  pub open_ : t'.closed ≡ t.closed
  pub told : (t' ≡ t) ⊎ (t'.gen ≡ (t.gen + 1) % u64_mod)

-- `Advance` ends, with exactly the offsets below `sequence` added to the acknowledged set, and the
-- ranges past the cumulative point, in order and with gaps. Where the tracker changed at all, its
-- generation has moved on.
pub advance-Gained :
    (t : AckTracker) (sequence x : ℕ)
    → IsNormal t
    → Ends (Gained t x (ltb x sequence)) (advance t sequence)
unfolding advance
advance-Gained t sequence x n = elim (Bool-cases (leb sequence t.cumulative)) [
  | inl old ↦ rw old (record {
    set = ground arith;
    normal = n;
    grows = omega arith;
    open_ = refl;
    told = inl refl;
  })
  | inr new ↦ rw new (
      go new (compact (record t { cumulative = sequence })) (
        compact-acked (record t { cumulative = sequence }) x
          (Merged-of_Apart t.cumulative t.ranges n)))
]
  where
    go :
        leb sequence t.cumulative ≡ false
        → (o : Option AckTracker)
        → Ends
            (λ t'.
              (acked t' x ≡ acked_in sequence t.ranges x)
              × IsNormal t'
              × (sequence ≤ t'.cumulative)
              × (t'.gen ≡ t.gen)
              × (t'.closed ≡ t.closed))
            o
        → Ends (Gained t x (ltb x sequence)) (elim o [ none ↦ none | some t' ↦ some (bump t') ])
    go l none h = h
    go l (some t') h = record {
      set = ground arith;
      normal = h.1;
      grows = ground arith;
      open_ = h.4;
      told = inr (unfold bump in ground (arith, h.3));
    }

-- The part of `Add` behind the loop.
add_rest :
    (t t' : AckTracker) (x : ℕ) (gain : Bool)
    → acked t' x ≡ acked t x || gain
    → AllFull t'.ranges
    → (t'.cumulative ≡ t.cumulative) × (t'.gen ≡ t.gen) × (t'.closed ≡ t.closed)
    → Ends {A = Bool × AckTracker}
        (λ p. Gained t x gain p.1)
        (elim (compact (record t' { ranges = merge t'.ranges })) [
          | none ↦ none
          | some t'' ↦ some (true, bump t'')
        ])
add_rest t t' x gain s f k = go (compact m) (compact-acked m x (merge-Merged t'.ranges f))
  where
    m : AckTracker
    m = record t' { ranges = merge t'.ranges }

    go :
        (o : Option AckTracker)
        → Ends
            (λ q.
              (acked q x ≡ acked m x)
              × IsNormal q
              × (m.cumulative ≤ q.cumulative)
              × (q.gen ≡ m.gen)
              × (q.closed ≡ m.closed))
            o
        → Ends {A = Bool × AckTracker}
            (λ p. Gained t x gain p.1)
            (elim o [ none ↦ none | some t'' ↦ some (true, bump t'') ])
    go none h = h
    go (some q) h =
        unfold bump in
        record {
          set = ground (arith, merge-in_ranges x t'.ranges f);
          normal = h.1;
          grows = omega (arith, h.2, k.0);
          open_ = h.4 ∙ k.2;
          told = inr (ground (arith, h.3, k.1));
        }

-- `Add` ends, with exactly the offsets of the given ranges added to the acknowledged set, whatever
-- the ranges, and the tracker's ranges past the cumulative point, in order and with gaps. Where the
-- tracker changed at all, its generation has moved on.
pub add-Gained :
    (t : AckTracker) (ranges : List Range) (x : ℕ)
    → IsNormal t
    → Ends (λ p. Gained t x (in_ranges ranges x) p.1) (add t ranges)
unfolding add
add-Gained t [] x n =
    unfold in_ranges in
    record { set = ground arith; normal = n; grows = omega arith; open_ = refl; told = inl refl }
add-Gained t (r ∷ rs) x n = elim (Bool-cases (append_new t false (r ∷ rs)).0) [
  | inl more ↦
      rw (more, length_pos)
        (add_rest t (append_new t false (r ∷ rs)).1 x (in_ranges (r ∷ rs) x) set full
          (append_new_same t false (r ∷ rs)))
  | inr none_ ↦
      rw (none_, length_pos)
        (record {
          set = sym (ap (λ q. acked q x) (append_new_unchanged t (r ∷ rs) none_)) ∙ set;
          normal = n;
          grows = omega arith;
          open_ = refl;
          told = inl refl;
        })
]
  where
    length_pos : (suc (length rs) == 0) ≡ false
    length_pos = ground arith

    set : acked (append_new t false (r ∷ rs)).1 x ≡ acked t x || in_ranges (r ∷ rs) x
    set = append_new-acked t false (r ∷ rs) x

    full : AllFull (append_new t false (r ∷ rs)).1.ranges
    full = append_new-AllFull t false (r ∷ rs) (AllFull-of_Apart t.cumulative t.ranges n)
