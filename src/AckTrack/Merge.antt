-- ===== src/AckTrack/Merge.antt =====
-- `mergeLocked` (queqiao/internal/pep/acktrack.go): sorting and coalescing keep the set of offsets,
-- and leave ranges in order with gaps between them.
use sing_quic.Prelude.{ℕ, ◌<◌, ◌≤◌, ◌≡◌, refl, List, [], ◌∷◌, ltb, arith, if◌then◌else◌}
use sing_quic.AckRanges.{Range}
use sing_quic.AckTrack.{before, insert_range, sort_ranges, coalesce, coalesce_all, merge}
use sing_quic.AckTrack.Sets.{in_ranges, Apart, Merged}

-- Every range has an offset in it.
abbrev pub AllFull : List Range → Type 0
AllFull [] = Unit {0}
AllFull ((a, b) ∷ rs) = (a < b) × AllFull rs

-- By rising start from `low` on, none empty.
abbrev Rising : ℕ → List Range → Type 0
Rising low [] = Unit {0}
Rising low ((a, b) ∷ rs) = (low ≤ a) × (a < b) × Rising a rs

Rising-le : (low low' : ℕ) (rs : List Range) → low' ≤ low → Rising low rs → Rising low' rs
Rising-le low low' [] h r = tt
Rising-le low low' ((a, b) ∷ rs) h r = (omega arith, r.1, r.2)

insert-in_ranges :
    (a b x : ℕ) (rs : List Range) → in_ranges (insert_range (a, b) rs) x ≡ in_ranges ((a, b) ∷ rs) x
unfolding in_ranges insert_range
insert-in_ranges a b x [] = refl
insert-in_ranges a b x ((c, d) ∷ rs) = ground (arith, insert-in_ranges a b x rs)

insert-Rising :
    (low a b : ℕ) (rs : List Range)
    → low ≤ a
    → a < b
    → Rising low rs
    → Rising low (insert_range (a, b) rs)
unfolding insert_range before
insert-Rising low a b [] l p r = (l, p, tt)
insert-Rising low a b ((c, d) ∷ rs) l p r = ground (arith, insert-Rising c a b rs, r.2)

sort-in_ranges : (x : ℕ) (rs : List Range) → in_ranges (sort_ranges rs) x ≡ in_ranges rs x
unfolding sort_ranges in_ranges
sort-in_ranges x [] = refl
sort-in_ranges x ((a, b) ∷ rs) =
    ground (arith, insert-in_ranges a b x (sort_ranges rs), sort-in_ranges x rs)

sort-Rising : (rs : List Range) → AllFull rs → Rising 0 (sort_ranges rs)
unfolding sort_ranges
sort-Rising [] f = tt
sort-Rising ((a, b) ∷ rs) f =
    insert-Rising 0 a b (sort_ranges rs) (omega arith) f.0 (sort-Rising rs f.1)

coalesce-in_ranges :
    (a b x : ℕ) (rs : List Range)
    → a < b
    → Rising a rs
    → in_ranges (coalesce (a, b) rs) x ≡ in_ranges ((a, b) ∷ rs) x
unfolding in_ranges coalesce
coalesce-in_ranges a b x [] p r = refl
coalesce-in_ranges a b x ((c, d) ∷ rs) p r = ground (
  arith,
  coalesce-in_ranges a (if ltb b d then d else b) x rs,
  coalesce-in_ranges c d x rs,
  Rising-le c a rs,
  r.2,
)

coalesce-Apart :
    (low a b : ℕ) (rs : List Range) → low < a → a < b → Rising a rs → Apart low (coalesce (a, b) rs)
unfolding coalesce
coalesce-Apart low a b [] l p r = (l, p, tt)
coalesce-Apart low a b ((c, d) ∷ rs) l p r = ground (
  arith,
  coalesce-Apart low a (if ltb b d then d else b) rs,
  coalesce-Apart b c d rs,
  Rising-le c a rs,
  r.2,
)

coalesce-Merged : (a b : ℕ) (rs : List Range) → a < b → Rising a rs → Merged (coalesce (a, b) rs)
unfolding coalesce
coalesce-Merged a b [] p r = (p, tt)
coalesce-Merged a b ((c, d) ∷ rs) p r = ground (
  arith,
  coalesce-Merged a (if ltb b d then d else b) rs,
  coalesce-Apart b c d rs,
  Rising-le c a rs,
  r.2,
)

coalesce_all-Merged : (rs : List Range) → Rising 0 rs → Merged (coalesce_all rs)
unfolding coalesce_all
coalesce_all-Merged [] r = tt
coalesce_all-Merged ((a, b) ∷ rs) r = coalesce-Merged a b rs r.1 r.2

coalesce_all-in_ranges :
    (x : ℕ) (rs : List Range) → Rising 0 rs → in_ranges (coalesce_all rs) x ≡ in_ranges rs x
unfolding coalesce_all
coalesce_all-in_ranges x [] r = refl
coalesce_all-in_ranges x ((a, b) ∷ rs) r = coalesce-in_ranges a b x rs r.1 r.2

pub merge-in_ranges :
    (x : ℕ) (rs : List Range) → AllFull rs → in_ranges (merge rs) x ≡ in_ranges rs x
unfolding merge
merge-in_ranges x rs f =
    ground
      (arith, coalesce_all-in_ranges x (sort_ranges rs) (sort-Rising rs f), sort-in_ranges x rs)

pub merge-Merged : (rs : List Range) → AllFull rs → Merged (merge rs)
unfolding merge
merge-Merged [] f = tt
merge-Merged ((a, b) ∷ []) f = (f.0, tt)
merge-Merged ((a, b) ∷ (c, d) ∷ rs) f = ground (
  arith,
  coalesce_all-Merged (sort_ranges ((a, b) ∷ (c, d) ∷ rs)) (sort-Rising ((a, b) ∷ (c, d) ∷ rs) f),
)
