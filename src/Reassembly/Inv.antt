-- ===== src/Reassembly/Inv.antt =====
-- When a reassembler is well formed (queqiao/internal/multipath/reassembly.go).
use sing_quic.Prelude.{
  ℕ, suc, ◌+◌, ◌<◌, ◌≤◌, ◌≡◌, refl, true, false, none, List, [], ◌∷◌, length, max, u64_mod, arith,
}
use sing_quic.SeqMap.{lookup, keys}
use sing_quic.Reassembly.{Reassembler, Segment}

-- A FIN has no bytes and a data segment has some; no byte lies past the last 64-bit offset.
pub record IsSegment (s : Segment) : Type 0 where
  pub fin : s.final ≡ true → length s.payload ≡ 0
  pub data_ : s.final ≡ false → 0 < length s.payload
  pub fits : s.sequence + length s.payload < u64_mod

-- The first offset at which the next entry may start: a FIN keeps its key to itself.
abbrev pub after : Segment → ℕ
after s = s.sequence + max 1 (length s.payload)

-- Entries from `low` on, by rising key, disjoint, each under its own sequence and charged.
abbrev pub Chain : ℕ → List (ℕ × Segment) → Type 0
Chain low [] = Unit {0}
Chain low ((k, s) ∷ m) =
    (s.sequence ≡ k) × (low ≤ k) × IsSegment s × (s.charged ≡ true) × Chain (after s) m

abbrev pub total : List (ℕ × Segment) → ℕ
total [] = 0
total ((k, s) ∷ m) = length s.payload + total m

pub record IsValid (r : Reassembler) : Type 0 where
  pub ordered : r.order ≡ keys r.buffer
  pub chained : Chain (suc r.next) r.buffer
  pub counted : r.bytes ≡ total r.buffer
  pub in_frames : length r.buffer ≤ r.cfg.max_frames
  pub in_bytes : r.bytes ≤ r.cfg.max_bytes
  pub in_range : r.next < u64_mod

-- A chain may be read from any lower offset.
pub Chain-le : (low low' : ℕ) (m : List (ℕ × Segment)) → low' ≤ low → Chain low m → Chain low' m
Chain-le low low' [] h c = tt
Chain-le low low' ((k, s) ∷ m) h c = (c.0, omega arith, c.2, c.3, c.4)

-- No key stands below the chain.
pub lookup_below : (low k : ℕ) (m : List (ℕ × Segment)) → Chain low m → k < low → lookup k m ≡ none
unfolding lookup
lookup_below low k [] c h = refl
lookup_below low k ((j, s) ∷ m) c h =
    ground (arith, lookup_below (after s) k m c.4 (omega (arith, c.0, c.1)))

-- The bytes of a chain fit between its first offset and 2 ^ 64.
pub total-le :
    (low : ℕ) (m : List (ℕ × Segment)) → low ≤ u64_mod → Chain low m → low + total m ≤ u64_mod
total-le low [] h c = omega arith
total-le low ((k, s) ∷ m) h c =
    omega (arith, total-le (after s) m (omega (arith, c.2.fits)) c.4, c.0, c.1)
