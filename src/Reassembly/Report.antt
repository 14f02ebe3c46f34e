-- ===== src/Reassembly/Report.antt =====
-- `ReceivedRanges` (queqiao/internal/multipath/reassembly.go), and its loop as a recursion on the
-- buffer.
use sing_quic.Prelude.{
  ℕ, suc, ◌+◌, ◌≡◌, refl, sym, ◌||◌, Option, none, some, List, [], ◌∷◌, ◌++◌, length, take, arith,
  if◌then◌else◌, ◌==◌, append-nil, append_assoc,
}
use sing_quic.SeqMap.{lookup, keys}
use sing_quic.Reassembly.{Reassembler, Segment, buffered, add64}
use sing_quic.Reassembly.Inv.{Chain, Chain-le, after}

-- The loop of `ReceivedRanges` over the keys of the buffer; the range built last is kept apart.
unfoldable pub range_loop : Reassembler → List ℕ → List (ℕ × ℕ) → Option (ℕ × ℕ) → List (ℕ × ℕ)
range_loop r [] ranges none = ranges
range_loop r [] ranges (some last) = ranges ++ (last ∷ [])
range_loop r (start ∷ order) ranges none =
    let s = buffered r start in
    let end = add64 start (length s.payload) in
    range_loop r order ranges (if s.final then none else some (start, end))
range_loop r (start ∷ order) ranges (some (low, high)) =
    let s = buffered r start in
    let end = add64 start (length s.payload) in
    let joined = high == start in
    range_loop r order (if s.final || joined then ranges else ranges ++ ((low, high) ∷ []))
      (if s.final then some (low, high) else if joined then some (low, end) else some (start, end))

-- `ReceivedRanges`
unfoldable pub received_ranges : Reassembler → ℕ → List (ℕ × ℕ)
received_ranges r max =
    if max == 0 || length r.buffer == 0 then [] else take max (range_loop r r.order [] none)

-- The map holds every entry of the list.
pub FoundIn : List (ℕ × Segment) → List (ℕ × Segment) → Type 0
FoundIn whole [] = Unit {0}
FoundIn whole ((k, s) ∷ m) = (lookup k whole ≡ some s) × FoundIn whole m

FoundIn-cons :
    (j : ℕ) (w : Segment) (whole m : List (ℕ × Segment))
    → Chain (suc j) m
    → FoundIn whole m
    → FoundIn ((j, w) ∷ whole) m
unfolding FoundIn lookup
FoundIn-cons j w whole [] c f = tt
FoundIn-cons j w whole ((k, s) ∷ m) c f = (
  ground (arith, c.1, f.0),
  FoundIn-cons j w whole m (Chain-le (after s) (suc j) m (omega arith) c.4) f.1,
)

pub FoundIn-self : (low : ℕ) (m : List (ℕ × Segment)) → Chain low m → FoundIn m m
unfolding FoundIn lookup
FoundIn-self low [] c = tt
FoundIn-self low ((k, s) ∷ m) c = (
  ground arith,
  FoundIn-cons k s m m (Chain-le (after s) (suc k) m (omega (arith, c.0)) c.4)
      (FoundIn-self (after s) m c.4),
)

-- The ranges of the entries, the range built last kept apart.
unfoldable pub spans : List (ℕ × Segment) → Option (ℕ × ℕ) → List (ℕ × ℕ)
spans [] none = []
spans [] (some last) = last ∷ []
spans ((k, s) ∷ m) none = spans m (if s.final then none else some (k, k + length s.payload))
spans ((k, s) ∷ m) (some (low, high)) =
    let skip = spans m (some (low, high)) in
    let join = spans m (some (low, k + length s.payload)) in
    let new = (low, high) ∷ spans m (some (k, k + length s.payload)) in
    if s.final then skip else if high == k then join else new

pub range_loop-spans :
    (r : Reassembler) (m : List (ℕ × Segment)) (low : ℕ) (ranges : List (ℕ × ℕ))
    (last : Option (ℕ × ℕ))
    → Chain low m
    → FoundIn r.buffer m
    → range_loop r (keys m) ranges last ≡ ranges ++ spans m last
unfolding range_loop keys buffered FoundIn spans
range_loop-spans r [] low ranges none c f = sym (append-nil ranges)
range_loop-spans r [] low ranges (some last) c f = refl
range_loop-spans r ((k, s) ∷ m) low ranges none c f = ground (
  arith,
  f.0,
  c.0,
  c.2.fits,
  range_loop-spans r m (after s) ranges none c.4 f.1,
  range_loop-spans r m (after s) ranges (some (k, k + length s.payload)) c.4 f.1,
)
range_loop-spans r ((k, s) ∷ m) low ranges (some (a, b)) c f = ground (
  arith,
  f.0,
  c.0,
  c.2.fits,
  range_loop-spans r m (after s) ranges (some (a, b)) c.4 f.1,
  range_loop-spans r m (after s) ranges (some (a, k + length s.payload)) c.4 f.1,
  range_loop-spans r m (after s) (ranges ++ ((a, b) ∷ [])) (some (k, k + length s.payload)) c.4 f.1,
  append_assoc ranges ((a, b) ∷ []) (spans m (some (k, k + length s.payload))),
)
