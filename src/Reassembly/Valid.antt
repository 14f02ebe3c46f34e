-- ===== src/Reassembly/Valid.antt =====
-- `Insert` keeps a reassembler well formed (queqiao/internal/multipath/reassembly.go).
use sing_quic.Prelude.{ℕ, ◌+◌, ◌≡◌, refl, true, Option, none, List, [], ◌∷◌, length, arith}
use sing_quic.MemLimit.{Budget}
use sing_quic.SeqMap.{lookup, put, keys}
use sing_quic.SeqMap.Order.{insert_order-keys}
use sing_quic.SeqMap.Laws.{length-put}
use sing_quic.Reassembly.{
  Reassembler, Config, Segment, retain, insert, Inserted, finished, crashed, stuck, Outcome, fresh,
}
use sing_quic.Reassembly.Inv.{IsValid, Chain, total, total-le}
use sing_quic.Reassembly.Drained.{drain, drained, Covers, total-drain_head}
use sing_quic.Reassembly.Front.{drain-Chain, drain-cursor, length-drain_head}
use sing_quic.Reassembly.Insert.{
  Case, refused, known, kept, consumed, Kept, AtCursor, IsInput, front, insert-Case,
}

-- The call has returned, and what it leaves satisfies `P`.
abbrev pub After : (Reassembler → Option Budget → Outcome → Type 0) → Inserted → Type 0
After P (finished r memory o) = P r memory o
After P crashed = ⊥
After P stuck = ⊥

pub total-put :
    (k : ℕ) (s : Segment) (m : List (ℕ × Segment))
    → lookup k m ≡ none
    → total (put k s m) ≡ total m + length s.payload
unfolding lookup put
total-put k s [] n = omega arith
total-put k s ((j, w) ∷ m) n = ground (arith, total-put k s m)

-- The segment at the cursor, in front of the buffer, is a chain.
pub front-Chain :
    (r : Reassembler) (s : Segment)
    → AtCursor r s
    → Chain r.next ((r.next, record s { charged = true }) ∷ r.buffer)
front-Chain r s a = (
  a.here,
  omega arith,
  record { fin = a.good.fin; data_ = a.good.data_; fits = a.good.fits },
  refl,
  a.behind,
)

-- Whether the first segment is charged makes no difference to what is drained.
pub front-charged :
    (r : Reassembler) (s : Segment)
    → front r s ≡ drain r.next ((r.next, record s { charged = true }) ∷ r.buffer)
unfolding drain
front-charged r s = ground arith

-- The sum of the bytes does not wrap.
pub retain-bytes :
    (r : Reassembler) (memory memory' : Option Budget) (s : Segment)
    → IsValid r
    → Kept r memory memory' s
    → (retain r s).bytes ≡ r.bytes + length s.payload
unfolding retain
retain-bytes r memory memory' s v k = ground (
  arith,
  v.counted,
  total-put s.sequence (record s { charged = true }) r.buffer k.fresh,
  total-le _ _ (omega (arith, v.in_range)) k.chained,
)

retain-IsValid :
    (r : Reassembler) (memory memory' : Option Budget) (s : Segment)
    → IsValid r
    → Kept r memory memory' s
    → IsValid (retain r s)
unfolding retain
retain-IsValid r memory memory' s v k = record {
  ordered =
      rw v.ordered (insert_order-keys s.sequence (record s { charged = true }) r.buffer k.fresh);
  chained = k.chained;
  counted = ground (
    arith,
    v.counted,
    total-put s.sequence (record s { charged = true }) r.buffer k.fresh,
    total-le _ _ (omega (arith, v.in_range)) k.chained,
  );
  in_frames =
      omega (arith, length-put s.sequence (record s { charged = true }) r.buffer k.fresh, k.frames);
  in_bytes = k.bytes;
  in_range = v.in_range;
}

drained-IsValid :
    (r : Reassembler) (s : Segment) → IsValid r → AtCursor r s → IsValid (drained r (front r s))
drained-IsValid r s v a = record {
  ordered = refl;
  chained =
      rw front-charged
        (drain-Chain r.next ((r.next, record s { charged = true }) ∷ r.buffer) (front-Chain r s a));
  counted = refl;
  in_frames = omega (arith, length-drain_head r.next s r.buffer, v.in_frames);
  in_bytes = omega (arith, total-drain_head r.next s r.buffer, v.in_bytes, v.counted);
  in_range =
      rw front-charged
        (drain-cursor r.next ((r.next, record s { charged = true }) ∷ r.buffer) (front-Chain r s a)
          v.in_range).1;
}

Case-IsValid :
    (r : Reassembler) (memory : Option Budget) (s : Segment) (x : Inserted)
    → IsValid r
    → Case r memory s x
    → After (λ r' _ _. IsValid r') x
Case-IsValid r memory s x v (refused e) = v
Case-IsValid r memory s x v (known k) = v
Case-IsValid r memory s x v (kept memory' k) = retain-IsValid r memory memory' s v k
Case-IsValid r memory s x v (consumed a) = drained-IsValid r s v a

-- A call of `Insert` on a well-formed reassembler whose bytes are charged to the budget returns:
-- its loop ends and no `Release` panics. On every branch it leaves the reassembler well formed: the
-- keys follow the buffer, the buffered segments are disjoint and lie past the cursor, and the count
-- of their bytes is exact and within the configured limits.
pub insert-IsValid :
    (r : Reassembler) (memory : Option Budget) (s : Segment)
    → IsValid r
    → IsInput s
    → Covers memory r.bytes
    → After (λ r' _ _. IsValid r') (insert r memory s)
insert-IsValid r memory s v i c =
    Case-IsValid r memory s (insert r memory s) v (insert-Case r memory s v i c)

pub fresh-IsValid : (cfg : Config) → IsValid (fresh cfg)
unfolding keys
fresh-IsValid cfg = record {
  ordered = refl;
  chained = tt;
  counted = refl;
  in_frames = omega arith;
  in_bytes = omega arith;
  in_range = omega arith;
}
