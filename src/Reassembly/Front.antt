-- ===== src/Reassembly/Front.antt =====
-- What the front of the buffer gives when it is drained (queqiao/internal/multipath/reassembly.go).
use sing_quic.Prelude.{ℕ, suc, ◌+◌, ◌<◌, ◌≤◌, List, [], ◌∷◌, length, u64_mod, arith}
use sing_quic.Reassembly.{Segment}
use sing_quic.Reassembly.Inv.{Chain, Chain-le, after}
use sing_quic.Reassembly.Drained.{drain}

-- Nothing that stays buffered stands at the cursor or before it.
pub drain-Chain :
    (next : ℕ) (m : List (ℕ × Segment))
    → Chain next m
    → Chain (suc (drain next m).cursor) (drain next m).left
unfolding drain
drain-Chain next [] c = tt
drain-Chain next ((k, s) ∷ m) c = ground (
  arith,
  drain-Chain (next + length s.payload) m,
  Chain-le (after s) (next + length s.payload) m,
  Chain-le (after s) (suc next) m,
  c.2.fin,
  c.2.data_,
)

pub drain-cursor :
    (next : ℕ) (m : List (ℕ × Segment))
    → Chain next m
    → next < u64_mod
    → (next ≤ (drain next m).cursor) × ((drain next m).cursor < u64_mod)
unfolding drain
drain-cursor next [] c h = omega arith
drain-cursor next ((k, s) ∷ m) c h = ground (
  arith,
  drain-cursor (next + length s.payload) m,
  Chain-le (after s) (next + length s.payload) m,
  c.2.fits,
  c.2.fin,
  c.2.data_,
)

pub length-drain : (next : ℕ) (m : List (ℕ × Segment)) → length (drain next m).left ≤ length m
unfolding drain
length-drain next [] = omega arith
length-drain next ((k, s) ∷ m) = ground (arith, length-drain (next + length s.payload) m)

pub length-drain_head :
    (k : ℕ) (t : Segment) (m : List (ℕ × Segment)) → length (drain k ((k, t) ∷ m)).left ≤ length m
unfolding drain
length-drain_head k t m = ground (arith, length-drain (k + length t.payload) m)
