-- ===== src/Reassembly/Drained.antt =====
-- What the loop of `consumeContiguous` (queqiao/internal/multipath/reassembly.go) is to do: the
-- entries that it hands over, and the charges that it gives back.
use sing_quic.Prelude.{
  ℕ, ◌+◌, ◌-◌, ◌≤◌, ◌≡◌, refl, Bool, true, false, Option, none, some, List, [], ◌∷◌, ◌++◌, length,
  arith, if◌then◌else◌, ◌==◌,
}
use sing_quic.MemLimit.{Budget, release, done}
use sing_quic.SeqMap.{keys}
use sing_quic.Reassembly.{Reassembler, Segment, discharge, closed, Inserted, finished, delivered}
use sing_quic.Reassembly.Inv.{total}

-- The bytes handed over, the cursor after them, what stays buffered, and whether a FIN was met.
pub record Drained : Type 0 where
  pub output : List ℕ
  pub cursor : ℕ
  pub left : List (ℕ × Segment)
  pub fin : Bool

unfoldable pub drain : ℕ → List (ℕ × Segment) → Drained
drain next [] = record { output = []; cursor = next; left = []; fin = false }
drain next ((k, s) ∷ m) =
    let rest = drain (next + length s.payload) m in
    if k == next
    then (if s.final
        then record { output = []; cursor = next; left = m; fin = true }
        else record rest { output = s.payload ++ rest.output })
    else record { output = []; cursor = next; left = (k, s) ∷ m; fin = false }

-- The budget with the charges of the drained entries given back.
unfoldable pub credit : Option Budget → ℕ → Option Budget
credit none n = none
credit (some b) n = some (record b { used = b.used - n })

-- The bytes that a budget has to have in use for the buffer's charges to be part of it.
abbrev pub Covers : Option Budget → ℕ → Type 0
Covers none n = Unit {0}
Covers (some b) n = n ≤ b.used

-- The state after the entries `d` are drained.
abbrev pub drained : Reassembler → Drained → Reassembler
drained r d = record r {
  next = d.cursor;
  buffer = d.left;
  order = keys d.left;
  bytes = total d.left;
  final_at = if d.fin then some d.cursor else r.final_at;
}

abbrev pub result : Reassembler → Option Budget → Drained → List ℕ → ℕ → Inserted
result r memory d out freed =
    finished (drained r d) (credit memory freed)
      (delivered (out ++ d.output) (if d.fin then true else closed (drained r d)))

pub discharge-credit :
    (s : Segment) (memory : Option Budget)
    → s.charged ≡ true
    → Covers memory (length s.payload)
    → discharge s memory ≡ done (credit memory (length s.payload))
unfolding discharge release credit
discharge-credit s none h c = ground arith
discharge-credit s (some b) h c = ground arith

pub credit-zero : (memory : Option Budget) → credit memory 0 ≡ memory
unfolding credit
credit-zero none = refl
credit-zero (some b) = ground arith

pub credit-credit :
    (memory : Option Budget) (a b : ℕ) → credit (credit memory a) b ≡ credit memory (a + b)
unfolding credit
credit-credit none a b = refl
credit-credit (some m) a b = ground arith

pub Covers-credit :
    (memory : Option Budget) (a b : ℕ)
    → Covers memory (a + b)
    → Covers memory a × Covers (credit memory a) b
unfolding credit
Covers-credit none a b c = (tt, tt)
Covers-credit (some m) a b c = omega arith

-- What the shared budget gets back for a segment.
abbrev pub freed : Segment → ℕ
freed s = if s.charged then length s.payload else 0

pub discharge-freed :
    (s : Segment) (memory : Option Budget)
    → Covers memory (freed s)
    → discharge s memory ≡ done (credit memory (freed s))
unfolding discharge release credit
discharge-freed s none c = ground arith
discharge-freed s (some b) c = ground arith

-- Draining takes bytes away from the buffer.
pub total-drain : (next : ℕ) (m : List (ℕ × Segment)) → total (drain next m).left ≤ total m
unfolding drain
total-drain next [] = omega arith
total-drain next ((k, t) ∷ m) = ground (arith, total-drain (next + length t.payload) m)

pub total-drain_head :
    (k : ℕ) (t : Segment) (m : List (ℕ × Segment)) → total (drain k ((k, t) ∷ m)).left ≤ total m
unfolding drain
total-drain_head k t m = ground (arith, total-drain (k + length t.payload) m)
