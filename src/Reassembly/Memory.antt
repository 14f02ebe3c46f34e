-- ===== src/Reassembly/Memory.antt =====
-- The reassembler's charges on the shared budget (queqiao/internal/multipath/reassembly.go).
use sing_quic.Prelude.{
  ℕ, suc, ◌+◌, ◌-◌, ◌≤◌, ◌≡◌, refl, sym, ap, ◌∙◌, true, Option, none, some, List, [], ◌∷◌, length,
  arith, subst,
}
use sing_quic.MemLimit.{Budget, try_acquire, Released, done, panicked}
use sing_quic.Reassembly.{Reassembler, Segment, insert, Inserted, close, release_all}
use sing_quic.Reassembly.Inv.{IsValid, Chain, after, total}
use sing_quic.Reassembly.Drained.{
  Covers, credit, credit-zero, credit-credit, Covers-credit, discharge-credit, total-drain_head,
}
use sing_quic.Reassembly.Insert.{Case, refused, known, kept, consumed, IsInput, front, insert-Case}
use sing_quic.Reassembly.Valid.{After, retain-bytes}

-- The budget moved by as much as the buffered bytes did, and the charges are still part of it.
abbrev pub Account : Option Budget → ℕ → Option Budget → ℕ → Type 0
Account none n none n' = Unit {0}
Account none n (some b') n' = ⊥
Account (some b) n none n' = ⊥
Account (some b) n (some b') n' =
    (b'.used + n ≡ b.used + n') × (n' ≤ b'.used) × (b'.capacity ≡ b.capacity)

Account-refl : (memory : Option Budget) (n : ℕ) → Covers memory n → Account memory n memory n
Account-refl none n c = tt
Account-refl (some b) n c = (refl, c, refl)

try_acquire-Account :
    (memory memory' : Option Budget) (n k : ℕ)
    → Covers memory n
    → try_acquire memory k ≡ (true, memory')
    → Account memory n memory' (n + k)
unfolding try_acquire
try_acquire-Account none none n k c e = tt
try_acquire-Account none (some b') n k c e = ground arith
try_acquire-Account (some b) none n k c e = ground arith
try_acquire-Account (some b) (some b') n k c e = ground arith

credit-Account :
    (memory : Option Budget) (n k : ℕ)
    → Covers memory n
    → k ≤ n
    → Account memory n (credit memory k) (n - k)
unfolding credit
credit-Account none n k c h = tt
credit-Account (some b) n k c h = omega arith

Case-Account :
    (r : Reassembler) (memory : Option Budget) (s : Segment) (x : Inserted)
    → IsValid r
    → Covers memory r.bytes
    → Case r memory s x
    → After (λ r' memory' _. Account memory r.bytes memory' r'.bytes) x
Case-Account r memory s x v c (refused e) = Account-refl memory r.bytes c
Case-Account r memory s x v c (known k) = Account-refl memory r.bytes c
Case-Account r memory s x v c (kept memory' k) =
    subst (Account memory r.bytes memory') (sym (retain-bytes r memory memory' s v k))
      (try_acquire-Account memory memory' r.bytes (length s.payload) c k.acquired)
Case-Account r memory s x v c (consumed a) =
    subst (Account memory r.bytes (credit memory (total r.buffer - total (front r s).left)))
      (omega (arith, v.counted, total-drain_head r.next s r.buffer))
      (credit-Account memory r.bytes (total r.buffer - total (front r s).left) c
        (omega (arith, v.counted)))

-- On every branch `Insert` moves the shared budget by exactly the bytes by which it moved its own
-- buffer, and what it still buffers stays charged.
pub insert-Account :
    (r : Reassembler) (memory : Option Budget) (s : Segment)
    → IsValid r
    → IsInput s
    → Covers memory r.bytes
    → After (λ r' memory' _. Account memory r.bytes memory' r'.bytes) (insert r memory s)
insert-Account r memory s v i c =
    Case-Account r memory s (insert r memory s) v c (insert-Case r memory s v i c)

-- The budget after `Close`, where it did not panic.
abbrev pub Settled : (Option Budget → Type 0) → Released → Type 0
Settled P (done memory) = P memory
Settled P panicked = ⊥

release_all-credit :
    (m : List (ℕ × Segment)) (low : ℕ) (memory : Option Budget)
    → Chain low m
    → Covers memory (total m)
    → release_all m memory ≡ done (credit memory (total m))
unfolding release_all
release_all-credit [] low memory c v = ap done (sym (credit-zero memory))
release_all-credit ((k, s) ∷ m) low memory c v =
    let (now, later) = Covers-credit memory (length s.payload) (total m) v in
    rw (discharge-credit s memory c.3 now, release_all)
      (release_all-credit m (after s) (credit memory (length s.payload)) c.4 later
        ∙ ap done (credit-credit memory (length s.payload) (total m)))

-- `Close` gives back the charges of all that is still buffered, without a panic, and leaves nothing
-- buffered and no bytes counted: a second `Close` finds nothing to give back.
pub close-Account :
    (r : Reassembler) (memory later : Option Budget)
    → IsValid r
    → Covers memory r.bytes
    → Settled (λ memory'. Account memory r.bytes memory' 0) (close r memory).1
      × ((close r memory).0.buffer ≡ [])
      × ((close r memory).0.bytes ≡ 0)
      × ((close (close r memory).0 later).1 ≡ done later)
unfolding close release_all
close-Account r memory later v c = (
  rw (release_all-credit r.buffer (suc r.next) memory v.chained (subst (Covers memory) v.counted c))
      (subst (λ n. Account memory r.bytes (credit memory n) 0) v.counted
        (subst (Account memory r.bytes (credit memory r.bytes)) (omega arith)
          (credit-Account memory r.bytes r.bytes c (omega arith)))),
  refl,
  refl,
  refl,
)
