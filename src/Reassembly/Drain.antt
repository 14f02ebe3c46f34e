-- ===== src/Reassembly/Drain.antt =====
-- `consumeContiguous` (queqiao/internal/multipath/reassembly.go) against a description of it: the
-- entries at the front of the buffer that are contiguous with the cursor, up to a FIN.
use sing_quic.Prelude.{
  ℕ, zero, suc, ◌+◌, ◌-◌, ◌<◌, ◌≤◌, ◌≡◌, refl, sym, true, false, Option, none, some, List, [], ◌∷◌,
  ◌++◌, length, u64_mod, arith, ◌==◌, append-nil, append_assoc, Bool-cases, inl, inr, ==_iff, subst,
}
use sing_quic.MemLimit.{Budget}
use sing_quic.SeqMap.{lookup, delete, keys}
use sing_quic.SeqMap.Order.{remove_order-keys}
use sing_quic.Reassembly.{
  Reassembler, Segment, Config, consume, unbuffer, closed, finished, delivered,
}
use sing_quic.Reassembly.Inv.{IsSegment, Chain, after, total, lookup_below, total-le}
use sing_quic.Reassembly.Drained.{
  drain, credit, Covers, result, credit-zero, credit-credit, Covers-credit, freed, discharge-freed,
  total-drain_head,
}

module _ (cfg : Config) (final_at : Option ℕ) where
  -- A state whose keys and count follow its buffer.
  abbrev pub state : ℕ → List (ℕ × Segment) → Reassembler
  state next m = record {
    cfg = cfg;
    next = next;
    buffer = m;
    order = keys m;
    bytes = total m;
    final_at = final_at;
  }

  module _ (fuel next : ℕ) (memory : Option Budget) (s : Segment) (out : List ℕ)
      (here : s.sequence ≡ next) (good : IsSegment s) where
    consume_fin :
        (m : List (ℕ × Segment))
        → s.final ≡ true
        → consume (suc fuel) (state next m) memory s out
          ≡ finished (record (state next m) { final_at = some next }) memory (delivered out true)
    unfolding consume
    consume_fin m f = ground arith

    consume_last :
        (m : List (ℕ × Segment))
        → s.final ≡ false
        → Covers memory (freed s)
        → lookup (next + length s.payload) m ≡ none
        → consume (suc fuel) (state next m) memory s out
          ≡ finished
              (state (next + length s.payload) m)
              (credit memory (freed s))
              (delivered (out ++ s.payload) (closed (state (next + length s.payload) m)))
    unfolding consume
    consume_last m f c l = ground (arith, discharge-freed s memory c, good.fits)

    consume_more :
        (k : ℕ) (t : Segment) (m : List (ℕ × Segment))
        → s.final ≡ false
        → Covers memory (freed s)
        → next + length s.payload ≡ k
        → length t.payload + total m < u64_mod
        → consume (suc fuel) (state next ((k, t) ∷ m)) memory s out
          ≡ consume fuel (state k m) (credit memory (freed s)) t (out ++ s.payload)
    unfolding consume unbuffer lookup delete
    consume_more k t m f c e small =
        ground (arith, discharge-freed s memory c, good.fits, remove_order-keys k t m)

  module _ (next : ℕ) (s : Segment) (m : List (ℕ × Segment)) where
    drain_fin :
        s.final ≡ true
        → drain next ((next, s) ∷ m) ≡ record { output = []; cursor = next; left = m; fin = true }
    unfolding drain
    drain_fin f = ground arith

    drain_more :
        s.final ≡ false
        → drain next ((next, s) ∷ m) ≡ (
            let rest = drain (next + length s.payload) m in
            record rest { output = s.payload ++ rest.output })
    unfolding drain
    drain_more f = ground arith

  drain_none :
      (next : ℕ) (m : List (ℕ × Segment))
      → Chain (suc next) m
      → drain next m ≡ record { output = []; cursor = next; left = m; fin = false }
  unfolding drain
  drain_none next [] c = refl
  drain_none next ((k, t) ∷ m) c = ground arith

  -- The loop, on a buffer that is chained behind the current segment, does not run out of fuel and
  -- does not panic: it ends in the state that `drain` describes.
  abbrev Ends : ℕ → ℕ → Option Budget → Segment → List ℕ → List (ℕ × Segment) → Type 0
  Ends fuel next memory s out m =
      let d = drain next ((next, s) ∷ m) in
      consume fuel (state next m) memory s out
      ≡ result (state next m) memory d out (freed s + (total m - total d.left))

  Ends-stop :
      (m : List (ℕ × Segment)) (fuel next : ℕ) (memory : Option Budget) (s : Segment) (out : List ℕ)
      → s.sequence ≡ next
      → IsSegment s
      → s.final ≡ false
      → Covers memory (freed s)
      → Chain (suc (next + length s.payload)) m
      → Ends (suc fuel) next memory s out m
  Ends-stop m fuel next memory s out h g f v c = ground (
    arith,
    drain_more next s m f,
    drain_none (next + length s.payload) m c,
    consume_last fuel next memory s out h g m f v
        (lookup_below _ (next + length s.payload) m c (omega arith)),
    append-nil s.payload,
  )

  Ends-go_on :
      (k : ℕ) (t : Segment) (m : List (ℕ × Segment)) (fuel next : ℕ) (memory : Option Budget)
      (s : Segment) (out : List ℕ)
      → s.sequence ≡ next
      → IsSegment s
      → s.final ≡ false
      → Covers memory (freed s)
      → next + length s.payload ≡ k
      → length t.payload + total m < u64_mod
      → freed t ≡ length t.payload
      → total (drain k ((k, t) ∷ m)).left ≤ total m
      → Ends fuel k (credit memory (freed s)) t (out ++ s.payload) m
      → Ends (suc fuel) next memory s out ((k, t) ∷ m)
  Ends-go_on k t m fuel next memory s out h g f v e small paid fewer ih =
      let d = drain k ((k, t) ∷ m) in
      ground (
        arith,
        drain_more next s ((k, t) ∷ m) f,
        consume_more fuel next memory s out h g k t m f v e small,
        credit-credit memory (freed s) (freed t + (total m - total d.left)),
        append_assoc out s.payload d.output,
      )

  Ends-fin :
      (m : List (ℕ × Segment)) (fuel next : ℕ) (memory : Option Budget) (s : Segment) (out : List ℕ)
      → s.sequence ≡ next
      → IsSegment s
      → s.final ≡ true
      → Ends (suc fuel) next memory s out m
  Ends-fin m fuel next memory s out h g fin = ground (
    arith,
    consume_fin fuel next memory s out h g m fin,
    drain_fin next s m fin,
    credit-zero memory,
    append-nil out,
    g.fin fin,
  )

  -- The loop, on a buffer that is chained behind the current segment, does not run out of fuel and
  -- does not panic: it ends in the state that `drain` describes.
  pub consume-drain :
      (m : List (ℕ × Segment)) (fuel next : ℕ) (memory : Option Budget) (s : Segment) (out : List ℕ)
      → length m < fuel
      → s.sequence ≡ next
      → IsSegment s
      → Chain (after s) m
      → Covers memory (freed s + total m)
      → Ends fuel next memory s out m
  consume-drain m zero next memory s out f h g c v = absurd (omega arith)
  consume-drain [] (suc fuel) next memory s out f h g c v = elim (Bool-cases s.final) [
    | inl fin ↦ Ends-fin [] fuel next memory s out h g fin
    | inr more ↦
        Ends-stop [] fuel next memory s out h g more (Covers-credit memory (freed s) 0 v).0 tt
  ]
  consume-drain ((k, t) ∷ m) (suc fuel) next memory s out f h g c v = elim (Bool-cases s.final) [
    | inl fin ↦ Ends-fin ((k, t) ∷ m) fuel next memory s out h g fin
    | inr more ↦ elim (Bool-cases (next + length s.payload == k)) [
      | inl meets ↦
          Ends-go_on k t m fuel next memory s out h g more cover.0 ((==_iff _ _).0 meets)
            (omega (arith, total-le (after t) m (omega (arith, c.2.fits)) c.4)) paid
            (total-drain_head k t m)
            (consume-drain m fuel k (credit memory (freed s)) t (out ++ s.payload) (omega arith) c.0
              c.2 c.4
              (subst (λ n. Covers (credit memory (freed s)) (n + total m)) (sym paid) cover.1))
      | inr gap ↦
          Ends-stop ((k, t) ∷ m) fuel next memory s out h g more cover.0
            (c.0, ground (arith, g.data_ more, c.1), c.2, c.3, c.4)
    ]
  ]
    where
      cover : Covers memory (freed s) × Covers (credit memory (freed s)) (total ((k, t) ∷ m))
      cover = Covers-credit memory (freed s) (total ((k, t) ∷ m)) v

      paid : freed t ≡ length t.payload
      paid = ground (arith, c.3)
