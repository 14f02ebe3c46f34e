-- ===== src/Reassembly/Insert.antt =====
-- What a call of `Insert` can do (queqiao/internal/multipath/reassembly.go), and that it leaves a
-- well-formed reassembler.
use sing_quic.Prelude.{
  ℕ, suc, ◌+◌, ◌-◌, ◌<◌, ◌≤◌, ◌≡◌, refl, sym, ap, ◌∙◌, Bool, true, false, not, ◌&&◌, ◌||◌, Option,
  none, some, List, [], ◌∷◌, length, u64_mod, arith, if◌then◌else◌, ◌==◌, ltb, leb, Bool-cases,
  Option-cases, inl, inr, subst, ◌⊎◌,
}
use sing_quic.MemLimit.{Budget, try_acquire}
use sing_quic.SeqMap.{lookup, put, keys, search}
use sing_quic.Reassembly.{
  Reassembler, Segment, segment_end, add64, check_neighbours, same_flag, same_bytes, closed, retain,
  insert, insert_new, insert_ahead, consume, consume_contiguous,
}
use sing_quic.Reassembly.{Inserted, finished, delivered, rejected, InsertError}
use sing_quic.Reassembly.{
  fin_with_payload, empty_segment, bad_sequence, crosses_cursor, conflicting_duplicate,
  window_exceeded, memory_exhausted,
}
use sing_quic.Reassembly.Inv.{IsSegment, IsValid, Chain, Chain-le, after, total}
use sing_quic.Reassembly.Neighbours.{
  check_neighbours-eq_none, clash_before, clash_behind, put-Chain, after-le, entry_self,
}
use sing_quic.Reassembly.Drained.{Drained, drain, result, freed, Covers}
use sing_quic.Reassembly.Drain.{state, consume-drain}

-- The same payload is already buffered at the segment's sequence.
pub record Present (r : Reassembler) (s : Segment) : Type 0 where
  pub existing : Segment
  pub found : lookup s.sequence r.buffer ≡ some existing
  pub same : existing.payload ≡ s.payload

-- The segment is new, lies ahead of the cursor, and is retained.
pub record Kept (r : Reassembler) (memory memory' : Option Budget) (s : Segment) : Type 0 where
  pub ahead : r.next < s.sequence
  pub good : IsSegment s
  pub fresh : lookup s.sequence r.buffer ≡ none
  pub chained : Chain (suc r.next) (put s.sequence (record s { charged = true }) r.buffer)
  pub frames : length r.buffer + 1 ≤ r.cfg.max_frames
  pub bytes : add64 r.bytes (length s.payload) ≤ r.cfg.max_bytes
  pub acquired : try_acquire memory (length s.payload) ≡ (true, memory')

-- The segment stands at the cursor, in front of all that is buffered.
pub record AtCursor (r : Reassembler) (s : Segment) : Type 0 where
  pub here : s.sequence ≡ r.next
  pub good : IsSegment s
  pub behind : Chain (after s) r.buffer

abbrev pub front : Reassembler → Segment → Drained
front r s = drain r.next ((r.next, s) ∷ r.buffer)

-- The four ways in which `Insert` ends.
pub data Case (r : Reassembler) (memory : Option Budget) (s : Segment) : Inserted → Type 0 where
  refused : (e : InsertError) → Case r memory s (finished r memory (rejected e))
  known :
      (s.sequence < r.next) × (s.sequence + length s.payload ≤ r.next) ⊎ Present r s
      → Case r memory s (finished r memory (delivered [] (closed r)))
  kept :
      (memory' : Option Budget)
      → Kept r memory memory' s
      → Case r memory s (finished (retain r s) memory' (delivered [] (closed (retain r s))))
  consumed :
      AtCursor r s
      → Case r memory s (result r memory (front r s) [] (total r.buffer - total (front r s).left))

same_bytes-eq : (xs ys : List ℕ) → same_bytes xs ys ≡ true → xs ≡ ys
unfolding same_bytes
same_bytes-eq [] [] h = refl
same_bytes-eq [] (y ∷ ys) h = cc
same_bytes-eq (x ∷ xs) [] h = cc
same_bytes-eq (x ∷ xs) (y ∷ ys) h = ground (arith, same_bytes-eq xs ys)

-- A valid state is given by its cursor, its buffer and its FIN.
state-eta : (r : Reassembler) → IsValid r → r ≡ state r.cfg r.final_at r.next r.buffer
state-eta r v = λ i. record r { order = v.ordered i; bytes = v.counted i }

Chain-behind :
    (m : List (ℕ × Segment)) (s : Segment)
    → Chain (suc s.sequence) m
    → IsSegment s
    → clash_behind m s ≡ false
    → Chain (after s) m
Chain-behind [] s c g a = tt
Chain-behind ((j, w) ∷ m) s c g a = (
  c.0,
  after-le s j g c.1 (unfold keys search in ground (arith, a, entry_self j w m, c.0, c.1)),
  c.2,
  c.3,
  c.4,
)

-- A request that is refused leaves the budget as it was.
try_acquire_refused :
    (memory m : Option Budget) (n : ℕ) → try_acquire memory n ≡ (false, m) → memory ≡ m
unfolding try_acquire
try_acquire_refused none m n e = ground arith
try_acquire_refused (some b) m n e = ground arith

-- What a caller can hand to `Insert`: the field `charged` is the package's own.
pub record IsInput (s : Segment) : Type 0 where
  pub plain : s.charged ≡ false
  pub sequence_range : s.sequence < u64_mod
  pub payload_range : length s.payload < u64_mod

module _ (r : Reassembler) (memory : Option Budget) (s : Segment) (v : IsValid r)
    (input : IsInput s) (cover : Covers memory r.bytes) where
  consume_contiguous-Case : AtCursor r s → Case r memory s (consume_contiguous r memory s)
  unfolding consume_contiguous
  consume_contiguous-Case a =
      subst (Case r memory s)
        (sym (
          ap (λ q. consume (suc (length r.buffer)) q memory s []) (state-eta r v)
          ∙ consume-drain r.cfg r.final_at r.buffer (suc (length r.buffer)) r.next memory s []
              (omega arith) a.here a.good a.behind covers
          ∙ ap (result r memory (front r s) [])
              {x = freed s + (total r.buffer - total (front r s).left)} (ground arith)))
        (consumed a)
    where
      covers : Covers memory (freed s + total r.buffer)
      covers = subst (Covers memory) (ground (arith, v.counted, input.plain)) cover

  insert_ahead-Case :
      r.next < s.sequence
      → IsSegment s
      → lookup s.sequence r.buffer ≡ none
      → Chain (suc r.next) (put s.sequence (record s { charged = true }) r.buffer)
      → Case r memory s (insert_ahead r memory s)
  unfolding insert_ahead
  insert_ahead-Case l g n c =
      elim (Bool-cases (
        ltb r.cfg.max_frames (length r.buffer + 1)
        || ltb r.cfg.max_bytes (add64 r.bytes (length s.payload)))) [
          | inl over ↦ rw over (refused window_exceeded)
          | inr within ↦ rw within (go (try_acquire memory (length s.payload)) refl within)
        ]
    where
      go :
          (t : Bool × Option Budget)
          → try_acquire memory (length s.payload) ≡ t
          → (ltb r.cfg.max_frames (length r.buffer + 1)
              || ltb r.cfg.max_bytes (add64 r.bytes (length s.payload)))
            ≡ false
          → Case r memory s (
              if t.0
              then finished (retain r s) t.1 (delivered [] (closed (retain r s)))
              else finished r t.1 (rejected memory_exhausted))
      go (true, m) e w = kept m (record {
        ahead = l;
        good = g;
        fresh = n;
        chained = c;
        frames = ground arith;
        bytes = ground arith;
        acquired = e;
      })
      go (false, m) e w =
          subst (λ b. Case r memory s (finished r b (rejected memory_exhausted)))
            (try_acquire_refused memory m (length s.payload) e) (refused memory_exhausted)

  insert_new-Case : IsSegment s → r.next ≤ s.sequence → Case r memory s (insert_new r memory s)
  unfolding insert_new
  insert_new-Case g l = elim (Option-cases (lookup s.sequence r.buffer)) [
    | inl n ↦
        rw (n, insert_new)
          (elim (Option-cases (check_neighbours r s (segment_end s))) [
            | inl clear ↦ rw clear (
                place n (check_neighbours-eq_none r s v.ordered clear)
                  (Bool-cases (s.sequence == r.next)))
            | inr (e, clash) ↦ rw clash (refused e)
          ])
    | inr (t, found) ↦
        rw (found, insert_new)
          (elim (Bool-cases (same_flag t.final s.final && same_bytes t.payload s.payload)) [
            | inl same ↦ rw same (
                known (
                  inr (record {
                    existing = t;
                    found = found;
                    same = same_bytes-eq t.payload s.payload (ground arith);
                  })))
            | inr other ↦ rw other (refused conflicting_duplicate)
          ])
  ]
    where
      place :
          lookup s.sequence r.buffer ≡ none
          → (clash_before r.buffer s ≡ false) × (clash_behind r.buffer s ≡ false)
          → ((s.sequence == r.next) ≡ true) ⊎ ((s.sequence == r.next) ≡ false)
          → Case r memory s (
              if s.sequence == r.next
              then consume_contiguous r memory s
              else insert_ahead r memory s)
      place n cl (inl e) = rw e (
          consume_contiguous-Case (record {
            here = ground arith;
            good = g;
            behind =
                Chain-behind r.buffer s
                  (Chain-le (suc r.next) (suc s.sequence) r.buffer (ground arith) v.chained) g cl.1;
          }))
      place n cl (inr e) = rw e (
          insert_ahead-Case (ground arith) g n
            (put-Chain r.buffer (suc r.next) s v.chained (ground arith) g n cl.0 cl.1))

  -- Every call of `Insert` ends in one of the four ways.
  pub insert-Case : Case r memory s (insert r memory s)
  unfolding insert segment_end
  insert-Case = elim (Bool-cases (s.final && not (length s.payload == 0))) [
    | inl bad ↦ rw bad (refused fin_with_payload)
    | inr a ↦ rw a (elim (Bool-cases (not s.final && length s.payload == 0)) [
      | inl bad ↦ rw bad (refused empty_segment)
      | inr b ↦ rw b (elim (Bool-cases (ltb (u64_mod - 1 - length s.payload) s.sequence)) [
        | inl bad ↦ rw bad (refused bad_sequence)
        | inr c ↦ rw c (elim (Bool-cases (ltb s.sequence r.next)) [
          | inl old ↦ rw old (elim (Bool-cases (leb (segment_end s) r.next)) [
            | inl done_ ↦ rw done_ (known (inl (ground arith, before done_ a c)))
            | inr over ↦ rw over (refused crosses_cursor)
          ])
          | inr new ↦ rw new (
              insert_new-Case (record { fin = ground arith; data_ = ground arith; fits = fits c })
                (ground arith))
        ])
      ])
    ])
  ]
    where
      fits :
          ltb (u64_mod - 1 - length s.payload) s.sequence ≡ false
          → s.sequence + length s.payload < u64_mod
      fits c = ground (arith, input.payload_range)

      before :
          leb (segment_end s) r.next ≡ true
          → (s.final && not (length s.payload == 0)) ≡ false
          → ltb (u64_mod - 1 - length s.payload) s.sequence ≡ false
          → s.sequence + length s.payload ≤ r.next
      before h a c = ground (arith, fits c)
