-- ===== src/Reassembly/Stream.antt =====
-- The bytes that `Insert` delivers (queqiao/internal/multipath/reassembly.go), for segments that
-- are cut from one stream.
use sing_quic.Prelude.{
  ℕ, zero, suc, ◌+◌, ◌≡◌, refl, sym, ap, ap₂, ◌∙◌, true, false, Option, List, [], ◌∷◌, ◌++◌, length,
  arith, ◌==◌, ◌||◌, Bool-cases, inl, inr, subst, append-nil, length-append,
}
use sing_quic.MemLimit.{Budget}
use sing_quic.SeqMap.{put}
use sing_quic.Reassembly.{
  Reassembler, Config, Segment, retain, insert, new_reassembler, default_config, fresh, Inserted,
  finished, Outcome, delivered, rejected,
}
use sing_quic.Reassembly.Inv.{IsValid, Chain, Chain-le, after}
use sing_quic.Reassembly.Drained.{Drained, drain, Covers}
use sing_quic.Reassembly.Insert.{Case, refused, known, kept, consumed, IsInput, insert-Case}
use sing_quic.Reassembly.Valid.{After, front-Chain, front-charged, insert-IsValid, fresh-IsValid}

module _ (stream : ℕ → ℕ) where
  -- The `n` bytes of the stream from offset `k` on.
  abbrev pub bytes_from : ℕ → ℕ → List ℕ
  bytes_from k zero = []
  bytes_from k (suc n) = stream k ∷ bytes_from (suc k) n

  abbrev pub Cut : Segment → Type 0
  Cut s = s.payload ≡ bytes_from s.sequence (length s.payload)

  -- Every buffered segment is cut from the stream.
  abbrev pub AllCut : List (ℕ × Segment) → Type 0
  AllCut [] = Unit {0}
  AllCut ((k, s) ∷ m) = Cut s × AllCut m

  bytes_from-add :
      (k n m l : ℕ) → n + m ≡ l → bytes_from k l ≡ bytes_from k n ++ bytes_from (k + n) m
  bytes_from-add k zero m l e = λ i. bytes_from (start i) (count i)
    where
      start : k ≡ k + 0
      start = omega arith

      count : l ≡ m
      count = omega arith
  bytes_from-add k (suc n) m zero e = absurd (omega arith)
  bytes_from-add k (suc n) m (suc l) e =
      ap (λ t. stream k ∷ t)
        (bytes_from-add (suc k) n m l (omega arith) ∙ λ i.
          bytes_from (suc k) n ++ bytes_from (start i) m)
    where
      start : suc k + n ≡ k + suc n
      start = omega arith

  pub bytes_from-append :
      (k : ℕ) (p o : List ℕ)
      → p ≡ bytes_from k (length p)
      → o ≡ bytes_from (k + length p) (length o)
      → p ++ o ≡ bytes_from k (length (p ++ o))
  bytes_from-append k p o hp ho =
      ap₂ ◌++◌ hp ho
      ∙ sym (bytes_from-add k (length p) (length o) (length (p ++ o)) (sym (length-append p o)))

  AllCut-put :
      (k : ℕ) (s : Segment) (m : List (ℕ × Segment)) → Cut s → AllCut m → AllCut (put k s m)
  unfolding put
  AllCut-put k s [] c cs = (c, tt)
  AllCut-put k s ((j, w) ∷ m) c cs = ground (arith, AllCut-put k s m c cs.1)

  drain-AllCut : (next : ℕ) (m : List (ℕ × Segment)) → AllCut m → AllCut (drain next m).left
  unfolding drain
  drain-AllCut next [] cs = tt
  drain-AllCut next ((k, s) ∷ m) cs = ground (arith, drain-AllCut (next + length s.payload) m cs.1)

  -- Bytes of the stream that begin at `next` and end at `cursor`.
  abbrev pub Runs : ℕ → List ℕ → ℕ → Type 0
  Runs next output cursor =
      (output ≡ bytes_from next (length output)) × (next + length output ≡ cursor)

  drain-Runs :
      (next : ℕ) (m : List (ℕ × Segment))
      → Chain next m
      → AllCut m
      → Runs next (drain next m).output (drain next m).cursor
  unfolding drain
  drain-Runs next [] c cs = (refl, omega arith)
  drain-Runs next ((k, s) ∷ m) c cs = elim (Bool-cases (k == next)) [
    | inr gap ↦ rw gap (refl, omega arith)
    | inl meets ↦ elim (Bool-cases s.final) [
      | inl fin ↦ rw (meets, fin) (refl, omega arith)
      | inr more ↦
          rw (meets, more)
            (go (λ l. drain-Runs (next + length s.payload) m l cs.1) (ground arith) more)
    ]
  ]
    where
      d : Drained
      d = drain (next + length s.payload) m

      later : s.final ≡ false → Chain (next + length s.payload) m
      later more = Chain-le (after s) (next + length s.payload) m (omega arith) c.4

      go :
          (Chain (next + length s.payload) m → Runs (next + length s.payload) d.output d.cursor)
          → k ≡ next
          → s.final ≡ false
          → Runs next (s.payload ++ d.output) d.cursor
      go ih e more =
          let run = ih (later more) in
          (
            bytes_from-append next s.payload d.output
                (subst (λ j. s.payload ≡ bytes_from j (length s.payload)) (c.0 ∙ e) cs.0) run.0,
            omega (arith, length-append s.payload d.output, run.1),
          )

  -- What a call hands over follows on from the old cursor, and ends at the new one.
  abbrev pub Follows : ℕ → Reassembler → Outcome → Type 0
  Follows next r' (delivered output fin) = Runs next output r'.next
  Follows next r' (rejected e) = r'.next ≡ next

  Case-Follows :
      (r : Reassembler) (memory : Option Budget) (s : Segment) (x : Inserted)
      → AllCut r.buffer
      → Cut s
      → Case r memory s x
      → After (λ r' _ o. AllCut r'.buffer × Follows r.next r' o) x
  Case-Follows r memory s x cs c (refused e) = (cs, refl)
  Case-Follows r memory s x cs c (known k) = (cs, (refl, omega arith))
  Case-Follows r memory s x cs c (kept memory' k) =
      unfold retain in
      (AllCut-put s.sequence (record s { charged = true }) r.buffer c cs, (refl, omega arith))
  Case-Follows r memory s x cs c (consumed a) = rw front-charged (
    drain-AllCut r.next ((r.next, record s { charged = true }) ∷ r.buffer) (c, cs),
    drain-Runs r.next ((r.next, record s { charged = true }) ∷ r.buffer) (front-Chain r s a)
        (c, cs),
  )

  -- Where all segments are cut from one stream, whatever `Insert` delivers is the part of the stream
  -- from the old cursor up to the new one; a call that fails does not move the cursor.
  pub insert-Follows :
      (r : Reassembler) (memory : Option Budget) (s : Segment)
      → IsValid r
      → IsInput s
      → Covers memory r.bytes
      → AllCut r.buffer
      → Cut s
      → After (λ r' _ o. AllCut r'.buffer × Follows r.next r' o) (insert r memory s)
  insert-Follows r memory s v i cov cs c =
      Case-Follows r memory s (insert r memory s) cs c (insert-Case r memory s v i cov)

  abbrev pub output_of : Outcome → List ℕ
  output_of (delivered output fin) = output
  output_of (rejected e) = []

  -- A flow's calls of `Insert`, with segments of the stream in any order, overlapping or repeated,
  -- and with whatever the other flows do to the shared budget in between; and all that they returned.
  pub data Received (cfg : Config) : Reassembler → List ℕ → Type 0 where
    opened : (memory : Option Budget) → Received cfg (new_reassembler cfg memory).0 []
    inserted :
        (r r' : Reassembler) (memory memory' : Option Budget) (s : Segment) (o : Outcome)
        (out : List ℕ)
        → Received cfg r out
        → Covers memory r.bytes
        → IsInput s
        → Cut s
        → insert r memory s ≡ finished r' memory' o
        → Received cfg r' (out ++ output_of o)

  record Good (r : Reassembler) (out : List ℕ) : Type 0 where
    valid : IsValid r
    cut : AllCut r.buffer
    runs : Runs 0 out r.next

  new_reassembler-Good :
      (cfg : Config) (memory : Option Budget) → Good (new_reassembler cfg memory).0 []
  unfolding new_reassembler
  new_reassembler-Good cfg memory = elim (Bool-cases (cfg.max_bytes == 0 || cfg.max_frames == 0)) [
    | inl poor ↦ rw poor (start default_config)
    | inr rich ↦ rw rich (start cfg)
  ]
    where
      start : (c : Config) → Good (fresh c) []
      start c = record { valid = fresh-IsValid c; cut = tt; runs = (refl, refl) }

  Good-step :
      (r r' : Reassembler) (o : Outcome) (out : List ℕ)
      → Good r out
      → IsValid r'
      → AllCut r'.buffer
      → Follows r.next r' o
      → Good r' (out ++ output_of o)
  Good-step r r' (delivered output fin) out g v cs f = record {
    valid = v;
    cut = cs;
    runs = (
      bytes_from-append 0 out output g.runs.0
          (subst (λ j. output ≡ bytes_from j (length output)) (sym g.runs.1) f.0),
      omega (arith, length-append out output, g.runs.1, f.1),
    );
  }
  Good-step r r' (rejected e) out g v cs f = record {
    valid = v;
    cut = cs;
    runs = rw (append-nil, f) g.runs;
  }

  Received-Good : (cfg : Config) (r : Reassembler) (out : List ℕ) → Received cfg r out → Good r out
  Received-Good cfg r out (opened memory) = new_reassembler-Good cfg memory
  Received-Good cfg r out (inserted r0 _ memory memory' s o out0 before cov i c e) =
      let g = Received-Good cfg r0 out0 before in
      let v = subst (After (λ r' _ _. IsValid r')) e (insert-IsValid r0 memory s g.valid i cov) in
      let f =
        subst (After (λ r' _ o. AllCut r'.buffer × Follows r0.next r' o)) e
          (insert-Follows r0 memory s g.valid i cov g.cut c) in
      Good-step r0 r o out0 g v f.0 f.1

  -- All that a flow has been handed, over any sequence of calls with segments of one stream in any
  -- order, is the beginning of the stream up to the cursor, each byte once and in order.
  pub Received-Runs :
      (cfg : Config) (r : Reassembler) (out : List ℕ) → Received cfg r out → Runs 0 out r.next
  Received-Runs cfg r out h = (Received-Good cfg r out h).runs
