-- ===== src/Reassembly/Holds.antt =====
-- No byte that `Insert` accepted is lost or kept back (queqiao/internal/multipath/reassembly.go).
use sing_quic.Prelude.{
  Each, Each-of, ℕ, suc, ◌+◌, ◌<◌, ◌≤◌, ◌≡◌, ◌∙◌, Bool, true, false, Option, none, some, List, [],
  ◌∷◌, length, arith, ◌==◌, ltb, Bool-cases, inl, inr, subst, ◌⊎◌, ◌↔◌,
}
use native.Mathlib.Decide.{dec_lt}
use sing_quic.MemLimit.{Budget}
use sing_quic.SeqMap.{lookup, put}
use sing_quic.Reassembly.{
  Reassembler, Config, Segment, retain, insert, fresh, Inserted, finished, Outcome, delivered,
  rejected, InsertError,
}
use sing_quic.Reassembly.Inv.{IsValid, Chain, Chain-le, after}
use sing_quic.Reassembly.Drained.{Drained, drain, Covers}
use sing_quic.Reassembly.Insert.{Case, refused, known, kept, consumed, IsInput, front, insert-Case}
use sing_quic.Reassembly.Valid.{After, fresh-IsValid, front-Chain, front-charged, insert-IsValid}

-- The offset is one of the segment's bytes.
abbrev pub Spans : Segment → ℕ → Type 0
Spans s x = (s.sequence ≤ x) × (x < s.sequence + length s.payload)

abbrev pub InBuffer : List (ℕ × Segment) → ℕ → Type 0
InBuffer [] x = ⊥
InBuffer ((k, s) ∷ m) x = Spans s x ⊎ InBuffer m x

-- The byte at an offset is delivered or buffered.
abbrev pub Held : ℕ → List (ℕ × Segment) → ℕ → Type 0
Held next m x = (x < next) ⊎ InBuffer m x

-- A chain holds nothing below its first offset.
InBuffer-ge : (low : ℕ) (m : List (ℕ × Segment)) (x : ℕ) → Chain low m → InBuffer m x → low ≤ x
InBuffer-ge low [] x c h = absurd h
InBuffer-ge low ((k, s) ∷ m) x c (inl h) = omega (arith, c.0, c.1)
InBuffer-ge low ((k, s) ∷ m) x c (inr h) = omega (arith, c.0, c.1, InBuffer-ge (after s) m x c.4 h)

-- A segment at the cursor is delivered by moving the cursor past it.
Held-shift :
    (next k : ℕ) (s : Segment) (m : List (ℕ × Segment)) (x : ℕ)
    → s.sequence ≡ next
    → Held (next + length s.payload) m x ↔ Held next ((k, s) ∷ m) x
Held-shift next k s m x e = (to, back)
  where
    to : Held (next + length s.payload) m x → Held next ((k, s) ∷ m) x
    to (inl h) = elim (dec_lt x next) [ yes p ↦ inl p | no p ↦ inr (inl (omega arith)) ]
    to (inr h) = inr (inr h)

    back : Held next ((k, s) ∷ m) x → Held (next + length s.payload) m x
    back (inl h) = inl (omega arith)
    back (inr (inl h)) = inl (omega arith)
    back (inr (inr h)) = inr h

-- Draining moves bytes from the buffer behind the cursor, and changes nothing else.
drain-Held :
    (next : ℕ) (m : List (ℕ × Segment)) (x : ℕ)
    → Chain next m
    → Held (drain next m).cursor (drain next m).left x ↔ Held next m x
unfolding drain
drain-Held next [] x c = (λ h. h, λ h. h)
drain-Held next ((k, s) ∷ m) x c = elim (Bool-cases (k == next)) [
  | inr gap ↦ rw gap (λ h. h, λ h. h)
  | inl meets ↦ elim (Bool-cases s.final) [
    | inl fin ↦ rw (meets, fin) (grind arith, grind (arith, c.2.fin))
    | inr more ↦
        rw (meets, more) (go (λ l. drain-Held (next + length s.payload) m x l) (ground arith) more)
  ]
]
  where
    d : Drained
    d = drain (next + length s.payload) m

    go :
        (Chain (next + length s.payload) m
          → Held d.cursor d.left x ↔ Held (next + length s.payload) m x)
        → k ≡ next
        → s.final ≡ false
        → Held d.cursor d.left x ↔ Held next ((k, s) ∷ m) x
    go ih e more =
        let (to, back) = ih (Chain-le (after s) (next + length s.payload) m (omega arith) c.4) in
        let (open_, shut) = Held-shift next k s m x (c.0 ∙ e) in
        (λ h. open_ (to h), λ h. back (shut h))

InBuffer-put :
    (k : ℕ) (s : Segment) (m : List (ℕ × Segment)) (x : ℕ)
    → lookup k m ≡ none
    → InBuffer (put k s m) x ↔ (Spans s x ⊎ InBuffer m x)
unfolding put lookup
InBuffer-put k s [] x n = (λ h. h, λ h. h)
InBuffer-put k s ((j, w) ∷ m) x n = elim (Bool-cases (j == k)) [
  | inl same ↦ absurd (ground (arith, n))
  | inr other ↦ elim (Bool-cases (ltb k j)) [
    | inl front ↦ rw (other, front) (λ h. h, λ h. h)
    | inr behind ↦ rw (other, behind) (swap (λ l. InBuffer-put k s m x l) (ground (arith, n)))
  ]
]
  where
    swap :
        (lookup k m ≡ none → InBuffer (put k s m) x ↔ (Spans s x ⊎ InBuffer m x))
        → lookup k m ≡ none
        → (Spans w x ⊎ InBuffer (put k s m) x) ↔ (Spans s x ⊎ (Spans w x ⊎ InBuffer m x))
    swap ih l = let (to, back) = ih l in (right to, left back)
      where
        right :
            (InBuffer (put k s m) x → Spans s x ⊎ InBuffer m x)
            → Spans w x ⊎ InBuffer (put k s m) x
            → Spans s x ⊎ (Spans w x ⊎ InBuffer m x)
        right to (inl h) = inr (inl h)
        right to (inr h) = elim (to h) [ inl a ↦ inl a | inr b ↦ inr (inr b) ]

        left :
            (Spans s x ⊎ InBuffer m x → InBuffer (put k s m) x)
            → Spans s x ⊎ (Spans w x ⊎ InBuffer m x)
            → Spans w x ⊎ InBuffer (put k s m) x
        left back (inl h) = inr (back (inl h))
        left back (inr (inl h)) = inl h
        left back (inr (inr h)) = inr (back (inr h))

-- A buffered segment's bytes are held.
InBuffer-lookup :
    (m : List (ℕ × Segment)) (low k x : ℕ) (t : Segment)
    → Chain low m
    → lookup k m ≡ some t
    → (k ≤ x) × (x < k + length t.payload)
    → InBuffer m x
unfolding lookup
InBuffer-lookup [] low k x t c e h = absurd (ground (arith, e))
InBuffer-lookup ((j, w) ∷ m) low k x t c e h = elim (Bool-cases (j == k)) [
  | inl same ↦ inl (here same (rw same at e))
  | inr other ↦ inr (InBuffer-lookup m (after w) k x t c.4 (rw other at e) h)
]
  where
    here : (j == k) ≡ true → some w ≡ some t → Spans w x
    here same f = ground (arith, c.0)

rotate : {A B C : Type 0} → A ⊎ (B ⊎ C) → B ⊎ (A ⊎ C)
rotate (inl a) = inr (inl a)
rotate (inr (inl b)) = inl b
rotate (inr (inr c)) = inr (inr c)

swap_second_to : {A B C : Type 0} → (B → C) → A ⊎ B → A ⊎ C
swap_second_to f (inl a) = inl a
swap_second_to f (inr b) = inr (f b)

swap_second : {A B C D : Type 0} → D ↔ (B ⊎ C) → (A ⊎ D) ↔ (B ⊎ (A ⊎ C))
swap_second (to, back) = (λ h. rotate (swap_second_to to h), λ h. swap_second_to back (rotate h))

-- After a call that succeeds, the bytes that are held are those that were held and those of the
-- segment; after one that fails, those that were held.
abbrev pub Gains : Segment → Reassembler → Reassembler → ℕ → Outcome → Type 0
Gains s r r' x (delivered out fin) = Held r'.next r'.buffer x ↔ (Spans s x ⊎ Held r.next r.buffer x)
Gains s r r' x (rejected e) = Held r'.next r'.buffer x ↔ Held r.next r.buffer x

Case-Gains :
    (r : Reassembler) (memory : Option Budget) (s : Segment) (x : ℕ) (i : Inserted)
    → IsValid r
    → Case r memory s i
    → After (λ r' _ o. Gains s r r' x o) i
Case-Gains r memory s x i v (refused e) = (λ h. h, λ h. h)
Case-Gains r memory s x i v (known (inl k)) =
    (λ h. inr h, elim [ inl h ↦ inl (omega arith) | inr h ↦ h ])
Case-Gains r memory s x i v (known (inr k)) = (
  λ h. inr h,
  elim [
    | inl h ↦ inr (
        InBuffer-lookup r.buffer (suc r.next) s.sequence x k.existing v.chained k.found
          (h.0, rw k.same h.1))
    | inr h ↦ h
  ],
)
Case-Gains r memory s x i v (kept memory' k) =
    unfold retain in
    swap_second (InBuffer-put s.sequence (record s { charged = true }) r.buffer x k.fresh)
Case-Gains r memory s x i v (consumed a) = rw front-charged (
    let (to, back) =
      drain-Held r.next ((r.next, record s { charged = true }) ∷ r.buffer) x (front-Chain r s a) in
    (λ h. rotate (to h), λ h. back (rotate h)))

-- `Insert` loses no byte and makes none up: the bytes that are delivered or buffered after a call
-- are those from before, and, if the call succeeds, those of the segment.
pub insert-Gains :
    (r : Reassembler) (memory : Option Budget) (s : Segment) (x : ℕ)
    → IsValid r
    → IsInput s
    → Covers memory r.bytes
    → After (λ r' _ o. Gains s r r' x o) (insert r memory s)
insert-Gains r memory s x v i c =
    Case-Gains r memory s x (insert r memory s) v (insert-Case r memory s v i c)

-- A flow's calls of `Insert`, and the segments that were accepted.
pub data Arrived (cfg : Config) : Reassembler → List Segment → Type 0 where
  opened : Arrived cfg (fresh cfg) []
  accepted :
      (r r' : Reassembler) (memory memory' : Option Budget) (s : Segment) (out : List ℕ)
      (fin : Bool) (segments : List Segment)
      → Arrived cfg r segments
      → Covers memory r.bytes
      → IsInput s
      → insert r memory s ≡ finished r' memory' (delivered out fin)
      → Arrived cfg r' (s ∷ segments)
  turned_away :
      (r r' : Reassembler) (memory memory' : Option Budget) (s : Segment) (e : InsertError)
      (segments : List Segment)
      → Arrived cfg r segments
      → Covers memory r.bytes
      → IsInput s
      → insert r memory s ≡ finished r' memory' (rejected e)
      → Arrived cfg r' segments

abbrev pub Carried : List Segment → ℕ → Type 0
Carried [] x = ⊥
Carried (s ∷ segments) x = Spans s x ⊎ Carried segments x

record Keeps (r : Reassembler) (segments : List Segment) : Type 0 where
  valid : IsValid r
  held : (x : ℕ) → Held r.next r.buffer x ↔ Carried segments x

Arrived-Keeps :
    (cfg : Config) (r : Reassembler) (segments : List Segment)
    → Arrived cfg r segments
    → Keeps r segments
Arrived-Keeps cfg r segments opened = record {
  valid = fresh-IsValid cfg;
  held = λ x. (elim [ inl h ↦ absurd (omega arith) | inr h ↦ h ], λ h. inr h);
}
Arrived-Keeps cfg r segments (accepted r0 _ memory memory' s out fin before a cov i e) =
    let k = Arrived-Keeps cfg r0 before a in
    record {
      valid = subst (After (λ r' _ _. IsValid r')) e (insert-IsValid r0 memory s k.valid i cov);
      held = λ x.
          let (to, back) =
            subst (After (λ r' _ o. Gains s r0 r' x o)) e
              (insert-Gains r0 memory s x k.valid i cov) in
          (λ h. swap_second_to (k.held x).0 (to h), λ h. back (swap_second_to (k.held x).1 h));
    }
Arrived-Keeps cfg r segments (turned_away r0 _ memory memory' s x before a cov i e) =
    let k = Arrived-Keeps cfg r0 before a in
    record {
      valid = subst (After (λ r' _ _. IsValid r')) e (insert-IsValid r0 memory s k.valid i cov);
      held = λ y.
          let (to, back) =
            subst (After (λ r' _ o. Gains s r0 r' y o)) e
              (insert-Gains r0 memory s y k.valid i cov) in
          (λ h. (k.held y).0 (to h), λ h. back ((k.held y).1 h));
    }

-- The cursor stands exactly at the first byte that no accepted segment has carried, in whatever
-- order the segments came: every byte below it has been carried, and the byte at it has not.
pub Arrived-cursor :
    (cfg : Config) (r : Reassembler) (segments : List Segment)
    → Arrived cfg r segments
    → Each (Carried segments) r.next × ¬ Carried segments r.next
Arrived-cursor cfg r segments a =
    let k = Arrived-Keeps cfg r segments a in
    (
      Each-of (Carried segments) r.next (λ x h. (k.held x).0 (inl h)),
      λ c. not_held k.valid ((k.held r.next).1 c),
    )
  where
    not_held : IsValid r → Held r.next r.buffer r.next → ⊥
    not_held v (inl h) = omega arith
    not_held v (inr h) = omega (arith, InBuffer-ge (suc r.next) r.buffer r.next v.chained h)
