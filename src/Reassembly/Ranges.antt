-- ===== src/Reassembly/Ranges.antt =====
-- `ReceivedRanges` (queqiao/internal/multipath/reassembly.go): what the receiver reports to hold
-- out of order, and that the sender's `DecodeAckRanges` (queqiao/internal/protocol/frame.go) takes
-- it.
use sing_quic.Prelude.{
  ◌+◌, ◌-◌, All, Each, Each-of, ℕ, zero, suc, ◌≤◌, ◌≡◌, refl, ap, ◌∙◌, ◌||◌, none, List, [], ◌∷◌,
  length, take, arith, if◌then◌else◌, ◌==◌, inl, inr, ◌⊎◌, ◌↔◌, length-take, ok,
}
use sing_quic.AckRanges.{InRanges, encode_ack_ranges, decode_ack_ranges}
use sing_quic.AckRanges.RoundTrip.{IsRanges, decode_ack_ranges-encode_ack_ranges}
use sing_quic.Reassembly.{Reassembler, Segment}
use sing_quic.Reassembly.Inv.{IsValid}
use sing_quic.Reassembly.Holds.{InBuffer}
use sing_quic.Reassembly.Report.{range_loop, received_ranges, FoundIn-self, spans, range_loop-spans}
use sing_quic.Reassembly.Spans.{
  Growing, spans-IsRanges, InLast, through, spans-InRanges, length-spans,
}

take-IsRanges : (n low : ℕ) (rs : List (ℕ × ℕ)) → IsRanges low rs → IsRanges low (take n rs)
take-IsRanges zero low rs h = tt
take-IsRanges (suc n) low [] h = tt
take-IsRanges (suc n) low ((a, b) ∷ rs) h = (h.0, h.1, h.2, take-IsRanges n b rs h.3)

take-InRanges : (n x : ℕ) (rs : List (ℕ × ℕ)) → InRanges (take n rs) x → InRanges rs x
take-InRanges zero x rs h = absurd h
take-InRanges (suc n) x [] h = absurd h
take-InRanges (suc n) x ((a, b) ∷ rs) (inl h) = inl h
take-InRanges (suc n) x ((a, b) ∷ rs) (inr h) = inr (take-InRanges n x rs h)

take_all : (n : ℕ) (rs : List (ℕ × ℕ)) → length rs ≤ n → take n rs ≡ rs
take_all zero [] h = refl
take_all zero (r ∷ rs) h = absurd (omega arith)
take_all (suc n) [] h = refl
take_all (suc n) (r ∷ rs) h = ap (λ t. r ∷ t) (take_all n rs (omega arith))

received_ranges-spans :
    (r : Reassembler) (max : ℕ) → IsValid r → received_ranges r max ≡ take max (spans r.buffer none)
unfolding received_ranges
received_ranges-spans r max v = go r.buffer max refl
  where
    loop : range_loop r r.order [] none ≡ spans r.buffer none
    loop =
        ap (λ o. range_loop r o [] none) v.ordered
        ∙ range_loop-spans r r.buffer (suc r.next) [] none v.chained
            (FoundIn-self (suc r.next) r.buffer v.chained)

    go :
        (m : List (ℕ × Segment)) (n : ℕ)
        → r.buffer ≡ m
        → (if n == 0 || length m == 0 then [] else take n (range_loop r r.order [] none))
          ≡ take n (spans m none)
    go m zero e = refl
    go [] (suc n) e = unfold spans in ground arith
    go ((k, s) ∷ m) (suc n) e = ground (arith, loop ∙ ap (λ q. spans q none) e)

buffered_iff :
    (r : Reassembler) (x : ℕ) → IsValid r → InRanges (spans r.buffer none) x ↔ InBuffer r.buffer x
buffered_iff r x v =
    through (spans-InRanges r.buffer (suc r.next) x none (unfold Growing in v.chained))
      (unfold InLast in (drop_bottom, λ h. inr h))
  where
    drop_bottom : ⊥ ⊎ InBuffer r.buffer x → InBuffer r.buffer x
    drop_bottom (inl h) = absurd h
    drop_bottom (inr h) = h

IsRanges-le : (low : ℕ) (rs : List (ℕ × ℕ)) → IsRanges (suc low) rs → IsRanges low rs
IsRanges-le low [] h = tt
IsRanges-le low ((a, b) ∷ rs) h = (omega arith, h.1, h.2, h.3)

report-IsRanges :
    (r : Reassembler) (max : ℕ)
    → IsValid r
    → IsRanges (suc r.next) (received_ranges r max) × (length (received_ranges r max) ≤ max)
report-IsRanges r max v = rw (received_ranges-spans r max v) (
  take-IsRanges max (suc r.next) (spans r.buffer none)
      (spans-IsRanges r.buffer (suc r.next) none (unfold Growing in v.chained)),
  omega (arith, length-take max (spans r.buffer none)),
)

-- Every byte of every range is buffered.
abbrev pub AllBuffered : List (ℕ × Segment) → List (ℕ × ℕ) → Type 0
AllBuffered m = All (λ (range : ℕ × ℕ). Each (λ i. InBuffer m (range.0 + i)) (range.1 - range.0))

AllBuffered-of :
    (m : List (ℕ × Segment)) (ranges : List (ℕ × ℕ))
    → ((x : ℕ) → InRanges ranges x → InBuffer m x)
    → AllBuffered m ranges
AllBuffered-of m [] f = tt
AllBuffered-of m ((a, b) ∷ ranges) f = (
  Each-of (λ i. InBuffer m (a + i)) (b - a) (λ i h. f (a + i) (inl (omega arith, omega arith))),
  AllBuffered-of m ranges (λ x h. f x (inr h)),
)

-- What `ReceivedRanges` reports lies past the cursor, in order, disjoint and not empty, in at most
-- as many ranges as were asked for, and every byte of every range is buffered.
pub received_ranges-IsRanges :
    (r : Reassembler) (max : ℕ)
    → IsValid r
    → IsRanges (suc r.next) (received_ranges r max)
      × (length (received_ranges r max) ≤ max)
      × AllBuffered r.buffer (received_ranges r max)
received_ranges-IsRanges r max v = (
  (report-IsRanges r max v).0,
  (report-IsRanges r max v).1,
  AllBuffered-of r.buffer (received_ranges r max) (λ x h.
      (buffered_iff r x v).0
        (take-InRanges max x (spans r.buffer none) (rw (received_ranges-spans r max v) at h))),
)

-- When no more segments are buffered than ranges are asked for, the report is complete: a byte lies
-- in a reported range exactly when it is buffered.
pub received_ranges-InBuffer :
    (r : Reassembler) (max x : ℕ)
    → IsValid r
    → length r.buffer ≤ max
    → InRanges (received_ranges r max) x ↔ InBuffer r.buffer x
received_ranges-InBuffer r max x v h = rw (received_ranges-spans r max v) (
    rw (take_all max (spans r.buffer none) (omega (arith, (length-spans r.buffer).0)))
      (buffered_iff r x v))

-- The report of up to sixteen ranges can be sent as an acknowledgement: it is encoded without an
-- error, and the sender decodes the same ranges against the receiver's cursor.
pub decode_ack_ranges-received_ranges :
    (r : Reassembler) (max : ℕ)
    → IsValid r
    → max ≤ 16
    → (payload : List ℕ) × (encode_ack_ranges (received_ranges r max) ≡ ok payload)
      × (decode_ack_ranges payload r.next ≡ ok (received_ranges r max))
decode_ack_ranges-received_ranges r max v h =
    let report = report-IsRanges r max v in
    decode_ack_ranges-encode_ack_ranges (received_ranges r max) r.next
      (IsRanges-le r.next (received_ranges r max) report.0) (omega (arith, report.1))
