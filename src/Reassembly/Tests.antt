-- ===== src/Reassembly/Tests.antt =====
-- A segment that comes ahead of the cursor, and the one that closes the gap
-- (queqiao/internal/multipath/reassembly.go). The byte of the stream at an offset is that offset.
use sing_quic.Prelude.{
  Each, ℕ, ◌≤◌, ◌≡◌, refl, true, false, Option, none, some, List, [], ◌∷◌, length, arith, ok,
}
use sing_quic.MemLimit.{Budget, done, charge, try_acquire, release}
use sing_quic.AckRanges.{encode_ack_ranges, decode_ack_ranges}
use sing_quic.AckRanges.RoundTrip.{IsRanges}
use sing_quic.SeqMap.{lookup, put, delete, keys, search, insert_order, remove_order}
use sing_quic.Reassembly.{
  Config, Segment, Reassembler, fresh, new_reassembler, finished, delivered, rejected, segment_end,
  same_bytes, same_flag, buffered, check_previous, check_next, check_neighbours, unbuffer,
  discharge, consume, consume_contiguous, retain, insert_ahead, insert_new, insert, close, closed,
  overlapping, conflicting_duplicate, crosses_cursor, memory_exhausted,
}
use sing_quic.Reassembly.Inv.{IsSegment, IsValid}
use sing_quic.Reassembly.Drained.{drain, credit}
use sing_quic.Reassembly.Drain.{consume-drain, state}
use sing_quic.Reassembly.Insert.{IsInput}
use sing_quic.Reassembly.Valid.{After, insert-IsValid}
use sing_quic.Reassembly.Stream.{Runs, Received, opened, inserted, Received-Runs}
use sing_quic.Reassembly.Holds.{
  InBuffer, Held, Gains, Spans, Arrived, Carried, accepted, insert-Gains, Arrived-cursor,
}
use sing_quic.Reassembly.Holds
use sing_quic.Reassembly.Memory.{Account, Settled, insert-Account, close-Account}
use sing_quic.Reassembly.Report.{received_ranges, range_loop}
use sing_quic.Reassembly.Ranges.{
  AllBuffered, received_ranges-IsRanges, decode_ack_ranges-received_ranges,
}

abbrev stream : ℕ → ℕ
stream k = k

abbrev cfg : Config
cfg = record { max_bytes = 8; max_frames = 2 }

abbrev late : Segment
late = record { sequence = 2; payload = 2 ∷ 3 ∷ []; final = false; charged = false }

abbrev early : Segment
early = record { sequence = 0; payload = 0 ∷ 1 ∷ []; final = false; charged = false }

abbrev memory0 : Option Budget
memory0 = some (record { capacity = 5; used = 1; peak = 1; waiters = 0 })

abbrev memory1 : Option Budget
memory1 = some (record { capacity = 5; used = 3; peak = 3; waiters = 0 })

abbrev memory2 : Option Budget
memory2 = some (record { capacity = 5; used = 1; peak = 3; waiters = 0 })

-- With the late segment in the buffer.
abbrev waiting : Reassembler
waiting = record (fresh cfg) {
  buffer = (2, record late { charged = true }) ∷ [];
  order = 2 ∷ [];
  bytes = 2;
}

abbrev served : Reassembler
served = record (fresh cfg) { next = 4 }

insert-late : insert (fresh cfg) memory0 late ≡ finished waiting memory1 (delivered [] false)
unfolding insert insert_new insert_ahead check_neighbours check_previous check_next buffered
    segment_end retain lookup put insert_order search try_acquire charge closed
insert-late = refl

insert-early :
    insert waiting memory1 early ≡ finished served memory2 (delivered (0 ∷ 1 ∷ 2 ∷ 3 ∷ []) false)
unfolding insert insert_new consume_contiguous consume discharge release unbuffer check_neighbours
    check_previous check_next buffered segment_end lookup delete remove_order search closed
insert-early = refl

-- A repeated segment is let through, another one with its sequence is not, and neither are
-- segments that overlap a buffered one, cross the cursor or go over a limit.
insert_refused :
    (insert waiting memory1 late ≡ finished waiting memory1 (delivered [] false))
    × (insert waiting memory1 (record late { payload = 2 ∷ 4 ∷ [] })
        ≡ finished waiting memory1 (rejected conflicting_duplicate))
    × (insert waiting memory1 (record early { payload = 0 ∷ 1 ∷ 2 ∷ [] })
        ≡ finished waiting memory1 (rejected overlapping))
    × (insert served memory2 (record late { payload = 2 ∷ 3 ∷ 4 ∷ [] })
        ≡ finished served memory2 (rejected crosses_cursor))
    × (insert waiting memory1 (record late { sequence = 4; payload = 4 ∷ 5 ∷ 6 ∷ [] })
        ≡ finished waiting memory1 (rejected memory_exhausted))
unfolding insert insert_new insert_ahead check_neighbours check_previous check_next buffered
    segment_end same_bytes same_flag lookup search try_acquire closed
insert_refused = (refl, refl, refl, refl, refl)

late-IsSegment : IsSegment (record late { charged = true })
late-IsSegment = record { fin = ground arith; data_ = ground arith; fits = omega arith }

waiting-IsValid : IsValid waiting
unfolding keys
waiting-IsValid = record {
  ordered = refl;
  chained = (refl, omega arith, late-IsSegment, refl, tt);
  counted = refl;
  in_frames = omega arith;
  in_bytes = omega arith;
  in_range = omega arith;
}

late-IsInput : IsInput late
late-IsInput = record { plain = refl; sequence_range = omega arith; payload_range = omega arith }

early-IsInput : IsInput early
early-IsInput = record { plain = refl; sequence_range = omega arith; payload_range = omega arith }

early-IsSegment : IsSegment early
early-IsSegment = record { fin = ground arith; data_ = ground arith; fits = omega arith }

received : Received stream cfg served (0 ∷ 1 ∷ 2 ∷ 3 ∷ [])
unfolding new_reassembler
received =
    inserted waiting served memory1 memory2 early (delivered (0 ∷ 1 ∷ 2 ∷ 3 ∷ []) false) []
      (inserted (fresh cfg) waiting memory0 memory1 late (delivered [] false) [] (opened memory0)
        (omega arith) late-IsInput refl insert-late)
      (omega arith) early-IsInput refl insert-early

arrived : Arrived cfg served (early ∷ late ∷ [])
arrived =
    accepted waiting served memory1 memory2 early (0 ∷ 1 ∷ 2 ∷ 3 ∷ []) false (late ∷ [])
      (accepted (fresh cfg) waiting memory0 memory1 late [] false [] Holds.opened (omega arith)
        late-IsInput insert-late)
      (omega arith) early-IsInput insert-early

Received-Runs_example : Runs stream 0 (0 ∷ 1 ∷ 2 ∷ 3 ∷ []) 4
Received-Runs_example = Received-Runs stream cfg served (0 ∷ 1 ∷ 2 ∷ 3 ∷ []) received

Arrived-cursor_example : Each (Carried (early ∷ late ∷ [])) 4 × ¬ Carried (early ∷ late ∷ []) 4
Arrived-cursor_example = Arrived-cursor cfg served (early ∷ late ∷ []) arrived

insert-IsValid_example : After (λ r' _ _. IsValid r') (insert waiting memory1 early)
insert-IsValid_example =
    insert-IsValid waiting memory1 early waiting-IsValid early-IsInput (omega arith)

insert-Gains_example : After (λ r' _ o. Gains early waiting r' 3 o) (insert waiting memory1 early)
insert-Gains_example =
    insert-Gains waiting memory1 early 3 waiting-IsValid early-IsInput (omega arith)

insert-Account_example :
    After (λ r' memory' _. Account memory1 2 memory' r'.bytes) (insert waiting memory1 early)
insert-Account_example =
    insert-Account waiting memory1 early waiting-IsValid early-IsInput (omega arith)

close-Account_example :
    Settled (λ memory'. Account memory1 2 memory' 0) (close waiting memory1).1
    × ((close waiting memory1).0.buffer ≡ [])
    × ((close waiting memory1).0.bytes ≡ 0)
    × ((close (close waiting memory1).0 memory2).1 ≡ done memory2)
close-Account_example = close-Account waiting memory1 memory2 waiting-IsValid (omega arith)

consume-drain_example :
    consume 2 (state cfg none 0 waiting.buffer) memory1 early []
    ≡ finished served memory2 (delivered (0 ∷ 1 ∷ 2 ∷ 3 ∷ []) false)
unfolding drain credit closed keys
consume-drain_example =
    consume-drain cfg none waiting.buffer 2 0 memory1 early [] (omega arith) refl early-IsSegment
      (refl, omega arith, late-IsSegment, refl, tt) (omega arith)

received_ranges_waiting : received_ranges waiting 4 ≡ (2, 4) ∷ []
unfolding received_ranges range_loop buffered lookup
received_ranges_waiting = refl

received_ranges-IsRanges_example :
    IsRanges 1 (received_ranges waiting 4)
    × (length (received_ranges waiting 4) ≤ 4)
    × AllBuffered waiting.buffer (received_ranges waiting 4)
received_ranges-IsRanges_example = received_ranges-IsRanges waiting 4 waiting-IsValid

decode_ack_ranges-received_ranges_example :
    (payload : List ℕ) × (encode_ack_ranges (received_ranges waiting 4) ≡ ok payload)
    × (decode_ack_ranges payload 0 ≡ ok (received_ranges waiting 4))
decode_ack_ranges-received_ranges_example =
    decode_ack_ranges-received_ranges waiting 4 waiting-IsValid (omega arith)
