-- ===== src/Reassembly.antt =====
-- queqiao/internal/multipath/reassembly.go: a flow's segments, put back in order. The budget that
-- `r.memory` points at is shared with other flows, so it is passed in and handed back.
pub mod Inv
pub mod Neighbours
pub mod Drained
pub mod Drain
pub mod Front
pub mod Insert
pub mod Valid
pub mod Stream
pub mod Holds
pub mod Memory
pub mod Report
pub mod Spans
pub mod Ranges
mod Tests
use sing_quic.Prelude.{
  ℕ, zero, suc, ◌+◌, ◌-◌, ◌*◌, ◌%◌, Bool, true, false, not, ◌&&◌, ◌||◌, Option, none, some, List,
  [], ◌∷◌, ◌++◌, ltb, leb, ◌==◌, if◌then◌else◌, length, get_or, take, u64_mod,
}
use sing_quic.MemLimit.{Budget, Released, try_acquire, release, done, panicked}
use sing_quic.SeqMap.{lookup, put, delete, search, insert_order, remove_order}

pub record Config : Type 0 where
  pub max_bytes : ℕ
  pub max_frames : ℕ

abbrev pub default_config : Config
default_config = record { max_bytes = 8388608; max_frames = 4096 }

pub record Segment : Type 0 where
  pub sequence : ℕ
  pub payload : List ℕ
  pub final : Bool
  pub charged : Bool

-- The zero value of a Go struct, which a map gives for a missing key.
abbrev pub zero_segment : Segment
zero_segment = record { sequence = 0; payload = []; final = false; charged = false }

pub record Reassembler : Type 0 where
  pub cfg : Config
  pub next : ℕ
  pub buffer : List (ℕ × Segment)
  pub order : List ℕ
  pub bytes : ℕ
  pub final_at : Option ℕ

abbrev pub fresh : Config → Reassembler
fresh cfg = record { cfg = cfg; next = 0; buffer = []; order = []; bytes = 0; final_at = none }

-- `NewReassembler`: the reassembler, and the budget that it will use.
unfoldable pub new_reassembler : Config → Option Budget → Reassembler × Option Budget
new_reassembler cfg memory =
    if cfg.max_bytes == 0 || cfg.max_frames == 0
    then (fresh default_config, none)
    else (fresh cfg, memory)

-- `Closed`
unfoldable pub closed : Reassembler → Bool
closed r = elim r.final_at [ none ↦ false | some at ↦ leb at r.next ]

-- Sums and differences of uint64.
abbrev pub add64 : ℕ → ℕ → ℕ
add64 a b = (a + b) % u64_mod

abbrev pub sub64 : ℕ → ℕ → ℕ
sub64 a b = (a + u64_mod - b) % u64_mod

pub data InsertError : Type 0 where
  fin_with_payload empty_segment bad_sequence crosses_cursor conflicting_duplicate : InsertError
  overlapping fin_conflict window_exceeded memory_exhausted cursor_mismatch : InsertError

-- The bytes and the flag that `Insert` returns, or its error.
pub data Outcome : Type 0 where
  delivered : List ℕ → Bool → Outcome
  rejected : InsertError → Outcome

-- `finished` is a return, with what the call leaves behind; `crashed` is the panic of `Release`,
-- and `stuck` means that the fuel of the loop ran out.
pub data Inserted : Type 0 where
  finished : Reassembler → Option Budget → Outcome → Inserted
  crashed stuck : Inserted

-- The end of a segment's bytes; a FIN has none.
unfoldable pub segment_end : Segment → ℕ
segment_end s = if s.final then s.sequence else add64 s.sequence (length s.payload)

-- The bytes of two payloads are the same.
unfoldable pub same_bytes : List ℕ → List ℕ → Bool
same_bytes [] [] = true
same_bytes [] (y ∷ ys) = false
same_bytes (x ∷ xs) [] = false
same_bytes (x ∷ xs) (y ∷ ys) = x == y && same_bytes xs ys

unfoldable pub same_flag : Bool → Bool → Bool
same_flag true b = b
same_flag false b = not b

-- `r.buffer[sequence]`
unfoldable pub buffered : Reassembler → ℕ → Segment
buffered r sequence = elim (lookup sequence r.buffer) [ none ↦ zero_segment | some s ↦ s ]

-- The first half of `checkNeighbours`: the segment before the insertion point.
unfoldable pub check_previous : Reassembler → Segment → Option InsertError
unfolding buffered
check_previous r s =
    let at = search r.order s.sequence in
    if ltb 0 at && ltb s.sequence (segment_end (buffered r (get_or r.order (at - 1) 0)))
    then some overlapping
    else none

-- The second half: the segment at the insertion point.
unfoldable pub check_next : Reassembler → Segment → ℕ → Option InsertError
unfolding buffered
check_next r s end =
    let at = search r.order s.sequence in
    let next = buffered r (get_or r.order at 0) in
    if ltb at (length r.order)
    then (if ltb next.sequence end
        then some overlapping
        else if s.final && next.sequence == s.sequence
        then some fin_conflict
        else none)
    else none

-- `checkNeighbours`
unfoldable pub check_neighbours : Reassembler → Segment → ℕ → Option InsertError
check_neighbours r s end = elim (check_previous r s) [ some e ↦ some e | none ↦ check_next r s end ]

-- The entry at the cursor leaves the buffer.
unfoldable pub unbuffer : Reassembler → Segment → Reassembler
unbuffer r s = record r {
  buffer = delete r.next r.buffer;
  order = remove_order r.order r.next;
  bytes = sub64 r.bytes (length s.payload);
}

-- `if current.charged { r.memory.Release(…) }`
unfoldable pub discharge : Segment → Option Budget → Released
discharge s memory = if s.charged then release memory (length s.payload) else done memory

-- The loop of `consumeContiguous`.
unfoldable pub consume : ℕ → Reassembler → Option Budget → Segment → List ℕ → Inserted
consume zero r memory current output = stuck
consume (suc fuel) r memory current output =
    let r' = record r { next = add64 r.next (length current.payload) } in
    let output' = output ++ current.payload in
    let go_on : Option Budget → Inserted = λ m. elim (lookup r'.next r'.buffer) [
      | some s ↦ consume fuel (unbuffer r' s) m s output'
      | none ↦ finished r' m (delivered output' (closed r'))
    ] in
    let rest : Inserted = elim (discharge current memory) [
      | done m ↦ go_on m
      | panicked ↦ crashed
    ] in
    if not (current.sequence == r.next)
    then finished r memory (rejected cursor_mismatch)
    else if current.final
    then finished (record r { final_at = some current.sequence }) memory (delivered output true)
    else rest

-- Every round after the first takes an entry out of the buffer.
unfoldable pub consume_contiguous : Reassembler → Option Budget → Segment → Inserted
consume_contiguous r memory first = consume (suc (length r.buffer)) r memory first []

-- A segment ahead of the cursor is retained.
unfoldable pub retain : Reassembler → Segment → Reassembler
retain r s = record r {
  buffer = put s.sequence (record s { charged = true }) r.buffer;
  order = insert_order r.order s.sequence;
  bytes = add64 r.bytes (length s.payload);
  final_at = if s.final then some s.sequence else r.final_at;
}

-- The part of `Insert` for a segment ahead of the cursor.
unfoldable pub insert_ahead : Reassembler → Option Budget → Segment → Inserted
insert_ahead r memory s =
    if ltb r.cfg.max_frames (length r.buffer + 1)
      || ltb r.cfg.max_bytes (add64 r.bytes (length s.payload))
    then finished r memory (rejected window_exceeded)
    else (let (granted, memory') = try_acquire memory (length s.payload) in
        if granted
        then finished (retain r s) memory' (delivered [] (closed (retain r s)))
        else finished r memory' (rejected memory_exhausted))

-- The part of `Insert` behind the cursor's test: duplicates and neighbours.
unfoldable pub insert_new : Reassembler → Option Budget → Segment → Inserted
insert_new r memory s = elim (lookup s.sequence r.buffer) [
  | some existing ↦
      if same_flag existing.final s.final && same_bytes existing.payload s.payload
      then finished r memory (delivered [] (closed r))
      else finished r memory (rejected conflicting_duplicate)
  | none ↦ elim (check_neighbours r s (segment_end s)) [
    | some e ↦ finished r memory (rejected e)
    | none ↦ if s.sequence == r.next then consume_contiguous r memory s else insert_ahead r memory s
  ]
]

-- `Insert`
unfoldable pub insert : Reassembler → Option Budget → Segment → Inserted
insert r memory s =
    if s.final && not (length s.payload == 0)
    then finished r memory (rejected fin_with_payload)
    else if not s.final && length s.payload == 0
    then finished r memory (rejected empty_segment)
    else if ltb (u64_mod - 1 - length s.payload) s.sequence
    then finished r memory (rejected bad_sequence)
    else if ltb s.sequence r.next
    then (if leb (segment_end s) r.next
        then finished r memory (delivered [] (closed r))
        else finished r memory (rejected crosses_cursor))
    else insert_new r memory s

-- The loop of `Close` over the entries of the buffer.
unfoldable pub release_all : List (ℕ × Segment) → Option Budget → Released
release_all [] memory = done memory
release_all ((k, s) ∷ m) memory =
    let rest = λ (b : Option Budget). release_all m b in
    elim (discharge s memory) [ done b ↦ rest b | panicked ↦ panicked ]

-- `Close`
unfoldable pub close : Reassembler → Option Budget → Reassembler × Released
close r memory = (record r { buffer = []; order = []; bytes = 0 }, release_all r.buffer memory)
