-- ===== src/PacketQueue.antt =====
-- congestion_meta2/packet_number_indexed_queue.go: entries by packet number, on a ring buffer. The
-- invalid packet number is `none`, and so are a nil pointer and a panic of the ring.
pub mod Slots
pub mod Inv
pub mod Grown
pub mod Emplace
pub mod Clear
pub mod Remove
pub mod Trim
mod Tests
use sing_quic.Prelude.{
  ℕ, zero, suc, ◌+◌, ◌-◌, Bool, true, false, not, ◌&&◌, ◌||◌, Option, none, some, List, ltb, leb,
  ◌==◌, if◌then◌else◌, set, get_elem?,
}
use sing_quic.RingBuffer.{RingBuffer, init, len, empty, push_back, pop_front, offset, front}

-- `entryWrapper`
pub record Entry (T : Type 0) : Type 0 where
  pub present : Bool
  pub entry : T

pub record PacketQueue (T : Type 0) : Type 0 where
  pub entries : RingBuffer (Entry T)
  pub present_entries : ℕ
  pub first_packet : Option ℕ

-- The element that a pointer into the ring points at.
abbrev pub read : {A : Type 0} → RingBuffer A → Option ℕ → Option A
read r none = none
read r (some i) = get_elem? r.ring i

unfoldable pub is_empty : {T : Type 0} → PacketQueue T → Bool
is_empty q = q.present_entries == 0

-- `LastPacket`
unfoldable pub last_packet : {T : Type 0} → PacketQueue T → Option ℕ
unfolding is_empty
last_packet q =
    if is_empty q
    then none
    else elim q.first_packet [ none ↦ none | some first ↦ some (first + (len q.entries - 1)) ]

-- `getEntryWraper`: where in the ring the entry stands.
unfoldable pub get_entry_wrapper : {T : Type 0} → PacketQueue T → ℕ → ℕ → Option (ℕ × Entry T)
get_entry_wrapper q first n =
    if is_empty q || ltb n first
    then none
    else if leb (len q.entries) (n - first)
    then none
    else elim (offset q.entries (n - first)) [
      | none ↦ none
      | some i ↦ elim (get_elem? q.entries.ring i) [
        | none ↦ none
        | some e ↦ if e.present then some (i, e) else none
      ]
    ]

-- `GetEntry`
unfoldable pub get_entry : {T : Type 0} → PacketQueue T → Option ℕ → Option T
unfolding get_entry_wrapper
get_entry q none = none
get_entry q (some n) = elim q.first_packet [
  | none ↦ none
  | some first ↦ elim (get_entry_wrapper q first n) [ none ↦ none | some (i, e) ↦ some e.entry ]
]

-- `new(T)` points at the zero value of the element type.
module _ {T : Type 0} (zero_value : T) where
  abbrev pub zero_entry : Entry T
  zero_entry = record { present = false; entry = zero_value }

  -- `newPacketNumberIndexedQueue`
  unfoldable pub new_queue : ℕ → PacketQueue T
  new_queue size = record {
    entries = init zero_entry size;
    present_entries = 0;
    first_packet = none;
  }

  -- The loop that fills a gap with absent entries.
  unfoldable pub push_gap : ℕ → RingBuffer (Entry T) → RingBuffer (Entry T)
  push_gap zero r = r
  push_gap (suc gap) r = push_gap gap (push_back zero_entry r zero_entry)

  -- `Emplace`
  unfoldable pub emplace : PacketQueue T → Option ℕ → Option T → Bool × PacketQueue T
  unfolding push_gap
  emplace q none entry = (false, q)
  emplace q (some n) none = (false, q)
  emplace q (some n) (some x) =
      if is_empty q
      then (
        true,
        record {
          entries = push_back zero_entry q.entries (record { present = true; entry = x });
          present_entries = 1;
          first_packet = some n;
        },
      )
      else elim q.first_packet [
        | none ↦ (false, q)
        | some first ↦ if leb n (first + (len q.entries - 1)) then (false, q) else (
          true,
          record {
            entries =
                push_back zero_entry (push_gap (n - first - len q.entries) q.entries)
                  (record { present = true; entry = x });
            present_entries = q.present_entries + 1;
            first_packet = some first;
          },
        )
      ]

  -- `p.entries.PopFront(); p.firstPacket++`
  unfoldable pub pop_entry : PacketQueue T → Option (PacketQueue T)
  pop_entry q = elim (pop_front zero_entry q.entries) [
    | none ↦ none
    | some (e, r) ↦ some (record q {
      entries = r;
      first_packet = elim q.first_packet [ none ↦ none | some first ↦ some (first + 1) ];
    })
  ]

  -- The loop of `clearup`; `none` is a panic, or that the fuel ran out.
  unfoldable pub clear_loop : ℕ → PacketQueue T → Option (PacketQueue T)
  unfolding pop_entry
  clear_loop zero q = none
  clear_loop (suc fuel) q =
      if empty q.entries then some q else elim (read q.entries (front q.entries)) [
        | none ↦ none
        | some e ↦
            if e.present
            then some q
            else elim (pop_entry q) [ none ↦ none | some q' ↦ clear_loop fuel q' ]
      ]

  -- `clearup`: each round but the last pops an entry.
  unfoldable pub clearup : PacketQueue T → Option (PacketQueue T)
  unfolding clear_loop
  clearup q = elim (clear_loop (suc (len q.entries)) q) [
    | none ↦ none
    | some q' ↦ some (if empty q'.entries then record q' { first_packet = none } else q')
  ]

  -- `ew.present = false; p.numberOfPresentEntries--`
  unfoldable pub mark : PacketQueue T → ℕ → Entry T → PacketQueue T
  mark q i e = record q {
    entries = record q.entries { ring = set q.entries.ring i (record e { present = false }) };
    present_entries = q.present_entries - 1;
  }

  -- `Remove` on a queue that starts at `first`.
  unfoldable pub remove_from : PacketQueue T → ℕ → ℕ → Option (Option (T × PacketQueue T))
  unfolding mark
  remove_from q first n = elim (get_entry_wrapper q first n) [
    | none ↦ some none
    | some (i, e) ↦
        if n == first
        then elim (clearup (mark q i e)) [ none ↦ none | some q' ↦ some (some (e.entry, q')) ]
        else some (some (e.entry, mark q i e))
  ]

  -- `Remove`: `some none` is a call that returns false, and `some (some (x, q'))` one that hands `x`
  -- to the callback and returns true.
  unfoldable pub remove : PacketQueue T → Option ℕ → Option (Option (T × PacketQueue T))
  unfolding remove_from
  remove q none = some none
  remove q (some n) = elim q.first_packet [ none ↦ some none | some first ↦ remove_from q first n ]

  -- The body of the loop of `RemoveUpTo`.
  unfoldable pub remove_front : PacketQueue T → Option (PacketQueue T)
  unfolding pop_entry
  remove_front q = elim (read q.entries (front q.entries)) [
    | none ↦ none
    | some e ↦ pop_entry (record q {
      present_entries = if e.present then q.present_entries - 1 else q.present_entries;
    })
  ]

  -- The loop of `RemoveUpTo`.
  unfoldable pub remove_loop : ℕ → PacketQueue T → ℕ → Option (PacketQueue T)
  unfolding remove_front
  remove_loop zero q n = none
  remove_loop (suc fuel) q n = if empty q.entries then some q else elim q.first_packet [
    | none ↦ some q
    | some first ↦
        if leb n first
        then some q
        else elim (remove_front q) [ none ↦ none | some q' ↦ remove_loop fuel q' n ]
  ]

  -- `RemoveUpTo`
  unfoldable pub remove_up_to : PacketQueue T → ℕ → Option (PacketQueue T)
  unfolding remove_loop clearup
  remove_up_to q n = elim (remove_loop (suc (len q.entries)) q n) [
    | none ↦ none
    | some q' ↦ clearup q'
  ]
