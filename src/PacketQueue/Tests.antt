-- ===== src/PacketQueue/Tests.antt =====
-- Packets 5 and 7 in a queue (congestion_meta2/packet_number_indexed_queue.go).
use sing_quic.Prelude.{ℕ, ◌≡◌, refl, inl, inr, false, true, none, some, [], ◌∷◌, arith}
use sing_quic.RingBuffer.{init, push_back, put_back, grow, pop_front, empty, len, offset, front}
use sing_quic.RingBuffer.Contents.{contents, rotate}
use sing_quic.PacketQueue.{
  Entry, PacketQueue, new_queue, is_empty, get_entry_wrapper, get_entry, push_gap, emplace,
  pop_entry, clear_loop, clearup, mark, remove_from, remove, remove_up_to, zero_entry,
}
use sing_quic.PacketQueue.Slots.{count}
use sing_quic.PacketQueue.Inv.{IsQueue}
use sing_quic.PacketQueue.Emplace.{Emplaced, emplace-get_entry}
use sing_quic.PacketQueue.Remove.{Removed, remove-get_entry}
use sing_quic.PacketQueue.Clear.{Ended}
use sing_quic.PacketQueue.Trim.{remove_up_to-get_entry}

abbrev here : ℕ → Entry ℕ
here x = record { present = true; entry = x }

-- Packet 6 was never sent.
abbrev two : PacketQueue ℕ
two = record {
  entries = record {
    ring = here 50 ∷ zero_entry 0 ∷ here 70 ∷ zero_entry 0 ∷ [];
    head_pos = 0;
    tail_pos = 3;
    full = false;
  };
  present_entries = 2;
  first_packet = some 5;
}

two-IsQueue : IsQueue two
unfolding contents rotate len count
two-IsQueue = record {
  ring = record { head_in = inl refl; tail_in = inr (omega arith); full_at = ground arith };
  counted = refl;
  starts = refl;
}

emplace_twice :
    (emplace 0 (emplace 0 (new_queue 0 2) (some 5) (some 50)).1 (some 7) (some 70)) ≡ (true, two)
unfolding emplace new_queue init is_empty len push_gap push_back put_back grow
emplace_twice = refl

emplace_out_of_order : emplace 0 two (some 7) (some 1) ≡ (false, two)
unfolding emplace is_empty len
emplace_out_of_order = refl

get_entries :
    (get_entry two (some 5) ≡ some 50)
    × (get_entry two (some 6) ≡ none)
    × (get_entry two (some 7) ≡ some 70)
    × (get_entry two (some 8) ≡ none)
    × (get_entry two (some 4) ≡ none)
unfolding get_entry get_entry_wrapper is_empty len empty offset
get_entries = (refl, refl, refl, refl, refl)

-- The first packet goes, and the gap behind it.
remove_first :
    remove 0 two (some 5)
    ≡ some (
        some (
          50,
          record {
            entries = record {
              ring = zero_entry 0 ∷ zero_entry 0 ∷ here 70 ∷ zero_entry 0 ∷ [];
              head_pos = 2;
              tail_pos = 3;
              full = false;
            };
            present_entries = 1;
            first_packet = some 7;
          },
        ))
unfolding remove remove_from mark get_entry_wrapper is_empty len empty offset front clearup
    clear_loop pop_entry pop_front
remove_first = refl

emplace-get_entry_example : Emplaced 0 two 9 7 90 (emplace 0 two (some 9) (some 90))
emplace-get_entry_example = emplace-get_entry 0 two 9 7 90 two-IsQueue

remove-get_entry_example : Removed 0 two 5 7 (remove 0 two (some 5))
remove-get_entry_example = remove-get_entry 0 two 5 7 two-IsQueue

remove_up_to-get_entry_example :
    Ended 0
      (λ q'. IsQueue q' × (get_entry q' (some 7) ≡ get_entry two (some 7)))
      (remove_up_to 0 two 6)
remove_up_to-get_entry_example = remove_up_to-get_entry 0 two 6 7 two-IsQueue
