-- ===== src/Fragments/Tests.antt =====
-- Five bytes in fragments of two (hysteria2/packet.go).
use sing_quic.Prelude.{ℕ, ◌≡◌, refl, inl, none, some, List, [], ◌∷◌, arith}
use sing_quic.Fragments.{
  Message, Item, nothing, whole, new_packet_item, cut, number, frag_udp_message, gather, assemble,
  store, feed_known, feed,
}
use sing_quic.Fragments.Collect.{Feeds, feed-Feeds}

abbrev message : Message ℕ
message = record {
  session_id = 1;
  packet_id = 2;
  fragment_id = 0;
  fragment_total = 1;
  destination = 80;
  payload = 10 ∷ 11 ∷ 12 ∷ 13 ∷ 14 ∷ [];
}

abbrev part : ℕ → List ℕ → Message ℕ
part i bytes = record message { fragment_id = i; fragment_total = 3; payload = bytes }

abbrev parts : List (Message ℕ)
parts = part 0 (10 ∷ 11 ∷ []) ∷ part 1 (12 ∷ 13 ∷ []) ∷ part 2 (14 ∷ []) ∷ []

frag_message : frag_udp_message message 2 ≡ some parts
unfolding frag_udp_message cut number
frag_message = refl

-- The last and the first have come.
abbrev partly : Item ℕ
partly = record {
  messages = some (part 0 (10 ∷ 11 ∷ [])) ∷ none ∷ some (part 2 (14 ∷ [])) ∷ [];
  count = 2;
}

feed_two :
    (feed new_packet_item (part 2 (14 ∷ []))
      ≡ nothing (record { messages = none ∷ none ∷ some (part 2 (14 ∷ [])) ∷ []; count = 1 }))
    × (feed
          (record { messages = none ∷ none ∷ some (part 2 (14 ∷ [])) ∷ []; count = 1 })
          (part 0 (10 ∷ 11 ∷ []))
        ≡ nothing partly)
unfolding feed feed_known store
feed_two = (refl, refl)

feed_third :
    feed partly (part 1 (12 ∷ 13 ∷ []))
    ≡ whole (record message { fragment_total = 0 }) (record { messages = []; count = 3 })
unfolding feed feed_known store assemble gather
feed_third = refl

feed-Feeds_example :
    Feeds parts 3 (omega arith) (omega arith) (feed new_packet_item (part 1 (12 ∷ 13 ∷ [])))
feed-Feeds_example =
    feed-Feeds parts 3 (omega arith) (omega arith) new_packet_item 1 (part 1 (12 ∷ 13 ∷ [])) refl
      (record { matching = inl refl }) (refl, refl, refl)
