-- ===== src/Fragments.antt =====
-- hysteria2/packet.go: a datagram cut into fragments, and the fragments of one packet number put
-- together. The cache that finds the item of a packet number is not modelled: `feed` gets the item.
pub mod Cut
pub mod Slots
pub mod Collect
mod Tests
use sing_quic.Prelude.{
  ℕ, zero, suc, ◌+◌, ◌-◌, ◌%◌, Bool, true, false, not, Option, none, some, List, [], ◌∷◌, ◌++◌, ltb,
  leb, ◌==◌, if◌then◌else◌, length, take, drop, replicate, get_elem?, set,
}

-- `udpMessage`; its `data` is the payload, and the reference flag of the pool is left out.
pub record Message (D : Type 0) : Type 0 where
  pub session_id : ℕ
  pub packet_id : ℕ
  pub fragment_id : ℕ
  pub fragment_total : ℕ
  pub destination : D
  pub payload : List ℕ

-- `packetItem`; an empty list is the nil slice.
pub record Item (D : Type 0) : Type 0 where
  pub messages : List (Option (Message D))
  pub count : ℕ

-- What `feed` returns: nil, or a message; or it dereferences nil.
pub data Fed (D : Type 0) : Type 0 where
  nothing : Item D → Fed D
  whole : Message D → Item D → Fed D
  crashed : Fed D

-- The loop of `fragUDPMessage` over the payload; `none` means that the fuel ran out.
unfoldable pub cut : ℕ → ℕ → List ℕ → Option (List (List ℕ))
cut fuel mtu [] = some []
cut zero mtu (b ∷ bs) = none
cut (suc fuel) mtu (b ∷ bs) =
    let rest = cut fuel mtu (drop mtu (b ∷ bs)) in
    if ltb mtu (length (b ∷ bs))
    then elim rest [ none ↦ none | some ps ↦ some (take mtu (b ∷ bs) ∷ ps) ]
    else some ((b ∷ bs) ∷ [])

module _ {D : Type 0} where
  abbrev pub new_packet_item : Item D
  new_packet_item = record { messages = []; count = 0 }

  -- The loop that numbers the fragments.
  unfoldable pub number : Message D → ℕ → ℕ → List (List ℕ) → List (Message D)
  number m index total [] = []
  number m index total (p ∷ ps) =
      record m { fragment_id = index % 256; fragment_total = total % 256; payload = p }
      ∷ number m (index + 1) total ps

  -- `fragUDPMessage`, with the room that the header leaves.
  unfoldable pub frag_udp_message : Message D → ℕ → Option (List (Message D))
  unfolding cut number
  frag_udp_message m mtu =
      if leb (length m.payload) mtu
      then some (m ∷ [])
      else elim (cut (length m.payload) mtu m.payload) [
        | none ↦ none
        | some ps ↦ some (number m 0 (length ps) ps)
      ]

  -- The payloads of all messages, one behind the other.
  unfoldable pub gather : List (Option (Message D)) → Option (List ℕ)
  gather [] = some []
  gather (none ∷ ms) = none
  gather (some m ∷ ms) = elim (gather ms) [ none ↦ none | some bs ↦ some (m.payload ++ bs) ]

  -- The part of `feed` behind the last fragment.
  unfoldable pub assemble : Item D → Message D → Fed D
  unfolding gather
  assemble item m = elim (get_elem? item.messages 0) [
    | none ↦ crashed
    | some none ↦ crashed
    | some (some first) ↦ elim (gather item.messages) [
      | none ↦ crashed
      | some bytes ↦
          if ltb 0 (length bytes)
          then whole
              (record {
                session_id = m.session_id;
                packet_id = m.packet_id;
                fragment_id = 0;
                fragment_total = 0;
                destination = first.destination;
                payload = bytes;
              })
              (record item { messages = [] })
          else nothing (record item { messages = [] })
    ]
  ]

  -- The item with another fragment.
  unfoldable pub store : Item D → Message D → Item D
  store item m = record {
    messages = set item.messages m.fragment_id (some m);
    count = (item.count + 1) % 256;
  }

  -- The part of `feed` for an item of the right length.
  unfoldable pub feed_known : Item D → Message D → Fed D
  unfolding store assemble
  feed_known item m = elim (get_elem? item.messages m.fragment_id) [
    | none ↦ crashed
    | some (some present) ↦ nothing item
    | some none ↦
        if not ((store item m).count == length (store item m).messages)
        then nothing (store item m)
        else assemble (store item m) m
  ]

  -- `feed`
  unfoldable pub feed : Item D → Message D → Fed D
  unfolding feed_known
  feed item m =
      if leb m.fragment_total 1
      then whole m item
      else if leb m.fragment_total m.fragment_id
      then nothing item
      else if not (m.fragment_total == length item.messages)
      then nothing (record {
        messages = set (replicate m.fragment_total none) m.fragment_id (some m);
        count = 1;
      })
      else feed_known item m
