-- ===== src/Fragments/Collect.antt =====
-- Fragments of one message in any order, repeated or not (hysteria2/packet.go, `feed`).
use sing_quic.Prelude.{
  ℕ, suc, ◌<◌, ◌≡◌, ◌≢◌, ◌⊎◌, refl, sym, ap, ◌∙◌, subst, Bool, true, false, not, Option, none, some,
  List, [], ltb, ◌==◌, if◌then◌else◌, length, replicate, get_elem?, set, arith, inl, inr,
}
use sing_quic.Fragments.{
  Message, Item, Fed, nothing, whole, crashed, gather, assemble, store, feed_known, feed,
}
use sing_quic.Fragments.Slots.{
  Matches, filled, joined, length-Matches, Matches-replicate, Matches-set, filled-le,
  filled-replicate, filled-set, gather-joined, first_full, get_elem?_in, get_elem?-replicate,
  slot_of,
}

module _ {D : Type 0} where
  module _ (fs : List (Message D)) (total : ℕ) (long : 1 < total) (small : total < 256) where
    -- The fragments of a message: each carries its own number and the number of all.
    abbrev pub IsFragment : ℕ → Message D → Type 0
    IsFragment i f = (get_elem? fs i ≡ some f) × (f.fragment_id ≡ i) × (f.fragment_total ≡ total)

    -- An item that has seen fragments of the message since it was last given out.
    pub record IsItem (item : Item D) : Type 0 where
      pub matching :
          (item.messages ≡ []) ⊎ Matches item.messages fs × (item.count ≡ filled item.messages)

    -- What a call of `feed` may do with such an item.
    abbrev pub Feeds : Fed D → Type 0
    Feeds crashed = ⊥
    Feeds (nothing item) = IsItem item
    Feeds (whole m item) = (m.payload ≡ joined fs) × IsItem item

    -- What `assemble` gives when every slot is full.
    given : Item D → Message D → Message D → Fed D
    given item m first =
        if ltb 0 (length (joined fs))
        then whole
            (record {
              session_id = m.session_id;
              packet_id = m.packet_id;
              fragment_id = 0;
              fragment_total = 0;
              destination = first.destination;
              payload = joined fs;
            })
            (record item { messages = [] })
        else nothing (record item { messages = [] })

    assemble-given :
        (item : Item D) (m first : Message D)
        → get_elem? item.messages 0 ≡ some (some first)
        → gather item.messages ≡ some (joined fs)
        → assemble item m ≡ given item m first
    unfolding assemble given
    assemble-given item m first a b = rw (assemble, a, b) refl

    given-Feeds : (item : Item D) (m first : Message D) → Feeds (given item m first)
    unfolding given
    given-Feeds item m first = go (ltb 0 (length (joined fs)))
      where
        go :
            (b : Bool)
            → Feeds (
                if b
                then whole
                    (record {
                      session_id = m.session_id;
                      packet_id = m.packet_id;
                      fragment_id = 0;
                      fragment_total = 0;
                      destination = first.destination;
                      payload = joined fs;
                    })
                    (record item { messages = [] })
                else nothing (record item { messages = [] }))
        go true = (refl, record { matching = inl refl })
        go false = record { matching = inl refl }

    assemble-Feeds :
        (item : Item D) (m : Message D)
        → 0 < length item.messages
        → Matches item.messages fs
        → filled item.messages ≡ length item.messages
        → Feeds (assemble item m)
    assemble-Feeds item m n h full =
        let (first, a) = first_full item.messages n full in
        subst Feeds (sym (assemble-given item m first a (gather-joined item.messages fs h full)))
          (given-Feeds item m first)

    feed_known-Feeds :
        (item : Item D) (i : ℕ) (f : Message D)
        → total ≡ length fs
        → Matches item.messages fs
        → item.count ≡ filled item.messages
        → IsFragment i f
        → Feeds (feed_known item f)
    unfolding feed_known store
    feed_known-Feeds item i f n h c g = go (get_elem? item.messages f.fragment_id) refl
      where
        same : length item.messages ≡ length fs
        same = length-Matches item.messages fs h

        stored : Matches (store item f).messages fs
        stored =
            subst (λ k. Matches (set item.messages k (some f)) fs) (sym g.1)
              (Matches-set item.messages fs i f h g.0)

        counted :
            get_elem? item.messages f.fragment_id ≡ some none
            → (store item f).count ≡ filled (store item f).messages
        counted e = omega (
          arith,
          filled-set item.messages f.fragment_id f e,
          filled-le (set item.messages f.fragment_id (some f)),
          length-Matches (set item.messages f.fragment_id (some f)) fs stored,
          c,
        )

        full :
            (b : Bool)
            → ((store item f).count == length (store item f).messages) ≡ b
            → get_elem? item.messages f.fragment_id ≡ some none
            → Feeds (if not b then nothing (store item f) else assemble (store item f) f)
        full true e s =
            assemble-Feeds (store item f) f
              (omega (arith, length-Matches (store item f).messages fs stored)) stored
              (ground (arith, e, counted s))
        full false e s = record { matching = inr (stored, counted s) }

        go :
            (o : Option (Option (Message D)))
            → get_elem? item.messages f.fragment_id ≡ o
            → Feeds (elim o [
              | none ↦ crashed
              | some (some present) ↦ nothing item
              | some none ↦
                  if not ((store item f).count == length (store item f).messages)
                  then nothing (store item f)
                  else assemble (store item f) f
            ])
        go none e = absurd (
            slot_of item.messages fs i f h g.0
              (subst (λ k. get_elem? item.messages k ≡ none) g.1 e))
        go (some (some present)) e = record { matching = inr (h, c) }
        go (some none) e = full _ refl e

    -- The item that starts over with one fragment.
    restarted : Message D → Item D
    restarted f = record {
      messages = set (replicate f.fragment_total none) f.fragment_id (some f);
      count = 1;
    }

    feed_restarts :
        (item : Item D) (f : Message D)
        → f.fragment_total ≡ total
        → f.fragment_id < total
        → length item.messages ≢ total
        → feed item f ≡ nothing (restarted f)
    unfolding feed restarted
    feed_restarts item f a b c = ground (arith, a, b, c, long)

    feed_goes_on :
        (item : Item D) (f : Message D)
        → f.fragment_total ≡ total
        → f.fragment_id < total
        → length item.messages ≡ total
        → feed item f ≡ feed_known item f
    unfolding feed
    feed_goes_on item f a b c = ground (arith, a, b, c, long)

    restarted-IsItem :
        (i : ℕ) (f : Message D) → total ≡ length fs → IsFragment i f → IsItem (restarted f)
    unfolding restarted
    restarted-IsItem i f n g = record { matching = inr (matches, counted) }
      where
        slots : List (Option (Message D))
        slots = replicate f.fragment_total none

        empty_slots : Matches slots fs
        empty_slots =
            subst (λ k. Matches (replicate k none) fs) (sym n ∙ sym g.2) (Matches-replicate fs)

        matches : Matches (set slots f.fragment_id (some f)) fs
        matches =
            subst (λ k. Matches (set slots k (some f)) fs) (sym g.1)
              (Matches-set slots fs i f empty_slots g.0)

        counted : 1 ≡ filled (set slots f.fragment_id (some f))
        counted = sym (
            filled-set slots f.fragment_id f (
              get_elem?-replicate f.fragment_total f.fragment_id
                (omega (arith, get_elem?_in fs i f g.0, n, g.1, g.2)))
            ∙ ap suc (filled-replicate D f.fragment_total))

    -- Fragments of one message, fed in any order and as often as they come to an item that was fresh
    -- or has seen only such fragments, never dereference nil; and a message that comes out has
    -- exactly the payload of all the fragments, each once and in their order.
    pub feed-Feeds :
        (item : Item D) (i : ℕ) (f : Message D)
        → total ≡ length fs
        → IsItem item
        → IsFragment i f
        → Feeds (feed item f)
    feed-Feeds item i f n v g = elim v.matching [
      | inl e ↦
          subst Feeds (sym (feed_restarts item f g.2 (inside n) (λ k. ground (arith, e, k, long))))
            (restarted-IsItem i f n g)
      | inr (h, c) ↦
          subst Feeds
            (sym (feed_goes_on item f g.2 (inside n) (length-Matches item.messages fs h ∙ sym n)))
            (feed_known-Feeds item i f n h c g)
    ]
      where
        inside : total ≡ length fs → f.fragment_id < total
        inside n = omega (arith, get_elem?_in fs i f g.0, g.1)
