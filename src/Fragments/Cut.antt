-- ===== src/Fragments/Cut.antt =====
-- The fragments of a datagram (hysteria2/packet.go, `fragUDPMessage`).
use sing_quic.Prelude.{
  ℕ, zero, suc, ◌+◌, ◌%◌, ◌<◌, ◌≤◌, ◌≡◌, refl, ap, ◌∙◌, false, Option, none, some, List, [], ◌∷◌,
  ◌++◌, ltb, leb, length, take, drop, arith, inl, inr, Bool-cases, append-nil, take-append-drop,
  length-take, length-drop,
}
use sing_quic.Fragments.{Message, cut, number, frag_udp_message}
use sing_quic.Fragments.Slots.{joined}

pieces : List (List ℕ) → List ℕ
pieces [] = []
pieces (p ∷ ps) = p ++ pieces ps

abbrev Short : ℕ → List (List ℕ) → Type 0
Short mtu [] = Unit {0}
Short mtu (p ∷ ps) = (length p ≤ mtu) × Short mtu ps

-- The loop has ended, with short pieces that make up the bytes.
abbrev IsCut : ℕ → List ℕ → Option (List (List ℕ)) → Type 0
IsCut mtu bs none = ⊥
IsCut mtu bs (some ps) = (pieces ps ≡ bs) × Short mtu ps

cut-IsCut :
    (fuel mtu : ℕ) (bs : List ℕ) → 0 < mtu → length bs ≤ fuel → IsCut mtu bs (cut fuel mtu bs)
unfolding cut pieces
cut-IsCut fuel mtu [] m h = (refl, tt)
cut-IsCut zero mtu (b ∷ bs) m h = absurd (omega arith)
cut-IsCut (suc fuel) mtu (b ∷ bs) m h = elim (Bool-cases (ltb mtu (suc (length bs)))) [
  | inl long ↦ rw long (
      more (cut fuel mtu (drop mtu (b ∷ bs)))
        (cut-IsCut fuel mtu (drop mtu (b ∷ bs)) m (omega (arith, length-drop mtu (b ∷ bs)))))
  | inr last ↦ rw last ((append-nil (b ∷ bs), (ground (arith, last), tt)))
]
  where
    more :
        (o : Option (List (List ℕ)))
        → IsCut mtu (drop mtu (b ∷ bs)) o
        → IsCut mtu (b ∷ bs) (elim o [ none ↦ none | some ps ↦ some (take mtu (b ∷ bs) ∷ ps) ])
    more none x = x
    more (some ps) (e, s) = (
      ap (λ l. take mtu (b ∷ bs) ++ l) e ∙ take-append-drop mtu (b ∷ bs),
      (omega (arith, length-take mtu (b ∷ bs)), s),
    )

module _ {D : Type 0} where
  -- Fragments numbered from `k` on in bytes, of `n` in all, each within the room.
  abbrev pub Numbered : ℕ → ℕ → ℕ → List (Message D) → Type 0
  Numbered mtu k n [] = Unit {0}
  Numbered mtu k n (f ∷ fs) =
      (f.fragment_id ≡ k % 256)
      × (f.fragment_total ≡ n % 256)
      × (length f.payload ≤ mtu)
      × Numbered mtu (k + 1) n fs

  number-Numbered :
      (m : Message D) (mtu k n : ℕ) (ps : List (List ℕ))
      → Short mtu ps
      → Numbered mtu k n (number m k n ps)
        × (joined (number m k n ps) ≡ pieces ps)
        × (length (number m k n ps) ≡ length ps)
  unfolding number joined pieces
  number-Numbered m mtu k n [] s = (tt, refl, refl)
  number-Numbered m mtu k n (p ∷ ps) s =
      let (a, b, c) = number-Numbered m mtu (k + 1) n ps s.1 in
      ((refl, refl, s.0, a), ap (λ l. p ++ l) b, ap suc c)

  -- What `fragUDPMessage` returns for a payload that does not fit.
  abbrev pub Fragmented : Message D → ℕ → Option (List (Message D)) → Type 0
  Fragmented m mtu none = ⊥
  Fragmented m mtu (some fs) = (joined fs ≡ m.payload) × Numbered mtu 0 (length fs) fs

  -- `fragUDPMessage` ends when the header leaves room for a byte. The payloads of the fragments, one
  -- behind the other, are the payload; each fits the room, and carries its number and the number of
  -- all, as bytes.
  pub frag_udp_message-Fragmented :
      (m : Message D) (mtu : ℕ)
      → 0 < mtu
      → mtu < length m.payload
      → Fragmented m mtu (frag_udp_message m mtu)
  unfolding frag_udp_message
  frag_udp_message-Fragmented m mtu p h = rw fits (
      go (cut (length m.payload) mtu m.payload)
        (cut-IsCut (length m.payload) mtu m.payload p (omega arith)))
    where
      fits : leb (length m.payload) mtu ≡ false
      fits = ground arith

      go :
          (o : Option (List (List ℕ)))
          → IsCut mtu m.payload o
          → Fragmented m mtu (elim o [ none ↦ none | some ps ↦ some (number m 0 (length ps) ps) ])
      go none x = x
      go (some ps) (e, s) =
          let (a, b, c) = number-Numbered m mtu 0 (length ps) ps s in (b ∙ e, rw c a)
