-- ===== src/RingBuffer/Tests.antt =====
-- A ring that wraps round, and one that grows (congestion_meta2/ringbuffer.go).
use sing_quic.Prelude.{ℕ, ◌≡◌, refl, inr, false, true, some, [], ◌∷◌, arith}
use sing_quic.RingBuffer.{RingBuffer, init, push_back, put_back, grow, pop_front, empty, len, clear}
use sing_quic.RingBuffer.Contents.{IsValid, contents, rotate, clear-contents}

-- 7, then 8, then 9, in a full ring of three.
abbrev full_ring : RingBuffer ℕ
full_ring = record { ring = 9 ∷ 7 ∷ 8 ∷ []; head_pos = 1; tail_pos = 1; full = true }

full_ring-IsValid : IsValid full_ring
full_ring-IsValid = record {
  head_in = inr (omega arith);
  tail_in = inr (omega arith);
  full_at = ground arith;
}

contents-full_ring : contents full_ring ≡ 7 ∷ 8 ∷ 9 ∷ []
unfolding contents len rotate
contents-full_ring = refl

push_grows :
    push_back 0 full_ring 4
    ≡ record { ring = 7 ∷ 8 ∷ 9 ∷ 4 ∷ 0 ∷ 0 ∷ []; head_pos = 0; tail_pos = 4; full = false }
unfolding push_back put_back grow
push_grows = refl

push_first :
    push_back {T = ℕ} 0 (init 0 0) 4
    ≡ record { ring = 4 ∷ []; head_pos = 0; tail_pos = 0; full = true }
unfolding push_back put_back grow init
push_first = refl

pop_wraps :
    pop_front 0 (record full_ring { head_pos = 2; full = false })
    ≡ some (8, record { ring = 9 ∷ 7 ∷ 0 ∷ []; head_pos = 0; tail_pos = 1; full = false })
unfolding pop_front empty
pop_wraps = refl

clear-full_ring : IsValid (clear 0 full_ring) × (contents (clear 0 full_ring) ≡ [])
clear-full_ring = clear-contents 0 full_ring
