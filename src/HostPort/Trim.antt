-- ===== src/HostPort/Trim.antt =====
-- strings.TrimSpace: the length of what it leaves, and texts that it leaves alone.
use sing_quic.Prelude.{
  ℕ, zero, suc, ◌-◌, ◌≤◌, ◌<◌, ◌≡◌, ◌≢◌, refl, List, [], ◌∷◌, length, get_or, take, drop,
  length-drop, length-take, arith,
}
use sing_quic.HostPort.{
  ascii_space, latin_space, wide_space, space_size, end_space_size, trim_left, trim_right,
  trim_space,
}

length-trim_left : (fuel : ℕ) (s : List ℕ) → length (trim_left fuel s) ≤ length s
unfolding trim_left
length-trim_left zero s = omega arith
length-trim_left (suc fuel) s =
    ground (arith, length-trim_left fuel (drop (space_size s) s), length-drop (space_size s) s)

length-trim_right : (fuel : ℕ) (s : List ℕ) → length (trim_right fuel s) ≤ length s
unfolding trim_right
length-trim_right zero s = omega arith
length-trim_right (suc fuel) s =
    let n : ℕ = length s - end_space_size s in
    ground (arith, length-trim_right fuel (take n s), length-take n s)

pub length-trim_space : (s : List ℕ) → length (trim_space s) ≤ length s
unfolding trim_space
length-trim_space s =
    let t : List ℕ = trim_left (length s) s in
    omega (arith, length-trim_left (length s) s, length-trim_right (length t) t)

trim_left_lt :
    (fuel : ℕ) (s : List ℕ)
    → space_size s ≢ 0
    → 0 < length s
    → length (trim_left (suc fuel) s) < length s
unfolding trim_left
trim_left_lt fuel s h l =
    ground (arith, length-trim_left fuel (drop (space_size s) s), length-drop (space_size s) s)

space_size-nil : space_size [] ≡ 0
unfolding space_size ascii_space latin_space wide_space
space_size-nil = refl

-- A space at the front is lost.
pub length-trim_space_lt : (s : List ℕ) → space_size s ≢ 0 → length (trim_space s) < length s
unfolding trim_space
length-trim_space_lt [] h = absurd (h space_size-nil)
length-trim_space_lt (x ∷ xs) h =
    let t : List ℕ = trim_left (suc (length xs)) (x ∷ xs) in
    omega (arith, trim_left_lt (length xs) (x ∷ xs) h (omega arith), length-trim_right (length t) t)

trim_left_none : (fuel : ℕ) (s : List ℕ) → space_size s ≡ 0 → trim_left fuel s ≡ s
unfolding trim_left
trim_left_none zero s h = refl
trim_left_none (suc fuel) s h = ground arith

trim_right_none : (fuel : ℕ) (s : List ℕ) → end_space_size s ≡ 0 → trim_right fuel s ≡ s
unfolding trim_right
trim_right_none zero s h = refl
trim_right_none (suc fuel) s h = ground arith

pub trim_space_none : (s : List ℕ) → space_size s ≡ 0 → end_space_size s ≡ 0 → trim_space s ≡ s
unfolding trim_space
trim_space_none s h k = rw (trim_left_none (length s) s h) (trim_right_none (length s) s k)

-- A last byte that is visible and below 128 ends no space.
pub end_space_size_visible :
    (s : List ℕ)
    → 33 ≤ get_or s (length s - 1) 0
    → get_or s (length s - 1) 0 < 128
    → end_space_size s ≡ 0
unfolding end_space_size ascii_space latin_space wide_space
end_space_size_visible s lo hi = ground arith
