-- ===== src/Prelude/Bytes.antt =====
-- Big-endian numbers in bytes, as Go's encoding/binary writes and reads them.
use Prim.Native.Nat.{ℕ, zero, suc, ◌+◌, ◌*◌, ◌/◌, ◌%◌, ◌<◌}
use mathlib.Core.Path.{◌≡◌, refl}
use mathlib.Core.List.{List, [], ◌∷◌, ◌++◌}
use native.Mathlib.Omega.{arith}
use sing_quic.Prelude.Lists.{length, get_or}
use sing_quic.Prelude.Folds.{All}

abbrev pub IsByte : ℕ → Type 0
IsByte b = b < 256

abbrev pub u64_mod : ℕ
u64_mod = 18446744073709551616

-- The two, four and eight bytes of `PutUint16`, `PutUint32` and `PutUint64`.
unfoldable pub put_u16 : ℕ → List ℕ
put_u16 v = v / 256 % 256 ∷ v % 256 ∷ []

unfoldable pub put_u32 : ℕ → List ℕ
put_u32 v = v / 16777216 % 256 ∷ v / 65536 % 256 ∷ v / 256 % 256 ∷ v % 256 ∷ []

unfoldable pub put_u64 : ℕ → List ℕ
put_u64 v = put_u32 (v / 4294967296) ++ put_u32 v

-- The number of a list of bytes, the first byte the highest.
unfoldable pub from_be : ℕ → List ℕ → ℕ
from_be acc [] = acc
from_be acc (b ∷ bs) = from_be (acc * 256 + b) bs

unfoldable pub get_be : List ℕ → ℕ
unfolding from_be
get_be bs = from_be 0 bs

pub get_be-put_u16 : (v : ℕ) → v < 65536 → get_be (put_u16 v) ≡ v
unfolding get_be put_u16
get_be-put_u16 v h = omega arith

pub get_be-put_u32 : (v : ℕ) → v < 4294967296 → get_be (put_u32 v) ≡ v
unfolding get_be put_u32
get_be-put_u32 v h = omega arith

pub get_be-put_u64 : (v : ℕ) → v < u64_mod → get_be (put_u64 v) ≡ v
unfolding get_be put_u64 put_u32
get_be-put_u64 v h = omega arith

pub length-put_u16 : (v : ℕ) → length (put_u16 v) ≡ 2
unfolding put_u16
length-put_u16 v = refl

pub length-put_u32 : (v : ℕ) → length (put_u32 v) ≡ 4
unfolding put_u32
length-put_u32 v = refl

pub length-put_u64 : (v : ℕ) → length (put_u64 v) ≡ 8
unfolding put_u64 put_u32
length-put_u64 v = refl

pub put_u64-IsByte : (v : ℕ) → All IsByte (put_u64 v)
unfolding put_u64 put_u32
put_u64-IsByte v = omega arith

-- Bytes that were read as a number are written back the same.
pub put_u16-get_be : (a b : ℕ) → a < 256 → b < 256 → put_u16 (get_be (a ∷ b ∷ [])) ≡ a ∷ b ∷ []
unfolding get_be put_u16
put_u16-get_be a b ha hb = ground arith

pub put_u32-get_be :
    (a b c d : ℕ)
    → a < 256
    → b < 256
    → c < 256
    → d < 256
    → put_u32 (get_be (a ∷ b ∷ c ∷ d ∷ [])) ≡ a ∷ b ∷ c ∷ d ∷ []
unfolding get_be put_u32
put_u32-get_be a b c d ha hb hc hd = ground arith

pub put_u64-get_be :
    (a b c d e f g h : ℕ)
    → a < 256
    → b < 256
    → c < 256
    → d < 256
    → e < 256
    → f < 256
    → g < 256
    → h < 256
    → put_u64 (get_be (a ∷ b ∷ c ∷ d ∷ e ∷ f ∷ g ∷ h ∷ [])) ≡ a ∷ b ∷ c ∷ d ∷ e ∷ f ∷ g ∷ h ∷ []
unfolding get_be put_u64 put_u32
put_u64-get_be a b c d e f g h ha hb hc hd he hf hg hh = ground arith

-- A byte read out of range is zero.
pub get_or-IsByte : (xs : List ℕ) (i : ℕ) → All IsByte xs → get_or xs i 0 < 256
get_or-IsByte [] i h = omega arith
get_or-IsByte (x ∷ xs) zero h = h.0
get_or-IsByte (x ∷ xs) (suc i) h = get_or-IsByte xs i h.1

pub get_be-lt_u64 :
    (a b c d e f g h : ℕ)
    → a < 256
    → b < 256
    → c < 256
    → d < 256
    → e < 256
    → f < 256
    → g < 256
    → h < 256
    → get_be (a ∷ b ∷ c ∷ d ∷ e ∷ f ∷ g ∷ h ∷ []) < u64_mod
unfolding get_be
get_be-lt_u64 a b c d e f g h ha hb hc hd he hf hg hh = omega arith
