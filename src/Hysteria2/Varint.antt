-- ===== src/Hysteria2/Varint.antt =====
-- `varintPut` (hysteria2/internal/protocol/proxy.go) and quicvarint.Read.
use sing_quic.Prelude.{
  ℕ, ◌/◌, ◌%◌, ◌≤◌, ◌≡◌, sym, ap, ◌∙◌, Option, some, List, [], ◌∷◌, ◌++◌, length, put_u16, put_u32,
  put_u64, get_be-put_u16, get_be-put_u32, get_be-put_u64, ok, arith, leb, Bool-cases, inl, inr,
}
use sing_quic.Hysteria2.{varint_put, IsVarint, prefixed, max_var_int8}

-- The bytes of a number, which are read back whatever follows.
pub record IsWritten (read : List ℕ → Option (ℕ × List ℕ)) (len : ℕ → ℕ) (v : ℕ) : Type 0 where
  pub bytes : List ℕ
  pub written : varint_put v ≡ ok bytes
  pub size : length bytes ≡ len v
  pub reads : (rest : List ℕ) → read (bytes ++ rest) ≡ some (v, rest)

module _ (read : List ℕ → Option (ℕ × List ℕ)) (len : ℕ → ℕ) (law : IsVarint read len) where
  -- A number below 2 ^ 62.
  pub varint_put-IsWritten : (v : ℕ) → v ≤ max_var_int8 → IsWritten read len v
  unfolding varint_put put_u16 put_u32 put_u64
  varint_put-IsWritten v h = elim (Bool-cases (leb v 63)) [
    | inl a ↦ record {
      bytes = v % 256 ∷ [];
      written = ground (arith, a);
      size = sym (law.len_one v (ground (arith, a)));
      reads = λ rest.
          law.one (v % 256) rest (ground (arith, a)) ∙ ap (λ x. some (x, rest)) (ground (arith, a));
    }
    | inr a ↦ elim (Bool-cases (leb v 16383)) [
      | inl b ↦ record {
        bytes = prefixed 0x40 (put_u16 v);
        written = ground (arith, a, b);
        size = sym (law.len_two v (ground (arith, a)) (ground (arith, b)));
        reads = λ rest.
            law.two (v / 256 % 256) (v % 256) rest (ground (arith, b)) (omega arith)
            ∙ ap (λ x. some (x, rest)) (get_be-put_u16 v (ground (arith, b)));
      }
      | inr b ↦ elim (Bool-cases (leb v 1073741823)) [
        | inl c ↦ record {
          bytes = prefixed 0x80 (put_u32 v);
          written = ground (arith, a, b, c);
          size = sym (law.len_four v (ground (arith, b)) (ground (arith, c)));
          reads = λ rest.
              law.four (v / 16777216 % 256) (v / 65536 % 256) (v / 256 % 256) (v % 256) rest
                (ground (arith, c)) (omega arith)
              ∙ ap (λ x. some (x, rest)) (get_be-put_u32 v (ground (arith, c)));
        }
        | inr c ↦ record {
          bytes = prefixed 0xc0 (put_u64 v);
          written = ground (arith, a, b, c);
          size = sym (law.len_eight v (ground (arith, c)) h);
          reads = λ rest.
              let u : ℕ = v / 4294967296 in
              law.eight (u / 16777216 % 256) (u / 65536 % 256) (u / 256 % 256) (u % 256)
                (v / 16777216 % 256) (v / 65536 % 256) (v / 256 % 256) (v % 256) rest (ground arith)
                (omega arith)
              ∙ ap (λ x. some (x, rest)) (get_be-put_u64 v (ground arith));
        }
      ]
    ]
  ]
