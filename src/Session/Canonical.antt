-- ===== src/Session/Canonical.antt =====
-- EncodeDestination and DecodeDestination (queqiao/internal/session/open.go): the canonical form.
use sing_quic.Prelude.{
  ℕ, zero, suc, ◌+◌, ◌-◌, ◌≤◌, ◌<◌, ◌≡◌, ◌↔◌, refl, sym, subst, ◌∙◌, ap, List, [], ◌∷◌, ◌++◌,
  length, get_or, Option, some, none, false, ◌==◌, arith, All, inl, inr, Bool-cases, Option-cases,
  length-append, append_assoc, ◌>>=◌, Result, ok, if◌then◌else◌,
}
use sing_quic.HostPort.{
  has_bracket, contains, Pair, split_host_port, join_host_port, itoa, atoi, trim_space, space_size,
  end_space_size,
}
use sing_quic.HostPort.Decimal.{IsDigit, itoa-IsDigit, itoa_cons, atoi-itoa, length-itoa-atoi}
use sing_quic.HostPort.Split.{
  split_host_port-IsSplit, split_host_port-join, length-join_le, length-join_pos,
}
use sing_quic.HostPort.Trim.{
  length-trim_space, length-trim_space_lt, trim_space_none, end_space_size_visible,
}
use sing_quic.Session.{
  SessionError, destination_length, destination_form, destination_host, destination_port, or_else,
  encode_destination, decode_destination, sized, host_port, checked_port, has_control,
}

pub record IsHost (h : List ℕ) : Type 0 where
  pub no_bracket : has_bracket h ≡ false
  pub no_control : has_control h ≡ false
  pub some_byte : 0 < length h

-- What EncodeDestination found in a text that it accepts.
pub record Parts (t c : List ℕ) : Type 0 where
  pub parts : Pair
  pub port : ℕ
  pub split : split_host_port t ≡ some parts
  pub host : IsHost parts.before
  pub digits : atoi parts.after ≡ some port
  pub port_range : (1 ≤ port) × (port ≤ 65535)
  pub joined : c ≡ join_host_port parts.before (itoa port)
  pub size : (0 < length t) × (length t ≤ 255)

checked_port-eq_some :
    (s : List ℕ) (n : ℕ) → checked_port s ≡ some n → (atoi s ≡ some n) × ((1 ≤ n) × (n ≤ 65535))
unfolding checked_port
checked_port-eq_some s n h = elim (Option-cases (atoi s)) [
  | inl e ↦ absurd (ground (arith, e))
  | inr (m, e) ↦ ground (arith, e)
]

host_port-eq_some :
    (t : List ℕ) (p : Pair)
    → host_port t ≡ some p
    → (split_host_port t ≡ some p) × (0 < length p.before)
unfolding host_port
host_port-eq_some t p h = elim (Option-cases (split_host_port t)) [
  | inl e ↦ absurd (ground (arith, e))
  | inr (q, e) ↦ ground (arith, e)
]

sized-eq_some : (t u : List ℕ) → sized t ≡ some u → (t ≡ u) × ((0 < length t) × (length t ≤ 255))
unfolding sized
sized-eq_some t u h = ground arith

no_control-eq_some :
    (h k : List ℕ)
    → if◌then◌else◌ (has_control h) none (some h) ≡ some k
    → (has_control h ≡ false) × (h ≡ k)
no_control-eq_some h k e = ground arith

-- A step of the chain that has gone well.
or_else-eq-ok :
    {A B : Type 0} (e : SessionError) (o : Option A) (f : A → Result SessionError B) (b : B)
    → (or_else e o >>= f) ≡ ok b
    → (a : A) × (o ≡ some a) × (f a ≡ ok b)
or_else-eq-ok e none f b h = absurd cc
or_else-eq-ok e (some a) f b h = (a, refl, h)

encode_destination-Parts : (s c : List ℕ) → encode_destination s ≡ ok c → Parts (trim_space s) c
unfolding encode_destination
encode_destination-Parts s c h =
    let (t, e, h1) = or_else-eq-ok destination_length (sized (trim_space s)) _ c h in
    let (p, f, h2) = or_else-eq-ok destination_form (host_port t) _ c h1 in
    let (host, g, h3) = or_else-eq-ok destination_host _ _ c h2 in
    let (n, d, h4) = or_else-eq-ok destination_port (checked_port p.after) _ c h3 in
    let (same, size) = sized-eq_some (trim_space s) t e in
    let (split, some_byte) = host_port-eq_some t p f in
    let (no_control, k) = no_control-eq_some p.before host g in
    let (digits, range) = checked_port-eq_some p.after n d in
    record {
      parts = p;
      port = n;
      split = ap split_host_port same ∙ split;
      host = record {
        no_bracket = (split_host_port-IsSplit t p split).no_bracket;
        no_control = no_control;
        some_byte = some_byte;
      };
      digits = digits;
      port_range = range;
      joined = cc (h4, k);
      size = size;
    }

pub length-encode_destination : (t c : List ℕ) → Parts t c → length c ≤ length t
length-encode_destination t c r =
    let p : Pair = r.parts in
    rw r.joined (
      omega (
        arith,
        length-join_le p.before (itoa r.port) p.after
            (length-itoa-atoi r.port p.after (omega (arith, r.port_range.0)) r.digits),
        (split_host_port-IsSplit t p r.split).room,
      ))

last-IsDigit :
    (n : ℕ) (xs : List ℕ) (y : ℕ) (ys : List ℕ)
    → n + 1 ≡ length (xs ++ (y ∷ ys))
    → All IsDigit (y ∷ ys)
    → IsDigit (get_or (xs ++ (y ∷ ys)) n 0)
last-IsDigit zero [] y ys e d = d.0
last-IsDigit (suc n) [] y [] e d = absurd (omega arith)
last-IsDigit (suc n) [] y (z ∷ ys) e d = last-IsDigit n [] z ys (omega arith) d.1
last-IsDigit zero (x ∷ xs) y ys e d = absurd (omega (arith, length-append xs (y ∷ ys)))
last-IsDigit (suc n) (x ∷ xs) y ys e d = last-IsDigit n xs y ys (omega arith) d

end_of_digits :
    (xs : List ℕ) (y : ℕ) (ys : List ℕ) → All IsDigit (y ∷ ys) → end_space_size (xs ++ (y ∷ ys)) ≡ 0
end_of_digits xs y ys d =
    let s : List ℕ = xs ++ (y ∷ ys) in
    let k : IsDigit (get_or s (length s - 1) 0) =
      last-IsDigit (length s - 1) xs y ys (omega (arith, length-append xs (y ∷ ys))) d in
    end_space_size_visible s (omega (arith, k.0)) (omega (arith, k.1))

end_of_join : (h : List ℕ) (n : ℕ) → end_space_size (join_host_port h (itoa n)) ≡ 0
unfolding join_host_port
end_of_join h n =
    let (y, ys, e) = itoa_cons n in
    let d : All IsDigit (y ∷ ys) = subst (All IsDigit) e (itoa-IsDigit n) in
    let a : (h ++ (b']' ∷ b':' ∷ [])) ++ (y ∷ ys) ≡ h ++ (b']' ∷ b':' ∷ y ∷ ys) =
      append_assoc h (b']' ∷ b':' ∷ []) (y ∷ ys) in
    let b : (h ++ (b':' ∷ [])) ++ (y ∷ ys) ≡ h ++ (b':' ∷ y ∷ ys) =
      append_assoc h (b':' ∷ []) (y ∷ ys) in
    elim (Bool-cases (contains b':' h)) [
      | inl k ↦ rw (k, e, sym a) (end_of_digits (b'[' ∷ (h ++ (b']' ∷ b':' ∷ []))) y ys d)
      | inr k ↦ rw (k, e, sym b) (end_of_digits (h ++ (b':' ∷ [])) y ys d)
    ]

sized_within : (t : List ℕ) → 0 < length t → length t ≤ 255 → sized t ≡ some t
unfolding sized
sized_within t lo hi = ground arith

host_port-join :
    (h : List ℕ) (n : ℕ)
    → IsHost h
    → host_port (join_host_port h (itoa n)) ≡ some (record { before = h; after = itoa n })
unfolding host_port
host_port-join h n k =
    rw (host_port, split_host_port-join h (itoa n) k.no_bracket (itoa-IsDigit n)) (ground arith)

checked_port-itoa : (n : ℕ) → 1 ≤ n → n ≤ 65535 → checked_port (itoa n) ≡ some n
unfolding checked_port
checked_port-itoa n lo hi = rw (checked_port, atoi-itoa n) (ground arith)

-- A canonical text stays as it is where no space of Unicode stands at its front.
pub encode_destination-join :
    (h : List ℕ) (n : ℕ)
    → IsHost h
    → 1 ≤ n
    → n ≤ 65535
    → length (join_host_port h (itoa n)) ≤ 255
    → space_size (join_host_port h (itoa n)) ≡ 0
    → encode_destination (join_host_port h (itoa n)) ≡ ok (join_host_port h (itoa n))
unfolding encode_destination
encode_destination-join h n k lo hi l sp =
    let c : List ℕ = join_host_port h (itoa n) in
    rw
      (
        trim_space_none c sp (end_of_join h n),
        sized_within c (length-join_pos h (itoa n)) l,
        host_port-join h n k,
        k.no_control,
        checked_port-itoa n lo hi,
      )
      refl

space_size_of_stable : (c : List ℕ) → encode_destination c ≡ ok c → space_size c ≡ 0
space_size_of_stable c h = elim (Bool-cases (space_size c == 0)) [
  | inl z ↦ ground arith
  | inr z ↦
      let short : length (trim_space c) < length c =
        length-trim_space_lt c (λ e. absurd (ground (arith, z))) in
      absurd (
        omega (
          arith,
          short,
          length-encode_destination (trim_space c) c (encode_destination-Parts c c h),
        ))
]

-- The canonical form that EncodeDestination returns has at most 255 bytes, and EncodeDestination
-- returns it unchanged exactly when no space of Unicode stands at its front.
pub encode_destination-canonical :
    (s c : List ℕ)
    → encode_destination s ≡ ok c
    → (length c ≤ 255) × ((encode_destination c ≡ ok c) ↔ (space_size c ≡ 0))
encode_destination-canonical s c h =
    let r : Parts (trim_space s) c = encode_destination-Parts s c h in
    let j : c ≡ join_host_port r.parts.before (itoa r.port) = r.joined in
    let l : length c ≤ 255 =
      omega (arith, length-encode_destination (trim_space s) c r, r.size.1) in
    (
      l,
      (
        space_size_of_stable c,
        λ sp. rw j (
            encode_destination-join r.parts.before r.port r.host r.port_range.0 r.port_range.1
              (rw j at l) (rw j at sp)),
      ),
    )

-- The canonical form is not longer than the text.
pub length-canonical : (s c : List ℕ) → encode_destination s ≡ ok c → length c ≤ length s
length-canonical s c h = omega (
  arith,
  length-encode_destination (trim_space s) c (encode_destination-Parts s c h),
  length-trim_space s,
)

pub length-encode_destination_pos : (s c : List ℕ) → encode_destination s ≡ ok c → 0 < length c
length-encode_destination_pos s c h =
    rw (encode_destination-Parts s c h).joined (length-join_pos _ _)

-- DecodeDestination takes the canonical form as it is, where no space of Unicode is at its front.
pub decode_destination-canonical :
    (s c : List ℕ) → encode_destination s ≡ ok c → space_size c ≡ 0 → decode_destination c ≡ ok c
unfolding decode_destination
decode_destination-canonical s c h sp =
    let (l, k) = encode_destination-canonical s c h in
    let pos : 0 < length c = length-encode_destination_pos s c h in rw (k.1 sp) (ground arith)
