-- ===== src/HostPort/Decimal.antt =====
-- strconv.Itoa and strconv.Atoi: the digits of a number, and how many there are.
use sing_quic.Prelude.{
  ℕ, zero, suc, ◌+◌, ◌-◌, ◌*◌, ◌/◌, ◌%◌, ◌≤◌, ◌<◌, ◌≡◌, refl, subst, sym, ◌∙◌, ap, List, [], ◌∷◌,
  length, some, ltb, arith, All, inl, inr, Bool-cases, Option-cases,
}
use sing_quic.HostPort.{is_digit, parse, parse_digits, atoi, digits, itoa}

abbrev pub IsDigit : ℕ → Type 0
IsDigit c = (48 ≤ c) × (c ≤ 57)

parse_cons : (v d : ℕ) (cs : List ℕ) → d < 10 → parse v ((48 + d) ∷ cs) ≡ parse (10 * v + d) cs
unfolding parse is_digit
parse_cons v d cs h = let e : 48 + d - 48 ≡ d = omega arith in rw e (ground arith)

-- Reading the digits of `n` brings the reader to the value `n`.
parse-digits : (fuel n : ℕ) (acc : List ℕ) → n < fuel → parse 0 (digits fuel n acc) ≡ parse n acc
unfolding digits
parse-digits zero n acc h = absurd (omega arith)
parse-digits (suc fuel) n acc h = elim (Bool-cases (ltb n 10)) [
  | inl b ↦
      let e : 10 * 0 + n ≡ n = omega arith in
      rw b (parse_cons 0 n acc (ground arith) ∙ ap (λ v. parse v acc) e)
  | inr b ↦
      let e : 10 * (n / 10) + n % 10 ≡ n = omega arith in
      rw b (
        parse-digits fuel (n / 10) ((48 + n % 10) ∷ acc) (ground arith)
        ∙ (parse_cons (n / 10) (n % 10) acc (omega arith) ∙ ap (λ v. parse v acc) e))
]

digits-IsDigit : (fuel n : ℕ) (acc : List ℕ) → All IsDigit acc → All IsDigit (digits fuel n acc)
unfolding digits
digits-IsDigit zero n acc h = h
digits-IsDigit (suc fuel) n acc h =
    let rest : All IsDigit (digits fuel (n / 10) ((48 + n % 10) ∷ acc)) =
      digits-IsDigit fuel (n / 10) ((48 + n % 10) ∷ acc) ((omega arith, omega arith), h) in
    elim (Bool-cases (ltb n 10)) [
      | inl b ↦ rw b ((omega arith, ground arith), h)
      | inr b ↦ rw b rest
    ]

pub itoa-IsDigit : (n : ℕ) → All IsDigit (itoa n)
unfolding itoa
itoa-IsDigit n = digits-IsDigit (suc n) n [] tt

-- The length does not depend on the fuel.
length-digits :
    (f g n : ℕ) (acc bcc : List ℕ)
    → n < f
    → n < g
    → length (digits f n acc) + length bcc ≡ length (digits g n bcc) + length acc
unfolding digits
length-digits zero g n acc bcc h k = absurd (omega arith)
length-digits (suc f) zero n acc bcc h k = absurd (omega arith)
length-digits (suc f) (suc g) n acc bcc h k = elim (Bool-cases (ltb n 10)) [
  | inl b ↦ rw b (omega arith)
  | inr b ↦
      let x : ℕ = 48 + n % 10 in
      rw b (
        omega (arith, length-digits f g (n / 10) (x ∷ acc) (x ∷ bcc) (ground arith) (ground arith)))
]

length-itoa_step : (v d : ℕ) → d < 10 → length (itoa (10 * v + d)) ≤ length (itoa v) + 1
unfolding itoa digits
length-itoa_step v d h =
    let n : ℕ = 10 * v + d in
    let e : n / 10 ≡ v = omega arith in
    elim (Bool-cases (ltb n 10)) [
      | inl b ↦ rw b (ground arith)
      | inr b ↦
          rw (b, e)
            (omega (
              arith,
              length-digits n (suc v) v ((48 + n % 10) ∷ []) [] (ground arith) (omega arith),
            ))
    ]

parse-inv :
    (v n c : ℕ) (cs : List ℕ)
    → parse v (c ∷ cs) ≡ some n
    → IsDigit c × (parse (10 * v + (c - 48)) cs ≡ some n)
unfolding parse is_digit
parse-inv v n c cs h = ((ground arith, ground arith), ground arith)

length-itoa-parse :
    (v n : ℕ) (cs : List ℕ) → parse v cs ≡ some n → length (itoa n) ≤ length (itoa v) + length cs
unfolding parse
length-itoa-parse v n [] h = let e : v ≡ n = cc in rw e (omega arith)
length-itoa-parse v n (c ∷ cs) h =
    let (d, k) = parse-inv v n c cs h in
    omega (
      arith,
      d.1,
      length-itoa-parse (10 * v + (c - 48)) n cs k,
      length-itoa_step v (c - 48) (omega (arith, d.1)),
    )

length-itoa_digit : (d : ℕ) → d < 10 → length (itoa d) ≡ 1
unfolding itoa digits
length-itoa_digit d h = ground arith

length-itoa_tenth : (n : ℕ) → length (itoa n) ≤ length (itoa (n / 10)) + 1
length-itoa_tenth n =
    let e : 10 * (n / 10) + n % 10 ≡ n = omega arith in
    subst (λ m. length (itoa m) ≤ length (itoa (n / 10)) + 1) e
      (length-itoa_step (n / 10) (n % 10) (omega arith))

-- A port has five digits at most.
pub length-itoa_five : (n : ℕ) → n < 100000 → length (itoa n) ≤ 5
length-itoa_five n h = omega (
  arith,
  length-itoa_tenth n,
  length-itoa_tenth (n / 10),
  length-itoa_tenth (n / 10 / 10),
  length-itoa_tenth (n / 10 / 10 / 10),
  length-itoa_digit (n / 10 / 10 / 10 / 10) (omega arith),
)

length-itoa_digits : (n : ℕ) (cs : List ℕ) → parse_digits cs ≡ some n → length (itoa n) ≤ length cs
unfolding parse_digits
length-itoa_digits n [] h = absurd cc
length-itoa_digits n (c ∷ cs) h =
    let (d, k) = parse-inv 0 n c cs h in
    omega (
      arith,
      d.1,
      length-itoa-parse (10 * 0 + (c - 48)) n cs k,
      length-itoa_digit (10 * 0 + (c - 48)) (omega (arith, d.1)),
    )

-- A positive number is not longer than the text it was read from.
pub length-itoa-atoi : (n : ℕ) (s : List ℕ) → 0 < n → atoi s ≡ some n → length (itoa n) ≤ length s
unfolding atoi
length-itoa-atoi n [] p h = absurd cc
length-itoa-atoi n (c ∷ cs) p h =
    ground (
      arith,
      length-itoa_digits n cs,
      length-itoa_digits n (c ∷ cs),
      Option-cases (parse_digits cs),
    )

digits_cons :
    (fuel n : ℕ) (acc : List ℕ) → (x : ℕ) × (xs : List ℕ) × (digits (suc fuel) n acc ≡ x ∷ xs)
unfolding digits
digits_cons zero n acc = elim (Bool-cases (ltb n 10)) [
  | inl b ↦ rw b (48 + n, acc, refl)
  | inr b ↦ rw b (48 + n % 10, acc, refl)
]
digits_cons (suc fuel) n acc = elim (Bool-cases (ltb n 10)) [
  | inl b ↦ rw b (48 + n, acc, refl)
  | inr b ↦ rw b (digits_cons fuel (n / 10) ((48 + n % 10) ∷ acc))
]

pub itoa_cons : (n : ℕ) → (x : ℕ) × (xs : List ℕ) × (itoa n ≡ x ∷ xs)
unfolding itoa
itoa_cons n = digits_cons n n []

atoi-digit : (x : ℕ) (xs : List ℕ) → IsDigit x → atoi (x ∷ xs) ≡ parse 0 (x ∷ xs)
unfolding atoi parse_digits
atoi-digit x xs h = ground (arith, h)

pub atoi-itoa : (n : ℕ) → atoi (itoa n) ≡ some n
unfolding itoa parse
atoi-itoa n =
    let (x, xs, e) = itoa_cons n in
    let d : All IsDigit (x ∷ xs) = subst (All IsDigit) e (itoa-IsDigit n) in
    ap atoi e
    ∙ (atoi-digit x xs d.0
        ∙ (ap (λ s. parse 0 s) (sym e) ∙ parse-digits (suc n) n [] (omega arith)))
