-- ===== src/HostPort/Split.antt =====
-- net.SplitHostPort and net.JoinHostPort: a text and its host and port.
use sing_quic.Prelude.{
  ℕ, ◌+◌, ◌≤◌, ◌<◌, ◌≡◌, refl, sym, subst, ap, List, [], ◌∷◌, ◌++◌, length, get_or, drop, some,
  none, false, ◌==◌, arith, All, inl, inr, Bool-cases, Option-cases, length-append, length-drop,
  append_assoc, ==_refl,
}
use sing_quic.HostPort.{
  contains, has_bracket, Pair, cut_last, bracketed, bare, split_around, split_host_port,
  join_host_port,
}
use sing_quic.HostPort.Decimal.{IsDigit}

contains-digits : (c : ℕ) (q : List ℕ) → 57 < c → All IsDigit q → contains c q ≡ false
unfolding contains
contains-digits c [] h d = refl
contains-digits c (x ∷ xs) h d = ground (arith, d.0, contains-digits c xs h d.1)

pub has_bracket-digits : (q : List ℕ) → All IsDigit q → has_bracket q ≡ false
unfolding has_bracket
has_bracket-digits q d =
    rw (contains-digits b'[' q (omega arith) d, contains-digits b']' q (omega arith) d) refl

cut_last-none : (c : ℕ) (s : List ℕ) → contains c s ≡ false → cut_last c s ≡ none
unfolding contains cut_last
cut_last-none c [] h = refl
cut_last-none c (x ∷ xs) h = ground (arith, cut_last-none c xs)

cut_last-append :
    (c : ℕ) (xs ys : List ℕ)
    → contains c ys ≡ false
    → cut_last c (xs ++ (c ∷ ys)) ≡ some (record { before = xs; after = ys })
unfolding cut_last
cut_last-append c [] ys h = rw (cut_last-none c ys h, ==_refl c) refl
cut_last-append c (x ∷ xs) ys h = rw (cut_last-append c xs ys h) refl

length-cut_last :
    (c : ℕ) (s : List ℕ) (p : Pair)
    → cut_last c s ≡ some p
    → length s ≡ length p.before + 1 + length p.after
unfolding cut_last
length-cut_last c [] p h = absurd cc
length-cut_last c (x ∷ xs) p h = elim (Option-cases (cut_last c xs)) [
  | inl e ↦ ground (arith, e)
  | inr (q, e) ↦ ground (arith, e, length-cut_last c xs q e)
]

head_of_no_bracket : (h : List ℕ) → has_bracket h ≡ false → (get_or h 0 0 == b'[') ≡ false
unfolding has_bracket contains
head_of_no_bracket [] e = refl
head_of_no_bracket (x ∷ xs) e = ground arith

-- A host that net.SplitHostPort finds has no brackets, and joining it again needs no more room.
pub record IsSplit (s : List ℕ) (p : Pair) : Type 0 where
  pub no_bracket : has_bracket p.before ≡ false
  pub room : length (join_host_port p.before p.after) ≤ length s

pub length-join :
    (h q : List ℕ)
    → (contains b':' h ≡ false → length (join_host_port h q) ≡ length h + 1 + length q)
      × (length (join_host_port h q) ≤ length h + 3 + length q)
unfolding join_host_port
length-join h q = ground (arith, length-append h (b']' ∷ b':' ∷ q), length-append h (b':' ∷ q))

pub length-join_pos : (h q : List ℕ) → 0 < length (join_host_port h q)
unfolding join_host_port
length-join_pos h q = ground (arith, length-append h (b']' ∷ b':' ∷ q), length-append h (b':' ∷ q))

pub length-join_le :
    (h q r : List ℕ)
    → length q ≤ length r
    → length (join_host_port h q) ≤ length (join_host_port h r)
unfolding join_host_port
length-join_le h q r l = ground (
  arith,
  length-append h (b']' ∷ b':' ∷ q),
  length-append h (b':' ∷ q),
  length-append h (b']' ∷ b':' ∷ r),
  length-append h (b':' ∷ r),
)

bare-IsSplit :
    (s host port : List ℕ) (p : Pair)
    → length s ≡ length host + 1 + length port
    → bare host port ≡ some p
    → IsSplit s p
unfolding bare
bare-IsSplit s host port p l h =
    let (e, f) : (contains b':' host ≡ false) × (has_bracket host ≡ false) =
      (ground arith, ground arith) in
    let k : record { before = host; after = port } ≡ p = ground (arith, e, f) in
    subst (IsSplit s) k
      (record { no_bracket = f; room = omega (arith, (length-join host port).0 e) })

bracketed-IsSplit :
    (s port : List ℕ) (inner p : Pair)
    → length s ≡ length inner.before + length inner.after + 3 + length port
    → bracketed (some inner) port ≡ some p
    → IsSplit s p
unfolding bracketed
bracketed-IsSplit s port inner p l h =
    let f : has_bracket inner.before ≡ false = ground arith in
    let k : record { before = inner.before; after = port } ≡ p = ground (arith, f) in
    subst (IsSplit s) k
      (record { no_bracket = f; room = omega (arith, (length-join inner.before port).1) })

split_around-IsSplit :
    (s : List ℕ) (around p : Pair)
    → length s ≡ length around.before + 1 + length around.after
    → split_around (some around) ≡ some p
    → IsSplit s p
unfolding split_around bracketed
split_around-IsSplit s around p l h = elim (Bool-cases (get_or around.before 0 0 == b'[')) [
  | inl e ↦ elim (Option-cases (cut_last b']' (drop 1 around.before))) [
    | inl n ↦ absurd (ground (arith, e, n))
    | inr (inner, n) ↦
        let k : 0 < length around.before = ground (arith, e) in
        bracketed-IsSplit s around.after inner p
          (omega (
            arith,
            length-cut_last b']' (drop 1 around.before) inner n,
            length-drop 1 around.before,
          ))
          (rw (e, n) at h)
  ]
  | inr e ↦ bare-IsSplit s around.before around.after p l (rw e at h)
]

pub split_host_port-IsSplit : (s : List ℕ) (p : Pair) → split_host_port s ≡ some p → IsSplit s p
unfolding split_host_port split_around
split_host_port-IsSplit s p h = elim (Option-cases (cut_last b':' s)) [
  | inl n ↦ absurd (ground (arith, n))
  | inr (around, n) ↦ split_around-IsSplit s around p (length-cut_last b':' s around n) (rw n at h)
]

bracketed-clean :
    (h q : List ℕ)
    → has_bracket h ≡ false
    → All IsDigit q
    → bracketed (cut_last b']' (h ++ (b']' ∷ []))) q ≡ some (record { before = h; after = q })
unfolding bracketed contains
bracketed-clean h q nb d =
    rw (cut_last-append b']' h [] refl) (rw (nb, has_bracket-digits q d) refl)

pub split_host_port-join :
    (h q : List ℕ)
    → has_bracket h ≡ false
    → All IsDigit q
    → split_host_port (join_host_port h q) ≡ some (record { before = h; after = q })
unfolding split_host_port split_around bracketed bare join_host_port
split_host_port-join h q nb d = elim (Bool-cases (contains b':' h)) [
  | inl e ↦
      let a : (b'[' ∷ (h ++ (b']' ∷ []))) ++ (b':' ∷ q) ≡ b'[' ∷ (h ++ (b']' ∷ b':' ∷ q)) =
        ap (λ l. b'[' ∷ l) (append_assoc h (b']' ∷ []) (b':' ∷ q)) in
      rw
        (
          e,
          sym a,
          cut_last-append b':' (b'[' ∷ (h ++ (b']' ∷ []))) q
              (contains-digits b':' q (omega arith) d),
        )
        (bracketed-clean h q nb d)
  | inr e ↦
      rw
        (
          e,
          cut_last-append b':' h q (contains-digits b':' q (omega arith) d),
          head_of_no_bracket h nb,
        )
        (rw (e, nb, has_bracket-digits q d) refl)
]
