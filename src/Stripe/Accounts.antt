-- ===== src/Stripe/Accounts.antt =====
-- What the accounts of the lanes stand for (queqiao/internal/stripe/stripe.go): the attempts of the
-- outstanding chunks.
use sing_quic.Prelude.{
  ℕ, ◌+◌, ◌≡◌, true, false, not, ◌&&◌, ◌||◌, subst, some, List, [], ◌∷◌, ◌++◌, ◌==◌, if◌then◌else◌,
  arith, sum_by, Bool-cases, inl, inr,
}
use sing_quic.Stripe.{Load, Attempt}
use sing_quic.Stripe.Lanes.{release_lane, release_queued, release_bytes, release_all, charge}
use sing_quic.Stripe.Finish.{find_attempt, remove_attempt, drop_lane_attempts, mark_written}
use sing_quic.Stripe.Reissue.{is_lost, retire_attempts, extend_first}

-- What an attempt at a chunk of `n` bytes counts for on lane `l`.
abbrev pub chunks_on : ℕ → Attempt → ℕ
chunks_on l a = if a.lane == l then 1 else 0

abbrev pub bytes_on : ℕ → ℕ → Attempt → ℕ
bytes_on l n a = if a.lane == l then n else 0

abbrev pub queued_on : ℕ → ℕ → Attempt → ℕ
queued_on l n a = if a.lane == l && not a.written then n else 0

-- The accounts are those of the attempts at one chunk of `n` bytes, on top of `others`.
pub record Fits (load : Load) (n : ℕ) (attempts : List Attempt) (others : Load) : Type 0 where
  pub chunks : (l : ℕ) → load.chunks l ≡ others.chunks l + sum_by (chunks_on l) attempts
  pub bytes : (l : ℕ) → load.bytes l ≡ others.bytes l + sum_by (bytes_on l n) attempts
  pub queued : (l : ℕ) → load.queued l ≡ others.queued l + sum_by (queued_on l n) attempts
  pub total : load.total ≡ others.total + sum_by (λ (a : Attempt). n) attempts

-- One more attempt among the others.
abbrev pub plus : ℕ → Attempt → Load → Load
plus n a others = record {
  chunks = λ l. chunks_on l a + others.chunks l;
  bytes = λ l. bytes_on l n a + others.bytes l;
  queued = λ l. queued_on l n a + others.queued l;
  total = n + others.total;
}

module _ {load : Load} (n : ℕ) (a : Attempt) {rest : List Attempt} {others : Load} where
  pub release_lane-Fits :
      Fits load n (a ∷ rest) others
      → Fits (release_lane load a.lane n (not a.written)) n rest others
  unfolding release_lane release_queued release_bytes
  release_lane-Fits f = record {
    chunks = λ l. ground (arith, f.chunks l);
    bytes = λ l. ground (arith, f.bytes l, f.bytes a.lane);
    queued = λ l. ground (arith, f.queued l);
    total = ground (arith, f.total, f.bytes a.lane);
  }

  pub written-Fits :
      Fits load n (a ∷ rest) others
      → a.written ≡ false
      → Fits (release_queued load a.lane n) n (record a { written = true } ∷ rest) others
  unfolding release_queued
  written-Fits f e = record {
    chunks = λ l. ground (arith, f.chunks l);
    bytes = λ l. ground (arith, f.bytes l);
    queued = λ l. ground (arith, f.queued l, e);
    total = ground (arith, f.total);
  }

  lost-Fits :
      a.written ≡ true
      → Fits load n (a ∷ rest) others
      → Fits (release_lane load a.lane n false) n rest others
  lost-Fits e f =
      subst (λ w. Fits (release_lane load a.lane n (not w)) n rest others) e (release_lane-Fits f)

  aside : Fits load n (a ∷ rest) others → Fits load n rest (plus n a others)
  aside f = record {
    chunks = λ l. omega (arith, f.chunks l);
    bytes = λ l. omega (arith, f.bytes l);
    queued = λ l. omega (arith, f.queued l);
    total = omega (arith, f.total);
  }

  back : Fits load n rest (plus n a others) → Fits load n (a ∷ rest) others
  back f = record {
    chunks = λ l. omega (arith, f.chunks l);
    bytes = λ l. omega (arith, f.bytes l);
    queued = λ l. omega (arith, f.queued l);
    total = omega (arith, f.total);
  }

pub release_all-Fits :
    (load : Load) (n : ℕ) (attempts : List Attempt) (others : Load)
    → Fits load n attempts others
    → Fits (release_all load n attempts) n [] others
unfolding release_all
release_all-Fits load n [] others f = f
release_all-Fits load n (a ∷ rest) others f =
    release_all-Fits (release_lane load a.lane n (not a.written)) n rest others
      (release_lane-Fits n a f)

pub drop_lane_attempts-Fits :
    (load : Load) (n : ℕ) (attempts : List Attempt) (lane : ℕ) (others : Load)
    → Fits load n attempts others
    → let (load', kept) = drop_lane_attempts load n attempts lane in Fits load' n kept others
unfolding drop_lane_attempts
drop_lane_attempts-Fits load n [] lane others f = f
drop_lane_attempts-Fits load n (a ∷ rest) lane others f = elim (Bool-cases (a.lane == lane)) [
  | inl e ↦ rw e (
      drop_lane_attempts-Fits (release_lane load a.lane n (not a.written)) n rest lane others
        (release_lane-Fits n a f))
  | inr e ↦
      rw e (back n a (drop_lane_attempts-Fits load n rest lane (plus n a others) (aside n a f)))
]

is_lost-written : (a : Attempt) (deadline : ℕ) → is_lost a deadline ≡ true → a.written ≡ true
unfolding is_lost
is_lost-written a deadline e = ground (arith, e)

pub retire_attempts-Fits :
    (load : Load) (n : ℕ) (attempts : List Attempt) (deadline : ℕ) (others : Load)
    → Fits load n attempts others
    → let (load', kept) = retire_attempts load n attempts deadline in Fits load' n kept others
unfolding retire_attempts
retire_attempts-Fits load n [] deadline others f = f
retire_attempts-Fits load n (a ∷ rest) deadline others f = elim (Bool-cases (is_lost a deadline)) [
  | inl e ↦ rw e (
      retire_attempts-Fits (release_lane load a.lane n false) n rest deadline others
        (lost-Fits n a (is_lost-written a deadline e) f))
  | inr e ↦
      rw e (back n a (retire_attempts-Fits load n rest deadline (plus n a others) (aside n a f)))
]

pub remove_attempt-Fits :
    (load : Load) (n : ℕ) (attempts : List Attempt) (lane id : ℕ) (a : Attempt) (others : Load)
    → find_attempt attempts lane id ≡ some a
    → Fits load n attempts others
    → Fits (release_lane load a.lane n (not a.written)) n (remove_attempt attempts lane id) others
unfolding find_attempt remove_attempt
remove_attempt-Fits load n [] lane id a others e f = cc
remove_attempt-Fits load n (b ∷ rest) lane id a others e f =
    elim (Bool-cases (not (b.id == id) || not (b.lane == lane))) [
      | inl other ↦ rw other (
          back n b (
            remove_attempt-Fits load n rest lane id a (plus n b others) (rw other at e)
              (aside n b f)))
      | inr found ↦ rw found (
          subst (λ (c : Attempt). Fits (release_lane load c.lane n (not c.written)) n rest others)
            {x = b} {y = a} (ground (arith, e, found)) (release_lane-Fits n b f))
    ]

pub mark_written-Fits :
    (load : Load) (n : ℕ) (attempts : List Attempt) (lane id : ℕ) (others : Load)
    → Fits load n attempts others
    → let (marked, found) = mark_written attempts lane id in
      found ≡ true → Fits (release_queued load lane n) n marked others
unfolding mark_written
mark_written-Fits load n [] lane id others f e = cc
mark_written-Fits load n (a ∷ rest) lane id others f e =
    elim (Bool-cases (not (a.id == id) || (not (a.lane == lane) || a.written))) [
      | inl other ↦ rw other (
          back n a
            (mark_written-Fits load n rest lane id (plus n a others) (aside n a f) (rw other at e)))
      | inr found ↦ rw found (
          subst (λ l. Fits (release_queued load l n) n (record a { written = true } ∷ rest) others)
            (ground (arith, found)) (written-Fits n a f (ground (arith, found))))
    ]

sum_by-snoc :
    (f : Attempt → ℕ) (xs : List Attempt) (a : Attempt)
    → sum_by f (xs ++ (a ∷ [])) ≡ sum_by f xs + f a
sum_by-snoc f [] a = omega arith
sum_by-snoc f (x ∷ xs) a = omega (arith, sum_by-snoc f xs a)

-- A dispatch charges the lane with one more attempt, the last of the chunk.
pub charge-Fits :
    (load : Load) (n : ℕ) (attempts : List Attempt) (a : Attempt) (others : Load)
    → a.written ≡ false
    → Fits load n attempts others
    → Fits (charge load a.lane n) n (attempts ++ (a ∷ [])) others
unfolding charge
charge-Fits load n attempts a others e f = record {
  chunks = λ l. ground (arith, f.chunks l, sum_by-snoc (chunks_on l) attempts a);
  bytes = λ l. ground (arith, f.bytes l, sum_by-snoc (bytes_on l n) attempts a);
  queued = λ l. ground (arith, f.queued l, sum_by-snoc (queued_on l n) attempts a, e);
  total = ground (arith, f.total, sum_by-snoc (λ (c : Attempt). n) attempts a);
}

-- A new deadline changes no account.
pub extend_first-Fits :
    (load : Load) (n : ℕ) (attempts : List Attempt) (deadline : ℕ) (others : Load)
    → Fits load n attempts others
    → Fits load n (extend_first attempts deadline) others
unfolding extend_first
extend_first-Fits load n [] deadline others f = f
extend_first-Fits load n (a ∷ rest) deadline others f = record {
  chunks = f.chunks;
  bytes = f.bytes;
  queued = f.queued;
  total = f.total;
}
