-- ===== src/Stripe/Exact.antt =====
-- The accounts of all outstanding chunks of the scheduler (queqiao/internal/stripe/stripe.go), and
-- a change of one of them.
use sing_quic.Prelude.{ℕ, ◌≡◌, none, some, List, [], arith, sum_by}
use sing_quic.SeqMap.{lookup, put, delete, keys}
use sing_quic.Stripe.{Load, Attempt}
use sing_quic.Stripe.Keys.{Between}
use sing_quic.Stripe.Accounts.{Fits, chunks_on, bytes_on, queued_on}
use sing_quic.Stripe.Outstanding.{weigh, weigh-lookup, weigh-put, weigh_missing}

-- The accounts of all outstanding chunks.
abbrev pub sums : (ℕ → ℕ) → List (ℕ × List Attempt) → Load
sums size live = record {
  chunks = λ l. weigh (λ k attempts. sum_by (chunks_on l) attempts) live;
  bytes = λ l. weigh (λ k attempts. sum_by (bytes_on l (size k)) attempts) live;
  queued = λ l. weigh (λ k attempts. sum_by (queued_on l (size k)) attempts) live;
  total = weigh (λ k attempts. sum_by (λ (a : Attempt). size k) attempts) live;
}

-- Each count of a lane is the number, or the bytes, of the attempts that it carries.
pub record Exact (load : Load) (size : ℕ → ℕ) (live : List (ℕ × List Attempt)) : Type 0 where
  pub chunks : (l : ℕ) → load.chunks l ≡ (sums size live).chunks l
  pub bytes : (l : ℕ) → load.bytes l ≡ (sums size live).bytes l
  pub queued : (l : ℕ) → load.queued l ≡ (sums size live).queued l
  pub total : load.total ≡ (sums size live).total

module _ {load : Load} {size : ℕ → ℕ} (b : ℕ) (live : List (ℕ × List Attempt)) (k : ℕ) where
  -- One chunk taken apart from the others, and put back with other attempts.
  pub Exact-Fits :
      (attempts : List Attempt)
      → lookup k live ≡ some attempts
      → Exact load size live
      → Fits load (size k) attempts (sums size (delete k live))
  Exact-Fits attempts e x = record {
    chunks =
        λ l. omega (arith, x.chunks l, weigh-lookup (λ j v. sum_by (chunks_on l) v) live k _ e);
    bytes = λ l.
        omega (arith, x.bytes l, weigh-lookup (λ j v. sum_by (bytes_on l (size j)) v) live k _ e);
    queued = λ l.
        omega (arith, x.queued l, weigh-lookup (λ j v. sum_by (queued_on l (size j)) v) live k _ e);
    total =
        omega (arith, x.total, weigh-lookup (λ j v. sum_by (λ (a : Attempt). size j) v) live k _ e);
  }

  pub Exact_missing :
      lookup k live ≡ none
      → Exact load size live
      → Fits load (size k) [] (sums size (delete k live))
  Exact_missing e x = record {
    chunks = λ l. omega (arith, x.chunks l, weigh_missing (λ j v. sum_by (chunks_on l) v) live k e);
    bytes = λ l.
        omega (arith, x.bytes l, weigh_missing (λ j v. sum_by (bytes_on l (size j)) v) live k e);
    queued = λ l.
        omega (arith, x.queued l, weigh_missing (λ j v. sum_by (queued_on l (size j)) v) live k e);
    total =
        omega (arith, x.total, weigh_missing (λ j v. sum_by (λ (a : Attempt). size j) v) live k e);
  }

  pub Exact-put :
      (attempts : List Attempt)
      → Between 0 b (keys live)
      → Fits load (size k) attempts (sums size (delete k live))
      → Exact load size (put k attempts live)
  Exact-put attempts h f = record {
    chunks = λ l.
        omega (arith, f.chunks l, weigh-put (λ j v. sum_by (chunks_on l) v) 0 b live k attempts h);
    bytes = λ l.
        omega (
          arith,
          f.bytes l,
          weigh-put (λ j v. sum_by (bytes_on l (size j)) v) 0 b live k attempts h,
        );
    queued = λ l. omega (
      arith,
      f.queued l,
      weigh-put (λ j v. sum_by (queued_on l (size j)) v) 0 b live k attempts h,
    );
    total = omega (
      arith,
      f.total,
      weigh-put (λ j v. sum_by (λ (a : Attempt). size j) v) 0 b live k attempts h,
    );
  }

  pub Exact-delete :
      Fits load (size k) [] (sums size (delete k live)) → Exact load size (delete k live)
  Exact-delete f = record {
    chunks = λ l. omega (arith, f.chunks l);
    bytes = λ l. omega (arith, f.bytes l);
    queued = λ l. omega (arith, f.queued l);
    total = omega (arith, f.total);
  }
