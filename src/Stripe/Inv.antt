-- ===== src/Stripe/Inv.antt =====
-- What holds of a scheduler between its critical sections (queqiao/internal/stripe/stripe.go).
pub mod Taken
pub mod Admitted
pub mod Finished
pub mod Retired
pub mod Offered
pub mod Closed
pub mod Produced
pub mod Apart
pub mod Memory
pub mod Steps
pub mod Reached
use sing_quic.Prelude.{
  ℕ, suc, ◌+◌, ◌≤◌, ◌<◌, ◌≡◌, refl, Bool, true, false, not, ◌&&◌, ◌||◌, Option, none, some, List,
  [], ◌∷◌, ◌==◌, if◌then◌else◌, arith, Bool-cases, inl, inr,
}
use sing_quic.SeqMap.{lookup, put, delete, keys}
use sing_quic.SeqMap.Laws.{lookup-put}
use sing_quic.Stripe.{Scheduler, Attempt, Load, Stats, update, size}
use sing_quic.Stripe.Ready.{requeue, pending_has, is_none, is_empty}
use sing_quic.Stripe.Finish.{requeue_if_idle}
use sing_quic.Stripe.Keys.{
  Between, Between-widen, holds, pending_has-holds, holds-insert_order, insert_order-Between,
  holds-Between,
}
use sing_quic.Stripe.Outstanding.{
  weigh, weigh-put, weigh-lookup, keys-put, lookup-Between, holds-keys,
}
use sing_quic.Stripe.Exact.{Exact, sums, Exact-put}
use sing_quic.Stripe.Accounts.{Fits}

-- The offsets of chunks are below this: an empty last chunk may stand at `next_offset`.
abbrev pub bound : Scheduler → ℕ
bound s = s.next_offset + (if s.eof then 1 else 0)

-- The chunk is ready, or outstanding.
abbrev pub is_retained : Scheduler → ℕ → Bool
is_retained s k = holds s.pending k || not (is_none (lookup k s.live))

pub record IsSound (s : Scheduler) : Type 0 where
  pub ready : Between 0 (bound s) s.pending
  pub outstanding : Between 0 (bound s) (keys s.live)
  pub accounts : s.closed ≡ false → Exact s.load (size s) s.live
  pub bytes : s.closed ≡ false → s.live_bytes ≡ weigh (λ k attempts. size s k) s.live
  pub kept : (k : ℕ) → 0 < s.reservation k → is_retained s k ≡ true
  pub fresh : (k : ℕ) → s.next_offset ≤ k → s.reservation k ≡ 0

-- An outstanding chunk without an attempt is ready, but for the chunks that `except` names.
abbrev pub IsIdle : Scheduler → (ℕ → Bool) → Type 0
IsIdle s except = (k : ℕ) → except k ≡ false → lookup k s.live ≡ some [] → holds s.pending k ≡ true

abbrev pub nowhere : ℕ → Bool
nowhere k = false

pub record IsValid (s : Scheduler) : Type 0 where
  pub sound : IsSound s
  pub idle : IsIdle s nowhere

requeue-live : (s : Scheduler) (k : ℕ) → (requeue s k).live ≡ s.live
unfolding requeue
requeue-live s k = ground arith

-- A ready chunk again.
module _ (s : Scheduler) (k : ℕ) (v : IsSound s) (below : k < bound s) where
  pub requeue-holds : (j : ℕ) → holds (requeue s k).pending j ≡ (k == j || holds s.pending j)
  unfolding requeue
  requeue-holds j =
      ground
        (arith, pending_has-holds 0 (bound s) s.pending k v.ready, holds-insert_order s.pending k j)

  pub requeue-IsSound : IsSound (requeue s k)
  unfolding requeue
  requeue-IsSound = elim (Bool-cases (pending_has s.pending k)) [
    | inl e ↦ rw e v
    | inr e ↦ rw e (record {
      ready =
          insert_order-Between 0 (bound s) s.pending k (omega arith) below
            (ground (arith, e, pending_has-holds 0 (bound s) s.pending k v.ready)) v.ready;
      outstanding = v.outstanding;
      accounts = v.accounts;
      bytes = v.bytes;
      kept = λ j p. ground (arith, v.kept j p, holds-insert_order s.pending k j);
      fresh = v.fresh;
    })
  ]

  pub requeue-IsIdle :
      (except : ℕ → Bool) → IsIdle s (λ j. k == j || except j) → IsIdle (requeue s k) except
  requeue-IsIdle except h j n e = ground (arith, n, requeue-holds j, requeue-live s k, e, h j)

-- Other attempts at one outstanding chunk, with the accounts that fit them.
module _ (s : Scheduler) (k : ℕ) (attempts kept : List Attempt) (load : Load) (stats : Stats)
    (v : IsSound s) (found : lookup k s.live ≡ some attempts)
    (fits : s.closed ≡ false → Fits load (size s k) kept (sums (size s) (delete k s.live))) where
  abbrev replaced : Scheduler
  replaced = record s { live = put k kept s.live; load = load; stats = stats }

  found_below : k < bound s
  found_below = (lookup-Between 0 (bound s) s.live k v.outstanding (ground (arith, found))).1

  pub replaced-IsSound : IsSound replaced
  replaced-IsSound = record {
    ready = v.ready;
    outstanding = keys-put 0 (bound s) s.live k kept (omega arith) found_below v.outstanding;
    accounts = λ c. Exact-put (bound s) s.live k kept v.outstanding (fits c);
    bytes = λ c. omega (
      arith,
      v.bytes c,
      weigh-put (λ j as_. size s j) 0 (bound s) s.live k kept v.outstanding,
      weigh-lookup (λ j as_. size s j) s.live k attempts found,
    );
    kept = λ j p. ground (arith, v.kept j p, lookup-put k j kept s.live, found);
    fresh = v.fresh;
  }

  pub replaced-IsIdle :
      (except : ℕ → Bool) → IsIdle s except → IsIdle replaced (λ j. k == j || except j)
  replaced-IsIdle except h j n e = ground (arith, n, e, h j, lookup-put k j kept s.live)

  pub still : (except : ℕ → Bool) → is_empty kept ≡ false → IsIdle s except → IsIdle replaced except
  still except full h j n e = ground (arith, n, full, e, h j n, lookup-put k j kept s.live)

  pub offered-IsSound : IsSound (requeue replaced k)
  offered-IsSound = requeue-IsSound replaced k replaced-IsSound found_below

  pub offered-IsIdle :
      (except : ℕ → Bool)
      → IsIdle replaced (λ j. k == j || except j)
      → IsIdle (requeue replaced k) except
  offered-IsIdle except h = requeue-IsIdle replaced k replaced-IsSound found_below except h

  pub offered-IsValid : IsIdle s nowhere → IsValid (requeue replaced k)
  offered-IsValid h = record {
    sound = offered-IsSound;
    idle = offered-IsIdle nowhere (replaced-IsIdle nowhere h);
  }

  pub requeue_if_idle-IsValid : IsIdle s nowhere → IsValid (requeue_if_idle replaced k kept)
  unfolding requeue_if_idle
  requeue_if_idle-IsValid h = elim (Bool-cases (is_empty kept)) [
    | inl e ↦ rw e (offered-IsValid h)
    | inr e ↦ rw e (record { sound = replaced-IsSound; idle = still nowhere e h })
  ]

  -- The chunk keeps an attempt.
  pub still-IsValid : is_empty kept ≡ false → IsIdle s nowhere → IsValid replaced
  still-IsValid full h = record { sound = replaced-IsSound; idle = still nowhere full h }
