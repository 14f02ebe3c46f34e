-- ===== src/Stripe/Inv/Finished.antt =====
-- Chunks that arrive, fail or are written leave a well-formed scheduler
-- (queqiao/internal/stripe/stripe.go).
use sing_quic.Prelude.{
  ℕ, ◌≡◌, refl, sym, subst, true, false, not, ◌&&◌, Option, none, some, List, [], ◌∷◌, ◌==◌,
  if◌then◌else◌, arith, Bool-cases, Option-cases, inl, inr, leb, ◌-◌,
}
use sing_quic.SeqMap.{lookup, delete, remove_order}
use sing_quic.MemLimit.{Budget, Released, release, done}
use sing_quic.Stripe.{Scheduler, Attempt, Stats, Outcome, ran, update, size}
use sing_quic.Stripe.Lanes.{lane_has_attempt, release_all}
use sing_quic.Stripe.Ready.{pending_has, is_empty, remove_pending}
use sing_quic.Stripe.Finish.{
  complete, complete_live, release_chunk, with_memory, and_signal, signal_if_done, fail,
  find_attempt, remove_attempt, mark_written, wrote, count_failure, retire_chunk,
}
use sing_quic.Stripe.Keys.{holds, Between, holds-remove_order, remove_order-Between}
use sing_quic.Stripe.Outstanding.{weigh-lookup, keys-delete, lookup-delete}
use sing_quic.Stripe.Exact.{Exact-Fits, Exact-delete}
use sing_quic.Stripe.Accounts.{
  release_all-Fits, remove_attempt-Fits, drop_lane_attempts-Fits, mark_written-Fits,
}
use sing_quic.Stripe.Inv.{IsValid, bound, requeue_if_idle-IsValid, still-IsValid}

pub signal_if_done-IsValid : (s : Scheduler) → IsValid s → IsValid (signal_if_done s)
unfolding signal_if_done
signal_if_done-IsValid s v = ground (arith, v)

-- A chunk that is neither ready nor outstanding afterwards, and whose reservation is given back.
module _ (s : Scheduler) (k : ℕ) (v : IsValid s) (r : ℕ → ℕ) (memory : Option Budget)
    (given : (j : ℕ) → r j ≡ (if k == j then 0 else s.reservation j)) where
  removed : Between 0 (bound s) (remove_order s.pending k)
  removed = remove_order-Between 0 (bound s) s.pending k v.sound.ready

  other_ready : (j : ℕ) → holds (remove_order s.pending k) j ≡ (not (k == j) && holds s.pending j)
  other_ready j = holds-remove_order 0 (bound s) s.pending k j v.sound.ready

  other_live : (j : ℕ) → lookup j (delete k s.live) ≡ (if k == j then none else lookup j s.live)
  other_live j = lookup-delete 0 (bound s) s.live k j v.sound.outstanding

  dropped-IsValid :
      lookup k s.live ≡ none
      → IsValid (record s { pending = remove_order s.pending k; reservation = r; memory = memory })
  dropped-IsValid e = record {
    sound = record {
      ready = removed;
      outstanding = v.sound.outstanding;
      accounts = v.sound.accounts;
      bytes = v.sound.bytes;
      kept = λ j p. ground (arith, v.sound.kept j, given j, other_ready j, p);
      fresh = λ j l. ground (arith, v.sound.fresh j l, given j);
    };
    idle = λ j n f. ground (arith, v.idle j n f, other_ready j, e, f);
  }

  module _ (attempts : List Attempt) (stats : Stats) (found : lookup k s.live ≡ some attempts) where
    abbrev arrived : Scheduler
    arrived = record s {
      load = release_all s.load (size s k) attempts;
      live_bytes = if leb (size s k) s.live_bytes then s.live_bytes - size s k else 0;
      live = delete k s.live;
      stats = stats;
      pending = remove_order s.pending k;
      reservation = r;
      memory = memory;
    }

    arrived-IsValid : IsValid arrived
    arrived-IsValid = record {
      sound = record {
        ready = removed;
        outstanding = keys-delete 0 (bound s) s.live k v.sound.outstanding;
        accounts = λ c. Exact-delete (bound s) s.live k (
            release_all-Fits s.load (size s k) attempts _
              (Exact-Fits (bound s) s.live k attempts found (v.sound.accounts c)));
        bytes = λ c.
            ground
              (arith, v.sound.bytes c, weigh-lookup (λ j v_. size s j) s.live k attempts found);
        kept = λ j p. ground (arith, v.sound.kept j, given j, other_ready j, other_live j, p);
        fresh = λ j l. ground (arith, v.sound.fresh j l, given j);
      };
      idle = λ j n f. ground (arith, v.idle j n, other_ready j, other_live j, f);
    }

mark_written_full :
    (attempts : List Attempt) (lane id : ℕ)
    → (mark_written attempts lane id).1 ≡ true
    → is_empty (mark_written attempts lane id).0 ≡ false
unfolding mark_written
mark_written_full [] lane id e = cc
mark_written_full (a ∷ rest) lane id e = ground (arith, e)

released-ran :
    (s t : Scheduler) (k : ℕ) (o : Released)
    → with_memory (record s { reservation = update s.reservation k 0 }) o ≡ ran t
    → (r : ℕ → ℕ) × (memory : Option Budget) × ((j : ℕ)
        → r j ≡ (if k == j then 0 else s.reservation j))
      × (t ≡ record s { reservation = r; memory = memory })
unfolding with_memory
released-ran s t k (done memory) e =
    (update s.reservation k 0, memory, λ j. refl, ground (arith, e))
released-ran s t k Released.panicked e = cc

-- What the end of a call leaves behind.
pub release_chunk-ran :
    (s t : Scheduler) (k : ℕ)
    → release_chunk s k ≡ ran t
    → (r : ℕ → ℕ) × (memory : Option Budget) × ((j : ℕ)
        → r j ≡ (if k == j then 0 else s.reservation j))
      × (t ≡ record s { reservation = r; memory = memory })
unfolding release_chunk with_memory
release_chunk-ran s t k e = elim (Bool-cases (s.reservation k == 0)) [
  | inl z ↦ (s.reservation, s.memory, λ j. ground (arith, z), ground (arith, e, z))
  | inr z ↦ released-ran s t k (release s.memory (s.reservation k)) (ground (arith, e, z))
]

and_signal-ran :
    (o : Outcome) (s' : Scheduler)
    → and_signal o ≡ ran s'
    → (t : Scheduler) × (o ≡ ran t) × (s' ≡ signal_if_done t)
unfolding and_signal
and_signal-ran (ran t) s' e = (t, refl, ground (arith, e))
and_signal-ran Outcome.panicked s' e = cc

-- `Complete` leaves a well-formed scheduler.
pub complete-IsValid :
    (s s' : Scheduler) (lane k : ℕ) → IsValid s → complete s lane k ≡ ran s' → IsValid s'
unfolding complete
complete-IsValid s s' lane k v e = elim (Option-cases (lookup k s.live)) [
  | inr (attempts, f) ↦
      let (t, g, h) = and_signal-ran _ s' (rw (f, complete) at e) in
      let (r, memory, given, i) =
        release_chunk-ran (remove_pending (complete_live s lane k attempts) k) t k g in
      subst IsValid (sym h) (
        signal_if_done-IsValid t (
          subst IsValid (sym i) (
            unfold remove_pending complete_live in
            arrived-IsValid s k v r memory given attempts _ f)))
  | inl f ↦ elim (Bool-cases (pending_has s.pending k)) [
    | inr no_ ↦ subst IsValid (ground (arith, e, f, no_)) v
    | inl ready ↦
        let (t, g, h) = and_signal-ran _ s' (rw (f, complete, ready) at e) in
        let (r, memory, given, i) = release_chunk-ran (remove_pending s k) t k g in
        subst IsValid (sym h) (
          signal_if_done-IsValid t (
            subst IsValid (sym i)
              (unfold remove_pending in dropped-IsValid s k v r memory given f)))
  ]
]

-- `Fail`
pub fail-IsValid : (s : Scheduler) (lane k id : ℕ) → IsValid s → IsValid (fail s lane k id)
unfolding fail
fail-IsValid s lane k id v = elim (Option-cases (lookup k s.live)) [
  | inl e ↦ rw (e, fail) v
  | inr (attempts, e) ↦ elim (Option-cases (find_attempt attempts lane id)) [
    | inl f ↦ rw (e, fail, f) v
    | inr (a, f) ↦
        rw (e, fail, f)
          (requeue_if_idle-IsValid s k attempts (remove_attempt attempts lane id) _
            (count_failure s.stats) v.sound e
            (λ c.
              remove_attempt-Fits s.load (size s k) attempts lane id a _ f
                (Exact-Fits (bound s) s.live k attempts e (v.sound.accounts c)))
            v.idle)
  ]
]

pub retire_chunk-IsValid :
    (s : Scheduler) (lane k : ℕ) → IsValid s → IsValid (retire_chunk s lane k)
unfolding retire_chunk
retire_chunk-IsValid s lane k v = elim (Option-cases (lookup k s.live)) [
  | inl e ↦ rw (e, retire_chunk) v
  | inr (attempts, e) ↦ elim (Bool-cases (lane_has_attempt attempts lane)) [
    | inr no_ ↦ rw (e, retire_chunk, no_) v
    | inl has ↦
        rw (e, retire_chunk, has)
          (requeue_if_idle-IsValid s k attempts _ _ (count_failure s.stats) v.sound e
            (λ c.
              drop_lane_attempts-Fits s.load (size s k) attempts lane _
                (Exact-Fits (bound s) s.live k attempts e (v.sound.accounts c)))
            v.idle)
  ]
]

-- `Wrote`
pub wrote-IsValid : (s : Scheduler) (lane k id : ℕ) → IsValid s → IsValid (wrote s lane k id)
unfolding wrote
wrote-IsValid s lane k id v = elim (Option-cases (lookup k s.live)) [
  | inl e ↦ rw (e, wrote) v
  | inr (attempts, e) ↦ elim (Bool-cases (mark_written attempts lane id).1) [
    | inr no_ ↦ rw (e, wrote, no_) v
    | inl found ↦
        rw (e, wrote, found)
          (still-IsValid s k attempts (mark_written attempts lane id).0 _ s.stats v.sound e
            (λ c.
              mark_written-Fits s.load (size s k) attempts lane id _
                (Exact-Fits (bound s) s.live k attempts e (v.sound.accounts c)) found)
            (mark_written_full attempts lane id found) v.idle)
  ]
]
