-- ===== src/Stripe/Inv/Retired.antt =====
-- A lane that died carries nothing afterwards (queqiao/internal/stripe/stripe.go).
use sing_quic.Prelude.{
  ℕ, suc, ◌≡◌, refl, false, not, none, List, [], ◌∷◌, ◌==◌, arith, Bool-cases, Option-cases, inl,
  inr, sum_by,
}
use sing_quic.SeqMap.{lookup, put, keys}
use sing_quic.SeqMap.Laws.{lookup-put}
use sing_quic.Stripe.{Scheduler, Attempt, Load, size}
use sing_quic.Stripe.Lanes.{lane_has_attempt, release_lane}
use sing_quic.Stripe.Ready.{attempts_of}
use sing_quic.Stripe.Finish.{
  retire_chunk, retire_chunks, retire_lane, forget_lane, drop_lane_attempts, requeue_if_idle,
  count_failure,
}
use sing_quic.Stripe.Keys.{holds, Between}
use sing_quic.Stripe.Outstanding.{weigh, lookup_below}
use sing_quic.Stripe.Exact.{Exact}
use sing_quic.Stripe.Accounts.{chunks_on, bytes_on, queued_on}
use sing_quic.Stripe.Inv.{IsValid, bound, requeue-live}
use sing_quic.Stripe.Inv.Finished.{retire_chunk-IsValid}

-- The lane has no attempt at the chunk.
abbrev pub IsClear : Scheduler → ℕ → ℕ → Type 0
IsClear s lane k = lane_has_attempt (attempts_of (lookup k s.live)) lane ≡ false

drop_lane_attempts_clear :
    (load : Load) (n : ℕ) (attempts : List Attempt) (lane : ℕ)
    → lane_has_attempt (drop_lane_attempts load n attempts lane).1 lane ≡ false
unfolding drop_lane_attempts lane_has_attempt
drop_lane_attempts_clear load n [] lane = refl
drop_lane_attempts_clear load n (a ∷ rest) lane = elim (Bool-cases (a.lane == lane)) [
  | inl e ↦ rw e (drop_lane_attempts_clear (release_lane load a.lane n (not a.written)) n rest lane)
  | inr e ↦ rw (e, e) (drop_lane_attempts_clear load n rest lane)
]

requeue_if_idle-live :
    (s : Scheduler) (k : ℕ) (attempts : List Attempt) → (requeue_if_idle s k attempts).live ≡ s.live
unfolding requeue_if_idle
requeue_if_idle-live s k attempts = ground (arith, requeue-live s k)

has_none : (lane : ℕ) → lane_has_attempt [] lane ≡ false
unfolding lane_has_attempt
has_none lane = refl

-- The chunk that was visited is clear, and no other changes.
retire_chunk-IsClear :
    (s : Scheduler) (lane k j : ℕ)
    → ((k == j) ≡ false → IsClear s lane j)
    → IsClear (retire_chunk s lane k) lane j
unfolding retire_chunk
retire_chunk-IsClear s lane k j h = elim (Option-cases (lookup k s.live)) [
  | inl e ↦ rw (e, retire_chunk) (ground (arith, e, h, has_none lane))
  | inr (attempts, e) ↦ elim (Bool-cases (lane_has_attempt attempts lane)) [
    | inr no_ ↦ rw (e, retire_chunk, no_) (ground (arith, e, h, no_))
    | inl has ↦
        let (load', kept) = drop_lane_attempts s.load (size s k) attempts lane in
        let changed : Scheduler = record s {
          live = put k kept s.live;
          load = load';
          stats = count_failure s.stats;
        } in
        rw (e, retire_chunk, has, requeue_if_idle-live changed k kept, lookup-put k j kept s.live)
          (ground (arith, h, drop_lane_attempts_clear s.load (size s k) attempts lane))
  ]
]

retire_chunks-IsClear :
    (s : Scheduler) (lane : ℕ) (order : List ℕ) (j : ℕ)
    → (holds order j ≡ false → IsClear s lane j)
    → IsClear (retire_chunks s lane order) lane j
unfolding retire_chunks holds
retire_chunks-IsClear s lane [] j h = h refl
retire_chunks-IsClear s lane (k ∷ ks) j h =
    retire_chunks-IsClear (retire_chunk s lane k) lane ks j
      λ other. retire_chunk-IsClear s lane k j λ differs. h (ground (arith, other, differs))

retire_chunks-IsValid :
    (s : Scheduler) (lane : ℕ) (order : List ℕ) → IsValid s → IsValid (retire_chunks s lane order)
unfolding retire_chunks
retire_chunks-IsValid s lane [] v = v
retire_chunks-IsValid s lane (k ∷ ks) v =
    retire_chunks-IsValid (retire_chunk s lane k) lane ks (retire_chunk-IsValid s lane k v)

-- A sum over attempts of which none is on the lane.
clear_sum :
    (f : Attempt → ℕ) (lane : ℕ) (attempts : List Attempt)
    → ((a : Attempt) → (a.lane == lane) ≡ false → f a ≡ 0)
    → lane_has_attempt attempts lane ≡ false
    → sum_by f attempts ≡ 0
unfolding lane_has_attempt
clear_sum f lane [] z e = refl
clear_sum f lane (a ∷ rest) z e = ground (arith, e, z a, clear_sum f lane rest z)

clear_weigh :
    (g : ℕ → List Attempt → ℕ) (n b lane : ℕ) (live : List (ℕ × List Attempt))
    → Between n b (keys live)
    → ((k : ℕ) (attempts : List Attempt)
        → lane_has_attempt attempts lane ≡ false
        → g k attempts ≡ 0)
    → ((k : ℕ) → lane_has_attempt (attempts_of (lookup k live)) lane ≡ false)
    → weigh g live ≡ 0
unfolding lookup keys
clear_weigh g n b lane [] h z c = refl
clear_weigh g n b lane ((k, attempts) ∷ live) h z c = omega (
  arith,
  z k attempts (ground (arith, c k)),
  clear_weigh g (suc k) b lane live h.1 z
      λ j. ground (arith, c j, lookup_below (suc k) b live j h.1, has_none lane),
)

forget_lane-Exact :
    (s : Scheduler) (lane : ℕ)
    → Between 0 (bound s) (keys s.live)
    → ((k : ℕ) → IsClear s lane k)
    → Exact s.load (size s) s.live
    → Exact (forget_lane s.load lane) (size s) s.live
unfolding forget_lane
forget_lane-Exact s lane h c x =
    let none_here =
      λ (g : ℕ → ℕ → Attempt → ℕ)
          (z : (k : ℕ) (a : Attempt) → (a.lane == lane) ≡ false → g lane k a ≡ 0).
        clear_weigh (λ k v. sum_by (g lane k) v) 0 (bound s) lane s.live h
          (λ k v e. clear_sum (g lane k) lane v (z k) e) c in
    record {
      chunks = λ l.
          ground (arith, x.chunks l, none_here (λ l k. chunks_on l) (λ k a e. ground (arith, e)));
      bytes = λ l.
          ground (
            arith,
            x.bytes l,
            none_here (λ l k. bytes_on l (size s k)) (λ k a e. ground (arith, e)),
          );
      queued = λ l. ground (
        arith,
        x.queued l,
        none_here (λ l k. queued_on l (size s k)) (λ k a e. ground (arith, e)),
      );
      total = x.total;
    }

-- `RetireLane`, whose range visits every outstanding chunk, leaves a well-formed scheduler in which
-- no attempt is on the lane.
pub retire_lane-IsValid :
    (s : Scheduler) (lane : ℕ) (order : List ℕ)
    → ((k : ℕ) → holds order k ≡ false → lookup k s.live ≡ none)
    → IsValid s
    → IsValid (retire_lane s lane order) × ((k : ℕ) → IsClear (retire_lane s lane order) lane k)
unfolding retire_lane
retire_lane-IsValid s lane order all v =
    let w = retire_chunks-IsValid s lane order v in
    let c = λ (k : ℕ). retire_chunks-IsClear s lane order k (λ e. rw (all k e) (has_none lane)) in
    (
      record {
        sound = record {
          ready = w.sound.ready;
          outstanding = w.sound.outstanding;
          accounts = λ e.
              forget_lane-Exact (retire_chunks s lane order) lane w.sound.outstanding c
                (w.sound.accounts e);
          bytes = w.sound.bytes;
          kept = w.sound.kept;
          fresh = w.sound.fresh;
        };
        idle = w.idle;
      },
      c,
    )
