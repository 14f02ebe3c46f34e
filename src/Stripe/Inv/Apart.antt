-- ===== src/Stripe/Inv/Apart.antt =====
-- What handing out, failing, writing and offering chunks leave alone
-- (queqiao/internal/stripe/stripe.go).
use sing_quic.Prelude.{
  ℕ, ◌+◌, ◌≡◌, refl, ap, ◌∙◌, Bool, not, ◌||◌, ◌&&◌, Option, List, [], ◌∷◌, ◌==◌, arith, Bool-cases,
  Option-cases, inl, inr, ltb, leb,
}
use sing_quic.SeqMap.{lookup, put}
use sing_quic.MemLimit.{Budget}
use sing_quic.Stripe.{Scheduler, Attempt, Environment, Chunk, Config, size}
use sing_quic.Stripe.Lanes.{lane_has_attempt, release_lane}
use sing_quic.Stripe.Ready.{requeue, pending_has, dispatch, next, issued, is_empty, is_done}
use sing_quic.Stripe.Finish.{
  fail, find_attempt, retire_chunk, retire_chunks, retire_lane, wrote, mark_written,
  requeue_if_idle, signal_if_done, remove_attempt, count_failure, drop_lane_attempts,
}
use sing_quic.Stripe.Reissue.{
  reissue_below_one, reissue_below, collect_one, collect, Sweep, reissue_one, reissue_each, sort,
  reissue_expired, retire_unreliable, extend_first, first_reliable,
}
use sing_quic.Stripe.Inv.Taken.{next-Taken}

-- The producer's side of the state.
pub record Side : Type 0 where
  pub config : Config
  pub reservation : ℕ → ℕ
  pub next_offset : ℕ
  pub memory : Option Budget
  pub eof : Bool
  pub closed : Bool

abbrev pub side : Scheduler → Side
side s = record {
  config = s.config;
  reservation = s.reservation;
  next_offset = s.next_offset;
  memory = s.memory;
  eof = s.eof;
  closed = s.closed;
}

abbrev pub Apart : Scheduler → Scheduler → Type 0
Apart s s' = side s' ≡ side s

requeue-Apart : (s : Scheduler) (k : ℕ) → Apart s (requeue s k)
unfolding requeue
requeue-Apart s k = elim (Bool-cases (pending_has s.pending k)) [
  | inl e ↦ rw e refl
  | inr e ↦ rw e refl
]

requeue_if_idle-Apart :
    (s : Scheduler) (k : ℕ) (attempts : List Attempt) → Apart s (requeue_if_idle s k attempts)
unfolding requeue_if_idle
requeue_if_idle-Apart s k [] = requeue-Apart s k
requeue_if_idle-Apart s k (a ∷ rest) = refl

pub signal_if_done-Apart : (s : Scheduler) → Apart s (signal_if_done s)
unfolding signal_if_done
signal_if_done-Apart s = elim (Bool-cases (is_done s)) [ inl e ↦ rw e refl | inr e ↦ rw e refl ]

pub next-Apart :
    (s : Scheduler) (env : Environment) (is_cancelled : Bool) (lane window_bytes : ℕ)
    (chunk : Chunk) (s' : Scheduler)
    → next s env is_cancelled lane window_bytes ≡ issued chunk s'
    → Apart s s'
unfolding dispatch
next-Apart s env is_cancelled lane window_bytes chunk s' e =
    let t = next-Taken s env is_cancelled lane window_bytes chunk s' e in
    ap (λ (r : Chunk × Scheduler). side r.1) t.result

pub fail-Apart : (s : Scheduler) (lane k id : ℕ) → Apart s (fail s lane k id)
unfolding fail
fail-Apart s lane k id = elim (Option-cases (lookup k s.live)) [
  | inl e ↦ rw (e, fail) refl
  | inr (attempts, e) ↦ elim (Option-cases (find_attempt attempts lane id)) [
    | inl f ↦ rw (e, fail, f) refl
    | inr (a, f) ↦
        let kept = remove_attempt attempts lane id in
        rw (e, fail, f)
          (requeue_if_idle-Apart
            (record s {
              live = put k kept s.live;
              load = release_lane s.load a.lane (size s k) (not a.written);
              stats = count_failure s.stats;
            })
            k kept)
  ]
]

retire_chunk-Apart : (s : Scheduler) (lane k : ℕ) → Apart s (retire_chunk s lane k)
unfolding retire_chunk
retire_chunk-Apart s lane k = elim (Option-cases (lookup k s.live)) [
  | inl e ↦ rw (e, retire_chunk) refl
  | inr (attempts, e) ↦ elim (Bool-cases (lane_has_attempt attempts lane)) [
    | inr f ↦ rw (e, retire_chunk, f) refl
    | inl f ↦
        let (load', kept) = drop_lane_attempts s.load (size s k) attempts lane in
        rw (e, retire_chunk, f)
          (requeue_if_idle-Apart
            (record s { live = put k kept s.live; load = load'; stats = count_failure s.stats }) k
            kept)
  ]
]

retire_chunks-Apart :
    (s : Scheduler) (lane : ℕ) (order : List ℕ) → Apart s (retire_chunks s lane order)
unfolding retire_chunks
retire_chunks-Apart s lane [] = refl
retire_chunks-Apart s lane (k ∷ ks) =
    retire_chunks-Apart (retire_chunk s lane k) lane ks ∙ retire_chunk-Apart s lane k

pub retire_lane-Apart :
    (s : Scheduler) (lane : ℕ) (order : List ℕ) → Apart s (retire_lane s lane order)
unfolding retire_lane
retire_lane-Apart s lane order = retire_chunks-Apart s lane order

pub wrote-Apart : (s : Scheduler) (lane k id : ℕ) → Apart s (wrote s lane k id)
unfolding wrote
wrote-Apart s lane k id = elim (Option-cases (lookup k s.live)) [
  | inl e ↦ rw (e, wrote) refl
  | inr (attempts, e) ↦ elim (Bool-cases (mark_written attempts lane id).1) [
    | inr f ↦ rw (e, wrote, f) refl
    | inl f ↦ rw (e, wrote, f) refl
  ]
]

reissue_below_one-Apart :
    (s : Scheduler) (n offset k : ℕ) → Apart s (reissue_below_one (s, n) offset k).0
unfolding reissue_below_one retire_unreliable
reissue_below_one-Apart s n offset k = elim (Option-cases (lookup k s.live)) [
  | inl e ↦ rw (e, reissue_below_one) refl
  | inr (attempts, e) ↦
      let late = ltb offset (k + size s k) || is_empty attempts in
      let (s', kept) = retire_unreliable s k attempts 0 in ground (arith, e, requeue-Apart s' k)
]

pub reissue_below-Apart :
    (s : Scheduler) (n offset : ℕ) (order : List ℕ) → Apart s (reissue_below (s, n) offset order).0
unfolding reissue_below
reissue_below-Apart s n offset [] = refl
reissue_below-Apart s n offset (k ∷ ks) =
    let (s', n') = reissue_below_one (s, n) offset k in
    reissue_below-Apart s' n' offset ks ∙ reissue_below_one-Apart s n offset k

collect_one-Apart :
    (s : Scheduler) (cs : List ℕ) (now k : ℕ) → Apart s (collect_one (s, cs) now k).0
unfolding collect_one retire_unreliable
collect_one-Apart s cs now k = elim (Option-cases (lookup k s.live)) [
  | inl e ↦ rw (e, collect_one) refl
  | inr (attempts, e) ↦ elim (Bool-cases (is_empty attempts || pending_has s.pending k)) [
    | inl f ↦ rw (e, collect_one, f) refl
    | inr f ↦ rw (e, collect_one, f) refl
  ]
]

collect-Apart :
    (s : Scheduler) (cs : List ℕ) (now : ℕ) (order : List ℕ) → Apart s (collect (s, cs) now order).0
unfolding collect
collect-Apart s cs now [] = refl
collect-Apart s cs now (k ∷ ks) =
    let (s', cs') = collect_one (s, cs) now k in
    collect-Apart s' cs' now ks ∙ collect_one-Apart s cs now k

reissue_one-Apart :
    (r : Sweep) (env : Environment) (k : ℕ) → Apart r.scheduler (reissue_one r env k).scheduler
unfolding reissue_one
reissue_one-Apart r env k = elim (Option-cases (lookup k r.scheduler.live)) [
  | inl e ↦ rw (e, reissue_one) refl
  | inr (attempts, e) ↦
      let extended = extend_first attempts (env.now + env.retransmit_after) in
      let burst = r.scheduler.config.reliable_reissue_burst in
      let again : Scheduler = record r.scheduler { live = put k extended r.scheduler.live } in
      elim (Bool-cases (first_reliable attempts && ltb 0 burst && leb burst r.reliable_reissued)) [
        | inl f ↦ rw (e, reissue_one, f) refl
        | inr f ↦ rw (e, reissue_one, f) (requeue-Apart again k)
      ]
]

reissue_each-Apart :
    (r : Sweep) (env : Environment) (ks : List ℕ)
    → Apart r.scheduler (reissue_each r env ks).scheduler
unfolding reissue_each
reissue_each-Apart r env [] = refl
reissue_each-Apart r env (k ∷ ks) =
    reissue_each-Apart (reissue_one r env k) env ks ∙ reissue_one-Apart r env k

pub reissue_expired-Apart :
    (s : Scheduler) (env : Environment) (order : List ℕ) → Apart s (reissue_expired s env order).0
unfolding reissue_expired
reissue_expired-Apart s env order =
    let (s', candidates) = collect (s, []) env.now order in
    let swept =
      reissue_each-Apart (record { scheduler = s'; reissued = 0; reliable_reissued = 0 }) env
        (sort candidates)
      ∙ collect-Apart s [] env.now order in
    elim (Bool-cases (env.retransmit_after == 0)) [ inl off ↦ rw off refl | inr on_ ↦ rw on_ swept ]
