-- ===== src/Stripe/Reissue.antt =====
-- Offering chunks again (queqiao/internal/stripe/stripe.go): on the receiver's evidence, and after
-- their deadlines.
use sing_quic.Prelude.{
  ℕ, ◌+◌, Bool, false, not, ◌&&◌, ◌||◌, none, some, List, [], ◌∷◌, ltb, leb, ◌==◌, if◌then◌else◌,
  length,
}
use sing_quic.SeqMap.{lookup, put}
use sing_quic.Stripe.{Attempt, Scheduler, Environment, Load, size}
use sing_quic.Stripe.Lanes.{release_lane}
use sing_quic.Stripe.Ready.{requeue, pending_has, is_empty}

-- The test of `retireUnreliableAttemptsLocked`; a zero deadline stands for the receiver's evidence.
unfoldable pub is_lost : Attempt → ℕ → Bool
is_lost a deadline =
    not a.reliable
    && (a.written && (deadline == 0 || (not (a.deadline == 0) && leb a.deadline deadline)))

-- Its loop, with the attempts that stay.
unfoldable pub retire_attempts : Load → ℕ → List Attempt → ℕ → Load × List Attempt
unfolding release_lane is_lost
retire_attempts load size [] deadline = (load, [])
retire_attempts load size (a ∷ rest) deadline =
    let (load', kept) =
      retire_attempts (if is_lost a deadline then release_lane load a.lane size false else load)
        size rest deadline in
    (load', if is_lost a deadline then kept else a ∷ kept)

-- `retireUnreliableAttemptsLocked` on the chunk at offset `k`. The code's result is whether it took
-- an attempt out; `kept` tells that by its length.
unfoldable pub retire_unreliable : Scheduler → ℕ → List Attempt → ℕ → Scheduler × List Attempt
unfolding retire_attempts
retire_unreliable s k attempts deadline =
    let (load', kept) = retire_attempts s.load (size s k) attempts deadline in
    (record s { live = put k kept s.live; load = load' }, kept)

unfoldable pub any_reliable : List Attempt → Bool
any_reliable [] = false
any_reliable (a ∷ rest) = a.reliable || any_reliable rest

-- The body of the loop of `ReissueUnacknowledgedBelow`, with the count so far
unfoldable pub reissue_below_one : Scheduler × ℕ → ℕ → ℕ → Scheduler × ℕ
unfolding retire_unreliable any_reliable requeue
reissue_below_one (s, reissued) offset k = elim (lookup k s.live) [
  | none ↦ (s, reissued)
  | some attempts ↦
      let (s', kept) = retire_unreliable s k attempts 0 in
      if ltb offset (k + size s k) || is_empty attempts
      then (s, reissued)
      else if pending_has s.pending k
      then (s, reissued)
      else if any_reliable kept
      then (s', reissued)
      else if not (is_empty kept)
      then (s', reissued)
      else (requeue s' k, reissued + 1)
]

-- `ReissueUnacknowledgedBelow`; `order` is the order in which the range over the Go map visits its
-- keys.
unfoldable pub reissue_below : Scheduler × ℕ → ℕ → List ℕ → Scheduler × ℕ
unfolding reissue_below_one
reissue_below r offset [] = r
reissue_below r offset (k ∷ ks) = reissue_below (reissue_below_one r offset k) offset ks

unfoldable pub any_expired : List Attempt → ℕ → Bool
any_expired [] now = false
any_expired (a ∷ rest) now = not (a.deadline == 0) && leb a.deadline now || any_expired rest now

-- Whether what the retirement left is to be offered again.
unfoldable pub is_candidate : List Attempt → List Attempt → ℕ → Bool
unfolding any_reliable any_expired
is_candidate attempts kept now =
    is_empty kept && not (length kept == length attempts)
    || any_expired kept now && (if any_reliable kept then leb (length kept) 1 else is_empty kept)

-- The body of the first loop of `ReissueExpired`, with the candidates so far
unfoldable pub collect_one : Scheduler × List ℕ → ℕ → ℕ → Scheduler × List ℕ
unfolding retire_unreliable is_candidate
collect_one (s, candidates) now k = elim (lookup k s.live) [
  | none ↦ (s, candidates)
  | some attempts ↦
      let (s', kept) = retire_unreliable s k attempts now in
      if is_empty attempts || pending_has s.pending k
      then (s, candidates)
      else (s', if is_candidate attempts kept now then k ∷ candidates else candidates)
]

unfoldable pub collect : Scheduler × List ℕ → ℕ → List ℕ → Scheduler × List ℕ
unfolding collect_one
collect r now [] = r
collect r now (k ∷ ks) = collect (collect_one r now k) now ks

-- `sort.Slice` of the candidates by their offsets, which differ.
unfoldable pub insert_sorted : ℕ → List ℕ → List ℕ
insert_sorted k [] = k ∷ []
insert_sorted k (j ∷ js) = if leb k j then k ∷ j ∷ js else j ∷ insert_sorted k js

unfoldable pub sort : List ℕ → List ℕ
unfolding insert_sorted
sort [] = []
sort (k ∷ ks) = insert_sorted k (sort ks)

-- `out.attempts[0].deadline = now.Add(after)`
unfoldable pub extend_first : List Attempt → ℕ → List Attempt
extend_first [] deadline = []
extend_first (a ∷ rest) deadline = record a { deadline = deadline } ∷ rest

abbrev pub first_reliable : List Attempt → Bool
first_reliable [] = false
first_reliable (a ∷ rest) = a.reliable

pub record Sweep : Type 0 where
  pub scheduler : Scheduler
  pub reissued : ℕ
  pub reliable_reissued : ℕ

-- The body of the second loop of `ReissueExpired`
unfoldable pub reissue_one : Sweep → Environment → ℕ → Sweep
unfolding extend_first requeue
reissue_one r env k = elim (lookup k r.scheduler.live) [
  | none ↦ r
  | some attempts ↦
      let burst = r.scheduler.config.reliable_reissue_burst in
      let counts = first_reliable attempts && ltb 0 burst in
      let extended = extend_first attempts (env.now + env.retransmit_after) in
      if counts && leb burst r.reliable_reissued then r else record {
        scheduler = requeue (record r.scheduler { live = put k extended r.scheduler.live }) k;
        reissued = r.reissued + 1;
        reliable_reissued = if counts then r.reliable_reissued + 1 else r.reliable_reissued;
      }
]

unfoldable pub reissue_each : Sweep → Environment → List ℕ → Sweep
unfolding reissue_one
reissue_each r env [] = r
reissue_each r env (k ∷ ks) = reissue_each (reissue_one r env k) env ks

-- `ReissueExpired`
unfoldable pub reissue_expired : Scheduler → Environment → List ℕ → Scheduler × ℕ
unfolding collect sort reissue_each
reissue_expired s env order =
    let (s', candidates) = collect (s, []) env.now order in
    let swept =
      reissue_each (record { scheduler = s'; reissued = 0; reliable_reissued = 0 }) env
        (sort candidates) in
    if env.retransmit_after == 0 then (s, 0) else (swept.scheduler, swept.reissued)
