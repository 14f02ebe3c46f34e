-- ===== src/Stripe/Inv/Taken.antt =====
-- What `takeReadyLocked` hands out, and what it leaves (queqiao/internal/stripe/stripe.go).
use sing_quic.Prelude.{
  ℕ, ◌+◌, ◌<◌, ◌≡◌, refl, sym, ap, subst, Bool, true, false, not, ◌&&◌, ◌||◌, some, List, [], ◌∷◌,
  ◌++◌, ◌==◌, if◌then◌else◌, arith, Bool-cases, inl, inr, All, append_assoc, All-append, ◌∙◌,
  Option-cases,
}
use sing_quic.SeqMap.{lookup, put, delete}
use sing_quic.SeqMap.Laws.{lookup-put}
use sing_quic.Stripe.{Scheduler, Attempt, Environment, Chunk, size}
use sing_quic.Stripe.Lanes.{has_room, lane_has_reliable_attempt}
use sing_quic.Stripe.Ready.{dispatch, take_from, take_ready, attempts_of, is_none, next, issued}
use sing_quic.Stripe.Keys.{holds, Between, Between-split, holds-split, holds-Between}
use sing_quic.Stripe.Outstanding.{weigh, weigh-put, weigh-lookup, weigh_missing, keys-put}
use sing_quic.Stripe.Exact.{sums, Exact-put, Exact-Fits, Exact_missing}
use sing_quic.Stripe.Accounts.{Fits, charge-Fits}
use sing_quic.Stripe.Inv.{IsValid, bound}

module _ (s : Scheduler) (env : Environment) (lane window_bytes : ℕ) where
  abbrev Carries : ℕ → Type 0
  Carries j = lane_has_reliable_attempt (attempts_of (lookup j s.live)) lane ≡ true

  -- The chunk that is handed out: it is the first that the lane does not carry reliably.
  pub record Taken (r : Chunk × Scheduler) : Type 0 where
    pub offset : ℕ
    pub before : List ℕ
    pub after : List ℕ
    pub split : s.pending ≡ before ++ (offset ∷ after)
    pub passed : All Carries before
    pub admitted : (has_room s env lane window_bytes (size s offset) || s.urgent offset) ≡ true
    pub alone : lane_has_reliable_attempt (attempts_of (lookup offset s.live)) lane ≡ false
    pub result : r ≡ dispatch s env lane offset (before ++ after)

  take_from-Taken :
      (before ks : List ℕ) (r : Chunk × Scheduler)
      → s.pending ≡ before ++ ks
      → All Carries before
      → take_from s env lane window_bytes before ks ≡ some r
      → Taken r
  unfolding take_from
  take_from-Taken before [] r p a e = cc
  take_from-Taken before (k ∷ ks) r p a e =
      elim (Bool-cases (not (has_room s env lane window_bytes (size s k)) && not (s.urgent k))) [
        | inl full ↦ absurd (ground (arith, e, full))
        | inr room ↦
            elim (Bool-cases (lane_has_reliable_attempt (attempts_of (lookup k s.live)) lane)) [
              | inl carried ↦
                  take_from-Taken (before ++ (k ∷ [])) ks r
                    (p ∙ sym (append_assoc before (k ∷ []) ks))
                    (All-append Carries before (k ∷ []) a (carried, tt))
                    (ground (arith, e, room, carried))
              | inr free ↦ record {
                offset = k;
                before = before;
                after = ks;
                split = p;
                passed = a;
                admitted = ground (arith, room);
                alone = free;
                result = ground (arith, e, room, free);
              }
            ]
      ]

  pub take_ready-Taken :
      (r : Chunk × Scheduler) → take_ready s env lane window_bytes ≡ some r → Taken r
  unfolding take_ready
  take_ready-Taken r e = take_from-Taken [] s.pending r refl tt e

-- What a round of `Next` hands out is the first ready chunk that the lane does not carry reliably;
-- the lane has room for it or it is urgent; and the state left is that of its dispatch, with the
-- other ready chunks in their order.
pub next-Taken :
    (s : Scheduler) (env : Environment) (is_cancelled : Bool) (lane window_bytes : ℕ)
    (chunk : Chunk) (s' : Scheduler)
    → next s env is_cancelled lane window_bytes ≡ issued chunk s'
    → Taken s env lane window_bytes (chunk, s')
unfolding next
next-Taken s env is_cancelled lane window_bytes chunk s' e =
    take_ready-Taken s env lane window_bytes (chunk, s') (ground (arith, e))

snoc-ne-nil : (xs : List Attempt) (a : Attempt) → xs ++ (a ∷ []) ≡ [] → ⊥
snoc-ne-nil [] a e = cc
snoc-ne-nil (x ∷ xs) a e = cc

-- A ready chunk that goes to a lane.
module _ (s : Scheduler) (env : Environment) (lane k : ℕ) (before after : List ℕ) (v : IsValid s)
    (split : s.pending ≡ before ++ (k ∷ after)) where
  abbrev attempts : List Attempt
  attempts = attempts_of (lookup k s.live)

  in_ready : (j : ℕ) → holds s.pending j ≡ (k == j || holds (before ++ after) j)
  in_ready j = rw split (holds-split before after k j)

  ready_below : k < bound s
  unfolding holds
  ready_below = (holds-Between 0 (bound s) s.pending k v.sound.ready (ground (arith, in_ready k))).1

  fits_now : s.closed ≡ false → Fits s.load (size s k) attempts (sums (size s) (delete k s.live))
  fits_now c = elim (Option-cases (lookup k s.live)) [
    | inl e ↦ rw e (Exact_missing (bound s) s.live k e (v.sound.accounts c))
    | inr (found, e) ↦ rw e (Exact-Fits (bound s) s.live k found e (v.sound.accounts c))
  ]

  bytes_now :
      s.closed ≡ false
      → (if is_none (lookup k s.live) then s.live_bytes + size s k else s.live_bytes)
        ≡ size s k + weigh (λ j as_. size s j) (delete k s.live)
  bytes_now c = elim (Option-cases (lookup k s.live)) [
    | inl e ↦ rw e (omega (arith, v.sound.bytes c, weigh_missing (λ j as_. size s j) s.live k e))
    | inr (found, e) ↦
        rw e (omega (arith, v.sound.bytes c, weigh-lookup (λ j as_. size s j) s.live k found e))
  ]

  kept_now :
      (w : List Attempt) (j : ℕ)
      → 0 < s.reservation j
      → (holds (before ++ after) j || not (is_none (lookup j (put k w s.live)))) ≡ true
  kept_now w j p = ground (arith, v.sound.kept j p, in_ready j, lookup-put k j w s.live)

  idle_now :
      (xs : List Attempt) (a : Attempt) (j : ℕ)
      → lookup j (put k (xs ++ (a ∷ [])) s.live) ≡ some []
      → holds (before ++ after) j ≡ true
  idle_now xs a j e = ground (
    arith,
    e,
    v.idle j refl,
    in_ready j,
    lookup-put k j (xs ++ (a ∷ [])) s.live,
    snoc-ne-nil xs a,
  )

  pub dispatch-IsValid : IsValid (dispatch s env lane k (before ++ after)).1
  unfolding dispatch
  dispatch-IsValid =
      let out = v.sound.outstanding in
      record {
        sound = record {
          ready =
              Between-split 0 (bound s) before after k
                (subst (Between 0 (bound s)) split v.sound.ready);
          outstanding = keys-put 0 (bound s) s.live k _ (omega arith) ready_below out;
          accounts = λ c. Exact-put (bound s) s.live k _ out (
              charge-Fits s.load (size s k) attempts _ (sums (size s) (delete k s.live)) refl
                (fits_now c));
          bytes = λ c. bytes_now c ∙ sym (weigh-put (λ j as_. size s j) 0 (bound s) s.live k _ out);
          kept = kept_now _;
          fresh = v.sound.fresh;
        };
        idle = λ j n e. idle_now attempts _ j e;
      }

-- Whatever `Next` hands out, the scheduler it leaves is well formed.
pub next-IsValid :
    (s : Scheduler) (env : Environment) (is_cancelled : Bool) (lane window_bytes : ℕ)
    (chunk : Chunk) (s' : Scheduler)
    → IsValid s
    → next s env is_cancelled lane window_bytes ≡ issued chunk s'
    → IsValid s'
next-IsValid s env is_cancelled lane window_bytes chunk s' v e =
    let t = next-Taken s env is_cancelled lane window_bytes chunk s' e in
    subst IsValid (ap (λ (r : Chunk × Scheduler). r.1) (sym t.result))
      (dispatch-IsValid s env lane t.offset t.before t.after v t.split)
