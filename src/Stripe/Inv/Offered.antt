-- ===== src/Stripe/Inv/Offered.antt =====
-- Chunks that are offered again (queqiao/internal/stripe/stripe.go).
use sing_quic.Prelude.{
  ℕ, ◌+◌, ◌≡◌, refl, sym, subst, Bool, true, false, ◌&&◌, ◌||◌, some, List, [], ◌∷◌, ◌==◌, arith,
  Bool-cases, Option-cases, inl, inr, leb, ltb, ◌∙◌,
}
use sing_quic.SeqMap.{lookup, delete}
use sing_quic.Stripe.{Scheduler, Attempt, Environment, size}
use sing_quic.Stripe.Ready.{requeue, pending_has, is_empty}
use sing_quic.Stripe.Reissue.{
  retire_attempts, retire_unreliable, any_reliable, reissue_below_one, reissue_below, collect_one,
  collect, is_candidate, any_expired, insert_sorted, sort, extend_first, first_reliable, Sweep,
  reissue_one, reissue_each, reissue_expired,
}
use sing_quic.Stripe.Keys.{holds}
use sing_quic.Stripe.Exact.{sums, Exact-Fits}
use sing_quic.Stripe.Accounts.{Fits, retire_attempts-Fits, extend_first-Fits}
use sing_quic.Stripe.Inv.{
  IsSound, IsIdle, IsValid, bound, nowhere, still-IsValid, offered-IsValid, still, replaced-IsSound,
  replaced-IsIdle, offered-IsSound, offered-IsIdle,
}

-- Some attempts retired, and the accounts that fit the others.
module _ (s : Scheduler) (k deadline : ℕ) (attempts : List Attempt) (v : IsSound s)
    (found : lookup k s.live ≡ some attempts) where
  retired_fits :
      s.closed ≡ false
      → let (load', kept) = retire_attempts s.load (size s k) attempts deadline in
        Fits load' (size s k) kept (sums (size s) (delete k s.live))
  retired_fits c =
      retire_attempts-Fits s.load (size s k) attempts deadline _
        (Exact-Fits (bound s) s.live k attempts found (v.accounts c))

any_reliable_full :
    (attempts : List Attempt) → any_reliable attempts ≡ true → is_empty attempts ≡ false
unfolding any_reliable
any_reliable_full [] e = cc
any_reliable_full (a ∷ rest) e = refl

reissue_below_one_again :
    (s : Scheduler) (n offset k : ℕ) (attempts : List Attempt)
    → lookup k s.live ≡ some attempts
    → (ltb offset (k + size s k) || is_empty attempts) ≡ false
    → pending_has s.pending k ≡ false
    → any_reliable (retire_unreliable s k attempts 0).1 ≡ false
    → is_empty (retire_unreliable s k attempts 0).1 ≡ true
    → requeue (retire_unreliable s k attempts 0).0 k ≡ (reissue_below_one (s, n) offset k).0
unfolding reissue_below_one
reissue_below_one_again s n offset k attempts e early gone lost empty =
    ground (arith, e, early, gone, lost, empty)

reissue_below_one-IsValid :
    (s : Scheduler) (n offset k : ℕ) → IsValid s → IsValid (reissue_below_one (s, n) offset k).0
unfolding reissue_below_one retire_unreliable
reissue_below_one-IsValid s n offset k v = elim (Option-cases (lookup k s.live)) [
  | inl e ↦ rw (e, reissue_below_one) v
  | inr (attempts, e) ↦ elim (Bool-cases (ltb offset (k + size s k) || is_empty attempts)) [
    | inl late ↦ rw (e, reissue_below_one, late) v
    | inr early ↦ elim (Bool-cases (pending_has s.pending k)) [
      | inl ready ↦ rw (e, reissue_below_one, early, ready) v
      | inr gone ↦
          let (load', kept) = retire_attempts s.load (size s k) attempts 0 in
          let fits = retired_fits s k 0 attempts v.sound e in
          elim (Bool-cases (any_reliable kept)) [
            | inl reliable ↦
                rw (e, reissue_below_one, early, gone, reliable)
                  (still-IsValid s k attempts kept load' s.stats v.sound e fits
                    (any_reliable_full kept reliable) v.idle)
            | inr lost ↦ elim (Bool-cases (is_empty kept)) [
              | inr full ↦
                  rw (e, reissue_below_one, early, gone, lost, full)
                    (still-IsValid s k attempts kept load' s.stats v.sound e fits full v.idle)
              | inl empty ↦
                  subst IsValid
                    (reissue_below_one_again s n offset k attempts e early gone lost empty)
                    (offered-IsValid s k attempts kept load' s.stats v.sound e fits v.idle)
            ]
          ]
    ]
  ]
]

-- `ReissueUnacknowledgedBelow` leaves a well-formed scheduler.
pub reissue_below-IsValid :
    (s : Scheduler) (n offset : ℕ) (order : List ℕ)
    → IsValid s
    → IsValid (reissue_below (s, n) offset order).0
unfolding reissue_below
reissue_below-IsValid s n offset [] v = v
reissue_below-IsValid s n offset (k ∷ ks) v =
    let (s', n') = reissue_below_one (s, n) offset k in
    reissue_below-IsValid s' n' offset ks (reissue_below_one-IsValid s n offset k v)

-- A scheduler on the way through `ReissueExpired`: only chunks of `except` may be idle.
pub record IsSwept (s : Scheduler) (except : ℕ → Bool) : Type 0 where
  pub sound : IsSound s
  pub idle : IsIdle s except

not_candidate_full :
    (attempts kept : List Attempt) (now : ℕ)
    → is_empty attempts ≡ false
    → is_candidate attempts kept now ≡ false
    → is_empty kept ≡ false
unfolding is_candidate any_expired any_reliable
not_candidate_full [] kept now e c = cc
not_candidate_full (a ∷ rest) [] now e c = ground (arith, c)
not_candidate_full (a ∷ rest) (b ∷ kept) now e c = refl

collect_one-IsSwept :
    (s : Scheduler) (cs : List ℕ) (now k : ℕ)
    → IsSwept s (holds cs)
    → let (s', cs') = collect_one (s, cs) now k in IsSwept s' (holds cs')
unfolding collect_one retire_unreliable holds
collect_one-IsSwept s cs now k v = elim (Option-cases (lookup k s.live)) [
  | inl e ↦ rw (e, collect_one) v
  | inr (attempts, e) ↦ elim (Bool-cases (is_empty attempts || pending_has s.pending k)) [
    | inl skip ↦ rw (e, collect_one, skip) v
    | inr take_ ↦
        let (load', kept) = retire_attempts s.load (size s k) attempts now in
        let fits = retired_fits s k now attempts v.sound e in
        elim (Bool-cases (is_candidate attempts kept now)) [
          | inl candidate ↦
              rw (e, collect_one, take_, candidate)
                (record {
                  sound = replaced-IsSound s k attempts kept load' s.stats v.sound e fits;
                  idle =
                      replaced-IsIdle s k attempts kept load' s.stats v.sound e fits (holds cs)
                        v.idle;
                })
          | inr other ↦
              rw (e, collect_one, take_, other)
                (record {
                  sound = replaced-IsSound s k attempts kept load' s.stats v.sound e fits;
                  idle =
                      still s k attempts kept load' s.stats v.sound e fits (holds cs)
                        (not_candidate_full attempts kept now (ground (arith, take_)) other) v.idle;
                })
        ]
  ]
]

collect-IsSwept :
    (s : Scheduler) (cs : List ℕ) (now : ℕ) (order : List ℕ)
    → IsSwept s (holds cs)
    → let (s', cs') = collect (s, cs) now order in IsSwept s' (holds cs')
unfolding collect
collect-IsSwept s cs now [] v = v
collect-IsSwept s cs now (k ∷ ks) v =
    let (s', cs') = collect_one (s, cs) now k in
    collect-IsSwept s' cs' now ks (collect_one-IsSwept s cs now k v)

holds-insert_sorted :
    (k : ℕ) (ks : List ℕ) (j : ℕ) → holds (insert_sorted k ks) j ≡ (k == j || holds ks j)
unfolding insert_sorted holds
holds-insert_sorted k [] j = refl
holds-insert_sorted k (i ∷ ks) j = ground (arith, holds-insert_sorted k ks j)

holds-sort : (ks : List ℕ) (j : ℕ) → holds (sort ks) j ≡ holds ks j
unfolding sort holds
holds-sort [] j = refl
holds-sort (k ∷ ks) j = ground (arith, holds-insert_sorted k (sort ks) j, holds-sort ks j)

first_reliable_full :
    (attempts : List Attempt) → first_reliable attempts ≡ true → is_empty attempts ≡ false
first_reliable_full [] e = cc
first_reliable_full (a ∷ rest) e = refl

reissue_one-IsSwept :
    (r : Sweep) (env : Environment) (k : ℕ) (except : ℕ → Bool)
    → IsSwept r.scheduler (λ j. k == j || except j)
    → IsSwept (reissue_one r env k).scheduler except
unfolding reissue_one
reissue_one-IsSwept r env k except v =
    let s = r.scheduler in
    let burst = s.config.reliable_reissue_burst in
    elim (Option-cases (lookup k s.live)) [
      | inl e ↦
          rw (e, reissue_one)
            (record { sound = v.sound; idle = λ j n f. ground (arith, v.idle j, n, f, e) })
      | inr (attempts, e) ↦
          elim (Bool-cases
            (first_reliable attempts && ltb 0 burst && leb burst r.reliable_reissued)) [
              | inl skip ↦
                  rw (e, reissue_one, skip)
                    (record {
                      sound = v.sound;
                      idle = λ j n f.
                          ground (arith, v.idle j, n, f, e, skip, first_reliable_full attempts);
                    })
              | inr again ↦
                  let extended = extend_first attempts (env.now + env.retransmit_after) in
                  let fits = λ (c : s.closed ≡ false).
                    extend_first-Fits s.load (size s k) attempts (env.now + env.retransmit_after) _
                      (Exact-Fits (bound s) s.live k attempts e (v.sound.accounts c)) in
                  rw (e, reissue_one, again)
                    (record {
                      sound = offered-IsSound s k attempts extended s.load s.stats v.sound e fits;
                      idle =
                          offered-IsIdle s k attempts extended s.load s.stats v.sound e fits except
                            λ j n.
                              replaced-IsIdle s k attempts extended s.load s.stats v.sound e fits
                                (λ j. k == j || except j) v.idle j (ground (arith, n));
                    })
            ]
    ]

reissue_each-IsSwept :
    (r : Sweep) (env : Environment) (ks : List ℕ)
    → IsSwept r.scheduler (holds ks)
    → IsSwept (reissue_each r env ks).scheduler nowhere
unfolding reissue_each holds
reissue_each-IsSwept r env [] v = v
reissue_each-IsSwept r env (k ∷ ks) v =
    reissue_each-IsSwept (reissue_one r env k) env ks (reissue_one-IsSwept r env k (holds ks) v)

-- `ReissueExpired` leaves a well-formed scheduler.
pub reissue_expired-IsValid :
    (s : Scheduler) (env : Environment) (order : List ℕ)
    → IsValid s
    → IsValid (reissue_expired s env order).0
unfolding reissue_expired
reissue_expired-IsValid s env order v =
    let start : IsSwept s (holds []) = record { sound = v.sound; idle = unfold holds in v.idle } in
    let (s', candidates) = collect (s, []) env.now order in
    let c = collect-IsSwept s [] env.now order start in
    let swept =
      reissue_each-IsSwept (record { scheduler = s'; reissued = 0; reliable_reissued = 0 }) env
        (sort candidates)
        (record { sound = c.sound; idle = λ j n. c.idle j (sym (holds-sort candidates j) ∙ n) }) in
    elim (Bool-cases (env.retransmit_after == 0)) [
      | inl off ↦ rw off v
      | inr on_ ↦ rw on_ (record { sound = swept.sound; idle = swept.idle })
    ]
