-- ===== src/Stripe/Inv/Reached.antt =====
-- What is so of every flow, whatever its lanes, timers and producer did
-- (queqiao/internal/stripe/stripe.go).
use sing_quic.Prelude.{
  ℕ, ◌+◌, ◌<◌, ◌≡◌, ◌≢◌, ◌⊎◌, inl, inr, refl, subst, ◌∙◌, Bool, true, false, Option, none, some,
  List, [], ◌∷◌, if◌then◌else◌, arith, Bool-cases, Option-cases,
}
use sing_quic.SeqMap.{lookup}
use sing_quic.MemLimit.{Budget}
use sing_quic.Stripe.{Scheduler, Attempt, Config, Outcome, size, new}
use sing_quic.Stripe.Ready.{pending_has, is_empty}
use sing_quic.Stripe.Finish.{complete, with_memory}
use sing_quic.Stripe.Produce.{produce_read, close, ReadError, and_after_read}
use sing_quic.Stripe.Keys.{holds, pending_has-holds}
use sing_quic.Stripe.Exact.{Exact}
use sing_quic.Stripe.Inv.{IsValid, bound}
use sing_quic.Stripe.Inv.Produced.{new-IsValid}
use sing_quic.Stripe.Inv.Memory.{Covers, owed, release-Covers, sum_below}
use sing_quic.Stripe.Inv.Steps.{
  Flow, Reach, start, further, IsSteady, Step-IsSteady, complete-Ends, close-Ends,
}

nothing_owed : (memory : Option Budget) (n : ℕ) → n ≡ 0 → Covers memory (n + 0)
nothing_owed none n e = tt
nothing_owed (some b) n e = omega (arith, e)

-- A flow on a budget that nothing was reserved from.
pub new-IsSteady :
    (config : Config) (memory : Option Budget)
    → IsSteady (record { scheduler = new config memory; reading = false })
unfolding new sum_below
new-IsSteady config memory = record {
  valid = new-IsValid config memory;
  running = λ r. absurd (ground (arith, r));
  covered = nothing_owed memory 0 refl;
}

Reach-IsSteady : {f g : Flow} → IsSteady f → Reach f g → IsSteady g
Reach-IsSteady v start = v
Reach-IsSteady v (further r s) = Step-IsSteady s (Reach-IsSteady v r)

under_way :
    (s : Scheduler) (v : IsValid s) (k : ℕ) (attempts : List Attempt)
    → lookup k s.live ≡ some attempts
    → pending_has s.pending k ≡ holds s.pending k
    → (pending_has s.pending k ≡ true)
      ⊎ ((a : Attempt) × (rest : List Attempt) × (lookup k s.live ≡ some (a ∷ rest)))
under_way s v k [] e same = inl (same ∙ v.idle k refl e)
under_way s v k (a ∷ rest) e same = inr (a, rest, e)

-- A retained chunk is ready or under way.
carried :
    (s : Scheduler) (v : IsValid s) (k : ℕ)
    → 0 < s.reservation k
    → (pending_has s.pending k ≡ true)
      ⊎ ((a : Attempt) × (rest : List Attempt) × (lookup k s.live ≡ some (a ∷ rest)))
carried s v k p =
    let same = pending_has-holds 0 (bound s) s.pending k v.sound.ready in
    elim (Option-cases (lookup k s.live)) [
      | inl e ↦ inl (ground (arith, same, e, v.sound.kept k p))
      | inr (attempts, e) ↦ under_way s v k attempts e same
    ]

read_ends :
    (f : Flow) (v : IsSteady f)
    → f.reading ≡ true
    → (bytes : List ℕ) (e : ReadError) → produce_read f.scheduler bytes e ≢ Outcome.panicked
unfolding produce_read with_memory and_after_read
read_ends f v r bytes e p =
    let s = f.scheduler in
    let held =
      subst (λ (b : Bool). Covers s.memory (owed s + (if b then s.config.chunk_size else 0))) r
        v.covered in
    let (m, d, c) =
      release-Covers s.memory s.config.chunk_size (owed s)
        (subst (Covers s.memory) (omega arith) held) in
    elim (Bool-cases s.closed) [
      | inl c ↦ ground (arith, p, d, c)
      | inr c ↦ elim (Bool-cases (is_empty bytes)) [
        | inl n ↦ ground (arith, p, d, c, n)
        | inr n ↦ ground (arith, p, d, c, n)
      ]
    ]

module _ (config : Config) (memory : Option Budget) where
  abbrev pub fresh_flow : Flow
  fresh_flow = record { scheduler = new config memory; reading = false }

  -- After any sequence of critical sections, in any order, on a flow that is not closed, what the
  -- scheduler counts for each lane (chunks, bytes, bytes not yet written) and for the flow is exactly
  -- what the attempts at the outstanding chunks add up to.
  pub Reach-Exact :
      (f : Flow)
      → Reach fresh_flow f
      → f.scheduler.closed ≡ false
      → Exact f.scheduler.load (size f.scheduler) f.scheduler.live
  Reach-Exact f r = (Reach-IsSteady (new-IsSteady config memory) r).valid.sound.accounts

  -- After any sequence of critical sections, in any order, a chunk whose reservation was not given
  -- back, which happens when it arrives or at the closing, is ready for a lane, or a lane has an
  -- attempt at it.
  pub Reach-carried :
      (f : Flow) (k : ℕ)
      → Reach fresh_flow f
      → 0 < f.scheduler.reservation k
      → (pending_has f.scheduler.pending k ≡ true)
        ⊎ ((a : Attempt) × (rest : List Attempt) × (lookup k f.scheduler.live ≡ some (a ∷ rest)))
  Reach-carried f k r p =
      carried f.scheduler (Reach-IsSteady (new-IsSteady config memory) r).valid k p

  -- After any sequence of critical sections, in any order and with the budget's other users keeping
  -- to what they hold, neither `Complete` nor `Close` nor the end of a read meets the panic of the
  -- budget's `Release`.
  pub Reach-ends :
      (f : Flow) (lane k : ℕ) (bytes : List ℕ) (e : ReadError)
      → Reach fresh_flow f
      → (complete f.scheduler lane k ≢ Outcome.panicked)
        × (close f.scheduler ≢ Outcome.panicked)
        × (f.reading ≡ true → produce_read f.scheduler bytes e ≢ Outcome.panicked)
  Reach-ends f lane k bytes e r =
      let v = Reach-IsSteady (new-IsSteady config memory) r in
      let (t, g, h) = complete-Ends f v lane k in
      let (u, i, j) = close-Ends f v in
      (λ p. cc (g, p), λ p. cc (i, p), λ reading p. read_ends f v reading bytes e p)
