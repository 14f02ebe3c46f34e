-- ===== src/Stripe/Inv/Steps.antt =====
-- Lanes, timers, the producer and other flows, in any order (queqiao/internal/stripe/stripe.go).
use sing_quic.Prelude.{
  ℕ, ◌+◌, ◌≡◌, inl, inr, sym, ap, subst, ◌∙◌, Bool, true, false, Option, none, some, List,
  if◌then◌else◌, arith, Bool-cases,
}
use sing_quic.SeqMap.{lookup}
use sing_quic.MemLimit.{Budget, release, done, acquire, granted}
use sing_quic.Stripe.{Scheduler, Environment, Chunk, Config, Outcome, ran}
use sing_quic.Stripe.Ready.{next, issued}
use sing_quic.Stripe.Finish.{complete, fail, retire_lane, wrote}
use sing_quic.Stripe.Reissue.{reissue_below, reissue_expired}
use sing_quic.Stripe.Produce.{acquire_failed, produce_read, close, ReadError, add_chunk}
use sing_quic.Stripe.Keys.{holds}
use sing_quic.Stripe.Inv.{IsValid}
use sing_quic.Stripe.Inv.Taken.{next-IsValid}
use sing_quic.Stripe.Inv.Finished.{complete-IsValid, fail-IsValid, wrote-IsValid}
use sing_quic.Stripe.Inv.Retired.{retire_lane-IsValid}
use sing_quic.Stripe.Inv.Offered.{reissue_below-IsValid, reissue_expired-IsValid}
use sing_quic.Stripe.Inv.Closed.{close-IsValid}
use sing_quic.Stripe.Inv.Produced.{
  acquire_failed-IsValid, memory-IsValid, produce_read-IsValid, ReadWays, produce_read-ReadWays,
}
use sing_quic.Stripe.Inv.Apart.{
  Side, Apart, next-Apart, fail-Apart, retire_lane-Apart, wrote-Apart, reissue_below-Apart,
  reissue_expired-Apart,
}
use sing_quic.Stripe.Inv.Memory.{
  Covers, owed, Ends, Apart-Covers, complete-Covers, close-Covers, release-Covers, add_chunk-owed,
  after_read-Covers, add_chunk-IsFresh,
}

-- A scheduler, and whether its producer has reserved a chunk and is reading the source.
pub record Flow : Type 0 where
  pub scheduler : Scheduler
  pub reading : Bool

-- What the producer has reserved for the chunk that it reads.
abbrev pub reserved : Flow → ℕ
reserved f = if f.reading then f.scheduler.config.chunk_size else 0

-- The budget after `Acquire`: there is none, or it has granted the request.
pub data Granted (n : ℕ) : Option Budget → Option Budget → Type 0 where
  unlimited : Granted n none none
  within : (b b' : Budget) → acquire b n false ≡ granted b' → Granted n (some b) (some b')

-- One critical section. The producer has not returned as long as the end of the source is not
-- noted.
pub data Step (f : Flow) : Flow → Type 0 where
  hands_out :
      (env : Environment) (is_cancelled : Bool) (lane window_bytes : ℕ) (chunk : Chunk)
      (s' : Scheduler)
      → next f.scheduler env is_cancelled lane window_bytes ≡ issued chunk s'
      → Step f (record f { scheduler = s' })
  completes :
      (lane k : ℕ) (s' : Scheduler)
      → complete f.scheduler lane k ≡ ran s'
      → Step f (record f { scheduler = s' })
  fails : (lane k id : ℕ) → Step f (record f { scheduler = fail f.scheduler lane k id })
  writes : (lane k id : ℕ) → Step f (record f { scheduler = wrote f.scheduler lane k id })
  retires :
      (lane : ℕ) (order : List ℕ)
      → ((k : ℕ) → holds order k ≡ false → lookup k f.scheduler.live ≡ none)
      → Step f (record f { scheduler = retire_lane f.scheduler lane order })
  reissues_below :
      (offset : ℕ) (order : List ℕ)
      → Step f (record f { scheduler = (reissue_below (f.scheduler, 0) offset order).0 })
  reissues_expired :
      (env : Environment) (order : List ℕ)
      → Step f (record f { scheduler = (reissue_expired f.scheduler env order).0 })
  reserves :
      (memory : Option Budget)
      → f.reading ≡ false
      → f.scheduler.eof ≡ false
      → Granted f.scheduler.config.chunk_size f.scheduler.memory memory
      → Step f (record { scheduler = record f.scheduler { memory = memory }; reading = true })
  gives_up :
      (e : ℕ)
      → f.reading ≡ false
      → f.scheduler.eof ≡ false
      → Step f (record f { scheduler = acquire_failed f.scheduler e })
  reads :
      (bytes : List ℕ) (e : ReadError) (s' : Scheduler)
      → f.reading ≡ true
      → produce_read f.scheduler bytes e ≡ ran s'
      → Step f (record { scheduler = s'; reading = false })
  closes : (s' : Scheduler) → close f.scheduler ≡ ran s' → Step f (record f { scheduler = s' })
  others :
      (memory : Option Budget)
      → Covers memory (owed f.scheduler + reserved f)
      → Step f (record f { scheduler = record f.scheduler { memory = memory } })

pub data Reach (f : Flow) : Flow → Type 0 where
  start : Reach f f
  further : {g h : Flow} → Reach f g → Step g h → Reach f h

pub record IsSteady (f : Flow) : Type 0 where
  pub valid : IsValid f.scheduler
  pub running : f.reading ≡ true → f.scheduler.eof ≡ false
  pub covered : Covers f.scheduler.memory (owed f.scheduler + reserved f)

-- A section that leaves the producer's side alone, or gives reservations back.
module _ (f : Flow) (v : IsSteady f) (t : Scheduler) (w : IsValid t) where
  Ends-IsSteady : Ends f.scheduler t (reserved f) → IsSteady (record f { scheduler = t })
  Ends-IsSteady e = record {
    valid = w;
    running = λ r. e.eof ∙ v.running r;
    covered =
        subst (λ (c : Config). Covers t.memory (owed t + (if f.reading then c.chunk_size else 0)))
          (sym e.config) e.covers;
  }

  Apart-IsSteady : Apart f.scheduler t → IsSteady (record f { scheduler = t })
  Apart-IsSteady a = Ends-IsSteady (record {
    config = ap (λ (x : Side). x.config) a;
    eof = ap (λ (x : Side). x.eof) a;
    covers = Apart-Covers f.scheduler t (reserved f) a v.covered;
  })

-- The sections that give reservations back end without a panic.
module _ (f : Flow) (v : IsSteady f) where
  pub complete-Ends :
      (lane k : ℕ)
      → (t : Scheduler) × (complete f.scheduler lane k ≡ ran t) × Ends f.scheduler t (reserved f)
  complete-Ends lane k =
      complete-Covers f.scheduler (reserved f) lane k v.valid.sound.fresh v.covered

  pub close-Ends : (t : Scheduler) × (close f.scheduler ≡ ran t) × Ends f.scheduler t (reserved f)
  close-Ends = close-Covers f.scheduler (reserved f) v.valid.sound.fresh v.covered

  -- What was reserved for the read is there to be given back.
  read-Covers :
      (memory : Option Budget)
      → f.reading ≡ true
      → release f.scheduler.memory f.scheduler.config.chunk_size ≡ done memory
      → Covers memory (owed f.scheduler + 0)
  read-Covers memory r d =
      let held =
        subst
          (λ (b : Bool).
            Covers f.scheduler.memory
              (owed f.scheduler + (if b then f.scheduler.config.chunk_size else 0)))
          r v.covered in
      let (m, d', c) =
        release-Covers f.scheduler.memory f.scheduler.config.chunk_size (owed f.scheduler + 0)
          (subst (Covers f.scheduler.memory) (omega arith) held) in
      subst (λ (m : Option Budget). Covers m (owed f.scheduler + 0)) (cc (d, d')) c

gave_up-IsSteady :
    (f : Flow) (v : IsSteady f) (e : ℕ)
    → f.reading ≡ false
    → f.scheduler.eof ≡ false
    → IsSteady (record f { scheduler = acquire_failed f.scheduler e })
unfolding acquire_failed
gave_up-IsSteady f v e idle open_ = record {
  valid = acquire_failed-IsValid f.scheduler v.valid open_ e;
  running = λ r. absurd (ground (arith, r, idle));
  covered =
      let covers = λ (u : Scheduler).
        Covers u.memory (owed u + (if f.reading then u.config.chunk_size else 0)) in
      elim (Bool-cases f.scheduler.closed) [
        | inl c ↦
            subst covers {x = f.scheduler} {y = acquire_failed f.scheduler e} (ground (arith, c))
              v.covered
        | inr c ↦
            subst covers {x = record f.scheduler { source_error = some e; eof = true }}
              {y = acquire_failed f.scheduler e} (ground (arith, c)) v.covered
      ];
}

-- Covered, with nothing reserved.
abbrev IsSettled : Scheduler → Type 0
IsSettled u = Covers u.memory (owed u + 0)

ways-Covers :
    (f : Flow) (v : IsSteady f) (r : f.reading ≡ true) (bytes : List ℕ) (e : ReadError)
    (s' : Scheduler)
    → ReadWays f.scheduler bytes e s'
    → Covers s'.memory (owed s' + 0)
ways-Covers f v r bytes e s' (ReadWays.stopped m c d i) =
    subst IsSettled (sym i) (read-Covers f v m r d)
ways-Covers f v r bytes e s' (ReadWays.nothing m c d i) = subst IsSettled (sym i) (
    after_read-Covers (record f.scheduler { memory = m }) e v.valid.sound.fresh
      (read-Covers f v m r d))
ways-Covers f v r bytes e s' (ReadWays.added c n i) =
    let s = f.scheduler in
    let owes = add_chunk-owed s bytes v.valid.sound.fresh n in
    let held =
      subst (λ (b : Bool). Covers s.memory (owed s + (if b then s.config.chunk_size else 0))) r
        v.covered in
    subst IsSettled (sym i) (
      after_read-Covers (add_chunk s bytes) e (add_chunk-IsFresh s bytes n v.valid.sound.fresh)
        (unfold add_chunk in subst (Covers s.memory) (omega (arith, owes)) held))

ran-eq : {o : Outcome} {s t : Scheduler} → o ≡ ran s → o ≡ ran t → s ≡ t
ran-eq e f = cc

granted-Covers :
    (n owed_ : ℕ) (m m' : Option Budget)
    → Granted n m m'
    → Covers m (owed_ + 0)
    → Covers m' (owed_ + n)
unfolding acquire
granted-Covers n owed_ none none unlimited c = tt
granted-Covers n owed_ none (some b') g c = elim g [ ]
granted-Covers n owed_ (some b) none g c = elim g [ ]
granted-Covers n owed_ (some b) (some b') (within _ _ e) c = ground (arith, e)

-- Each critical section keeps the flow steady.
pub Step-IsSteady : {f g : Flow} → Step f g → IsSteady f → IsSteady g
Step-IsSteady {f} (hands_out env c lane w chunk s' e) v =
    Apart-IsSteady f v s' (next-IsValid f.scheduler env c lane w chunk s' v.valid e)
      (next-Apart f.scheduler env c lane w chunk s' e)
Step-IsSteady {f} (completes lane k s' e) v =
    let (t, g, h) = complete-Ends f v lane k in
    Ends-IsSteady f v s' (complete-IsValid f.scheduler s' lane k v.valid e)
      (subst (λ (u : Scheduler). Ends f.scheduler u (reserved f)) (ran-eq g e) h)
Step-IsSteady {f} (fails lane k id) v =
    Apart-IsSteady f v _ (fail-IsValid f.scheduler lane k id v.valid)
      (fail-Apart f.scheduler lane k id)
Step-IsSteady {f} (writes lane k id) v =
    Apart-IsSteady f v _ (wrote-IsValid f.scheduler lane k id v.valid)
      (wrote-Apart f.scheduler lane k id)
Step-IsSteady {f} (retires lane order all) v =
    Apart-IsSteady f v _ (retire_lane-IsValid f.scheduler lane order all v.valid).0
      (retire_lane-Apart f.scheduler lane order)
Step-IsSteady {f} (reissues_below offset order) v =
    Apart-IsSteady f v _ (reissue_below-IsValid f.scheduler 0 offset order v.valid)
      (reissue_below-Apart f.scheduler 0 offset order)
Step-IsSteady {f} (reissues_expired env order) v =
    Apart-IsSteady f v _ (reissue_expired-IsValid f.scheduler env order v.valid)
      (reissue_expired-Apart f.scheduler env order)
Step-IsSteady {f} (reserves memory idle open_ g) v = record {
  valid = memory-IsValid f.scheduler memory v.valid;
  running = λ r. open_;
  covered =
      granted-Covers f.scheduler.config.chunk_size (owed f.scheduler) f.scheduler.memory memory g (
        subst
          (λ (b : Bool).
            Covers f.scheduler.memory
              (owed f.scheduler + (if b then f.scheduler.config.chunk_size else 0)))
          idle v.covered);
}
Step-IsSteady {f} (gives_up e idle open_) v = gave_up-IsSteady f v e idle open_
Step-IsSteady {f} (reads bytes e s' r h) v =
    let ways = produce_read-ReadWays f.scheduler s' bytes e h in
    record {
      valid = produce_read-IsValid f.scheduler s' bytes e v.valid (v.running r) ways;
      running = λ r. absurd (ground (arith, r));
      covered = ways-Covers f v r bytes e s' ways;
    }
Step-IsSteady {f} (closes s' e) v =
    let (t, g, h) = close-Ends f v in
    Ends-IsSteady f v s' (close-IsValid f.scheduler s' v.valid e)
      (subst (λ (u : Scheduler). Ends f.scheduler u (reserved f)) (ran-eq g e) h)
Step-IsSteady {f} (others memory c) v = record {
  valid = memory-IsValid f.scheduler memory v.valid;
  running = v.running;
  covered = c;
}
