-- ===== src/Stripe/Inv/Produced.antt =====
-- What the producer adds (queqiao/internal/stripe/stripe.go).
use sing_quic.Prelude.{
  ℕ, suc, ◌+◌, ◌<◌, ◌≡◌, refl, sym, ap, subst, ◌∙◌, true, false, Option, some, List, [], ◌∷◌, arith,
  Bool-cases, Option-cases, inl, inr, length, sum_by,
}
use sing_quic.SeqMap.{lookup, keys}
use sing_quic.MemLimit.{Budget, Released, release, done}
use sing_quic.Stripe.{Scheduler, Attempt, Outcome, ran, Config, update, size, new}
use sing_quic.Stripe.Ready.{is_empty}
use sing_quic.Stripe.Finish.{with_memory}
use sing_quic.Stripe.Produce.{
  acquire_failed, ends_with, mark_eof, add_chunk, ReadError, no_error, end_of_file, failed,
  after_read, and_after_read, produce_read,
}
use sing_quic.Stripe.Keys.{Between, Between-snoc, Between-widen, Between-le, holds-snoc}
use sing_quic.Stripe.Outstanding.{weigh}
use sing_quic.Stripe.Exact.{Exact}
use sing_quic.Stripe.Accounts.{bytes_on, queued_on}
use sing_quic.Stripe.Inv.{IsValid, bound}
use sing_quic.Stripe.Inv.Finished.{signal_if_done-IsValid}

-- Sums over chunks that lie below an offset do not see another payload there.
weigh_elsewhere :
    (g h : ℕ → List Attempt → ℕ) (n b : ℕ) (live : List (ℕ × List Attempt))
    → Between n b (keys live)
    → ((k : ℕ) (v : List Attempt) → k < b → g k v ≡ h k v)
    → weigh g live ≡ weigh h live
unfolding keys
weigh_elsewhere g h n b [] l e = refl
weigh_elsewhere g h n b ((k, v) ∷ live) l e = omega (
  arith,
  e k v (omega (arith, Between-le (suc k) b (keys live) l.1)),
  weigh_elsewhere g h (suc k) b live l.1 e,
)

-- The accounts of the chunks below `n`, when the payload at `n` is another.
payload-Exact :
    (s : Scheduler) (n : ℕ) (bytes : List ℕ)
    → Between 0 n (keys s.live)
    → Exact s.load (size s) s.live
    → Exact s.load (λ k. length (update s.payload n bytes k)) s.live
payload-Exact s n bytes h x =
    let same = λ (g : ℕ → List Attempt → ℕ).
      weigh_elsewhere (λ k v. g (size s k) v) (λ k v. g (length (update s.payload n bytes k)) v) 0 n
        s.live h (λ k v l. ground (arith, l)) in
    record {
      chunks = x.chunks;
      bytes = λ l. x.bytes l ∙ same (λ m v. sum_by (bytes_on l m) v);
      queued = λ l. x.queued l ∙ same (λ m v. sum_by (queued_on l m) v);
      total = x.total ∙ same (λ m v. sum_by (λ (a : Attempt). m) v);
    }

payload_bytes :
    (s : Scheduler) (n : ℕ) (bytes : List ℕ)
    → Between 0 n (keys s.live)
    → weigh (λ k (v : List Attempt). size s k) s.live
      ≡ weigh (λ k (v : List Attempt). length (update s.payload n bytes k)) s.live
payload_bytes s n bytes h =
    weigh_elsewhere (λ k v. size s k) (λ k v. length (update s.payload n bytes k)) 0 n s.live h
      (λ k v l. ground (arith, l))

module _ (s : Scheduler) (v : IsValid s) (open_ : s.eof ≡ false) where
  bound_open : bound s ≡ s.next_offset
  bound_open = ground (arith, open_)

  ready_open : Between 0 s.next_offset s.pending
  ready_open = subst (λ b. Between 0 b s.pending) bound_open v.sound.ready

  outstanding_open : Between 0 s.next_offset (keys s.live)
  outstanding_open = subst (λ b. Between 0 b (keys s.live)) bound_open v.sound.outstanding

  add_chunk-IsValid : (bytes : List ℕ) → is_empty bytes ≡ false → IsValid (add_chunk s bytes)
  unfolding add_chunk
  add_chunk-IsValid [] e = cc
  add_chunk-IsValid (byte ∷ bytes) e = record {
    sound = record {
      ready = Between-snoc 0 s.next_offset _ s.pending (omega arith) ready_open;
      outstanding =
          Between-widen 0 0 s.next_offset _ (keys s.live) (omega arith) (omega arith)
            outstanding_open;
      accounts =
          λ c. payload-Exact s s.next_offset (byte ∷ bytes) outstanding_open (v.sound.accounts c);
      bytes = λ c. v.sound.bytes c ∙ payload_bytes s s.next_offset (byte ∷ bytes) outstanding_open;
      kept = λ j p. ground (arith, v.sound.kept j, holds-snoc s.pending s.next_offset j, p);
      fresh = λ j l. ground (arith, v.sound.fresh j, l);
    };
    idle = λ j n f. ground (arith, v.idle j n f, holds-snoc s.pending s.next_offset j);
  }

  mark_eof-IsValid : IsValid (mark_eof s)
  unfolding mark_eof
  mark_eof-IsValid = elim (Option-cases (ends_with s s.pending)) [
    | inr (k, e) ↦
        rw (e, mark_eof)
          (record {
            sound = record {
              ready =
                  Between-widen 0 0 (bound s) (s.next_offset + 1) s.pending (omega arith)
                    (ground (arith, open_)) v.sound.ready;
              outstanding =
                  Between-widen 0 0 (bound s) (s.next_offset + 1) (keys s.live) (omega arith)
                    (ground (arith, open_)) v.sound.outstanding;
              accounts = v.sound.accounts;
              bytes = v.sound.bytes;
              kept = v.sound.kept;
              fresh = v.sound.fresh;
            };
            idle = v.idle;
          })
    | inl e ↦
        rw (e, mark_eof)
          (record {
            sound = record {
              ready =
                  Between-snoc 0 s.next_offset (s.next_offset + 1) s.pending (omega arith)
                    ready_open;
              outstanding =
                  Between-widen 0 0 s.next_offset (s.next_offset + 1) (keys s.live) (omega arith)
                    (omega arith) outstanding_open;
              accounts =
                  λ c. payload-Exact s s.next_offset [] outstanding_open (v.sound.accounts c);
              bytes = λ c. v.sound.bytes c ∙ payload_bytes s s.next_offset [] outstanding_open;
              kept = λ j p. ground (arith, v.sound.kept j, holds-snoc s.pending s.next_offset j, p);
              fresh = λ j l. ground (arith, v.sound.fresh j l);
            };
            idle = λ j n f. ground (arith, v.idle j n f, holds-snoc s.pending s.next_offset j);
          })
  ]

  ended : (e : ℕ) → IsValid (record s { source_error = some e; eof = true })
  ended e = record {
    sound = record {
      ready =
          Between-widen 0 0 (bound s) (s.next_offset + 1) s.pending (omega arith)
            (ground (arith, open_)) v.sound.ready;
      outstanding =
          Between-widen 0 0 (bound s) (s.next_offset + 1) (keys s.live) (omega arith)
            (ground (arith, open_)) v.sound.outstanding;
      accounts = v.sound.accounts;
      bytes = v.sound.bytes;
      kept = v.sound.kept;
      fresh = v.sound.fresh;
    };
    idle = v.idle;
  }

  after_read-IsValid : (e : ReadError) → IsValid (after_read s e)
  unfolding after_read
  after_read-IsValid no_error = v
  after_read-IsValid end_of_file = signal_if_done-IsValid (mark_eof s) mark_eof-IsValid
  after_read-IsValid (failed e) =
      signal_if_done-IsValid (record s { source_error = some e; eof = true }) (ended e)

  -- The section after a failed `Acquire`
  pub acquire_failed-IsValid : (e : ℕ) → IsValid (acquire_failed s e)
  unfolding acquire_failed
  acquire_failed-IsValid e = elim (Bool-cases s.closed) [
    | inl c ↦ subst IsValid (ground (arith, c)) v
    | inr c ↦ subst IsValid (ground (arith, c)) (ended e)
  ]

-- The budget has no part in what is well formed.
pub memory-IsValid :
    (s : Scheduler) (memory : Option Budget) → IsValid s → IsValid (record s { memory = memory })
memory-IsValid s memory v = record {
  sound = record {
    ready = v.sound.ready;
    outstanding = v.sound.outstanding;
    accounts = v.sound.accounts;
    bytes = v.sound.bytes;
    kept = v.sound.kept;
    fresh = v.sound.fresh;
  };
  idle = v.idle;
}

pub with_memory-ran :
    (s t : Scheduler) (o : Released)
    → with_memory s o ≡ ran t
    → (memory : Option Budget) × (o ≡ done memory) × (t ≡ record s { memory = memory })
unfolding with_memory
with_memory-ran s t (done memory) e = (memory, refl, ground (arith, e))
with_memory-ran s t Released.panicked e = cc

and_after_read-ran :
    (o : Outcome) (e : ReadError) (s' : Scheduler)
    → and_after_read o e ≡ ran s'
    → (t : Scheduler) × (o ≡ ran t) × (s' ≡ after_read t e)
unfolding and_after_read
and_after_read-ran (ran t) e s' h = (t, refl, ground (arith, h))
and_after_read-ran Outcome.panicked e s' h = cc

-- The two ways of the section behind `Read`: the reservation goes back, or a chunk has it.
pub data ReadWays (s : Scheduler) (bytes : List ℕ) (e : ReadError) (s' : Scheduler) : Type 0 where
  stopped :
      (memory : Option Budget)
      → s.closed ≡ true
      → release s.memory s.config.chunk_size ≡ done memory
      → s' ≡ record s { memory = memory }
      → ReadWays s bytes e s'
  nothing :
      (memory : Option Budget)
      → s.closed ≡ false
      → release s.memory s.config.chunk_size ≡ done memory
      → s' ≡ after_read (record s { memory = memory }) e
      → ReadWays s bytes e s'
  added :
      s.closed ≡ false
      → is_empty bytes ≡ false
      → s' ≡ after_read (add_chunk s bytes) e
      → ReadWays s bytes e s'

pub produce_read-ReadWays :
    (s s' : Scheduler) (bytes : List ℕ) (e : ReadError)
    → produce_read s bytes e ≡ ran s'
    → ReadWays s bytes e s'
unfolding produce_read
produce_read-ReadWays s s' bytes e h = elim (Bool-cases s.closed) [
  | inl c ↦ let (m, d, f) = with_memory-ran s s' _ (ground (arith, h, c)) in stopped m c d f
  | inr c ↦ elim (Bool-cases (is_empty bytes)) [
    | inl n ↦
        let (t, g, i) =
          and_after_read-ran (with_memory s (release s.memory s.config.chunk_size)) e s'
            (ground (arith, h, c, n)) in
        let (m, d, f) = with_memory-ran s t _ g in
        nothing m c d (i ∙ ap (λ (u : Scheduler). after_read u e) f)
    | inr n ↦
        let (t, g, i) =
          and_after_read-ran (ran (add_chunk s bytes)) e s' (ground (arith, h, c, n)) in
        added c n (i ∙ ap (λ (u : Scheduler). after_read u e) (ground (arith, g)))
  ]
]

-- The section behind `Read`
pub produce_read-IsValid :
    (s s' : Scheduler) (bytes : List ℕ) (e : ReadError)
    → IsValid s
    → s.eof ≡ false
    → ReadWays s bytes e s'
    → IsValid s'
produce_read-IsValid s s' bytes e v open_ (stopped m c d f) =
    subst IsValid (sym f) (memory-IsValid s m v)
produce_read-IsValid s s' bytes e v open_ (nothing m c d f) =
    subst IsValid (sym f)
      (after_read-IsValid (record s { memory = m }) (memory-IsValid s m v) open_ e)
produce_read-IsValid s s' bytes e v open_ (added c n f) = subst IsValid (sym f) (
    after_read-IsValid (add_chunk s bytes) (add_chunk-IsValid s v open_ bytes n)
      (unfold add_chunk in open_) e)

-- `New`
pub new-IsValid : (config : Config) (memory : Option Budget) → IsValid (new config memory)
unfolding new lookup keys
new-IsValid config memory = record {
  sound = record {
    ready = omega arith;
    outstanding = omega arith;
    accounts =
        λ c. record { chunks = λ l. refl; bytes = λ l. refl; queued = λ l. refl; total = refl };
    bytes = λ c. refl;
    kept = λ k p. absurd (omega arith);
    fresh = λ k l. refl;
  };
  idle = λ k n e. cc;
}
