-- ===== src/Stripe/Inv/Closed.antt =====
-- `Close` (queqiao/internal/stripe/stripe.go): the reservations and the state that it leaves.
use sing_quic.Prelude.{
  ℕ, ◌≡◌, refl, sym, ap, subst, ◌∙◌, true, Option, List, [], ◌∷◌, ◌++◌, if◌then◌else◌, arith,
  Bool-cases, inl, inr,
}
use sing_quic.SeqMap.{lookup, keys}
use sing_quic.MemLimit.{Budget}
use sing_quic.Stripe.{Scheduler, Outcome, ran}
use sing_quic.Stripe.Finish.{release_chunk}
use sing_quic.Stripe.Produce.{release_chunks, abandon, close}
use sing_quic.Stripe.Keys.{holds, holds-append}
use sing_quic.Stripe.Outstanding.{holds-keys}
use sing_quic.Stripe.Inv.{IsValid}
use sing_quic.Stripe.Inv.Finished.{release_chunk-ran}

and_then-ran :
    (o : Outcome) (ks : List ℕ) (t : Scheduler)
    → elim o as (λ x. Outcome) [
      | ran s' ↦ release_chunks s' ks
      | Outcome.panicked ↦ Outcome.panicked
    ]
      ≡ ran t
    → (s' : Scheduler) × (o ≡ ran s') × (release_chunks s' ks ≡ ran t)
and_then-ran (ran s') ks t e = (s', refl, e)
and_then-ran Outcome.panicked ks t e = cc

-- The releases over a list of chunks.
release_chunks-ran :
    (ks : List ℕ) (s t : Scheduler)
    → release_chunks s ks ≡ ran t
    → (r : ℕ → ℕ) × (memory : Option Budget) × ((j : ℕ)
        → r j ≡ (if holds ks j then 0 else s.reservation j))
      × (t ≡ record s { reservation = r; memory = memory })
unfolding release_chunks holds
release_chunks-ran [] s t e = (s.reservation, s.memory, λ j. refl, ground (arith, e))
release_chunks-ran (k ∷ ks) s t e =
    let (s', e', f) = and_then-ran (release_chunk s k) ks t e in
    let (r, m, g, i) = release_chunk-ran s s' k e' in
    let (r', m', g', i') = release_chunks-ran ks s' t f in
    (
      r',
      m',
      λ j. ground (arith, g j, g' j, ap (λ (u : Scheduler). u.reservation j) i),
      i' ∙ ap (λ (u : Scheduler). record u { reservation = r'; memory = m' }) i,
    )

abandon-ran :
    (o : Outcome) (s' : Scheduler)
    → abandon o ≡ ran s'
    → (t : Scheduler) × (o ≡ ran t) × (s' ≡ record t { pending = []; live = [] })
unfolding abandon
abandon-ran (ran t) s' e = (t, refl, ground (arith, e))
abandon-ran Outcome.panicked s' e = cc

-- Nothing is retained and no reservation is left.
abandoned-IsValid :
    (s : Scheduler)
    → IsValid s
    → (r : ℕ → ℕ) (memory : Option Budget)
    → ((j : ℕ) → r j ≡ (if holds (s.pending ++ keys s.live) j then 0 else s.reservation j))
    → (t : Scheduler) → t ≡ record s { closed = true; reservation = r; memory = memory }
    → IsValid (record t { pending = []; live = [] })
unfolding keys lookup
abandoned-IsValid s v r memory g t i =
    let given = λ (j : ℕ).
      let none_left : r j ≡ 0 =
        ground (
          arith,
          g j,
          v.sound.kept j,
          holds-append s.pending (keys s.live) j,
          holds-keys s.live j,
        ) in
      none_left in
    let all_given = λ (j : ℕ). ap (λ (u : Scheduler). u.reservation j) i ∙ given j in
    record {
      sound = record {
        ready = omega arith;
        outstanding = omega arith;
        accounts = λ c. absurd (ground (arith, c, ap (λ (u : Scheduler). u.closed) i));
        bytes = λ c. absurd (ground (arith, c, ap (λ (u : Scheduler). u.closed) i));
        kept = λ j p. absurd (omega (arith, all_given j, p));
        fresh = λ j l. all_given j;
      };
      idle = λ j n f. cc;
    }

-- `Close`
pub close-IsValid : (s s' : Scheduler) → IsValid s → close s ≡ ran s' → IsValid s'
unfolding close
close-IsValid s s' v e = elim (Bool-cases s.closed) [
  | inl c ↦ subst IsValid (ground (arith, e, c)) v
  | inr c ↦
      let (t, f, h) = abandon-ran _ s' (ground (arith, e, c)) in
      let (r, m, g, i) =
        release_chunks-ran (s.pending ++ keys s.live) (record s { closed = true }) t f in
      subst IsValid (sym h) (abandoned-IsValid s v r m g t i)
]
