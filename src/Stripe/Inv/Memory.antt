-- ===== src/Stripe/Inv/Memory.antt =====
-- The reservations of the chunks and the shared budget (queqiao/internal/stripe/stripe.go).
use sing_quic.Prelude.{
  ℕ, suc, zero, ◌+◌, ◌-◌, ◌≤◌, ◌<◌, ◌≡◌, refl, sym, ap, subst, ◌∙◌, true, false, Option, none, some,
  List, [], ◌∷◌, ◌++◌, ◌==◌, if◌then◌else◌, arith, Bool-cases, Option-cases, inl, inr, length,
}
use sing_quic.SeqMap.{lookup, keys}
use sing_quic.MemLimit.{Budget, release, done}
use sing_quic.Stripe.{Scheduler, ran, update}
use sing_quic.Stripe.Ready.{pending_has, remove_pending, is_empty}
use sing_quic.Stripe.Finish.{
  release_chunk, with_memory, and_signal, signal_if_done, complete, complete_live,
}
use sing_quic.Stripe.Produce.{
  release_chunks, abandon, close, add_chunk, mark_eof, after_read, ends_with, ReadError, no_error,
  end_of_file, failed,
}
use sing_quic.Stripe.Inv.Apart.{Side, Apart, signal_if_done-Apart}

-- A sum over the offsets below `n`.
unfoldable pub sum_below : ℕ → (ℕ → ℕ) → ℕ
sum_below zero r = 0
sum_below (suc n) r = r n + sum_below n r

sum_below-cong :
    (n : ℕ) (r r' : ℕ → ℕ) → ((k : ℕ) → k < n → r' k ≡ r k) → sum_below n r' ≡ sum_below n r
unfolding sum_below
sum_below-cong zero r r' e = refl
sum_below-cong (suc n) r r' e =
    omega (arith, e n (omega arith), sum_below-cong n r r' (λ k l. e k (omega arith)))

-- One reservation that is given back.
sum_below_given :
    (n : ℕ) (r r' : ℕ → ℕ) (k : ℕ)
    → ((j : ℕ) → r' j ≡ (if k == j then 0 else r j))
    → k < n
    → sum_below n r' + r k ≡ sum_below n r
unfolding sum_below
sum_below_given zero r r' k e l = absurd (omega arith)
sum_below_given (suc n) r r' k e l = elim (Bool-cases (k == n)) [
  | inl same ↦
      let at : k ≡ n = ground (arith, same) in
      omega (
        arith,
        rw same at (e n),
        ap r at,
        sum_below-cong n r r' (λ j m. ground (arith, e j, m, at)),
      )
  | inr other ↦ omega (arith, rw other at (e n), sum_below_given n r r' k e (ground (arith, other)))
]

-- No reservation lies above.
sum_below_grown :
    (m n : ℕ) (r : ℕ → ℕ) → ((k : ℕ) → n ≤ k → r k ≡ 0) → sum_below (m + n) r ≡ sum_below n r
unfolding sum_below
sum_below_grown zero n r e = ap (λ k. sum_below k r) (omega arith)
sum_below_grown (suc m) n r e =
    let up : suc m + n ≡ suc (m + n) = omega arith in
    rw up (omega (arith, e (m + n) (omega arith), sum_below_grown m n r e))

-- The flow's reservations, and what it owes the budget for them.
abbrev pub owed : Scheduler → ℕ
owed s = sum_below s.next_offset s.reservation

-- The budget has at least so much in use.
abbrev pub Covers : Option Budget → ℕ → Type 0
Covers none n = Unit {0}
Covers (some b) n = n ≤ b.used

pub release-Covers :
    (memory : Option Budget) (n rest : ℕ)
    → Covers memory (n + rest)
    → (memory' : Option Budget) × (release memory n ≡ done memory') × Covers memory' rest
unfolding release
release-Covers none n rest c = (none, refl, tt)
release-Covers (some b) n rest c = elim (Bool-cases (n == 0)) [
  | inl e ↦ (some b, ground (arith, e), ground (arith, c))
  | inr e ↦ (some (record b { used = b.used - n }), ground (arith, e, c), ground (arith, c))
]

-- Every reservation is that of a chunk which was read.
abbrev pub IsFresh : Scheduler → Type 0
IsFresh s = (k : ℕ) → s.next_offset ≤ k → s.reservation k ≡ 0

-- A call that ends with the flow's reservations still covered.
pub record Ends (s t : Scheduler) (rest : ℕ) : Type 0 where
  pub config : t.config ≡ s.config
  pub eof : t.eof ≡ s.eof
  pub covers : Covers t.memory (owed t + rest)

pub release_chunk-Covers :
    (s : Scheduler) (rest k : ℕ)
    → IsFresh s
    → Covers s.memory (owed s + rest)
    → (t : Scheduler) × (release_chunk s k ≡ ran t) × IsFresh t × Ends s t rest
unfolding release_chunk with_memory
release_chunk-Covers s rest k f c = elim (Bool-cases (s.reservation k == 0)) [
  | inl e ↦ (s, ground (arith, e), f, record { config = refl; eof = refl; covers = c })
  | inr e ↦
      let below : k < s.next_offset = ground (arith, e, f k) in
      let r = update s.reservation k 0 in
      let given = sum_below_given s.next_offset s.reservation r k (λ j. refl) below in
      let (memory, d, c') =
        release-Covers s.memory (s.reservation k) (sum_below s.next_offset r + rest)
          (subst (Covers s.memory) (omega (arith, given)) c) in
      (
        record s { reservation = r; memory = memory },
        rw (d, with_memory) (ground (arith, e)),
        λ j l. ground (arith, f j l),
        record { config = refl; eof = refl; covers = c' },
      )
]

-- What a flow owes depends on the producer's side of its state.
abbrev pub Owes : Side → ℕ → Type 0
Owes x rest = Covers x.memory (sum_below x.next_offset x.reservation + rest)

pub Apart-Covers :
    (s t : Scheduler) (rest : ℕ)
    → Apart s t
    → Covers s.memory (owed s + rest)
    → Covers t.memory (owed t + rest)
Apart-Covers s t rest a c = subst (λ x. Owes x rest) (sym a) c

signal_if_done-Ends : (s t : Scheduler) (rest : ℕ) → Ends s t rest → Ends s (signal_if_done t) rest
signal_if_done-Ends s t rest h =
    let a = signal_if_done-Apart t in
    record {
      config = ap (λ (x : Side). x.config) a ∙ h.config;
      eof = ap (λ (x : Side). x.eof) a ∙ h.eof;
      covers = Apart-Covers t (signal_if_done t) rest a h.covers;
    }

-- `Complete` never meets the panic of the budget.
pub complete-Covers :
    (s : Scheduler) (rest lane k : ℕ)
    → IsFresh s
    → Covers s.memory (owed s + rest)
    → (t : Scheduler) × (complete s lane k ≡ ran t) × Ends s t rest
unfolding complete and_signal
complete-Covers s rest lane k f c = elim (Option-cases (lookup k s.live)) [
  | inr (attempts, e) ↦
      let s' = remove_pending (complete_live s lane k attempts) k in
      let (t, g, f', c') =
        release_chunk-Covers s' rest k (unfold remove_pending complete_live in f)
          (unfold remove_pending complete_live in c) in
      (
        signal_if_done t,
        rw (e, complete, g, and_signal) refl,
        signal_if_done-Ends s t rest
            (record { config = c'.config; eof = c'.eof; covers = c'.covers }),
      )
  | inl e ↦ elim (Bool-cases (pending_has s.pending k)) [
    | inl ready ↦
        let (t, g, f', c') =
          release_chunk-Covers (remove_pending s k) rest k (unfold remove_pending in f)
            (unfold remove_pending in c) in
        (
          signal_if_done t,
          rw (e, complete, ready, g, and_signal) refl,
          signal_if_done-Ends s t rest
              (record { config = c'.config; eof = c'.eof; covers = c'.covers }),
        )
    | inr no_ ↦ (s, ground (arith, e, no_), record { config = refl; eof = refl; covers = c })
  ]
]

release_chunks-Covers :
    (ks : List ℕ) (s : Scheduler) (rest : ℕ)
    → IsFresh s
    → Covers s.memory (owed s + rest)
    → (t : Scheduler) × (release_chunks s ks ≡ ran t) × Ends s t rest
unfolding release_chunks
release_chunks-Covers [] s rest f c = (s, refl, record { config = refl; eof = refl; covers = c })
release_chunks-Covers (k ∷ ks) s rest f c =
    let (t, e, f', c') = release_chunk-Covers s rest k f c in
    let (u, g, h) = release_chunks-Covers ks t rest f' c'.covers in
    (
      u,
      rw (e, release_chunks) g,
      record { config = h.config ∙ c'.config; eof = h.eof ∙ c'.eof; covers = h.covers },
    )

-- Nor does `Close`.
pub close-Covers :
    (s : Scheduler) (rest : ℕ)
    → IsFresh s
    → Covers s.memory (owed s + rest)
    → (t : Scheduler) × (close s ≡ ran t) × Ends s t rest
unfolding close abandon
close-Covers s rest f c = elim (Bool-cases s.closed) [
  | inl e ↦ (s, ground (arith, e), record { config = refl; eof = refl; covers = c })
  | inr e ↦
      let (t, g, h) =
        release_chunks-Covers (s.pending ++ keys s.live) (record s { closed = true }) rest f c in
      (
        record t { pending = []; live = [] },
        ground (arith, e, g),
        record { config = h.config; eof = h.eof; covers = h.covers },
      )
]

-- A chunk takes over the reservation that was made for it.
pub add_chunk-owed :
    (s : Scheduler) (bytes : List ℕ)
    → IsFresh s
    → is_empty bytes ≡ false
    → owed (add_chunk s bytes) ≡ owed s + s.config.chunk_size
unfolding add_chunk sum_below
add_chunk-owed s [] f e = cc
add_chunk-owed s (byte ∷ bytes) f e =
    let n = s.next_offset in
    let r = update s.reservation n s.config.chunk_size in
    let more : n + suc (length bytes) ≡ length bytes + suc n = omega arith in
    let own : r n ≡ s.config.chunk_size = ground arith in
    rw more (
      omega (
        arith,
        own,
        sum_below_grown (length bytes) (suc n) r (λ k l. ground (arith, f k, l)),
        sum_below-cong n s.reservation r (λ k l. ground (arith, l)),
      ))

pub mark_eof-owed :
    (s : Scheduler) → IsFresh s → (owed (mark_eof s) ≡ owed s) × ((mark_eof s).memory ≡ s.memory)
unfolding mark_eof
mark_eof-owed s f = elim (Option-cases (ends_with s s.pending)) [
  | inr (k, e) ↦ rw (e, mark_eof) (refl, refl)
  | inl e ↦
      rw (e, mark_eof)
        (
          sum_below-cong s.next_offset s.reservation (update s.reservation s.next_offset 0)
              (λ k l. ground (arith, l)),
          refl,
        )
]

-- What follows a read owes nothing more.
pub after_read-Covers :
    (s : Scheduler) (e : ReadError)
    → IsFresh s
    → Covers s.memory (owed s + 0)
    → Covers (after_read s e).memory (owed (after_read s e) + 0)
unfolding after_read
after_read-Covers s no_error f c = c
after_read-Covers s end_of_file f c =
    let (o, m) = mark_eof-owed s f in
    Apart-Covers (mark_eof s) (signal_if_done (mark_eof s)) 0 (signal_if_done-Apart (mark_eof s)) (
      subst (λ (memory : Option Budget). Covers memory (owed (mark_eof s) + 0)) (sym m)
        (subst (λ (n : ℕ). Covers s.memory (n + 0)) (sym o) c))
after_read-Covers s (failed e) f c =
    let t : Scheduler = record s { source_error = some e; eof = true } in
    Apart-Covers t (signal_if_done t) 0 (signal_if_done-Apart t) c

pub add_chunk-IsFresh :
    (s : Scheduler) (bytes : List ℕ)
    → is_empty bytes ≡ false
    → IsFresh s
    → IsFresh (add_chunk s bytes)
unfolding add_chunk
add_chunk-IsFresh s [] e f = cc
add_chunk-IsFresh s (byte ∷ bytes) e f = λ k l. ground (arith, f k, l)
