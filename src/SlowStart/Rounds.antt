-- ===== src/SlowStart/Rounds.antt =====
-- The samples of one round (congestion_meta1/hybrid_slow_start.go).
use sing_quic.Prelude.{
  ℕ, zero, suc, ◌+◌, ◌<◌, ◌≤◌, ◌≡◌, refl, ◌∙◌, Bool, true, false, ◌&&◌, ◌||◌, List, [], ◌∷◌, length,
  All, ltb, leb, ◌==◌, arith, Bool-cases, inl, inr, subst,
}
use sing_quic.SlowStart.{
  HybridSlowStart, should_exit_slow_start, exit_in_round, sample, start_receive_round, delay_limit,
}

-- The state after a call of `ShouldExitSlowStart` for each of the samples.
unfoldable pub observe : HybridSlowStart → List ℕ → ℕ → ℕ → HybridSlowStart
observe s [] min_rtt window = s
observe s (rtt ∷ rtts) min_rtt window =
    observe (should_exit_slow_start s rtt min_rtt window).1 rtts min_rtt window

-- The first `k` samples, as far as they are there, all lie above the limit.
abbrev pub all_above : ℕ → ℕ → List ℕ → Bool
all_above zero limit rtts = true
all_above (suc k) limit [] = true
all_above (suc k) limit (rtt ∷ rtts) = ltb limit rtt && all_above k limit rtts

module _ (min_rtt window : ℕ) where
  -- Once a rise is found it stays found.
  observe_found :
      (rtts : List ℕ) (s : HybridSlowStart)
      → s.hystart_found ≡ true
      → (observe s rtts min_rtt window).hystart_found ≡ true
  unfolding observe should_exit_slow_start exit_in_round start_receive_round
  observe_found [] s f = f
  observe_found (rtt ∷ rtts) s f = observe_found rtts _ (ground (arith, f))

  -- After the eighth sample none of the round is looked at.
  observe_late :
      (rtts : List ℕ) (s : HybridSlowStart)
      → s.started ≡ true
      → s.hystart_found ≡ false
      → 8 ≤ s.rtt_sample_count
      → s.rtt_sample_count + length rtts < 4294967296
      → (observe s rtts min_rtt window).hystart_found ≡ false
  unfolding observe should_exit_slow_start exit_in_round sample
  observe_late [] s st f c l = f
  observe_late (rtt ∷ rtts) s st f c l =
      observe_late rtts _ (ground (arith, st, f)) (ground (arith, st, f)) (ground (arith, st, f))
        (ground (arith, st, f))

  -- A round in which `c` samples were taken, `k` before the eighth, and none led to an exit.
  record InRound (s : HybridSlowStart) (c : ℕ) : Type 0 where
    started : s.started ≡ true
    open_ : s.hystart_found ≡ false
    counted : s.rtt_sample_count ≡ c
    unset : c ≡ 0 → s.current_min_rtt ≡ 0
    set_ : 0 < c → 0 < s.current_min_rtt

  -- One sample, before the eighth and at it.
  step_early :
      (s : HybridSlowStart) (c rtt : ℕ)
      → InRound s c
      → c + 1 < 8
      → 0 < rtt
      → let s' = (should_exit_slow_start s rtt min_rtt window).1 in
        InRound s' (c + 1)
        × ((c == 0 || ltb (delay_limit min_rtt) s.current_min_rtt) && ltb (delay_limit min_rtt) rtt
            ≡ ltb (delay_limit min_rtt) s'.current_min_rtt)
  unfolding should_exit_slow_start exit_in_round sample
  step_early s c rtt r h p = ground (arith, r.started, r.open_, r.counted, r.unset, r.set_)

  step_eighth :
      (s : HybridSlowStart) (rtt : ℕ)
      → InRound s 7
      → 0 < rtt
      → let s' = (should_exit_slow_start s rtt min_rtt window).1 in
        (s'.started ≡ true)
        × (s'.rtt_sample_count ≡ 8)
        × (s'.hystart_found
            ≡ ltb (delay_limit min_rtt) s.current_min_rtt && ltb (delay_limit min_rtt) rtt)
  unfolding should_exit_slow_start exit_in_round sample
  step_eighth s rtt r p = ground (arith, r.started, r.open_, r.counted, r.set_ (omega arith))

  observe_round :
      (rtts : List ℕ) (k c : ℕ) (s : HybridSlowStart)
      → InRound s c
      → c + suc k ≡ 8
      → All (λ rtt. 0 < rtt) rtts
      → c + length rtts < 4294967296
      → (observe s rtts min_rtt window).hystart_found ≡ (
          leb (suc k) (length rtts)
          && ((c == 0 || ltb (delay_limit min_rtt) s.current_min_rtt)
              && all_above (suc k) (delay_limit min_rtt) rtts))
  unfolding observe
  observe_round [] k c s r e p l = ground (arith, r.open_)
  observe_round (rtt ∷ rtts) zero c s r e p l =
      eighth (c_is (omega arith)) (step_eighth s rtt (c_is (omega arith)) p.0)
    where
      s' : HybridSlowStart
      s' = (should_exit_slow_start s rtt min_rtt window).1

      c_is : c ≡ 7 → InRound s 7
      c_is q = subst (InRound s) q r

      eighth :
          InRound s 7
          → (s'.started ≡ true)
            × (s'.rtt_sample_count ≡ 8)
            × (s'.hystart_found
                ≡ ltb (delay_limit min_rtt) s.current_min_rtt && ltb (delay_limit min_rtt) rtt)
          → (observe s' rtts min_rtt window).hystart_found ≡ (
              leb 1 (suc (length rtts))
              && ((c == 0 || ltb (delay_limit min_rtt) s.current_min_rtt)
                  && (ltb (delay_limit min_rtt) rtt && true)))
      eighth r7 (started, counted, found) = elim (Bool-cases s'.hystart_found) [
        | inl yes_ ↦ observe_found rtts s' yes_ ∙ ground (arith, yes_, found, e)
        | inr no_ ↦
            observe_late rtts s' started no_ (omega arith) (omega (arith, l, counted, e))
            ∙ ground (arith, no_, found, e)
      ]
  observe_round (rtt ∷ rtts) (suc k) c s r e p l =
      let (r', above) = step_early s c rtt r (omega arith) p.0 in
      observe_round rtts k (c + 1) (should_exit_slow_start s rtt min_rtt window).1 r' (omega arith)
        p.1 (omega arith)
      ∙ ground (arith, above)

  -- In a round that starts without an exit found, and for samples that are not zero and fewer than
  -- 2 ^ 32, `ShouldExitSlowStart` finds the exit exactly when eight samples were taken and each of the
  -- first eight lies above the limit of the delay.
  pub observe-start_receive_round :
      (rtts : List ℕ) (s : HybridSlowStart) (last_sent : ℕ)
      → s.hystart_found ≡ false
      → All (λ rtt. 0 < rtt) rtts
      → length rtts < 4294967296
      → (observe (start_receive_round s last_sent) rtts min_rtt window).hystart_found
        ≡ (leb 8 (length rtts) && all_above 8 (delay_limit min_rtt) rtts)
  unfolding start_receive_round
  observe-start_receive_round rtts s last_sent f p l =
      observe_round rtts 7 0 (start_receive_round s last_sent)
        (record {
          started = refl;
          open_ = f;
          counted = refl;
          unset = λ _. refl;
          set_ = ground arith;
        })
        refl p (omega arith)

  -- Below a window of sixteen only an exit that was found before counts.
  low :
      (s : HybridSlowStart) (rtt : ℕ)
      → window < 16
      → (should_exit_slow_start s rtt min_rtt window).0 ≡ s.hystart_found
  unfolding should_exit_slow_start exit_in_round start_receive_round
  low s rtt w = ground (arith, w)

  -- With a window below sixteen, the call that finds the exit does not leave slow start, but the next
  -- call does.
  pub exit-low_window :
      (s : HybridSlowStart) (rtt next_rtt : ℕ)
      → s.hystart_found ≡ false
      → window < 16
      → let (leaves, s') = should_exit_slow_start s rtt min_rtt window in
        (leaves ≡ false)
        × ((should_exit_slow_start s' next_rtt min_rtt window).0 ≡ s'.hystart_found)
  exit-low_window s rtt next_rtt f w = (low s rtt w ∙ f, low _ next_rtt w)
