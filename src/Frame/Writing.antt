-- ===== src/Frame/Writing.antt =====
-- `WriteFrame` and `writeFull` (queqiao/internal/protocol/frame.go) on any io.Writer.
use sing_quic.Prelude.{
  ℕ, zero, suc, ◌+◌, ◌≤◌, ◌≡◌, refl, sym, ap, ◌∙◌, List, [], ◌∷◌, ◌++◌, length, take, drop, Option,
  none, some, ◌==◌, if◌then◌else◌, length-drop, append_assoc, append-nil, Result, ok, err, arith,
  true, false, ◌≢◌, take-append-drop, take-add, Bool,
}
use sing_quic.Frame.{Frame, FrameError, short_write, append_frame, read_frame}
use sing_quic.Frame.RoundTrip.{IsHeader}
use sing_quic.Frame.Stream.{framed, append_frame-eq_ok, read_frame-wire}

-- An io.Writer: one call takes some bytes, reports how many, and perhaps an error. Its
-- documentation promises that it took the first `n` of the bytes that it was given.
pub record Writer : Type 1 where
  pub W : Type 0
  pub write : W → List ℕ → ℕ × Option FrameError × W
  pub taken : W → List ℕ
  pub write-le : (w : W) (p : List ℕ) → (write w p).0 ≤ length p
  pub taken-write : (w : W) (p : List ℕ) → taken (write w p).2 ≡ taken w ++ take (write w p).0 p

module _ (io : Writer) where
  open io use {W, write, taken, write-le, taken-write}

  -- The loop of `writeFull`; `none` means that the fuel ran out.
  unfoldable pub write_loop : ℕ → W → List ℕ → Option (Option FrameError × W)
  write_loop fuel w [] = some (none, w)
  write_loop zero w (b ∷ bs) = none
  write_loop (suc fuel) w (b ∷ bs) =
      let (n, failure, w') = write w (b ∷ bs) in
      let rest = write_loop fuel w' (drop n (b ∷ bs)) in
      elim failure [
        | some e ↦ some (some e, w')
        | none ↦ if n == 0 then some (some short_write, w') else rest
      ]

  -- Each round that goes on takes a byte at least.
  unfoldable pub write_full : W → List ℕ → Option (Option FrameError × W)
  unfolding write_loop
  write_full w p = write_loop (length p) w p

  -- `WriteFrame`
  unfoldable pub write_frame : W → Frame → Option (Option FrameError × W)
  write_frame w f = elim (append_frame [] f) [
    | err e ↦ some (some e, w)
    | ok buf ↦ write_full w buf
  ]

  -- The loop has ended: with no error all of `p` is taken, and with one a prefix of it.
  abbrev pub Wrote : W → List ℕ → Option (Option FrameError × W) → Type 0
  Wrote w p none = ⊥
  Wrote w p (some (none, w')) = taken w' ≡ taken w ++ p
  Wrote w p (some (some e, w')) = (k : ℕ) × (taken w' ≡ taken w ++ take k p)

  -- What is taken behind a first round of `n` bytes is taken in all.
  Wrote-round :
      (w w' : W) (p : List ℕ) (n : ℕ) (out : Option (Option FrameError × W))
      → taken w' ≡ taken w ++ take n p
      → Wrote w' (drop n p) out
      → Wrote w p out
  Wrote-round w w' p n none t h = h
  Wrote-round w w' p n (some (none, v)) t h =
      h ∙ rw (t, append_assoc) (ap (λ l. taken w ++ l) (take-append-drop n p))
  Wrote-round w w' p n (some (some e, v)) t (k, h) =
      (n + k, h ∙ rw (t, append_assoc) (ap (λ l. taken w ++ l) (take-add n k p)))

  write_loop-Wrote :
      (fuel : ℕ) (w : W) (p : List ℕ) → length p ≤ fuel → Wrote w p (write_loop fuel w p)
  unfolding write_loop
  write_loop-Wrote fuel w [] h = sym (append-nil (taken w))
  write_loop-Wrote zero w (b ∷ bs) h = absurd (omega arith)
  write_loop-Wrote (suc fuel) w (b ∷ bs) h =
      round (λ l. write_loop-Wrote fuel _ _ l) (write w (b ∷ bs)).1
    where
      p : List ℕ
      p = b ∷ bs

      n : ℕ
      n = (write w p).0

      w' : W
      w' = (write w p).2

      shorter : n ≢ 0 → length (drop n p) ≤ fuel
      shorter ne = omega (arith, length-drop n p)

      go :
          (out : Option (Option FrameError × W))
          → (n ≢ 0 → Wrote w' (drop n p) out)
          → (c : Bool) → ((c ≡ false) → n ≢ 0)
          → Wrote w p (if c then some (some short_write, w') else out)
      go out ih true ne = (n, taken-write w p)
      go out ih false ne = Wrote-round w w' p n out (taken-write w p) (ih (ne refl))

      round :
          (length (drop n p) ≤ fuel → Wrote w' (drop n p) (write_loop fuel w' (drop n p)))
          → (failure : Option FrameError)
          → Wrote w p (elim failure [
            | some e ↦ some (some e, w')
            | none ↦ if n == 0 then some (some short_write, w') else write_loop fuel w' (drop n p)
          ])
      round ih (some e) = (n, taken-write w p)
      round ih none =
          go (write_loop fuel w' (drop n p)) (λ ne. ih (shorter ne)) (n == 0) (λ c. ground arith)

  -- `writeFull` ends on every writer that keeps io.Writer's promise, short writes included: without
  -- an error the writer has taken exactly the buffer, in order, and with an error a prefix of it.
  pub write_full-Wrote : (w : W) (p : List ℕ) → Wrote w p (write_full w p)
  unfolding write_full
  write_full-Wrote w p = write_loop-Wrote (length p) w p (omega arith)

  -- When `WriteFrame` reports no error, the writer has taken bytes from which `ReadFrame` reads the
  -- frame back, with the payload length filled in, whatever follows them.
  pub read_frame-write_frame :
      (w w' : W) (f : Frame) (more : List ℕ)
      → IsHeader f.header
      → write_frame w f ≡ some (none, w')
      → (buf : List ℕ) × (taken w' ≡ taken w ++ buf)
        × (read_frame (buf ++ more) ≡ ok (framed f, more))
  unfolding write_frame
  read_frame-write_frame w w' f more r e = go (append_frame [] f) refl
    where
      go :
          (m : Result FrameError (List ℕ))
          → append_frame [] f ≡ m
          → (buf : List ℕ) × (taken w' ≡ taken w ++ buf)
            × (read_frame (buf ++ more) ≡ ok (framed f, more))
      go (err x) p = absurd (ground (arith, p))
      go (ok buf) p =
          let (s, o) = append_frame-eq_ok [] buf f p in
          let full : write_full w buf ≡ some (none, w') = rw (p, write_frame) at e in
          (buf, rw full at (write_full-Wrote w buf), rw o (read_frame-wire f r s more))
