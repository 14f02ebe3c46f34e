-- ===== src/Stripe/Inv/Admitted.antt =====
-- The windows that a lane is admitted by (queqiao/internal/stripe/stripe.go).
use sing_quic.Prelude.{
  ℕ, ◌+◌, ◌≤◌, ◌<◌, ◌≡◌, refl, sym, subst, ap, Bool, true, false, Option, none, some, arith, ◌⊎◌,
  inl, inr, if◌then◌else◌, ◌==◌, ◌||◌,
}
use sing_quic.Stripe.{Scheduler, Environment, Windows, Chunk, Load, size}
use sing_quic.Stripe.Lanes.{exceeds, window_full, lane_full, has_room, charge}
use sing_quic.Stripe.Ready.{dispatch, next, issued}
use sing_quic.Stripe.Inv.Taken.{next-Taken}

-- A limit of 0 is none.
abbrev pub Within : ℕ → ℕ → Type 0
Within limit held = (limit ≡ 0) ⊎ (held ≤ limit)

-- The window for the bytes that a lane has not had acknowledged, where the windows have one. Its
-- argument is what the lane held before.
abbrev pub OutstandingWithin : Option (ℕ → ℕ → ℕ) → ℕ → ℕ → ℕ → Type 0
OutstandingWithin none lane before after = Unit {0}
OutstandingWithin (some outstanding) lane before after = Within (outstanding lane before) after

-- The accounts before and after a chunk is handed to a lane, and the windows.
pub record InWindows (w : Windows) (lane window_bytes : ℕ) (before after : Load) : Type 0 where
  pub flow : Within w.total after.total
  pub unacknowledged : OutstandingWithin w.outstanding lane (before.bytes lane) (after.bytes lane)
  pub queued :
      (before.queued lane ≡ 0)
      ⊎ (Within window_bytes (after.queued lane)
          × Within (w.lane lane (before.queued lane)) (after.queued lane))

exceeds-Within :
    (limit held n chunk : ℕ)
    → exceeds limit held n ≡ false
    → chunk ≤ n
    → Within limit (held + chunk)
unfolding exceeds
exceeds-Within limit held n chunk e l = ground arith

outstanding-Within :
    (o : Option (ℕ → ℕ → ℕ)) (lane held n chunk : ℕ)
    → elim o [ none ↦ false | some f ↦ exceeds (f lane held) held n ] ≡ false
    → chunk ≤ n
    → OutstandingWithin o lane held (held + chunk)
outstanding-Within none lane held n chunk e l = tt
outstanding-Within (some f) lane held n chunk e l = exceeds-Within (f lane held) held n chunk e l

window_full-Within :
    (load : Load) (w : Windows) (lane n chunk : ℕ)
    → window_full load (some w) lane n ≡ false
    → chunk ≤ n
    → Within w.total (load.total + chunk)
      × OutstandingWithin w.outstanding lane (load.bytes lane) (load.bytes lane + chunk)
unfolding window_full
window_full-Within load w lane n chunk e l = (
  exceeds-Within w.total load.total n chunk (ground arith) l,
  outstanding-Within w.outstanding lane (load.bytes lane) n chunk (ground arith) l,
)

lane-Within :
    (load : Load) (w : Windows) (lane window_bytes n chunk : ℕ)
    → (exceeds window_bytes (load.queued lane) n || lane_full load (some w) lane n) ≡ false
    → chunk ≤ n
    → Within window_bytes (load.queued lane + chunk)
      × Within (w.lane lane (load.queued lane)) (load.queued lane + chunk)
unfolding lane_full
lane-Within load w lane window_bytes n chunk e l = (
  exceeds-Within window_bytes (load.queued lane) n chunk (ground arith) l,
  exceeds-Within (w.lane lane (load.queued lane)) (load.queued lane) n chunk (ground arith) l,
)

-- What the tests of `hasRoomLocked` say of a flow that holds something.
has_room-tests :
    (s : Scheduler) (env : Environment) (lane window_bytes chunk : ℕ) (w : Windows)
    → env.windows ≡ some w
    → 0 < s.load.total
    → has_room s env lane window_bytes chunk ≡ true
    → (n : ℕ) × (chunk ≤ n)
      × (window_full s.load (some w) lane n ≡ false)
      × ((s.load.queued lane ≡ 0)
          ⊎ ((exceeds window_bytes (s.load.queued lane) n || lane_full s.load (some w) lane n)
              ≡ false))
unfolding has_room
has_room-tests s env lane window_bytes chunk w e p r =
    let n = if chunk == 0 then 1 else chunk in
    (n, ground arith, ground (arith, e, p, r), ground (arith, e, p, r))

charged :
    (load : Load) (lane n : ℕ)
    → ((charge load lane n).total ≡ load.total + n)
      × ((charge load lane n).bytes lane ≡ load.bytes lane + n)
      × ((charge load lane n).queued lane ≡ load.queued lane + n)
unfolding charge
charged load lane n = (refl, ground arith, ground arith)

has_room-InWindows :
    (s : Scheduler) (env : Environment) (lane window_bytes chunk : ℕ) (w : Windows)
    → env.windows ≡ some w
    → 0 < s.load.total
    → has_room s env lane window_bytes chunk ≡ true
    → InWindows w lane window_bytes s.load (charge s.load lane chunk)
has_room-InWindows s env lane window_bytes chunk w e p r =
    let (n, l, open_, free) = has_room-tests s env lane window_bytes chunk w e p r in
    let (a, b) = window_full-Within s.load w lane n chunk open_ l in
    let (t, c, q) = charged s.load lane chunk in
    record {
      flow = rw t a;
      unacknowledged = rw c b;
      queued = elim free [
        | inl z ↦ inl z
        | inr k ↦ inr (rw q (lane-Within s.load w lane window_bytes n chunk k l))
      ];
    }

-- A flow that holds something is handed a chunk that is not urgent only within its windows: what
-- the flow holds afterwards fits `Total`; what the lane then has unacknowledged fits `Outstanding`,
-- where the windows have it; and what the lane then has queued fits both `Lane` and the window given
-- to `Next`, unless it had nothing queued before. A window of 0 is no limit.
pub next_within :
    (s : Scheduler) (env : Environment) (is_cancelled : Bool) (lane window_bytes : ℕ)
    (chunk : Chunk) (s' : Scheduler) (w : Windows)
    → next s env is_cancelled lane window_bytes ≡ issued chunk s'
    → env.windows ≡ some w
    → 0 < s.load.total
    → s.urgent chunk.offset ≡ false
    → InWindows w lane window_bytes s.load s'.load
unfolding dispatch
next_within s env is_cancelled lane window_bytes chunk s' w e f p u =
    let t = next-Taken s env is_cancelled lane window_bytes chunk s' e in
    let at : chunk.offset ≡ t.offset = ap (λ (r : Chunk × Scheduler). r.0.offset) t.result in
    let load : s'.load ≡ charge s.load lane (size s t.offset) =
      ap (λ (r : Chunk × Scheduler). r.1.load) t.result in
    let room : has_room s env lane window_bytes (size s t.offset) ≡ true =
      ground (arith, t.admitted, ap s.urgent at, u) in
    subst (InWindows w lane window_bytes s.load) (sym load)
      (has_room-InWindows s env lane window_bytes (size s t.offset) w f p room)
