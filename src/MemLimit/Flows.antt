-- ===== src/MemLimit/Flows.antt =====
-- The flows of a client on one budget (queqiao/internal/memlimit/budget.go): what each holds, which
-- of them are parked in `Acquire`, and the steps that they take in any order.
use sing_quic.Prelude.{
  ℕ, ◌+◌, ◌-◌, ◌≤◌, ◌<◌, ◌≡◌, Bool, true, Option, none, some, List, length, get_or, set,
}
use sing_quic.MemLimit.{Budget, try_acquire, release, acquire, acquire_pass, wake}
use sing_quic.MemLimit.{granted, parked, done}

-- The bytes that a flow has acquired and not released, and the request that it is parked on.
pub record Flow : Type 0 where
  pub held : ℕ
  pub waiting : Option ℕ

abbrev pub idle : Flow
idle = record { held = 0; waiting = none }

abbrev pub is_waiting : Flow → ℕ
is_waiting f = elim f.waiting [ none ↦ 0 | some n ↦ 1 ]

pub record Client : Type 0 where
  pub budget : Budget
  pub flows : List Flow

abbrev pub flow : Client → ℕ → Flow
flow c i = get_or c.flows i idle

-- The client with another budget and another state of flow `i`.
abbrev pub moved : Client → ℕ → Budget → Flow → Client
moved c i b f = record { budget = b; flows = set c.flows i f }

-- One critical section of flow `i`. A flow releases at most what it holds.
pub data Step : Client → Client → Type 0 where
  tries :
      (c : Client) (i n : ℕ) (b : Budget)
      → i < length c.flows
      → (flow c i).waiting ≡ none
      → try_acquire (some c.budget) n ≡ (true, some b)
      → Step c (moved c i b (record { held = (flow c i).held + n; waiting = none }))
  enters :
      (c : Client) (i n : ℕ) (is_cancelled : Bool) (b : Budget)
      → i < length c.flows
      → (flow c i).waiting ≡ none
      → acquire c.budget n is_cancelled ≡ granted b
      → Step c (moved c i b (record { held = (flow c i).held + n; waiting = none }))
  parks :
      (c : Client) (i n : ℕ) (is_cancelled : Bool) (b : Budget)
      → i < length c.flows
      → (flow c i).waiting ≡ none
      → acquire c.budget n is_cancelled ≡ parked b
      → Step c (moved c i b (record { held = (flow c i).held; waiting = some n }))
  resumes :
      (c : Client) (i n : ℕ) (is_cancelled : Bool) (b : Budget)
      → i < length c.flows
      → (flow c i).waiting ≡ some n
      → acquire_pass (wake c.budget) n is_cancelled ≡ granted b
      → Step c (moved c i b (record { held = (flow c i).held + n; waiting = none }))
  parks_again :
      (c : Client) (i n : ℕ) (is_cancelled : Bool) (b : Budget)
      → i < length c.flows
      → (flow c i).waiting ≡ some n
      → acquire_pass (wake c.budget) n is_cancelled ≡ parked b
      → Step c (moved c i b (record { held = (flow c i).held; waiting = some n }))
  gives_up :
      (c : Client) (i n : ℕ)
      → i < length c.flows
      → (flow c i).waiting ≡ some n
      → Step c (moved c i (wake c.budget) (record { held = (flow c i).held; waiting = none }))
  releases :
      (c : Client) (i n : ℕ) (b : Budget)
      → i < length c.flows
      → (flow c i).waiting ≡ none
      → n ≤ (flow c i).held
      → release (some c.budget) n ≡ done (some b)
      → Step c (moved c i b (record { held = (flow c i).held - n; waiting = none }))

pub data Reach (c : Client) : Client → Type 0 where
  start : Reach c c
  next : {d e : Client} → Reach c d → Step d e → Reach c e
