-- ===== src/Backlog.antt =====
-- queqiao/internal/pep/inbound_queue.go: the overflow of a flow's event channel, and the pump that
-- feeds it back. Each function is one critical section, or one select, of the code. An event is any
-- value with a payload of a known length; the shared budget is passed in and handed back.
pub mod Order
mod Tests
use sing_quic.Prelude.{
  ℕ, suc, ◌+◌, ◌-◌, Bool, true, false, not, ◌&&◌, ◌||◌, Option, none, some, List, [], ◌∷◌, ◌++◌,
  ltb, leb, if◌then◌else◌, length,
}
use sing_quic.MemLimit.{Budget, Released, try_acquire, release, done, panicked}
use sing_quic.Reassembly.{add64, sub64}

-- `f.memoryLimits`
pub record Limits : Type 0 where
  pub max_receive_bytes : ℕ
  pub max_receive_frames : ℕ

-- `inboundBacklog` and what it meets of the flow: the channel of events with its capacity, the
-- event that the pump holds between the queue and the channel, and whether the flow has ended.
pub record Backlog (E : Type 0) : Type 0 where
  pub queue : List E
  pub bytes : ℕ
  pub pumping : Bool
  pub hand : Option E
  pub events : List E
  pub capacity : ℕ
  pub ended : Bool

-- `overflow` is a refusal that is reported on `f.ackErr`.
pub data Enqueued : Type 0 where
  accepted closed overflow : Enqueued

module _ {E : Type 0} (size : E → ℕ) where
  -- The rest of `enqueueInbound`, for an event that the channel does not take.
  unfoldable pub enqueue_overflow :
      Limits → Backlog E → Option Budget → E → Enqueued × Backlog E × Option Budget
  enqueue_overflow limits f memory event =
      if ltb limits.max_receive_bytes (add64 f.bytes (size event))
        || leb limits.max_receive_frames (length f.queue)
      then (overflow, f, memory)
      else (let (granted, memory') = try_acquire memory (size event) in
          if granted
          then (
            accepted,
            record f {
              queue = f.queue ++ (event ∷ []);
              bytes = add64 f.bytes (size event);
              pumping = true;
            },
            memory',
          )
          else (overflow, f, memory'))

  -- `enqueueInbound`
  unfoldable pub enqueue_inbound :
      Limits → Backlog E → Option Budget → E → Enqueued × Backlog E × Option Budget
  unfolding enqueue_overflow
  enqueue_inbound limits f memory event =
      if f.ended
      then (closed, f, memory)
      else if not f.pumping && ltb (length f.events) f.capacity
      then (accepted, record f { events = f.events ++ (event ∷ []) }, memory)
      else enqueue_overflow limits f memory event

  -- The locked part of a round of `pumpInbound`: the pump retires, or holds the first event.
  unfoldable pub pump_take : Backlog E → Option Budget → Option (Backlog E × Option Budget)
  pump_take f memory = elim f.queue [
    | [] ↦ some (record f { queue = []; pumping = false }, memory)
    | event ∷ rest ↦ elim (release memory (size event)) [
      | panicked ↦ none
      | done memory' ↦ some (
        record f { queue = rest; bytes = sub64 f.bytes (size event); hand = some event },
        memory',
      )
    ]
  ]

  -- `case f.events <- event`, where the channel has room.
  unfoldable pub pump_publish : Backlog E → Option (Backlog E)
  pump_publish f = elim f.hand [
    | none ↦ none
    | some event ↦
        if ltb (length f.events) f.capacity
        then some (record f { events = f.events ++ (event ∷ []); hand = none })
        else none
  ]

  -- The loop of `cleanup`.
  unfoldable pub release_events : List E → Option Budget → Released
  release_events [] memory = done memory
  release_events (event ∷ rest) memory =
      let later = λ (m : Option Budget). release_events rest m in
      elim (release memory (size event)) [ done m ↦ later m | panicked ↦ panicked ]

  -- `cleanup`, when the flow has ended.
  unfoldable pub cleanup : Backlog E → Option Budget → Option (Backlog E × Option Budget)
  unfolding release_events
  cleanup f memory = elim (release_events f.queue memory) [
    | panicked ↦ none
    | done memory' ↦
        some (record f { queue = []; bytes = 0; pumping = false; hand = none }, memory')
  ]
