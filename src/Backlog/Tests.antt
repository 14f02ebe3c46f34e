-- ===== src/Backlog/Tests.antt =====
-- Three events for a channel that holds one (queqiao/internal/pep/inbound_queue.go). An event is
-- the length of its payload.
use sing_quic.Prelude.{ℕ, ◌≡◌, refl, true, false, Option, none, some, [], ◌∷◌}
use sing_quic.MemLimit.{Budget, try_acquire, release, charge}
use sing_quic.Backlog.{
  Limits, Backlog, closed, overflow, enqueue_inbound, enqueue_overflow, pump_take, pump_publish,
  release_events, cleanup,
}
use sing_quic.Backlog.Order.{
  Flow, Reach, start, next, enqueues, takes, receives, publishes, IsOrdered, Reach-IsOrdered,
}

abbrev size : ℕ → ℕ
size n = n

abbrev limits : Limits
limits = record { max_receive_bytes = 10; max_receive_frames = 2 }

abbrev empty_backlog : Backlog ℕ
empty_backlog = record {
  queue = [];
  bytes = 0;
  pumping = false;
  hand = none;
  events = [];
  capacity = 1;
  ended = false;
}

abbrev fresh : Flow size limits
fresh = record { backlog = empty_backlog; taken_in = []; received = [] }

abbrev memory0 : Option Budget
memory0 = some (record { capacity = 9; used = 0; peak = 0; waiters = 0 })

abbrev memory4 : Option Budget
memory4 = some (record { capacity = 9; used = 4; peak = 4; waiters = 0 })

abbrev memory9 : Option Budget
memory9 = some (record { capacity = 9; used = 9; peak = 9; waiters = 0 })

abbrev one : Backlog ℕ
one = record empty_backlog { events = 3 ∷ [] }

abbrev two : Backlog ℕ
two = record one { queue = 4 ∷ []; bytes = 4; pumping = true }

abbrev three : Backlog ℕ
three = record two { queue = 4 ∷ 5 ∷ []; bytes = 9 }

-- The pump holds the second event, and the receiving loop has taken the first.
abbrev last : Flow size limits
last = record {
  backlog = record three { queue = 5 ∷ []; bytes = 5; hand = none; events = 4 ∷ [] };
  taken_in = 3 ∷ 4 ∷ 5 ∷ [];
  received = 3 ∷ [];
}

run : Reach size limits fresh last
unfolding enqueue_inbound enqueue_overflow try_acquire charge release pump_take pump_publish
run =
    next
      (next
        (next
          (next
            (next (next start (enqueues fresh 3 memory0 memory0 one refl))
              (enqueues _ 4 memory0 memory4 two refl))
            (enqueues _ 5 memory4 memory9 three refl))
          (takes _ memory9 (some (record { capacity = 9; used = 5; peak = 9; waiters = 0 }))
            (record three { queue = 5 ∷ []; bytes = 5; hand = some 4 }) refl refl refl))
        (receives _ 3 [] refl))
      (publishes _ last.backlog refl)

fresh-IsOrdered : IsOrdered size limits fresh
fresh-IsOrdered = record { lost = []; whole = refl; kept = λ _. refl; idle = λ _. refl }

-- No room for another frame, and none for an event of an ended flow.
enqueue_refusals :
    (enqueue_inbound size limits three memory9 1 ≡ (overflow, three, memory9))
    × (enqueue_inbound size limits (record one { ended = true }) memory0 1
        ≡ (closed, record one { ended = true }, memory0))
unfolding enqueue_inbound enqueue_overflow
enqueue_refusals = (refl, refl)

cleanup-three :
    cleanup size three memory9
    ≡ some
        (record one { queue = [] }, some (record { capacity = 9; used = 0; peak = 9; waiters = 0 }))
unfolding cleanup release_events release
cleanup-three = refl

Reach-IsOrdered_example : IsOrdered size limits last
Reach-IsOrdered_example = Reach-IsOrdered size limits fresh-IsOrdered run
