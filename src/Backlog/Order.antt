-- ===== src/Backlog/Order.antt =====
-- The order in which a flow receives its events (queqiao/internal/pep/inbound_queue.go), whatever
-- the interleaving of lane readers, the pump and the receiving loop.
use sing_quic.Prelude.{
  ℕ, ◌≡◌, ◌≢◌, refl, sym, ◌∙◌, subst, ◌⊎◌, true, false, Option, none, some, List, [], ◌∷◌, ◌++◌,
  arith, append-nil, append_assoc, inl, inr,
}
use sing_quic.MemLimit.{Budget}
use sing_quic.Backlog.{
  Limits, Backlog, Enqueued, accepted, enqueue_inbound, enqueue_overflow, pump_take, pump_publish,
  cleanup,
}

module _ {E : Type 0} (size : E → ℕ) (limits : Limits) where
  abbrev pub held : Option E → List E
  held none = []
  held (some e) = e ∷ []

  -- A flow with the events that were accepted and those that the receiving loop has taken, in order.
  pub record Flow : Type 0 where
    pub backlog : Backlog E
    pub taken_in : List E
    pub received : List E

  -- One critical section or select. The budget changes as it will between two steps.
  pub data Step : Flow → Flow → Type 0 where
    enqueues :
        (f : Flow) (event : E) (memory memory' : Option Budget) (b : Backlog E)
        → enqueue_inbound size limits f.backlog memory event ≡ (accepted, b, memory')
        → Step f
            (record { backlog = b; taken_in = f.taken_in ++ (event ∷ []); received = f.received })
    refuses :
        (f : Flow) (event : E) (memory memory' : Option Budget) (b : Backlog E) (o : Enqueued)
        → o ≢ accepted
        → enqueue_inbound size limits f.backlog memory event ≡ (o, b, memory')
        → Step f (record f { backlog = b })
    takes :
        (f : Flow) (memory memory' : Option Budget) (b : Backlog E)
        → f.backlog.pumping ≡ true
        → f.backlog.hand ≡ none
        → pump_take size f.backlog memory ≡ some (b, memory')
        → Step f (record f { backlog = b })
    publishes :
        (f : Flow) (b : Backlog E)
        → pump_publish size f.backlog ≡ some b
        → Step f (record f { backlog = b })
    cleans :
        (f : Flow) (memory memory' : Option Budget) (b : Backlog E)
        → f.backlog.ended ≡ true
        → f.backlog.pumping ≡ true
        → cleanup size f.backlog memory ≡ some (b, memory')
        → Step f (record f { backlog = b })
    receives :
        (f : Flow) (event : E) (rest : List E)
        → f.backlog.events ≡ event ∷ rest
        → Step f (record {
          backlog = record f.backlog { events = rest };
          taken_in = f.taken_in;
          received = f.received ++ (event ∷ []);
        })
    ends : (f : Flow) → Step f (record f { backlog = record f.backlog { ended = true } })

  pub data Reach (f : Flow) : Flow → Type 0 where
    start : Reach f f
    next : {g h : Flow} → Reach f g → Step g h → Reach f h

  -- What waits, in order.
  abbrev pub waiting : Backlog E → List E
  waiting b = b.events ++ (held b.hand ++ b.queue)

  -- Nothing is lost before the flow ends, and without a pump nothing waits behind the channel.
  pub record IsOrdered (f : Flow) : Type 0 where
    pub lost : List E
    pub whole : f.taken_in ≡ f.received ++ (waiting f.backlog ++ lost)
    pub kept : f.backlog.ended ≡ false → lost ≡ []
    pub idle : f.backlog.pumping ≡ false → held f.backlog.hand ++ f.backlog.queue ≡ []

  -- The fields after an event was accepted.
  enqueue_accepted :
      (f b : Backlog E) (event : E) (memory memory' : Option Budget)
      → enqueue_inbound size limits f memory event ≡ (accepted, b, memory')
      → (f.ended ≡ false)
        × (b.ended ≡ f.ended)
        × (b.hand ≡ f.hand)
        × ((f.pumping ≡ false)
              × (b.pumping ≡ false)
              × (b.queue ≡ f.queue)
              × (b.events ≡ f.events ++ (event ∷ []))
            ⊎ (b.pumping ≡ true) × (b.queue ≡ f.queue ++ (event ∷ [])) × (b.events ≡ f.events))
  unfolding enqueue_inbound enqueue_overflow
  enqueue_accepted f b event memory memory' e = ground (arith, e)

  enqueue_refused :
      (f b : Backlog E) (event : E) (memory memory' : Option Budget) (x : Enqueued)
      → x ≢ accepted
      → enqueue_inbound size limits f memory event ≡ (x, b, memory')
      → b ≡ f
  unfolding enqueue_inbound enqueue_overflow
  enqueue_refused f b event memory memory' x n e = ground (arith, e, n)

  pump_take-fields :
      (f b : Backlog E) (memory memory' : Option Budget)
      → f.hand ≡ none
      → pump_take size f memory ≡ some (b, memory')
      → (b.ended ≡ f.ended)
        × (b.events ≡ f.events)
        × (held b.hand ++ b.queue ≡ f.queue)
        × ((b.pumping ≡ false) × (f.queue ≡ []) ⊎ (b.pumping ≡ f.pumping))
  unfolding pump_take
  pump_take-fields f b memory memory' h e = ground (arith, e, h)

  pump_publish-fields :
      (f b : Backlog E)
      → pump_publish size f ≡ some b
      → (b.ended ≡ f.ended)
        × (b.pumping ≡ f.pumping)
        × (b.queue ≡ f.queue)
        × (b.hand ≡ none)
        × (b.events ≡ f.events ++ held f.hand)
  unfolding pump_publish
  pump_publish-fields f b e = ground (arith, e)

  cleanup-fields :
      (f b : Backlog E) (memory memory' : Option Budget)
      → cleanup size f memory ≡ some (b, memory')
      → (b.ended ≡ f.ended) × (b.queue ≡ []) × (b.hand ≡ none) × (b.events ≡ f.events)
  unfolding cleanup
  cleanup-fields f b memory memory' e = ground (arith, e)

  fast :
      (t r ev w l : List E) (x : E)
      → t ≡ r ++ ((ev ++ w) ++ l)
      → w ≡ []
      → l ≡ []
      → t ++ (x ∷ []) ≡ r ++ (((ev ++ (x ∷ [])) ++ w) ++ [])
  fast t r ev w l x e a b = rw (e, a, b) (simp (append-nil, append_assoc))

  slow :
      (t r ev h q l : List E) (x : E)
      → t ≡ r ++ ((ev ++ (h ++ q)) ++ l)
      → l ≡ []
      → t ++ (x ∷ []) ≡ r ++ ((ev ++ (h ++ (q ++ (x ∷ [])))) ++ [])
  slow t r ev h q l x e b = rw (e, b) (simp (append-nil, append_assoc))

  right_nil : (xs ys : List E) → xs ++ ys ≡ [] → ys ≡ []
  right_nil [] ys e = e
  right_nil (x ∷ xs) ys e = absurd (ground (arith, e))

  Step-IsOrdered : {f g : Flow} → Step f g → IsOrdered f → IsOrdered g
  Step-IsOrdered (enqueues f event memory memory' b e) o =
      let (open_, same, hand, moved) = enqueue_accepted f.backlog b event memory memory' e in
      elim moved [
        | inl (idle, p, q, v) ↦ record {
          lost = [];
          whole =
              rw (hand, q, v)
                (fast f.taken_in f.received f.backlog.events _ o.lost event o.whole (o.idle idle)
                  (o.kept open_));
          kept = λ _. refl;
          idle = λ _. rw (hand, q) (o.idle idle);
        }
        | inr (p, q, v) ↦ record {
          lost = [];
          whole =
              rw (hand, q, v)
                (slow f.taken_in f.received f.backlog.events (held f.backlog.hand) f.backlog.queue
                  o.lost event o.whole (o.kept open_));
          kept = λ _. refl;
          idle = λ n. absurd (ground (arith, p, n));
        }
      ]
  Step-IsOrdered (refuses f event memory memory' b x n e) o =
      subst (λ c. IsOrdered (record f { backlog = c }))
        (sym (enqueue_refused f.backlog b event memory memory' x n e)) o
  Step-IsOrdered (takes f memory memory' b p h e) o =
      let (ended, events, rest, moved) = pump_take-fields f.backlog b memory memory' h e in
      record {
        lost = o.lost;
        whole = rw (events, rest) (rw h at o.whole);
        kept = λ n. o.kept (sym ended ∙ n);
        idle = λ n.
            rest ∙ elim moved [ inl (_, q) ↦ q | inr same ↦ absurd (ground (arith, same, p, n)) ];
      }
  Step-IsOrdered (publishes f b e) o =
      let (ended, pumping, queue, hand, events) = pump_publish-fields f.backlog b e in
      record {
        lost = o.lost;
        whole = rw (queue, hand, events) (o.whole ∙ simp append_assoc);
        kept = λ n. o.kept (sym ended ∙ n);
        idle = λ n.
            rw (queue, hand)
              (right_nil (held f.backlog.hand) f.backlog.queue (o.idle (sym pumping ∙ n)));
      }
  Step-IsOrdered (cleans f memory memory' b d p e) o =
      let (ended, queue, hand, events) = cleanup-fields f.backlog b memory memory' e in
      record {
        lost = (held f.backlog.hand ++ f.backlog.queue) ++ o.lost;
        whole = rw (queue, hand, events) (o.whole ∙ simp (append-nil, append_assoc));
        kept = λ n. absurd (ground (arith, n, ended, d));
        idle = λ n. rw (queue, hand) refl;
      }
  Step-IsOrdered (receives f event rest e) o = record {
    lost = o.lost;
    whole = (rw e at o.whole) ∙ simp append_assoc;
    kept = o.kept;
    idle = o.idle;
  }
  Step-IsOrdered (ends f) o = record {
    lost = o.lost;
    whole = o.whole;
    kept = ground arith;
    idle = o.idle;
  }

  -- Whatever the interleaving of lane readers, pump and receiving loop, the events that were accepted
  -- are, in the order of their acceptance, those that were received, those in the channel, the one
  -- that the pump holds and those in the backlog, and behind these none as long as the flow has not
  -- ended.
  pub Reach-IsOrdered : {f g : Flow} → IsOrdered f → Reach f g → IsOrdered g
  Reach-IsOrdered o start = o
  Reach-IsOrdered o (next r t) = Step-IsOrdered t (Reach-IsOrdered o r)
