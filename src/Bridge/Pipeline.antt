-- ===== src/Bridge/Pipeline.antt =====
-- The way of an event from the producer, Execute of bridge/src/EnhancedInputBackend.cpp, through the
-- producer's queue, the exchange of buffers and the backlog to the consumer of on_update,
-- bridge/src/BridgeMod.cpp.
use ue4sslua_event_bridge.Base.{
  length, ◌^◌, ◌<◌, ◌≡◌, refl, sym, ap, ◌∙◌, subst, ◌≢◌, inl, inr, some, List, [], ◌∷◌, ◌++◌, arith,
  some-injective,
}
use ue4sslua_event_bridge.Dispatch.Backlog.{DispatchBacklog, new_backlog, pop, pending, pop-Pops}
use ue4sslua_event_bridge.Backend.State.{
  EnhancedInputEvent, EnhancedInputSubscription, EnhancedInputBackend,
}
use ue4sslua_event_bridge.Backend.Execute.{
  Verdict, offer, queued, binding_inactive, dispatch_stopped, capacity_exceeded,
}
use ue4sslua_event_bridge.Backend.Execute.Queueing.{KeepsQueue, Enqueues, Offers, offer-Offers}
use ue4sslua_event_bridge.Bridge.Update.{Pending, fetch_events}
use ue4sslua_event_bridge.Bridge.Update.Fetch.{waiting, IsPipe, Fetches, fetch_events-Fetches}

-- The two queues, with what the producer has queued and what the consumer has been handed so far.
pub record Pipe : Type 0 where
  pub backend : EnhancedInputBackend
  pub pending_events : Pending EnhancedInputEvent
  pub produced : List EnhancedInputEvent
  pub consumed : List EnhancedInputEvent

abbrev pub new_pipe : EnhancedInputBackend → Pipe
new_pipe b = record {
  backend = b;
  pending_events = record { backlog = new_backlog; room = 0 };
  produced = [];
  consumed = [];
}

-- What the producer has queued after an offer.
abbrev pub with_queued :
    Verdict → List EnhancedInputEvent → EnhancedInputEvent → List EnhancedInputEvent
with_queued queued produced event = produced ++ (event ∷ [])
with_queued _ produced event = produced

-- The steps, in any order: the producer offers an event, the consumer fetches fresh events or takes
-- the next one, and everything else that does not touch the queue.
pub data Step (s : Pipe) : Pipe → Type 0 where
  offers :
      (owner : EnhancedInputSubscription) (event : EnhancedInputEvent)
      → Step s (record s {
        backend = (offer s.backend owner event).0;
        produced = with_queued (offer s.backend owner event).1 s.produced event;
      })
  fetches :
      (b : EnhancedInputBackend) (p : Pending EnhancedInputEvent)
      → length s.backend.dispatch.events.items < 2 ^ 64
      → fetch_events s.backend s.pending_events ≡ some (b, p)
      → Step s (record s { backend = b; pending_events = p })
  takes :
      (event : EnhancedInputEvent) (backlog : DispatchBacklog EnhancedInputEvent)
      → pop s.pending_events.backlog ≡ some (event, backlog)
      → Step s (record s {
        pending_events = record s.pending_events { backlog = backlog };
        consumed = s.consumed ++ (event ∷ []);
      })
  changes : (b : EnhancedInputBackend) → KeepsQueue s.backend b → Step s (record s { backend = b })

pub data Reach (b : EnhancedInputBackend) : Pipe → Type 0 where
  from_empty : Reach b (new_pipe b)
  then_step : {s t : Pipe} → Reach b s → Step s t → Reach b t

-- The abstract queue: what was put in is what came out, followed by what is waiting.
pub record IsFifo (s : Pipe) : Type 0 where
  pub order : s.produced ≡ s.consumed ++ waiting s.backend s.pending_events
  pub pipe : IsPipe s.backend s.pending_events

append_assoc : (xs ys zs : List EnhancedInputEvent) → (xs ++ ys) ++ zs ≡ xs ++ (ys ++ zs)
append_assoc [] ys zs = refl
append_assoc (x ∷ xs) ys zs = ap (λ t. x ∷ t) (append_assoc xs ys zs)

not_nil : (xs : List EnhancedInputEvent) (x : EnhancedInputEvent) → xs ++ (x ∷ []) ≢ []
not_nil [] x e = ground (arith, e)
not_nil (y ∷ xs) x e = ground (arith, e)

keeps-IsFifo :
    (s : Pipe) (b : EnhancedInputBackend)
    → KeepsQueue s.backend b
    → IsFifo s
    → IsFifo (record s { backend = b })
unfolding waiting
keeps-IsFifo s b k h = record {
  order =
      h.order
      ∙ ap (λ q. s.consumed ++ (pending s.pending_events.backlog ++ q.items)) (sym k.events);
  pipe = record {
    announced = λ some_left.
        ap (λ r. r.pending) k.ready
        ∙ h.pipe.announced (λ e. some_left (ap (λ q. q.items) k.events ∙ e));
    spare = ap (λ q. q.items) k.spare ∙ h.pipe.spare;
    backlog = h.pipe.backlog;
  };
}

Enqueues-IsFifo :
    (s : Pipe) (b : EnhancedInputBackend) (event : EnhancedInputEvent)
    → Enqueues s.backend b event
    → IsFifo s
    → IsFifo (record s { backend = b; produced = s.produced ++ (event ∷ []) })
unfolding waiting
Enqueues-IsFifo s b event k h =
    let old = pending s.pending_events.backlog in
    let items = s.backend.dispatch.events.items in
    record {
      order =
          ap (λ xs. xs ++ (event ∷ [])) h.order
          ∙ append_assoc s.consumed (old ++ items) (event ∷ [])
          ∙ ap (λ xs. s.consumed ++ xs) (append_assoc old items (event ∷ []))
          ∙ ap (λ xs. s.consumed ++ (old ++ xs)) (sym k.items);
      pipe = record {
        announced = λ some_left. k.ready;
        spare = ap (λ q. q.items) k.spare ∙ h.pipe.spare;
        backlog = h.pipe.backlog;
      };
    }

Offers-IsFifo :
    (s : Pipe) (event : EnhancedInputEvent) (r : EnhancedInputBackend × Verdict)
    → Offers s.backend event r
    → IsFifo s
    → IsFifo (record s { backend = r.0; produced = with_queued r.1 s.produced event })
unfolding Offers
Offers-IsFifo s event (b, queued) k h = Enqueues-IsFifo s b event k h
Offers-IsFifo s event (b, binding_inactive) k h = keeps-IsFifo s b k h
Offers-IsFifo s event (b, dispatch_stopped) k h = keeps-IsFifo s b k h
Offers-IsFifo s event (b, capacity_exceeded) k h = keeps-IsFifo s b k h

Fetches-IsFifo :
    (s : Pipe) (b : EnhancedInputBackend) (p : Pending EnhancedInputEvent)
    → fetch_events s.backend s.pending_events ≡ some (b, p)
    → Fetches s.backend s.pending_events (fetch_events s.backend s.pending_events)
    → IsFifo s
    → IsFifo (record s { backend = b; pending_events = p })
unfolding Fetches
Fetches-IsFifo s b p e (b', p', e', same, pipe) h =
    let one : (b', p') ≡ (b, p) = some-injective (sym e' ∙ e) in
    subst (λ x. IsFifo (record s { backend = x.0; pending_events = x.1 })) one
      (record { order = h.order ∙ ap (λ xs. s.consumed ++ xs) (sym same); pipe = pipe })

takes-IsFifo :
    (s : Pipe) (event : EnhancedInputEvent) (backlog : DispatchBacklog EnhancedInputEvent)
    → pop s.pending_events.backlog ≡ some (event, backlog)
    → IsFifo s
    → IsFifo (record s {
      pending_events = record s.pending_events { backlog = backlog };
      consumed = s.consumed ++ (event ∷ []);
    })
unfolding waiting
takes-IsFifo s event backlog e h = elim (pop-Pops s.pending_events.backlog h.pipe.backlog) [
  | inl (none_left, refused) ↦ absurd (ground (arith, sym refused ∙ e))
  | inr (x, rest, front, popped, well) ↦
      let one : (x, rest) ≡ (event, backlog) = some-injective (sym popped ∙ e) in
      let queue = s.backend.dispatch.events.items in
      subst
        (λ y. IsFifo (record s {
          pending_events = record s.pending_events { backlog = y.1 };
          consumed = s.consumed ++ (y.0 ∷ []);
        }))
        one
        (record {
          order =
              h.order
              ∙ ap (λ xs. s.consumed ++ (xs ++ queue)) front
              ∙ sym (append_assoc s.consumed (x ∷ []) (pending rest ++ queue));
          pipe = record { announced = h.pipe.announced; spare = h.pipe.spare; backlog = well };
        })
]

Step-IsFifo : {s t : Pipe} → Step s t → IsFifo s → IsFifo t
Step-IsFifo {s} (offers owner event) h =
    Offers-IsFifo s event (offer s.backend owner event) (offer-Offers s.backend owner event) h
Step-IsFifo {s} (fetches b p small e) h =
    Fetches-IsFifo s b p e (fetch_events-Fetches s.backend s.pending_events h.pipe small) h
Step-IsFifo {s} (takes event backlog e) h = takes-IsFifo s event backlog e h
Step-IsFifo {s} (changes b k) h = keeps-IsFifo s b k h

-- The two queues, the exchange of buffers and the backlog together are one first-in first-out queue:
-- after any offers, fetches, pops and changes that leave the queue alone, from an empty queue and an
-- empty spare buffer, the events that the producer has queued are, in their order, those that the
-- consumer was handed, followed by those that wait. So no event is lost, doubled or overtaken on its
-- way; a deactivation, which removes events, is not among the steps.
pub Reach-IsFifo :
    {b : EnhancedInputBackend} {s : Pipe}
    → b.dispatch.events.items ≡ []
    → b.dispatch.spare_events.items ≡ []
    → Reach b s
    → IsFifo s
unfolding waiting pending
Reach-IsFifo {b} none_queued spare from_empty = record {
  order = sym none_queued;
  pipe = record {
    announced = λ some_left. absurd (some_left none_queued);
    spare = spare;
    backlog = record { within = omega arith; small = omega arith };
  };
}
Reach-IsFifo none_queued spare (then_step path step) =
    Step-IsFifo step (Reach-IsFifo none_queued spare path)
