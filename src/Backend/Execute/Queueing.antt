-- ===== src/Backend/Execute/Queueing.antt =====
-- What an offer of Execute, bridge/src/EnhancedInputBackend.cpp, does to the event queue.
use ue4sslua_event_bridge.Base.{length, ℕ, ◌≡◌, refl, ◌∙◌, true, not, ◌||◌, [], ◌∷◌, ◌++◌, if_all}
use ue4sslua_event_bridge.Queue.Capacity.{QueueCapacity, admit}
use ue4sslua_event_bridge.Queue.Buffers.{publish, push_back}
use ue4sslua_event_bridge.Backend.State.{
  EnhancedInputEvent, EnhancedInputDispatchState, EnhancedInputSubscription, EnhancedInputBackend,
  delivery_valid, put_dispatch, queue_capacity,
}
use ue4sslua_event_bridge.Backend.Faults.{latch_delivery_fault, latch_delivery_fault-Keeps}
use ue4sslua_event_bridge.Backend.Execute.{
  warn_overflow, push_event, Verdict, refuse_full, offer, queued, binding_inactive,
  dispatch_stopped, capacity_exceeded,
}

-- A change of the backend that leaves the event queue, its flag and the spare buffer alone.
pub record KeepsQueue (b b' : EnhancedInputBackend) : Type 0 where
  pub events : b'.dispatch.events ≡ b.dispatch.events
  pub ready : b'.dispatch.events_ready ≡ b.dispatch.events_ready
  pub spare : b'.dispatch.spare_events ≡ b.dispatch.spare_events

-- The event at the end of the queue, which is announced.
pub record Enqueues (b b' : EnhancedInputBackend) (event : EnhancedInputEvent) : Type 0 where
  pub items : b'.dispatch.events.items ≡ b.dispatch.events.items ++ (event ∷ [])
  pub ready : b'.dispatch.events_ready.pending ≡ true
  pub spare : b'.dispatch.spare_events ≡ b.dispatch.spare_events

-- An offer queues its event or keeps the queue, as its verdict says.
unfoldable pub Offers :
    EnhancedInputBackend → EnhancedInputEvent → EnhancedInputBackend × Verdict → Type 0
Offers b event (b', queued) = Enqueues b b' event
Offers b event (b', binding_inactive) = KeepsQueue b b'
Offers b event (b', dispatch_stopped) = KeepsQueue b b'
Offers b event (b', capacity_exceeded) = KeepsQueue b b'

warn_overflow-Keeps :
    (b : EnhancedInputBackend) (session : ℕ)
    → KeepsQueue b (put_dispatch b (warn_overflow b.dispatch session))
unfolding put_dispatch warn_overflow
warn_overflow-Keeps b session =
    let d = b.dispatch in
    let P : EnhancedInputDispatchState → Type 0 = λ d'. KeepsQueue b (record b { dispatch = d' }) in
    let same : KeepsQueue b b = record { events = refl; ready = refl; spare = refl } in
    let (capacity, admitted) = admit d.trace_capacity (length d.traces.items) in
    if_all P d.event_capacity.warning_pending _ d
      (λ _.
        if_all P admitted _ _ (λ _. record { events = refl; ready = refl; spare = refl })
          (λ _. record { events = refl; ready = refl; spare = refl }))
      (λ _. same)

refuse_full-Keeps :
    (b : EnhancedInputBackend) (owner : EnhancedInputSubscription) (capacity : QueueCapacity)
    → KeepsQueue b (refuse_full b owner capacity)
unfolding refuse_full
refuse_full-Keeps b owner capacity =
    let full = put_dispatch b (record b.dispatch { event_capacity = capacity }) in
    let refused = latch_delivery_fault full owner.delivery queue_capacity in
    let latched = latch_delivery_fault-Keeps full owner.delivery queue_capacity in
    let warned = warn_overflow-Keeps refused owner.session in
    unfold put_dispatch in
    record {
      events = warned.events ∙ latched.events;
      ready = warned.ready ∙ latched.events_ready;
      spare = warned.spare ∙ latched.spare_events;
    }

push_event-Enqueues :
    (b : EnhancedInputBackend) (event : EnhancedInputEvent) (capacity : QueueCapacity)
    → Enqueues b (put_dispatch b (push_event b.dispatch event capacity)) event
unfolding put_dispatch push_event push_back publish
push_event-Enqueues b event capacity = record { items = refl; ready = refl; spare = refl }

pub offer-Offers :
    (b : EnhancedInputBackend) (owner : EnhancedInputSubscription) (event : EnhancedInputEvent)
    → Offers b event (offer b owner event)
unfolding offer Offers
offer-Offers b owner event =
    let same : KeepsQueue b b = record { events = refl; ready = refl; spare = refl } in
    let (capacity, admitted) = admit b.dispatch.event_capacity (length b.dispatch.events.items) in
    if_all (Offers b event) (not owner.active || not (delivery_valid b owner)) (b, binding_inactive)
      _ (λ _. same)
      (λ _.
        if_all (Offers b event) (not b.dispatch.accepting) (b, dispatch_stopped) _ (λ _. same)
          (λ _.
            if_all (Offers b event) admitted
              (put_dispatch b (push_event b.dispatch event capacity), queued)
              (refuse_full b owner capacity, capacity_exceeded)
              (λ _. push_event-Enqueues b event capacity)
              (λ _. refuse_full-Keeps b owner capacity)))
