-- ===== src/Backend/Execute.antt =====
-- NativeBinding::Execute of bridge/src/EnhancedInputBackend.cpp: the producer of input events, which
-- Unreal calls. Another thread can act between its two reads of the flags, so the function is two
-- steps, and what happens in between is any change of the backend. The `catch` for a failed
-- allocation is a function of its own.
pub mod Queueing
pub mod Outcomes
use ue4sslua_event_bridge.Base.{
  length, Bytes, text, lookup, ℕ, ◌+◌, ◌%◌, ◌^◌, ◌≡◌, refl, ap, ◌∙◌, Bool, true, false, not, ◌||◌,
  Option, none, some, [], ◌∷◌, ◌++◌, arith, if◌then◌else◌, nat_eq,
}
use ue4sslua_event_bridge.Queue.Capacity.{QueueCapacity, admit, accepted}
use ue4sslua_event_bridge.Queue.Buffers.{publish, push_back}
use ue4sslua_event_bridge.Backend.Engine.{Engine}
use ue4sslua_event_bridge.Backend.State.{
  InputActionInstanceView, EnhancedInputEvent, EnhancedInputDispatchState,
  EnhancedInputSubscription, EnhancedInputBackend, delivery_valid, put_dispatch, set_inactive,
  queue_capacity, queue_exception,
}
use ue4sslua_event_bridge.Backend.Trace.{write_debug_trace}
use ue4sslua_event_bridge.Backend.Faults.{
  latch_delivery_fault, latch_delivery_fault-Keeps, latch_delivery_fault-store,
}

abbrev pub out_of_room : Bytes
out_of_room =
    text
      "[UE4SSLuaEventBridge][ERROR] Event queue capacity exceeded; newest input events rejected. Inspect GetDispatchStats()."

-- The first half: the sequence number, two traces, and the reads of the flags without the lock.
unfoldable pub enter :
    Engine → EnhancedInputBackend → EnhancedInputSubscription → EnhancedInputBackend × ℕ
enter e b owner =
    let sequence = b.dispatch.next_event_sequence in
    let counted =
      put_dispatch b (record b.dispatch { next_event_sequence = (sequence + 1) % 2 ^ 64 }) in
    let seen =
      write_debug_trace e counted owner.session owner.debug (text "enhanced_input_event")
        owner.phase_name sequence [] in
    (
      write_debug_trace e seen owner.session owner.debug (text "native_delegate_entered")
          owner.phase_name sequence [],
      sequence,
    )

-- One visible diagnostic of an overflow episode.
pub warn_overflow : EnhancedInputDispatchState → ℕ → EnhancedInputDispatchState
warn_overflow d session =
    if d.event_capacity.warning_pending
    then (let (capacity, admitted) = admit d.trace_capacity (length d.traces.items) in
        if admitted
        then record d {
          traces = push_back d.traces (record { session = session; line = out_of_room });
          trace_capacity = capacity;
          traces_ready = publish d.traces_ready;
          event_capacity = record d.event_capacity { warning_pending = false };
        }
        else record d { trace_capacity = capacity })
    else d

pub push_event :
    EnhancedInputDispatchState → EnhancedInputEvent → QueueCapacity → EnhancedInputDispatchState
push_event d queued capacity =
    let events = push_back d.events queued in
    record d {
      events = events;
      event_capacity = accepted capacity (length events.items);
      events_ready = publish d.events_ready;
    }

-- Why the event is refused, if it is.
pub data Verdict : Type 0 where
  queued binding_inactive dispatch_stopped capacity_exceeded : Verdict

-- A full queue: the target's fault, and the diagnostic.
pub refuse_full :
    EnhancedInputBackend → EnhancedInputSubscription → QueueCapacity → EnhancedInputBackend
refuse_full b owner capacity =
    let refused =
      latch_delivery_fault (put_dispatch b (record b.dispatch { event_capacity = capacity }))
        owner.delivery queue_capacity in
    put_dispatch refused (warn_overflow refused.dispatch owner.session)

-- The part under the lock of the dispatch state.
unfoldable pub offer :
    EnhancedInputBackend
    → EnhancedInputSubscription
    → EnhancedInputEvent
    → EnhancedInputBackend × Verdict
unfolding warn_overflow push_event refuse_full
offer b owner event =
    if not owner.active || not (delivery_valid b owner)
    then (b, binding_inactive)
    else if not b.dispatch.accepting
    then (b, dispatch_stopped)
    else let (capacity, admitted) =
        admit b.dispatch.event_capacity (length b.dispatch.events.items) in
      if admitted
      then (put_dispatch b (push_event b.dispatch event capacity), queued)
      else (refuse_full b owner capacity, capacity_exceeded)

unfoldable pub verdict_trace :
    Engine → EnhancedInputSubscription → ℕ → EnhancedInputBackend × Verdict → EnhancedInputBackend
verdict_trace e owner sequence (b, queued) =
    write_debug_trace e b owner.session owner.debug (text "event_queued") owner.phase_name sequence
      []
verdict_trace e owner sequence (b, binding_inactive) =
    write_debug_trace e b owner.session owner.debug (text "event_rejected") owner.phase_name
      sequence (text "binding_inactive")
verdict_trace e owner sequence (b, dispatch_stopped) =
    write_debug_trace e b owner.session owner.debug (text "event_rejected") owner.phase_name
      sequence (text "dispatch_stopped")
verdict_trace e owner sequence (b, capacity_exceeded) =
    write_debug_trace e b owner.session owner.debug (text "event_rejected") owner.phase_name
      sequence (text "queue_capacity_exceeded")

-- The subscription as the store has it, or the one given if it is not there.
current : Option EnhancedInputSubscription → EnhancedInputSubscription → EnhancedInputSubscription
current none owner = owner
current (some s) owner = s

-- Execute, with `between` for what other threads do before the lock is taken. `owner` is the
-- subscription as the first half reads it.
unfoldable pub execute :
    Engine
    → (EnhancedInputBackend → EnhancedInputBackend)
    → EnhancedInputBackend
    → EnhancedInputSubscription
    → InputActionInstanceView
    → EnhancedInputBackend
unfolding enter current
execute e between b owner view =
    let (entered, sequence) = enter e b owner in
    if not owner.active || not (delivery_valid entered owner)
    then verdict_trace e owner sequence (entered, binding_inactive)
    else if not entered.dispatch.accepting
    then verdict_trace e owner sequence (entered, dispatch_stopped)
    else let b' = between entered in
      let owner' = current (lookup owner.id b'.subscription_store) owner in
      verdict_trace e owner' sequence (
        offer b' owner' (record {
          subscription = owner.id;
          sequence = sequence;
          owner = owner.id;
          instance_view = view;
        }))

-- The catch clause.
unfoldable pub execute_failed :
    Engine → EnhancedInputBackend → EnhancedInputSubscription → ℕ → EnhancedInputBackend
execute_failed e b owner sequence =
    write_debug_trace e
      (set_inactive (latch_delivery_fault b owner.delivery queue_exception) owner.id) owner.session
      owner.debug (text "event_rejected") owner.phase_name sequence (text "queue_exception")

-- Under the lock, what an event needs to be queued.
abbrev pub MayQueue : EnhancedInputBackend → EnhancedInputSubscription → Type 0
MayQueue b owner =
    (owner.active ≡ true)
    × (delivery_valid b owner ≡ true)
    × (b.dispatch.accepting ≡ true)
    × ((admit b.dispatch.event_capacity (length b.dispatch.events.items)).1 ≡ true)

-- Under the lock an event that may be queued is queued, at the end, and the consumer is told.
pub offer-queued :
    (b : EnhancedInputBackend) (owner : EnhancedInputSubscription) (event : EnhancedInputEvent)
    → MayQueue b owner
    → ((offer b owner event).1 ≡ queued)
      × ((offer b owner event).0.dispatch.events.items ≡ b.dispatch.events.items ++ (event ∷ []))
      × ((offer b owner event).0.dispatch.events_ready.pending ≡ true)
      × ((offer b owner event).0.dispatch.spare_events ≡ b.dispatch.spare_events)
unfolding offer push_back put_dispatch publish
offer-queued b owner event (active, valid, accepting, room) =
    rw (valid, active, accepting, room) (refl, refl, refl, refl)

warn_overflow-events :
    (d : EnhancedInputDispatchState) (session : ℕ) → ((warn_overflow d session).events ≡ d.events)
unfolding warn_overflow
warn_overflow-events d session = ground arith

refuse_full-lem :
    (b : EnhancedInputBackend) (owner : EnhancedInputSubscription) (capacity : QueueCapacity)
    → ((refuse_full b owner capacity).dispatch.events ≡ b.dispatch.events)
      × ((refuse_full b owner capacity).delivery_store
          ≡ (latch_delivery_fault b owner.delivery queue_capacity).delivery_store)
unfolding refuse_full put_dispatch
refuse_full-lem b owner capacity =
    let full = put_dispatch b (record b.dispatch { event_capacity = capacity }) in
    let refused = latch_delivery_fault full owner.delivery queue_capacity in
    (
      warn_overflow-events refused.dispatch owner.session
          ∙ (latch_delivery_fault-Keeps full owner.delivery queue_capacity).events,
      latch_delivery_fault-store b (record b.dispatch { event_capacity = capacity }) owner.delivery
          queue_capacity,
    )

warn_overflow-rejected :
    (d : EnhancedInputDispatchState) (session : ℕ)
    → (warn_overflow d session).event_capacity.rejected ≡ d.event_capacity.rejected
unfolding warn_overflow
warn_overflow-rejected d session = ground arith

refuse_full-rejected :
    (b : EnhancedInputBackend) (owner : EnhancedInputSubscription) (capacity : QueueCapacity)
    → (refuse_full b owner capacity).dispatch.event_capacity.rejected ≡ capacity.rejected
unfolding refuse_full put_dispatch
refuse_full-rejected b owner capacity =
    let full = put_dispatch b (record b.dispatch { event_capacity = capacity }) in
    let refused = latch_delivery_fault full owner.delivery queue_capacity in
    warn_overflow-rejected refused.dispatch owner.session
    ∙ ap (λ c. c.rejected)
        (latch_delivery_fault-Keeps full owner.delivery queue_capacity).event_capacity

last_branch {ℓ} :
    {A : Type ℓ} (p v a r : Bool) (w x y z : A)
    → p ≡ true
    → v ≡ true
    → a ≡ true
    → r ≡ false
    → (if not p || not v then w else if not a then x else if r then y else z) ≡ z
last_branch p v a r w x y z hp hv ha hr = rw (hp, hv, ha, hr) refl

offer-refuse_full :
    (b : EnhancedInputBackend) (owner : EnhancedInputSubscription) (event : EnhancedInputEvent)
    → owner.active ≡ true
    → delivery_valid b owner ≡ true
    → b.dispatch.accepting ≡ true
    → (admit b.dispatch.event_capacity (length b.dispatch.events.items)).1 ≡ false
    → offer b owner event ≡ (
      refuse_full b owner (admit b.dispatch.event_capacity (length b.dispatch.events.items)).0,
      capacity_exceeded,
    )
unfolding offer
offer-refuse_full b owner event active valid accepting full =
    last_branch owner.active (delivery_valid b owner) b.dispatch.accepting _ _ _ _ _ active valid
      accepting full

-- What a full queue does with an event that was welcome: the event is refused, the queue keeps what it
-- holds, and the fault of the event's target is latched.
pub offer_full :
    (b : EnhancedInputBackend) (owner : EnhancedInputSubscription) (event : EnhancedInputEvent)
    → owner.active ≡ true
    → delivery_valid b owner ≡ true
    → b.dispatch.accepting ≡ true
    → (admit b.dispatch.event_capacity (length b.dispatch.events.items)).1 ≡ false
    → let (b', verdict) = offer b owner event in
      (verdict ≡ capacity_exceeded)
      × (b'.dispatch.events ≡ b.dispatch.events)
      × (b'.delivery_store ≡ (latch_delivery_fault b owner.delivery queue_capacity).delivery_store)
      × (b'.dispatch.event_capacity.rejected
          ≡ (admit b.dispatch.event_capacity (length b.dispatch.events.items)).0.rejected)
offer_full b owner event active valid accepting full =
    let capacity = (admit b.dispatch.event_capacity (length b.dispatch.events.items)).0 in
    let (events, store) = refuse_full-lem b owner capacity in
    let same = offer-refuse_full b owner event active valid accepting full in
    (
      ap (λ r. r.1) same,
      ap (λ r. r.0.dispatch.events) same ∙ events,
      ap (λ r. r.0.delivery_store) same ∙ store,
      ap (λ r. r.0.dispatch.event_capacity.rejected) same ∙ refuse_full-rejected b owner capacity,
    )
