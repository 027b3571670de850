-- ===== src/Backend/Execute/Outcomes.antt =====
-- What an offer of Execute, bridge/src/EnhancedInputBackend.cpp, means for the consumer and for the
-- offers behind it.
use ue4sslua_event_bridge.Base.{
  length, lookup, ℕ, ◌+◌, ◌%◌, ◌^◌, ◌≤◌, ◌<◌, ◌≡◌, refl, sym, ap, ◌∙◌, subst, ◌≢◌, ◌⊎◌, inl, inr,
  true, false, some, [], ◌∷◌, ◌++◌, arith, if◌then◌else◌, nat_eq, Bool-cases,
}
use ue4sslua_event_bridge.Queue.Capacity.{admit, admit_exact}
use ue4sslua_event_bridge.Queue.Buffers.{drain_queue}
use ue4sslua_event_bridge.Backend.State.{
  TargetDeliveryState, EnhancedInputEvent, EnhancedInputSubscription, EnhancedInputBackend,
  delivery_ok, delivery_ok_same, delivery_valid, put_dispatch, idle, queue_capacity,
}
use ue4sslua_event_bridge.Backend.Faults.{latch_delivery_fault, latch_delivery_fault_unhealthy}
use ue4sslua_event_bridge.Backend.Drain.{take_events}
use ue4sslua_event_bridge.Backend.Execute.{
  Verdict, offer, offer-queued, offer_full, queued, binding_inactive, capacity_exceeded,
}

-- The queue has no limit, or is below it.
abbrev pub HasRoom : EnhancedInputBackend → Type 0
HasRoom b =
    (b.dispatch.event_capacity.limit ≡ 0)
    ⊎ (length b.dispatch.events.items < b.dispatch.event_capacity.limit)

-- The queue has a limit and has reached it.
abbrev pub IsFull : EnhancedInputBackend → Type 0
IsFull b =
    (b.dispatch.event_capacity.limit ≢ 0)
    × (b.dispatch.event_capacity.limit ≤ length b.dispatch.events.items)

admit_room :
    (b : EnhancedInputBackend)
    → HasRoom b
    → (admit b.dispatch.event_capacity (length b.dispatch.events.items)).1 ≡ true
unfolding admit
admit_room b (inl off) = ground (arith, off)
admit_room b (inr below) = ground (arith, below)

take_events_announced :
    (b : EnhancedInputBackend)
    → b.dispatch.events_ready.pending ≡ true
    → ((take_events b).1 ≡ b.dispatch.events)
      × ((take_events b).0.dispatch.events ≡ b.dispatch.spare_events)
unfolding take_events put_dispatch drain_queue
take_events_announced b announced = rw announced (refl, refl)

-- An event whose subscription is active and whose delivery is valid, while the dispatcher accepts and
-- the queue has room, is the last of the batch that the next take_events hands out, behind all that
-- waited, and no event waits any more. The spare buffer is empty before.
pub take_events-offer :
    (b : EnhancedInputBackend) (owner : EnhancedInputSubscription) (event : EnhancedInputEvent)
    → owner.active ≡ true
    → delivery_valid b owner ≡ true
    → b.dispatch.accepting ≡ true
    → HasRoom b
    → b.dispatch.spare_events.items ≡ []
    → let (b', verdict) = offer b owner event in
      let (b'', batch) = take_events b' in
      (verdict ≡ queued)
      × (batch.items ≡ b.dispatch.events.items ++ (event ∷ []))
      × (b''.dispatch.events.items ≡ [])
take_events-offer b owner event active valid accepting room spare =
    let (verdict, items, announced, same_spare) =
      offer-queued b owner event (active, valid, accepting, admit_room b room) in
    let (batch, left) = take_events_announced (offer b owner event).0 announced in
    (
      verdict,
      ap (λ x. x.items) batch ∙ items,
      ap (λ x. x.items) left ∙ ap (λ x. x.items) same_spare ∙ spare,
    )

offer_closed :
    (b : EnhancedInputBackend) (owner : EnhancedInputSubscription) (event : EnhancedInputEvent)
    → delivery_valid b owner ≡ false
    → offer b owner event ≡ (b, binding_inactive)
unfolding offer
offer_closed b owner event invalid =
    rw invalid
      (elim (Bool-cases owner.active) [ inl active ↦ rw active refl | inr idle ↦ rw idle refl ])

-- What an overflow leaves: the event is refused and counted, the queue keeps what it holds, and as long
-- as the delivery states stand, every event of the delivery `d` is refused without a change.
pub record Overflows (b : EnhancedInputBackend) (d : ℕ) (r : EnhancedInputBackend × Verdict)
    : Type 0 where
  pub verdict : r.1 ≡ capacity_exceeded
  pub events : r.0.dispatch.events ≡ b.dispatch.events
  pub rejected :
      r.0.dispatch.event_capacity.rejected ≡ (b.dispatch.event_capacity.rejected + 1) % 2 ^ 64
  pub closed :
      (later : EnhancedInputBackend) (other : EnhancedInputSubscription)
      (event : EnhancedInputEvent)
      → later.delivery_store ≡ r.0.delivery_store
      → other.delivery ≡ some d
      → offer later other event ≡ (later, binding_inactive)

-- An event that meets a full queue, while its subscription is active, its delivery valid and the
-- dispatcher accepts, is refused and counted as rejected, and the queue keeps what it holds. The
-- subscription's target has a delivery state, and from then on every event of that target is refused
-- and changes nothing, in any backend in which the delivery states still stand as they were left, room
-- or not.
pub offer-Overflows :
    (b : EnhancedInputBackend) (owner : EnhancedInputSubscription) (event : EnhancedInputEvent)
    (d : ℕ) (state : TargetDeliveryState)
    → owner.active ≡ true
    → delivery_valid b owner ≡ true
    → b.dispatch.accepting ≡ true
    → IsFull b
    → owner.delivery ≡ some d
    → lookup d b.delivery_store ≡ some state
    → Overflows b d (offer b owner event)
offer-Overflows b owner event d state active valid accepting (on, reached) opted held =
    let (exact, rejected, _, _) =
      admit_exact b.dispatch.event_capacity (length b.dispatch.events.items) in
    let full = exact.1 (on, reached) in
    let (verdict, events, store, counted) = offer_full b owner event active valid accepting full in
    let b' = (offer b owner event).0 in
    let latched = latch_delivery_fault b owner.delivery queue_capacity in
    let invalid : delivery_ok b' (some d) ≡ false =
      delivery_ok_same latched b' (some d) store
      ∙ subst (λ o. delivery_ok (latch_delivery_fault b o queue_capacity) (some d) ≡ false)
          (sym opted) (latch_delivery_fault_unhealthy b d state queue_capacity held refl) in
    record {
      verdict = verdict;
      events = events;
      rejected =
          counted
          ∙ rejected
          ∙ ap
              (λ c.
                if c
                then b.dispatch.event_capacity.rejected
                else (b.dispatch.event_capacity.rejected + 1) % 2 ^ 64)
              full;
      closed = λ later other next kept same. offer_closed later other next (
          unfold delivery_valid in
          ap (delivery_ok later) same ∙ delivery_ok_same b' later (some d) kept ∙ invalid);
    }
