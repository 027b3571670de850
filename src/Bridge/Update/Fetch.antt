-- ===== src/Bridge/Update/Fetch.antt =====
-- Fresh events of bridge/src/BridgeMod.cpp: what take_events hands over and the backlog keeps.
use ue4sslua_event_bridge.Base.{
  length, ◌^◌, ◌<◌, ◌≡◌, refl, sym, ap, ◌∙◌, subst, ◌≢◌, Bool, true, false, not, Option, none, some,
  List, [], ◌∷◌, ◌++◌, arith, ◌==◌, if◌then◌else◌, if_all,
}
use ue4sslua_event_bridge.Queue.Buffers.{
  Buffer, no_buffer, clear, drain_queue, retain_empty_buffer_lem,
}
use ue4sslua_event_bridge.Dispatch.Backlog.{
  new_backlog, empty, load, release_buffer, pending, IsWell, empty-pending,
}
use ue4sslua_event_bridge.Backend.State.{EnhancedInputEvent, EnhancedInputBackend, put_dispatch}
use ue4sslua_event_bridge.Backend.Drain.{take_events, recycle_events}
use ue4sslua_event_bridge.Bridge.Update.{
  Pending, exchange_released, load_batch, exchange_events, fetch_events,
}

-- The events that are queued and not yet handed to the consumer, the next one first.
unfoldable pub waiting : EnhancedInputBackend → Pending EnhancedInputEvent → List EnhancedInputEvent
waiting b p = pending p.backlog ++ b.dispatch.events.items

-- A queue that is not empty is announced, the spare buffer is empty, and the backlog is well formed.
pub record IsPipe (b : EnhancedInputBackend) (p : Pending EnhancedInputEvent) : Type 0 where
  pub announced : b.dispatch.events.items ≢ [] → b.dispatch.events_ready.pending ≡ true
  pub spare : b.dispatch.spare_events.items ≡ []
  pub backlog : IsWell p.backlog

unfoldable pub Fetches :
    EnhancedInputBackend
    → Pending EnhancedInputEvent
    → Option (EnhancedInputBackend × Pending EnhancedInputEvent)
    → Type 0
Fetches b p r =
    (b' : EnhancedInputBackend) × (p' : Pending EnhancedInputEvent) × (r ≡ some (b', p'))
    × (waiting b' p' ≡ waiting b p)
    × IsPipe b' p'

append_nil : (xs : List EnhancedInputEvent) → xs ++ [] ≡ xs
append_nil [] = refl
append_nil (x ∷ xs) = ap (λ t. x ∷ t) (append_nil xs)

no_events :
    (xs : List EnhancedInputEvent) (ready : Bool)
    → (xs ≢ [] → ready ≡ true)
    → ready ≡ false
    → xs ≡ []
no_events [] ready h e = refl
no_events (x ∷ xs) ready h e = absurd (ground (arith, e, h (λ c. ground (arith, c))))

recycle_events-lem :
    (b : EnhancedInputBackend) (old : Buffer EnhancedInputEvent)
    → b.dispatch.spare_events.items ≡ []
    → let b' = recycle_events b old in
      (b'.dispatch.events ≡ b.dispatch.events)
      × (b'.dispatch.events_ready ≡ b.dispatch.events_ready)
      × (b'.dispatch.spare_events.items ≡ [])
unfolding recycle_events put_dispatch
recycle_events-lem b old e =
    if_all
      (λ (b' : EnhancedInputBackend).
        (b'.dispatch.events ≡ b.dispatch.events)
        × (b'.dispatch.events_ready ≡ b.dispatch.events_ready)
        × (b'.dispatch.spare_events.items ≡ []))
      (old.room == 0) b _ (λ _. (refl, refl, e))
      (λ _. (refl, refl, (retain_empty_buffer_lem b.dispatch.spare_events (clear old) e).0))

take_events-lem :
    (b : EnhancedInputBackend)
    → b.dispatch.spare_events.items ≡ []
    → (b.dispatch.events.items ≢ [] → b.dispatch.events_ready.pending ≡ true)
    → length b.dispatch.events.items < 2 ^ 64
    → let (b', batch) = take_events b in
      (batch.items ++ b'.dispatch.events.items ≡ b.dispatch.events.items)
      × (b'.dispatch.events.items ≡ [])
      × (b'.dispatch.spare_events.items ≡ [])
      × (length batch.items < 2 ^ 64)
unfolding take_events put_dispatch drain_queue
take_events-lem b spare announced small =
    let P : EnhancedInputBackend × Buffer EnhancedInputEvent → Type 0 = λ r.
      (r.1.items ++ r.0.dispatch.events.items ≡ b.dispatch.events.items)
      × (r.0.dispatch.events.items ≡ [])
      × (r.0.dispatch.spare_events.items ≡ [])
      × (length r.1.items < 2 ^ 64) in
    if_all P (not b.dispatch.events_ready.pending) (b, no_buffer) _
      (λ h. (
        refl,
        no_events b.dispatch.events.items b.dispatch.events_ready.pending announced
            (ground (arith, h)),
        spare,
        omega arith,
      ))
      (λ h. (
        ap (λ t. b.dispatch.events.items ++ t) spare ∙ append_nil b.dispatch.events.items,
        spare,
        refl,
        small,
      ))

load_batch-events :
    (b : EnhancedInputBackend) (p : Pending EnhancedInputEvent)
    → empty p.backlog ≡ true
    → load_batch exchange_events b p ≡ (
        let (b', batch) = exchange_events b (record { items = p.backlog.batch; room = p.room }) in
        some
          (b', record { backlog = record { batch = batch.items; index = 0 }; room = batch.room }))
unfolding load_batch release_buffer load exchange_released empty
load_batch-events b p exhausted =
    ap
      (λ c.
        exchange_released exchange_events b p.room
          (if c then some (p.backlog.batch, new_backlog) else none))
      exhausted

fetch_empty :
    (b : EnhancedInputBackend) (p : Pending EnhancedInputEvent)
    → IsPipe b p
    → length b.dispatch.events.items < 2 ^ 64
    → empty p.backlog ≡ true
    → Fetches b p (load_batch exchange_events b p)
unfolding Fetches waiting exchange_events pending
fetch_empty b p pipe small exhausted =
    let old : Buffer EnhancedInputEvent = record { items = p.backlog.batch; room = p.room } in
    let recycled = recycle_events b old in
    let (same, ready, spare) = recycle_events-lem b old pipe.spare in
    let (order, queue_empty, spare', short) =
      take_events-lem recycled spare
        (λ some_left.
          ap (λ r. r.pending) ready ∙ pipe.announced (λ e. some_left (ap (λ q. q.items) same ∙ e)))
        (subst (λ q. length q.items < 2 ^ 64) (sym same) small) in
    let (b', batch) = take_events recycled in
    (
      b',
      record { backlog = record { batch = batch.items; index = 0 }; room = batch.room },
      load_batch-events b p exhausted,
      order
          ∙ ap (λ q. q.items) same
          ∙ ap (λ xs. xs ++ b.dispatch.events.items)
              (sym ((empty-pending p.backlog pipe.backlog).0 exhausted)),
      record {
        announced = λ some_left. absurd (some_left queue_empty);
        spare = spare';
        backlog = record { within = omega arith; small = short };
      },
    )

-- Fetching never throws, and it keeps the waiting events and their order: it loses none, invents none
-- and hands none out before those that were fetched earlier.
pub fetch_events-Fetches :
    (b : EnhancedInputBackend) (p : Pending EnhancedInputEvent)
    → IsPipe b p
    → length b.dispatch.events.items < 2 ^ 64
    → Fetches b p (fetch_events b p)
unfolding fetch_events
fetch_events-Fetches b p pipe small =
    if_all (Fetches b p) (empty p.backlog) (load_batch exchange_events b p) (some (b, p))
      (λ exhausted. fetch_empty b p pipe small exhausted)
      (λ left. unfold Fetches in (b, p, refl, refl, pipe))
