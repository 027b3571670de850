-- ===== src/Backend/Faults.antt =====
-- Delivery faults: latch_delivery_fault, enable_delivery_faults, target_delivery_valid,
-- report_delivery_fault and take_delivery_fault of bridge/src/EnhancedInputBackend.cpp. A message is
-- the text of the source.
pub mod Count
use ue4sslua_event_bridge.Base.{
  Bytes, text, Map, lookup-insert, lookup, insert, ℕ, ◌+◌, ◌≡◌, refl, sym, ◌∙◌, subst, ◌≢◌, Bool,
  true, false, not, ◌||◌, Option, none, some, [], ◌∷◌, arith, ◌==◌, if◌then◌else◌, nat_eq, ==_refl,
  is_some,
}
use ue4sslua_event_bridge.Backend.Engine.{Engine}
use ue4sslua_event_bridge.Backend.State.{
  DeliveryFault, TargetDeliveryState, TargetDeliveryFault, EnhancedInputDispatchState,
  EnhancedInputSubscription, Target, EnhancedInputBackend, has, fault_beq, delivery_ok,
  delivery_ok-some, put_dispatch, no_fault, queue_capacity, queue_exception, callback_error,
}

unfoldable pub delivery_fault_reason : DeliveryFault → Bytes
delivery_fault_reason no_fault = text "healthy"
delivery_fault_reason queue_capacity = text "queue_capacity_exceeded"
delivery_fault_reason queue_exception = text "queue_exception"
delivery_fault_reason callback_error = text "callback_error"

latch_in :
    EnhancedInputBackend → ℕ → DeliveryFault → Option TargetDeliveryState → EnhancedInputBackend
latch_in b d reason none = b
latch_in b d reason (some state) =
    if fault_beq state.fault no_fault
    then record b {
      delivery_store = insert d (record state { fault = reason }) b.delivery_store;
      dispatch = record b.dispatch { faults_pending = true };
    }
    else b

-- `compare_exchange_strong` from None: the first fault stays.
unfoldable pub latch_delivery_fault :
    EnhancedInputBackend → Option ℕ → DeliveryFault → EnhancedInputBackend
unfolding latch_in
latch_delivery_fault b none reason = b
latch_delivery_fault b (some d) reason = latch_in b d reason (lookup d b.delivery_store)

unfoldable pub report_delivery_fault :
    EnhancedInputBackend → EnhancedInputSubscription → DeliveryFault → EnhancedInputBackend
unfolding latch_delivery_fault
report_delivery_fault b subscription reason = latch_delivery_fault b subscription.delivery reason

-- The target of a handle, if the session may use it.
owned_in : ℕ → Option Target → Option Target
owned_in session none = none
owned_in session (some t) = if t.session == session then some t else none

unfoldable pub owned_target : EnhancedInputBackend → ℕ → ℕ → Option Target
unfolding owned_in
owned_target b session target = owned_in session (lookup target b.targets)

usable : EnhancedInputBackend → ℕ → ℕ → Option Target
usable b session target =
    if not b.initialized || has session b.inactive_sessions
    then none
    else owned_target b session target

enable_in : EnhancedInputBackend → ℕ → Option Target → EnhancedInputBackend × Bytes
enable_in b target none = (b, text "target is unknown or stopping")
enable_in b target (some t) =
    if is_some t.delivery
    then (b, text "delivery fault policy already registered")
    else if t.has_bound
    then (b, text "register delivery fault policy before binding actions")
    else (
      record b {
        targets = insert target (record t { delivery = some b.next_delivery }) b.targets;
        delivery_store =
            insert b.next_delivery (record { fault = no_fault; notified = false }) b.delivery_store;
        next_delivery = b.next_delivery + 1;
      },
      [],
    )

-- The backend and the error, which is empty on success.
unfoldable pub enable_delivery_faults :
    Engine → EnhancedInputBackend → ℕ → ℕ → EnhancedInputBackend × Bytes
unfolding enable_in usable owned_target
enable_delivery_faults e b session target =
    if not e.in_game_thread
    then (b, text "delivery fault registration must run on the Unreal game thread")
    else enable_in b target (usable b session target)

fault_of : Option TargetDeliveryState → DeliveryFault
fault_of none = no_fault
fault_of (some state) = state.fault

valid_in : EnhancedInputBackend → Option Target → Bool × Bytes
valid_in b none = (false, text "target is unknown or stopping")
valid_in b (some t) = elim t.delivery [
  | none ↦ (false, text "delivery fault policy is not enabled")
  | some d ↦
      let fault = fault_of (lookup d b.delivery_store) in
      (fault_beq fault no_fault, delivery_fault_reason fault)
]

unfoldable pub target_delivery_valid : EnhancedInputBackend → ℕ → ℕ → Bool × Bytes
unfolding valid_in usable owned_target fault_of
target_delivery_valid b session target = valid_in b (usable b session target)

-- A target whose fault is not yet notified.
pub due_state : Option TargetDeliveryState → Option TargetDeliveryState
due_state none = none
due_state (some state) =
    if state.notified || fault_beq state.fault no_fault then none else some state

pub due_at : ℕ → Option TargetDeliveryState → Option (ℕ × TargetDeliveryState)
due_at d none = none
due_at d (some state) = some (d, state)

pub due_in : EnhancedInputBackend → Option ℕ → Option (ℕ × TargetDeliveryState)
due_in b none = none
due_in b (some d) = due_at d (due_state (lookup d b.delivery_store))

pub due_fault : EnhancedInputBackend → Target → Option (ℕ × TargetDeliveryState)
due_fault b t = if has t.session b.inactive_sessions then none else due_in b t.delivery

pub notify :
    EnhancedInputBackend
    → ℕ
    → Target
    → ℕ × TargetDeliveryState
    → EnhancedInputBackend × Option TargetDeliveryFault
notify b id t (d, state) = (
  record b {
    delivery_store = insert d (record state { notified = true }) b.delivery_store;
    dispatch = record b.dispatch { faults_pending = true };
  },
  some (record { session = t.session; target = id; reason = state.fault }),
)

pub scan_step :
    EnhancedInputBackend
    → ℕ
    → Target
    → EnhancedInputBackend × Option TargetDeliveryFault
    → Option (ℕ × TargetDeliveryState)
    → EnhancedInputBackend × Option TargetDeliveryFault
scan_step b id t later none = later
scan_step b id t later (some due) = notify b id t due

-- The scan over the targets.
pub scan : EnhancedInputBackend → Map ℕ Target → EnhancedInputBackend × Option TargetDeliveryFault
scan b [] = (b, none)
scan b ((id, t) ∷ rest) = scan_step b id t (scan b rest) (due_fault b t)

unfoldable pub take_delivery_fault :
    EnhancedInputBackend → EnhancedInputBackend × Option TargetDeliveryFault
unfolding scan scan_step notify due_fault due_in due_at due_state
take_delivery_fault b =
    if not b.dispatch.faults_pending
    then (b, none)
    else let cleared : EnhancedInputBackend = record b {
      dispatch = record b.dispatch { faults_pending = false };
    } in
      if b.initialized then scan cleared b.targets else (cleared, none)

latch_in_first :
    (b : EnhancedInputBackend) (d : ℕ) (fault : DeliveryFault) (notified : Bool)
    (reason : DeliveryFault)
    → (fault ≢ no_fault
        → latch_in b d reason (some (record { fault = fault; notified = notified })) ≡ b)
      × (fault ≡ no_fault
          → lookup d
              (latch_in b d reason
                (some (record { fault = fault; notified = notified }))).delivery_store
            ≡ some (record { fault = reason; notified = notified }))
unfolding latch_in
latch_in_first b d no_fault notified reason =
    (λ n. absurd (n refl), λ h. lookup-insert d d _ b.delivery_store ∙ rw (==_refl d) refl)
latch_in_first b d queue_capacity notified reason = (λ n. refl, λ h. absurd (ground (arith, h)))
latch_in_first b d queue_exception notified reason = (λ n. refl, λ h. absurd (ground (arith, h)))
latch_in_first b d callback_error notified reason = (λ n. refl, λ h. absurd (ground (arith, h)))

-- The first fault of a delivery state stays: later ones change neither it nor anything else.
pub latch_delivery_fault_first :
    (b : EnhancedInputBackend) (d : ℕ) (state : TargetDeliveryState) (reason : DeliveryFault)
    → lookup d b.delivery_store ≡ some state
    → (state.fault ≢ no_fault → latch_delivery_fault b (some d) reason ≡ b)
      × (state.fault ≡ no_fault
          → lookup d (latch_delivery_fault b (some d) reason).delivery_store
            ≡ some (record state { fault = reason }))
unfolding latch_delivery_fault
latch_delivery_fault_first b d state reason e =
    rw e (latch_in_first b d state.fault state.notified reason)

latch_unhealthy :
    (b : EnhancedInputBackend) (d : ℕ) (fault : DeliveryFault) (notified : Bool)
    (reason : DeliveryFault)
    → lookup d b.delivery_store ≡ some (record { fault = fault; notified = notified })
    → fault_beq reason no_fault ≡ false
    → delivery_ok (latch_delivery_fault b (some d) reason) (some d) ≡ false
latch_unhealthy b d no_fault notified reason e real =
    let (same, latched) = latch_delivery_fault_first b d _ reason e in
    delivery_ok-some (latch_delivery_fault b (some d) reason) d
      (record { fault = reason; notified = notified }) (latched refl)
    ∙ real
latch_unhealthy b d fault notified reason e real =
    let same = (latch_delivery_fault_first b d _ reason e).0 (λ p. absurd (ground (arith, p))) in
    subst (λ x. delivery_ok x (some d) ≡ false) (sym same) (delivery_ok-some b d _ e)

-- After a fault is reported the delivery is not valid.
pub latch_delivery_fault_unhealthy :
    (b : EnhancedInputBackend) (d : ℕ) (state : TargetDeliveryState) (reason : DeliveryFault)
    → lookup d b.delivery_store ≡ some state
    → fault_beq reason no_fault ≡ false
    → delivery_ok (latch_delivery_fault b (some d) reason) (some d) ≡ false
latch_delivery_fault_unhealthy b d state reason e real =
    latch_unhealthy b d state.fault state.notified reason e real

-- A latched fault leaves all the rest of the backend alone.
pub record KeepsAllButFaults (b b' : EnhancedInputBackend) : Type 0 where
  pub subscription_store : b'.subscription_store ≡ b.subscription_store
  pub subscriptions : b'.subscriptions ≡ b.subscriptions
  pub bindings : b'.bindings ≡ b.bindings
  pub targets : b'.targets ≡ b.targets
  pub events : b'.dispatch.events ≡ b.dispatch.events
  pub event_capacity : b'.dispatch.event_capacity ≡ b.dispatch.event_capacity
  pub accepting : b'.dispatch.accepting ≡ b.dispatch.accepting
  pub events_ready : b'.dispatch.events_ready ≡ b.dispatch.events_ready
  pub spare_events : b'.dispatch.spare_events ≡ b.dispatch.spare_events

latch_in-Keeps :
    (b : EnhancedInputBackend) (d : ℕ) (reason : DeliveryFault) (o : Option TargetDeliveryState)
    → KeepsAllButFaults b (latch_in b d reason o)
unfolding latch_in
latch_in-Keeps b d reason none = ground arith
latch_in-Keeps b d reason (some state) = ground arith

pub latch_delivery_fault-Keeps :
    (b : EnhancedInputBackend) (delivery : Option ℕ) (reason : DeliveryFault)
    → KeepsAllButFaults b (latch_delivery_fault b delivery reason)
unfolding latch_delivery_fault
latch_delivery_fault-Keeps b none reason = ground arith
latch_delivery_fault-Keeps b (some d) reason = latch_in-Keeps b d reason (lookup d b.delivery_store)

latch_in-store :
    (b : EnhancedInputBackend) (dispatch : EnhancedInputDispatchState) (d : ℕ)
    (reason : DeliveryFault) (o : Option TargetDeliveryState)
    → (latch_in (put_dispatch b dispatch) d reason o).delivery_store
      ≡ (latch_in b d reason o).delivery_store
unfolding latch_in put_dispatch
latch_in-store b dispatch d reason none = refl
latch_in-store b dispatch d reason (some state) = ground arith

-- What is latched does not depend on the queues.
pub latch_delivery_fault-store :
    (b : EnhancedInputBackend) (dispatch : EnhancedInputDispatchState) (delivery : Option ℕ)
    (reason : DeliveryFault)
    → (latch_delivery_fault (put_dispatch b dispatch) delivery reason).delivery_store
      ≡ (latch_delivery_fault b delivery reason).delivery_store
unfolding latch_delivery_fault put_dispatch
latch_delivery_fault-store b dispatch none reason = refl
latch_delivery_fault-store b dispatch (some d) reason =
    latch_in-store b dispatch d reason (lookup d b.delivery_store)
