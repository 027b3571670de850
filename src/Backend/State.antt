-- ===== src/Backend/State.antt =====
-- The data of bridge/include/EnhancedInputBackend.hpp. What the code shares by std::shared_ptr stands
-- in a store under a number: a subscription under its id, a delivery state under a number of its own.
-- So a queued event, a native binding and the table of subscriptions see the same `active` flag, and
-- a target and its subscriptions the same fault. The addresses inside a binding that inspect_target
-- reads are not fields of LiveBinding here.
use ue4sslua_event_bridge.Base.{
  keep_if, Bytes, Map, lookup-insert, lookup, insert, ℕ, ◌≡◌, refl, ap, ◌∙◌, subst, inl, inr, Bool,
  true, false, not, ◌||◌, Option, none, some, List, [], ◌∷◌, ◌==◌, if◌then◌else◌, nat_eq, ==→≡,
  Bool-cases,
}
use ue4sslua_event_bridge.Queue.Capacity.{QueueCapacity, with_limit}
use ue4sslua_event_bridge.Queue.Buffers.{QueueReadiness, ConsumerBacklogCount, Buffer, no_buffer}
use ue4sslua_event_bridge.Backend.Engine.{TriggerEvent, ValueType, WeakObjectPtr}

pub data DeliveryFault : Type 0 where
  no_fault queue_capacity queue_exception callback_error : DeliveryFault

pub record TargetDeliveryState : Type 0 where
  pub fault : DeliveryFault
  pub notified : Bool

pub record TargetDeliveryFault : Type 0 where
  pub session : ℕ
  pub target : ℕ
  pub reason : DeliveryFault

-- The readings of an event are copied bits.
pub record InputActionInstanceView : Type 0 where
  pub elapsed_processed : ℕ
  pub elapsed_triggered : ℕ
  pub x : ℕ
  pub y : ℕ
  pub z : ℕ
  pub value_type : ValueType

pub record EnhancedInputEvent : Type 0 where
  pub subscription : ℕ
  pub sequence : ℕ
  pub owner : ℕ
  pub instance_view : InputActionInstanceView

pub record EnhancedInputDebugInfo : Type 0 where
  pub enabled : Bool
  pub primary : Bool
  pub scope_id : ℕ
  pub binding_id : ℕ
  pub label : Bytes
  pub key : Bytes
  pub trigger_name : Bytes

pub record EnhancedInputTrace : Type 0 where
  pub session : ℕ
  pub line : Bytes

pub record EnhancedInputDispatchState : Type 0 where
  pub accepting : Bool
  pub faults_pending : Bool
  pub clone_created : Bool
  pub live_bindings : ℕ
  pub next_event_sequence : ℕ
  pub consumer_backlog : ConsumerBacklogCount
  pub events_ready : QueueReadiness
  pub traces_ready : QueueReadiness
  pub events : Buffer EnhancedInputEvent
  pub traces : Buffer EnhancedInputTrace
  pub spare_events : Buffer EnhancedInputEvent
  pub spare_traces : Buffer EnhancedInputTrace
  pub event_capacity : QueueCapacity
  pub trace_capacity : QueueCapacity

abbrev pub new_dispatch : EnhancedInputDispatchState
new_dispatch = record {
  accepting = false;
  faults_pending = false;
  clone_created = false;
  live_bindings = 0;
  next_event_sequence = 1;
  consumer_backlog = record { remaining_count = 0 };
  events_ready = record { pending = false };
  traces_ready = record { pending = false };
  events = no_buffer;
  traces = no_buffer;
  spare_events = no_buffer;
  spare_traces = no_buffer;
  event_capacity = with_limit 65536;
  trace_capacity = with_limit 1024;
}

pub record EnhancedInputSubscription : Type 0 where
  pub id : ℕ
  pub target : ℕ
  pub session : ℕ
  pub callback_token : ℕ
  pub action_path_utf8 : Bytes
  pub phase_name : Bytes
  pub phase : TriggerEvent
  pub debug : EnhancedInputDebugInfo
  pub active : Bool
  pub delivery : Option ℕ

pub record Target : Type 0 where
  pub id : ℕ
  pub session : ℕ
  pub component : WeakObjectPtr
  pub component_path_utf8 : Bytes
  pub delivery : Option ℕ
  pub has_bound : Bool

pub record LiveBinding : Type 0 where
  pub component : WeakObjectPtr
  pub binding : ℕ
  pub subscription : ℕ
  pub expected_action : WeakObjectPtr
  pub expected_handle : ℕ

-- A polymorphic binding object in Unreal's memory, of the class NativeBinding.
pub record NativeBinding : Type 0 where
  pub action : WeakObjectPtr
  pub event : TriggerEvent
  pub handle : ℕ
  pub owner : ℕ

pub record EnhancedInputBackend : Type 0 where
  pub initialized : Bool
  pub next_target : ℕ
  pub next_subscription : ℕ
  pub next_binding_handle : ℕ
  pub dispatch : EnhancedInputDispatchState
  pub targets : Map ℕ Target
  -- the keys of `subscriptions_`; the entries are in the store
  pub subscriptions : List ℕ
  pub inactive_sessions : List ℕ
  pub bindings : Buffer LiveBinding
  -- the stores of shared objects
  pub subscription_store : Map ℕ EnhancedInputSubscription
  pub delivery_store : Map ℕ TargetDeliveryState
  pub next_delivery : ℕ
  pub native_store : Map ℕ NativeBinding

abbrev pub new_backend : EnhancedInputBackend
new_backend = record {
  initialized = false;
  next_target = 1;
  next_subscription = 1;
  next_binding_handle = 0x80000000;
  dispatch = new_dispatch;
  targets = [];
  subscriptions = [];
  inactive_sessions = [];
  bindings = no_buffer;
  subscription_store = [];
  delivery_store = [];
  next_delivery = 1;
  native_store = [];
}

abbrev pub has : ℕ → List ℕ → Bool
has k [] = false
has k (j ∷ js) = j == k || has k js

abbrev pub without : ℕ → List ℕ → List ℕ
without k = keep_if (λ j. not (j == k))

abbrev pub fault_beq : DeliveryFault → DeliveryFault → Bool
fault_beq no_fault no_fault = true
fault_beq queue_capacity queue_capacity = true
fault_beq queue_exception queue_exception = true
fault_beq callback_error callback_error = true
fault_beq _ _ = false

is_healthy : Option TargetDeliveryState → Bool
is_healthy none = true
is_healthy (some d) = fault_beq d.fault no_fault

-- `!delivery || delivery->valid()`
unfoldable pub delivery_ok : EnhancedInputBackend → Option ℕ → Bool
unfolding is_healthy
delivery_ok b none = true
delivery_ok b (some d) = is_healthy (lookup d b.delivery_store)

-- What a delivery state says.
pub delivery_ok-some :
    (b : EnhancedInputBackend) (d : ℕ) (state : TargetDeliveryState)
    → lookup d b.delivery_store ≡ some state
    → delivery_ok b (some d) ≡ fault_beq state.fault no_fault
unfolding delivery_ok is_healthy
delivery_ok-some b d state e = ap is_healthy e

-- It depends on the delivery states only.
pub delivery_ok_same :
    (b b' : EnhancedInputBackend) (o : Option ℕ)
    → b'.delivery_store ≡ b.delivery_store
    → delivery_ok b' o ≡ delivery_ok b o
unfolding delivery_ok
delivery_ok_same b b' none e = refl
delivery_ok_same b b' (some d) e = ap (λ store. is_healthy (lookup d store)) e

unfoldable pub delivery_valid : EnhancedInputBackend → EnhancedInputSubscription → Bool
unfolding delivery_ok
delivery_valid b s = delivery_ok b s.delivery

unfoldable pub put_dispatch :
    EnhancedInputBackend → EnhancedInputDispatchState → EnhancedInputBackend
put_dispatch b d = record b { dispatch = d }

unfoldable pub available : EnhancedInputBackend → Bool
available b = b.initialized

unfoldable pub initialize : EnhancedInputBackend → EnhancedInputBackend
initialize b = record b { dispatch = record b.dispatch { accepting = true }; initialized = true }

deactivated :
    Option EnhancedInputSubscription
    → ℕ
    → Map ℕ EnhancedInputSubscription
    → Map ℕ EnhancedInputSubscription
deactivated none id store = store
deactivated (some s) id store = insert id (record s { active = false }) store

-- `subscription->active.store(false)`
unfoldable pub set_inactive : EnhancedInputBackend → ℕ → EnhancedInputBackend
unfolding deactivated
set_inactive b id = record b {
  subscription_store = deactivated (lookup id b.subscription_store) id b.subscription_store;
}

abbrev pub idle : Option EnhancedInputSubscription → Option EnhancedInputSubscription
idle none = none
idle (some s) = some (record s { active = false })

lookup-deactivated :
    (o : Option EnhancedInputSubscription) (id j : ℕ) (store : Map ℕ EnhancedInputSubscription)
    → lookup id store ≡ o
    → lookup j (deactivated o id store)
      ≡ (if id == j then idle (lookup j store) else lookup j store)
unfolding deactivated
lookup-deactivated none id j store e = elim (Bool-cases (id == j)) [
  | inl same ↦
      let gone : lookup j store ≡ none = subst (λ k. lookup k store ≡ none) (==→≡ id j same) e in
      rw (same, gone) refl
  | inr other ↦ rw other refl
]
lookup-deactivated (some s) id j store e =
    lookup-insert id j (record s { active = false }) store ∙ elim (Bool-cases (id == j)) [
      | inl same ↦
          let there : lookup j store ≡ some s =
            subst (λ k. lookup k store ≡ some s) (==→≡ id j same) e in
          rw (same, there) refl
      | inr other ↦ rw other refl
    ]

pub lookup-set_inactive :
    (b : EnhancedInputBackend) (id j : ℕ)
    → lookup j (set_inactive b id).subscription_store
      ≡ (if id == j then idle (lookup j b.subscription_store) else lookup j b.subscription_store)
unfolding set_inactive
lookup-set_inactive b id j =
    lookup-deactivated (lookup id b.subscription_store) id j b.subscription_store refl
