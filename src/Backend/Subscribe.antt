-- ===== src/Backend/Subscribe.antt =====
-- subscribe of bridge/src/EnhancedInputBackend.cpp. The subscription is put into the store when it is
-- made; an error after that leaves it there, where nothing leads to it.
use ue4sslua_event_bridge.Base.{
  length, Bytes, text, to_string, lookup, insert, ℕ, ◌+◌, ◌-◌, ◌/◌, ◌%◌, ◌^◌, min, max, true, not,
  Option, none, some, [], ◌∷◌, ◌++◌, ◌==◌, if◌then◌else◌, nat_eq,
}
use ue4sslua_event_bridge.Queue.Buffers.{Buffer, push_back}
use ue4sslua_event_bridge.Backend.Engine.{
  TriggerEvent, Engine, WeakObjectPtr, null_weak, assign, get, validate_component, resolve_action,
}
use ue4sslua_event_bridge.Backend.State.{
  EnhancedInputDebugInfo, EnhancedInputSubscription, Target, LiveBinding, NativeBinding,
  EnhancedInputBackend, has, without, delivery_ok,
}
use ue4sslua_event_bridge.Backend.Faults.{owned_target}
use ue4sslua_event_bridge.Backend.Native.{attach}
use ue4sslua_event_bridge.Backend.Unsubscribe.{trace_primary, collect_inactive_locked}

pub record Request : Type 0 where
  pub session : ℕ
  pub target_id : ℕ
  pub callback_token : ℕ
  pub action_path : Bytes
  pub phase_name : Bytes
  pub phase : TriggerEvent
  pub debug : EnhancedInputDebugInfo

make_subscription : ℕ → Request → Option ℕ → EnhancedInputSubscription
make_subscription id r delivery = record {
  id = id;
  target = r.target_id;
  session = r.session;
  callback_token = r.callback_token;
  action_path_utf8 = r.action_path;
  phase_name = r.phase_name;
  phase = r.phase;
  debug = r.debug;
  active = true;
  delivery = delivery;
}

-- reserve of the bindings, if they are full: none when they cannot grow
unfoldable pub reserve_binding : Engine → Buffer LiveBinding → Option (Buffer LiveBinding)
reserve_binding e bindings =
    if length bindings.items == bindings.room
    then (let growth = min (max (bindings.room / 2) 4) (e.bindings_max_size - bindings.room) in
        if growth == 0 then none else some (record bindings { room = bindings.room + growth }))
    else some bindings

native_action : Option NativeBinding → WeakObjectPtr
native_action none = null_weak
native_action (some n) = n.action

native_handle : Option NativeBinding → ℕ
native_handle none = 0
native_handle (some n) = n.handle

put_live :
    Engine
    → EnhancedInputBackend
    → Target
    → ℕ
    → EnhancedInputSubscription
    → ℕ
    → EnhancedInputBackend
put_live e b t component s binding =
    let native = lookup binding b.native_store in
    record b {
      targets = insert s.target (record t { has_bound = true }) b.targets;
      bindings = push_back b.bindings (record {
        component = assign e component;
        binding = binding;
        subscription = s.id;
        expected_action = native_action native;
        expected_handle = native_handle native;
      });
    }

attached :
    Engine × EnhancedInputBackend × ℕ
    → Target
    → ℕ
    → EnhancedInputSubscription
    → Engine × EnhancedInputBackend × ℕ × Bytes
attached (e, b, binding) t component s =
    if binding == 0
    then (
      e,
      record b { subscriptions = without s.id b.subscriptions },
      0,
      text "Enhanced Input native binding creation failed",
    )
    else (
      e,
      trace_primary e (put_live e b t component s binding) s (text "binding_created"),
      s.id,
      [],
    )

add_subscription :
    Engine
    → EnhancedInputBackend
    → Target
    → ℕ
    → ℕ
    → EnhancedInputSubscription
    → Option (Buffer LiveBinding)
    → Engine × EnhancedInputBackend × ℕ × Bytes
add_subscription e b t component action s none =
    (e, b, 0, text "Enhanced Input binding storage is full")
add_subscription e b t component action s (some bindings) =
    let room : EnhancedInputBackend = record b { bindings = bindings } in
    if has s.id b.subscriptions
    then (e, room, 0, text "Enhanced Input subscription handle collision")
    else let added : EnhancedInputBackend = record room {
      subscriptions = s.id ∷ b.subscriptions;
      subscription_store = insert s.id s b.subscription_store;
    } in
      attached (attach e added component action s) t component s

bind_target :
    Engine
    → EnhancedInputBackend
    → Request
    → Option Target
    → Engine × EnhancedInputBackend × ℕ × Bytes
bind_target e b r none = (
  e,
  b,
  0,
  text "Enhanced Input target handle is unknown or belongs to another Lua session: "
      ++ to_string r.target_id,
)
bind_target e b r (some t) =
    let component = get e t.component in
    let action = resolve_action e r.action_path in
    if not (delivery_ok b t.delivery)
    then (e, b, 0, text "target delivery is invalid; close and recreate the target")
    else if not (validate_component e component)
    then (e, b, 0, text "Enhanced Input target is no longer valid")
    else if action == 0
    then (e, b, 0, text "InputAction was not found at object path: " ++ r.action_path)
    else if not (get e (assign e action) == action)
    then (e, b, 0, text "InputAction weak-reference initialization failed: " ++ r.action_path)
    else let s = make_subscription b.next_subscription r t.delivery in
      add_subscription e (record b { next_subscription = (b.next_subscription + 1) % 2 ^ 64 }) t
        component action s (reserve_binding e b.bindings)

-- The engine, the backend, the subscription or 0, and the error.
unfoldable pub subscribe :
    Engine → EnhancedInputBackend → Request → Engine × EnhancedInputBackend × ℕ × Bytes
unfolding bind_target add_subscription attached put_live native_handle native_action
    make_subscription
subscribe e b r =
    if not b.initialized
    then (e, b, 0, text "Enhanced Input backend is not initialized")
    else let (e', b') = collect_inactive_locked e b in
      bind_target e' b' r (owned_target b' r.session r.target_id)
