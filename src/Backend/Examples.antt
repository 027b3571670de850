-- ===== src/Backend/Examples.antt =====
-- Runs of the backend on concrete inputs.
use ue4sslua_event_bridge.Base.{
  All, Bytes, bytes_beq, lookup, insert, erase, map_keep, ℕ, ◌+◌, ◌*◌, ◌%◌, ◌≡◌, refl, ◌≢◌, ◌⊎◌,
  inr, true, false, none, some, [], ◌∷◌, ◌++◌, arith, ◌==◌, if◌then◌else◌, nat_eq,
}
use ue4sslua_event_bridge.Queue.Capacity.{with_limit, admit, accepted}
use ue4sslua_event_bridge.Queue.Buffers.{publish, push_back}
use ue4sslua_event_bridge.Backend.Engine.{
  ActionEventBindingArray, Engine, null_weak, assign, get, array_is_valid, validate_component,
  resolve_component, resolve_action, allocate, put_array, triggered, boolean,
}
use ue4sslua_event_bridge.Backend.State.{
  EnhancedInputEvent, EnhancedInputDebugInfo, new_dispatch, EnhancedInputSubscription, Target,
  EnhancedInputBackend, new_backend, has, delivery_ok, delivery_valid, put_dispatch, available,
  initialize, set_inactive, no_fault,
}
use ue4sslua_event_bridge.Backend.Trace.{push_trace, write_debug_trace}
use ue4sslua_event_bridge.Backend.Faults.{owned_target}
use ue4sslua_event_bridge.Backend.Execute.{offer, queued}
use ue4sslua_event_bridge.Backend.Native.{make_native, new_capacity, make_room, push_entry, attach}
use ue4sslua_event_bridge.Backend.Unsubscribe.{
  trace_primary, find_subscription, unsubscribe_locked, session_of, collect_inactive_locked,
  unsubscribe_all, deactivate,
}
use ue4sslua_event_bridge.Backend.Unsubscribe.Removed.{
  detached, bindings_of, Unsubscribes, unsubscribe_locked_cases,
}
use ue4sslua_event_bridge.Backend.Unsubscribe.Clears.{unsubscribe_all-Clears, deactivate-Purges}
use ue4sslua_event_bridge.Backend.Target.{open_target, close_target}
use ue4sslua_event_bridge.Backend.Subscribe.{Request, reserve_binding, subscribe}
use ue4sslua_event_bridge.Backend.Drain.{take_events, shutdown}
use ue4sslua_event_bridge.Backend.Target.Closing.{IsClosed, close_target-IsClosed}
use ue4sslua_event_bridge.Backend.Drain.Shutdown.{IsShut, shutdown-IsShut}
use ue4sslua_event_bridge.Backend.Inspect.{TargetMemory, concerned_by, inspect_target}
use ue4sslua_event_bridge.Backend.Inspect.Bounded.{
  reported, snapshot_text, inspect_target-snapshot_text,
}
use ue4sslua_event_bridge.Backend.Execute.Outcomes.{take_events-offer, Overflows, offer-Overflows}

-- One component, 0x1000, with one action, 0x2000, on the game thread.
abbrev engine : Engine
engine = record {
  in_game_thread = true;
  thread_id = 1;
  index_to_object = λ n.
      if n == 7
      then some (record { object = 0x1000; serial = 3 })
      else if n == 8
      then some (record { object = 0x2000; serial = 4 })
      else none;
  internal_index = λ o. if o == 0x1000 then 7 else 8;
  find_all_of = λ name. 0x1000 ∷ 0x2000 ∷ [];
  path_name = λ o. if o == 0x1000 then 1 ∷ [] else 2 ∷ [];
  properties_size = λ o. some 0x178;
  binding_array = λ o. record { address = 0; entries = []; size = 0; capacity = 0 };
  allocations = λ n. 0x4000 + 8 * n;
  allocation_count = 0;
  bindings_max_size = 1000;
}

abbrev quiet : EnhancedInputDebugInfo
quiet = record {
  enabled = true;
  primary = true;
  scope_id = 1;
  binding_id = 1;
  label = 76 ∷ [];
  key = [];
  trigger_name = [];
}

abbrev started_backend : EnhancedInputBackend
started_backend = initialize new_backend

abbrev with_target : Engine × EnhancedInputBackend × ℕ × Bytes
with_target = open_target engine (λ b. b) started_backend 1 (1 ∷ [])

abbrev request : Request
request = record {
  session = 1;
  target_id = 1;
  callback_token = 9;
  action_path = 2 ∷ [];
  phase_name = [];
  phase = triggered;
  debug = quiet;
}

abbrev subscribed : Engine × EnhancedInputBackend × ℕ × Bytes
subscribed = subscribe with_target.0 with_target.1 request

abbrev backend_then : EnhancedInputBackend
backend_then = subscribed.1

-- The subscription is made, under the handle 1.
subscribe_run : (subscribed.2 ≡ 1) × (backend_then.subscriptions ≡ 1 ∷ [])
unfolding initialize open_target subscribe collect_inactive_locked resolve_component resolve_action
    validate_component array_is_valid assign get bytes_beq owned_target lookup insert map_keep
    delivery_ok reserve_binding attach make_room new_capacity allocate put_array push_entry
    make_native erase trace_primary write_debug_trace push_trace put_dispatch admit accepted
    push_back publish
subscribe_run = (refl, refl)

abbrev listener : EnhancedInputSubscription
listener = record {
  id = 1;
  target = 1;
  session = 1;
  callback_token = 9;
  action_path_utf8 = 2 ∷ [];
  phase_name = [];
  phase = triggered;
  debug = quiet;
  active = true;
  delivery = some 1;
}

abbrev pressed : EnhancedInputEvent
pressed = record {
  subscription = 1;
  sequence = 1;
  owner = 1;
  instance_view = record {
    elapsed_processed = 0;
    elapsed_triggered = 0;
    x = 0;
    y = 0;
    z = 0;
    value_type = boolean;
  };
}

-- A backend with one subscription, a healthy delivery state and room for `limit` events, of which
-- one is queued.
abbrev with_limit_of : ℕ → EnhancedInputBackend
with_limit_of limit = record new_backend {
  initialized = true;
  dispatch = record new_dispatch {
    accepting = true;
    events = record { items = pressed ∷ []; room = 1 };
    event_capacity = with_limit limit;
  };
  subscriptions = 1 ∷ [];
  subscription_store = (1, listener) ∷ [];
  delivery_store = (1, record { fault = no_fault; notified = false }) ∷ [];
}

take_events-offer_example :
    let (b', verdict) = offer (with_limit_of 2) listener pressed in
    let (b'', batch) = take_events b' in
    (verdict ≡ queued)
    × (batch.items ≡ (with_limit_of 2).dispatch.events.items ++ (pressed ∷ []))
    × (b''.dispatch.events.items ≡ [])
unfolding delivery_valid delivery_ok lookup
take_events-offer_example =
    take_events-offer (with_limit_of 2) listener pressed refl refl refl (inr (omega arith)) refl

offer-Overflows_example : Overflows (with_limit_of 1) 1 (offer (with_limit_of 1) listener pressed)
unfolding delivery_valid delivery_ok lookup
offer-Overflows_example =
    offer-Overflows (with_limit_of 1) listener pressed 1
      (record { fault = no_fault; notified = false }) refl refl refl
      ((λ e. ground (arith, e)), omega arith) refl refl

abbrev full_array : ActionEventBindingArray
full_array = record { address = 8; entries = 16 ∷ []; size = 1; capacity = 1 }

abbrev grown_array : ActionEventBindingArray
grown_array = record { address = 0x4000; entries = 16 ∷ []; size = 1; capacity = 5 }

aligned_allocations : (n : ℕ) → engine.allocations n % 8 ≡ 0
aligned_allocations n = omega arith

found_listener : find_subscription (with_limit_of 2) 1 ≡ some listener
unfolding find_subscription lookup
found_listener = refl

deactivate-Purges_example :
    (lookup 1 (deactivate (with_limit_of 2) 1 1).subscription_store
      ≡ some (record listener { active = false }))
    × All (λ event. event.subscription ≢ 1) (deactivate (with_limit_of 2) 1 1).dispatch.events.items
deactivate-Purges_example = deactivate-Purges (with_limit_of 2) 1 1 listener found_listener refl

unsubscribe_all-Clears_example :
    let (e', b', count) = unsubscribe_all engine (with_limit_of 2) 1 false in
    ((j : ℕ) → has j b'.subscriptions ≡ true → session_of b' j ≢ some 1)
    × (false ≡ false → (id : ℕ) (t : Target) → lookup id b'.targets ≡ some t → t.session ≢ 1)
unsubscribe_all-Clears_example = unsubscribe_all-Clears engine (with_limit_of 2) 1 false

unsubscribe_locked_cases_example :
    let (e', b', found) = unsubscribe_locked engine (with_limit_of 2) 1 1 in
    ((s : EnhancedInputSubscription) × (find_subscription (with_limit_of 2) 1 ≡ some s)
      × (s.session ≡ 1)
      × (found ≡ true)
      × (e'
          ≡ (detached engine
              (set_inactive (with_limit_of 2) 1)
              (bindings_of 1 (with_limit_of 2).bindings.items)).0)
      × Unsubscribes (with_limit_of 2) b' 1)
    ⊎ ((find_subscription (with_limit_of 2) 1 ≡ none
          ⊎ ((s : EnhancedInputSubscription) × (find_subscription (with_limit_of 2) 1 ≡ some s)
              × (s.session ≢ 1)))
        × (found ≡ false)
        × (e' ≡ engine)
        × (b' ≡ with_limit_of 2))
unsubscribe_locked_cases_example = unsubscribe_locked_cases engine (with_limit_of 2) 1 1

-- A backend with the target 5 of session 1 and a subscription on it.
abbrev with_target_five : EnhancedInputBackend
with_target_five = record (with_limit_of 2) {
  targets =
      (
        5,
        record {
          id = 5;
          session = 1;
          component = null_weak;
          component_path_utf8 = [];
          delivery = none;
          has_bound = true;
        },
      )
      ∷ [];
  subscription_store = (1, record listener { target = 5 }) ∷ [];
}

close_target-IsClosed_example : IsClosed (close_target engine with_target_five 1 5).1 1 5
unfolding close_target collect_inactive_locked owned_target lookup map_keep
close_target-IsClosed_example = close_target-IsClosed engine with_target_five 1 5 refl

shutdown-IsShut_example :
    IsShut engine with_target.1 (shutdown engine with_target.1).1 (shutdown engine with_target.1).2
unfolding open_target initialize collect_inactive_locked map_keep resolve_component bytes_beq
    validate_component array_is_valid assign get insert lookup
shutdown-IsShut_example = shutdown-IsShut engine with_target.1 refl

-- A target of session 1 with one live binding.
abbrev with_binding : EnhancedInputBackend
with_binding = record with_target_five {
  bindings = record {
    items =
        record {
          component = null_weak;
          binding = 0x3000;
          subscription = 1;
          expected_action = null_weak;
          expected_handle = 1;
        }
        ∷ [];
    room = 1;
  };
}

abbrev unreadable : TargetMemory
unreadable = record {
  read_item = λ i. none;
  read_array = λ a. none;
  read_entries = λ a n. none;
  read_metadata = λ a. none;
}

inspect_target-snapshot_text_example : inspect_target engine unreadable with_binding 1 5 ≡ (
  snapshot_text unreadable 5
      (record {
        id = 5;
        session = 1;
        component = null_weak;
        component_path_utf8 = [];
        delivery = none;
        has_bound = true;
      })
      (reported (concerned_by with_binding 1 5) with_binding.bindings.items),
  [],
)
unfolding lookup available
inspect_target-snapshot_text_example =
    inspect_target-snapshot_text engine unreadable with_binding 1 5 _ refl refl refl refl refl
