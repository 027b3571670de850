-- ===== src/Bridge/Runs.antt =====
-- Runs of the mod: sessions that start and stop, calls from Lua and deliveries to it, on concrete
-- inputs.
use ue4sslua_event_bridge.Base.{
  text, lookup, ◌≤◌, ◌≡◌, refl, sym, ap, subst, true, false, none, some, List, [], ◌∷◌, arith, ◌==◌,
  if◌then◌else◌, nat_eq, some-injective,
}
use ue4sslua_event_bridge.Alias.{find}
use ue4sslua_event_bridge.Backend.Engine.{Engine, null_weak, started, boolean}
use ue4sslua_event_bridge.Backend.State.{
  EnhancedInputEvent, new_dispatch, EnhancedInputSubscription, EnhancedInputBackend, new_backend,
  delivery_ok, delivery_valid, callback_error,
}
use ue4sslua_event_bridge.Backend.Faults.Count.{due_count}
use ue4sslua_event_bridge.Backend.Unsubscribe.{find_subscription}
use ue4sslua_event_bridge.Backend.Execute.{offer}
use ue4sslua_event_bridge.Registry.State.{identity_eq, LifecycleRegistry, new_registry}
use ue4sslua_event_bridge.Registry.Changes.{IsLinked}
use ue4sslua_event_bridge.Registry.{start_session}
use ue4sslua_event_bridge.Registry.History.{Reach-IsWell, starts, here, next}
use ue4sslua_event_bridge.Probe.{new_probe, required_objects}
use ue4sslua_event_bridge.Bridge.Decode.{Args}
use ue4sslua_event_bridge.Bridge.LoopStart.{LuaSession, session_for_id}
use ue4sslua_event_bridge.Bridge.Lifetime.{Memory, start_lifetime_service}
use ue4sslua_event_bridge.Bridge.State.{BridgeMod}
use ue4sslua_event_bridge.Bridge.Handlers.Refusals.{perform_refused}
use ue4sslua_event_bridge.Bridge.Calls.{
  LuaCall, perform, perform_all, get_dispatch_stats, trace, valid_object, release_object,
}
use ue4sslua_event_bridge.Bridge.Session.{LuaStart, on_lua_start, on_lua_stop}
use ue4sslua_event_bridge.Bridge.Session.Stops.{IsStopped, on_lua_stop-IsStopped}
use ue4sslua_event_bridge.Bridge.Session.Starts.{Publishes, on_lua_start-Publishes}
use ue4sslua_event_bridge.Bridge.Deliver.{
  LuaCode, call_lua, flush_delivery_faults, after_callback, deliver_event, returned, threw, skipped,
}
use ue4sslua_event_bridge.Bridge.Deliver.Faults.{flush_delivery_faults-some}
use ue4sslua_event_bridge.Bridge.Deliver.Outcomes.{deliver_event-Silent}
use ue4sslua_event_bridge.Bridge.Deliver.Failing.{Disables, after_callback-Disables}
use ue4sslua_event_bridge.Bridge.Pipeline.{
  Pipe, new_pipe, with_queued, IsFifo, Reach-IsFifo, offers, from_empty, then_step,
}
use ue4sslua_event_bridge.Bridge.Service.{probe_lifetime_abi, uninstall_implementation}
use ue4sslua_event_bridge.Bridge.Service.Probing.{probe_lifetime_abi-Within}
use ue4sslua_event_bridge.Bridge.Service.Unload.{IsGone, uninstall_implementation-IsGone}
use ue4sslua_event_bridge.Bridge.LoopStart.Numbered.{IsNumbered}

abbrev engine : Engine
engine = record {
  in_game_thread = true;
  thread_id = 1;
  index_to_object = λ n. none;
  internal_index = λ o. 0;
  find_all_of = λ name. [];
  path_name = λ o. [];
  properties_size = λ o. none;
  binding_array = λ o. record { address = 0; entries = []; size = 0; capacity = 0 };
  allocations = λ n. 0;
  allocation_count = 0;
  bindings_max_size = 1000;
}

-- A subscription of session 1, in the table and active.
abbrev subscription : EnhancedInputSubscription
subscription = record {
  id = 1;
  target = 1;
  session = 1;
  callback_token = 7;
  action_path_utf8 = text "/A";
  phase_name = text "Started";
  phase = started;
  debug = record {
    enabled = false;
    primary = false;
    scope_id = 0;
    binding_id = 0;
    label = [];
    key = [];
    trigger_name = [];
  };
  active = true;
  delivery = some 1;
}

-- Its target has a fault that is not notified.
abbrev faulty : EnhancedInputBackend
faulty = record new_backend {
  initialized = true;
  dispatch = record new_dispatch { accepting = true; faults_pending = true };
  targets =
      (
        1,
        record {
          id = 1;
          session = 1;
          component = null_weak;
          component_path_utf8 = [];
          delivery = some 1;
          has_bound = true;
        },
      )
      ∷ [];
  subscriptions = 1 ∷ [];
  subscription_store = (1, subscription) ∷ [];
  delivery_store = (1, record { fault = callback_error; notified = false }) ∷ [];
}

abbrev session : LuaSession
session = record {
  id = 1;
  lua = 0x2000;
  dispatcher_ref = 3;
  active = true;
  loop_start_delivered = false;
  loop_start_callbacks = 5 ∷ [];
}

abbrev registry : LifecycleRegistry
registry = start_session (new_registry 16 4) 1

registry-IsLinked : IsLinked registry
registry-IsLinked = (Reach-IsWell 16 4 (next here (starts 1))).linked

abbrev bridge : BridgeMod
bridge = record {
  active = true;
  engine = engine;
  backend = faulty;
  lifetime = record {
    sessions = (1, session) ∷ [];
    lifetimes = registry;
    probe = new_probe;
    listeners_registered = false;
    lifetime_abi_ready = false;
  };
  session_index = record { aliases = (0x100, 1) ∷ [] };
  next_session_id = 2;
}

-- A scope of session 1 is closed, with the label "A".
abbrev close_scope : Args
close_scope = record {
  integers = λ n. if n == 3 then 1 else if n == 4 then 65 else if n == 2 then 2 else 1;
  taken = 0;
}

abbrev object_memory : Memory
object_memory = record {
  in_game_thread = true;
  read_index = λ a. some 7;
  read_item = λ i. if i == 7 then some (record { object = 0x1000; serial = 3 }) else none;
}

-- The helper asks whether an object of session 1 is valid, gives its token back and closes the scope.
abbrev stop_helper : List LuaCall
stop_helper =
    valid_object object_memory 1 0x1000 (49 ∷ [])
    ∷ release_object 1 (49 ∷ [])
    ∷ trace close_scope
    ∷ []

bridge-IsNumbered : IsNumbered bridge.lifetime.sessions (find bridge.session_index 0x100)
unfolding find lookup
bridge-IsNumbered s there = ap (λ x. x.id) (sym (some-injective there))

on_lua_stop-IsStopped_example :
    IsStopped bridge (find bridge.session_index 0x100) (on_lua_stop bridge stop_helper 0x100)
unfolding find lookup
on_lua_stop-IsStopped_example =
    on_lua_stop-IsStopped bridge stop_helper 0x100
      (record { distinct = ((λ e. ground (arith, e)), tt, tt) }) registry-IsLinked bridge-IsNumbered
      (refl, (refl, (tt, tt))) (λ e. ground (arith, e))

abbrev lua_start : LuaStart
lua_start = record {
  lua = 0x3000;
  states = 0x200 ∷ 0x201 ∷ 0 ∷ [];
  setup = some 4;
  publication_fails = none;
}

on_lua_start-Publishes_example : Publishes lua_start 2 4 none (on_lua_start bridge lua_start)
unfolding lookup
on_lua_start-Publishes_example =
    on_lua_start-Publishes bridge lua_start 4
      (record { distinct = ((λ e. ground (arith, e)), tt, tt) }) (λ e. ground (arith, e)) refl refl

-- Session 9 does not exist.
perform_refused_example : (perform (release_object 9 (text "1")) bridge).0 ≡ bridge
unfolding session_for_id lookup
perform_refused_example =
    perform_refused (release_object 9 (text "1")) bridge (λ id h.
      subst (λ k. session_for_id bridge.lifetime.sessions k ≡ none) (some-injective h) refl)

abbrev event : EnhancedInputEvent
event = record {
  subscription = 1;
  sequence = 1;
  owner = 1;
  instance_view = record {
    elapsed_processed = 0;
    elapsed_triggered = 0;
    x = 0;
    y = 0;
    z = 0;
    value_type = boolean;
  };
}

abbrev one_offer : Pipe
one_offer = record (new_pipe faulty) {
  backend = (offer faulty subscription event).0;
  produced = with_queued (offer faulty subscription event).1 [] event;
}

Reach-IsFifo_example : IsFifo one_offer
Reach-IsFifo_example = Reach-IsFifo refl refl (then_step from_empty (offers subscription event))

abbrev silent : LuaCode
silent m s values = ([], returned)

-- Lua code that reads the statistics and throws.
abbrev loud : LuaCode
loud m s values = (get_dispatch_stats ∷ [], threw (text "error"))

flush_delivery_faults-some_example :
    (m' : BridgeMod) × (flush_delivery_faults silent 2 bridge ≡ some m')
unfolding due_count lookup call_lua perform_all
flush_delivery_faults-some_example =
    flush_delivery_faults-some silent 2 bridge (λ m s values. omega arith) (omega arith)

-- The target of the subscription is faulty, so the event is not delivered.
deliver_event-Silent_example :
    ((deliver_event silent bridge event).1 ≡ skipped)
    × (deliver_event silent bridge event ≡ deliver_event loud bridge event)
unfolding lookup delivery_valid delivery_ok
deliver_event-Silent_example =
    deliver_event-Silent silent loud bridge event subscription refl (λ may. ground (arith, may.1))

after_callback-Disables_example :
    Disables bridge subscription subscription
      (after_callback subscription event (bridge, threw (text "error")))
unfolding find_subscription lookup
after_callback-Disables_example =
    after_callback-Disables bridge subscription subscription event (threw (text "error"))
      (λ e. ground (arith, e)) refl refl

uninstall_implementation-IsGone_example :
    IsGone bridge (uninstall_implementation bridge).0 (uninstall_implementation bridge).1
uninstall_implementation-IsGone_example = uninstall_implementation-IsGone bridge refl

probe_lifetime_abi-Within_example :
    let (checked, verified) = probe_lifetime_abi (λ index. (object_memory, object_memory)) in
    (checked ≤ 4096)
    × (verified ≤ checked)
    × (verified ≤ required_objects)
    × ((start_lifetime_service bridge.lifetime checked verified).1 ≡ (verified == required_objects))
probe_lifetime_abi-Within_example =
    probe_lifetime_abi-Within (λ index. (object_memory, object_memory)) bridge.lifetime
