-- ===== src/Bridge/Deliver.antt =====
-- The calls into Lua of bridge/src/BridgeMod.cpp: the consumer of on_update, flush_delivery_faults and
-- one turn of flush_debug_traces. Lua code is an argument: from the mod, the session and the values it
-- is given, the calls that it makes and how it ends. report only writes a log and is left out.
pub mod Faults
pub mod Outcomes
pub mod Failing
use ue4sslua_event_bridge.Base.{
  Bytes, text, lookup, ℕ, zero, suc, ◌-◌, ◌^◌, Bool, true, false, not, ◌&&◌, ◌||◌, Option, none,
  some, List, [], ◌∷◌, ◌==◌, if◌then◌else◌, nat_eq,
}
use ue4sslua_event_bridge.Backend.Engine.{ValueType, boolean, axis_1d, axis_2d, axis_3d}
use ue4sslua_event_bridge.Backend.State.{
  TargetDeliveryFault, EnhancedInputEvent, EnhancedInputTrace, EnhancedInputSubscription,
  delivery_valid, callback_error,
}
use ue4sslua_event_bridge.Backend.Trace.{write_debug_trace}
use ue4sslua_event_bridge.Backend.Faults.{
  delivery_fault_reason, report_delivery_fault, take_delivery_fault,
}
use ue4sslua_event_bridge.Backend.Unsubscribe.{deactivate}
use ue4sslua_event_bridge.Bridge.LoopStart.{LuaSession}
use ue4sslua_event_bridge.Bridge.State.{Values, BridgeMod, lua_integer, lua_number, lua_string}
use ue4sslua_event_bridge.Bridge.Calls.{LuaCall, perform_all}
use ue4sslua_event_bridge.Backend.Drain.{consumer_events_remaining}

pub data Outcome : Type 0 where
  returned : Outcome
  threw : Bytes → Outcome
  threw_unknown : Outcome

abbrev pub LuaCode : Type 0
LuaCode = BridgeMod → LuaSession → Values → List LuaCall × Outcome

unfoldable pub call_lua : LuaCode → BridgeMod → LuaSession → Values → BridgeMod × Outcome
call_lua lua m s values = let (calls, outcome) = lua m s values in (perform_all calls m, outcome)

pub callable : Option LuaSession → Option LuaSession
callable none = none
callable (some s) = if s.active && not (s.lua == 0) then some s else none

-- `session && session->active && session->lua`
unfoldable pub live_session : BridgeMod → ℕ → Option LuaSession
unfolding callable
live_session m id = callable (lookup id m.lifetime.sessions)

-- One fault: the message -1 with the target and the reason.
pub notify_fault : LuaCode → BridgeMod → TargetDeliveryFault → Option LuaSession → BridgeMod
notify_fault lua m fault none = m
notify_fault lua m fault (some s) =
    (call_lua lua m s (
      lua_integer (2 ^ 64 - 1)
      ∷ lua_integer fault.target
      ∷ lua_string (delivery_fault_reason fault.reason)
      ∷ [])).0

pub flush_next :
    LuaCode
    → (BridgeMod → Option BridgeMod)
    → BridgeMod
    → Option TargetDeliveryFault
    → Option BridgeMod
flush_next lua next m none = some m
flush_next lua next m (some fault) = next (notify_fault lua m fault (live_session m fault.session))

-- none is a lack of fuel.
unfoldable pub flush_delivery_faults : LuaCode → ℕ → BridgeMod → Option BridgeMod
unfolding flush_next notify_fault
flush_delivery_faults lua zero m = none
flush_delivery_faults lua (suc fuel) m =
    let (b, fault) = take_delivery_fault m.backend in
    flush_next lua (flush_delivery_faults lua fuel) (record m { backend = b }) fault

-- How the delivery of an event ends.
pub data Delivery : Type 0 where
  skipped called failed : Delivery

unfoldable pub trace_event :
    BridgeMod → EnhancedInputSubscription → Bytes → EnhancedInputEvent → Bytes → BridgeMod
trace_event m sub stage event reason = record m {
  backend =
      write_debug_trace m.engine m.backend sub.session sub.debug stage sub.phase_name event.sequence
        reason;
}

-- The failed callback: the fault of its target, and the binding is disabled.
pub callback_failed :
    BridgeMod → EnhancedInputSubscription → EnhancedInputEvent → Bytes → BridgeMod × Delivery
callback_failed m sub event what =
    let traced = trace_event m sub (text "lua_callback_failed") event what in
    let faulted = report_delivery_fault traced.backend sub callback_error in
    (record traced { backend = deactivate faulted sub.session sub.id }, failed)

unfoldable pub after_callback :
    EnhancedInputSubscription → EnhancedInputEvent → BridgeMod × Outcome → BridgeMod × Delivery
unfolding callback_failed
after_callback sub event (m, returned) =
    (trace_event m sub (text "lua_callback_completed") event [], called)
after_callback sub event (m, threw what) = callback_failed m sub event what
after_callback sub event (m, threw_unknown) =
    callback_failed m sub event (text "unknown_lua_exception")

value_code : ValueType → ℕ
value_code boolean = 0
value_code axis_1d = 1
value_code axis_2d = 2
value_code axis_3d = 3

-- The eleven arguments of the dispatcher.
pub event_values : EnhancedInputSubscription → EnhancedInputEvent → Values
event_values sub event =
    let view = event.instance_view in
    lua_integer sub.callback_token
    ∷ lua_integer event.subscription
    ∷ lua_string sub.action_path_utf8
    ∷ lua_string sub.phase_name
    ∷ lua_number view.elapsed_processed
    ∷ lua_number view.elapsed_triggered
    ∷ lua_number view.x
    ∷ lua_number view.y
    ∷ lua_number view.z
    ∷ lua_integer (value_code view.value_type)
    ∷ lua_integer event.sequence
    ∷ []

pub deliver_live :
    LuaCode
    → BridgeMod
    → EnhancedInputSubscription
    → EnhancedInputEvent
    → Option LuaSession
    → BridgeMod × Delivery
deliver_live lua m sub event none =
    (trace_event m sub (text "callback_skipped") event (text "lua_session_inactive"), skipped)
deliver_live lua m sub event (some s) =
    let started_mod = trace_event m sub (text "lua_callback_started") event [] in
    after_callback sub event (call_lua lua started_mod s (event_values sub event))

pub deliver_to :
    LuaCode
    → BridgeMod
    → EnhancedInputEvent
    → Option EnhancedInputSubscription
    → BridgeMod × Delivery
deliver_to lua m event none = (m, skipped)
deliver_to lua m event (some sub) =
    let seen = trace_event m sub (text "event_dequeued") event [] in
    if not sub.active || not (delivery_valid seen.backend sub)
    then (trace_event seen sub (text "callback_skipped") event (text "binding_inactive"), skipped)
    else deliver_live lua seen sub event (live_session seen sub.session)

-- The part of the consumer between the two flushes of faults.
unfoldable pub deliver_event : LuaCode → BridgeMod → EnhancedInputEvent → BridgeMod × Delivery
unfolding deliver_to deliver_live event_values value_code
deliver_event lua m event = deliver_to lua m event (lookup event.owner m.backend.subscription_store)

-- What a delivery means for the pass: the state behind the second flush, and whether it counts.
unfoldable pub settle : LuaCode → ℕ → BridgeMod × Delivery → Option BridgeMod × Bool
settle lua fuel (m, skipped) = (some m, false)
settle lua fuel (m, called) = (some m, true)
settle lua fuel (m, failed) = (flush_delivery_faults lua fuel m, true)

deliver_flushed : LuaCode → ℕ → EnhancedInputEvent → Option BridgeMod → Option BridgeMod × Bool
deliver_flushed lua fuel event none = (none, false)
deliver_flushed lua fuel event (some m) = settle lua fuel (deliver_event lua m event)

-- The consumer, with the number of events that are left; the state is none once a flush has run out
-- of fuel.
unfoldable pub consume_event :
    LuaCode → ℕ → ℕ → EnhancedInputEvent → Option BridgeMod → Option BridgeMod × Bool
unfolding deliver_flushed settle
consume_event lua fuel left event none = (none, false)
consume_event lua fuel left event (some m) = deliver_flushed lua fuel event (
    flush_delivery_faults lua fuel
      (record m { backend = consumer_events_remaining m.backend left }))

trace_to : LuaCode → BridgeMod → EnhancedInputTrace → Option LuaSession → BridgeMod
trace_to lua m line none = m
trace_to lua m line (some s) = (call_lua lua m s (lua_integer 0 ∷ lua_string line.line ∷ [])).0

-- One turn of flush_debug_traces, which counts every trace.
unfoldable pub consume_trace : LuaCode → ℕ → EnhancedInputTrace → BridgeMod → BridgeMod × Bool
unfolding trace_to
consume_trace lua left line m = (trace_to lua m line (live_session m line.session), true)
