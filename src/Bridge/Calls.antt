-- ===== src/Bridge/Calls.antt =====
-- The calls that Lua makes into the mod of bridge/src/BridgeMod.cpp. Lua reaches the mod only through
-- the functions that on_lua_start registers, so what a piece of Lua code does to the mod is a list of
-- these calls. What a call reads of the memory, or what other threads do meanwhile, stands with it.
use ue4sslua_event_bridge.Base.{
  Bytes, text, ℕ, Bool, true, not, ◌&&◌, Option, none, some, List, [], ◌∷◌, if◌then◌else◌,
}
use ue4sslua_event_bridge.Backend.State.{EnhancedInputBackend, available}
use ue4sslua_event_bridge.Backend.Drain.{queue_stats}
use ue4sslua_event_bridge.Probe.{reason}
use ue4sslua_event_bridge.Bridge.Decode.{Args}
use ue4sslua_event_bridge.Bridge.LoopStart.{Sessions, register_loop_start, cancel_loop_start}
use ue4sslua_event_bridge.Bridge.Lifetime.{
  Memory, LifetimeState, Reply, lifetime_service_ready, lifetime_capture, lifetime_valid,
  lifetime_release, lifetime_report_losses, lifetime_take_lost, boolean_reply, string_reply,
  nil_reply, nil_error, exception_reply,
}
use ue4sslua_event_bridge.Bridge.State.{
  LuaValue, Values, BridgeMod, nil_fail, bool_fail, lua_nil, lua_bool, lua_integer, lua_string,
}
use ue4sslua_event_bridge.Bridge.Handlers.{
  target_delivery_operation, open_input_component, inspect_input_component, close_input_component,
  unbind, unbind_all_impl, bind_action, trace_scope,
}
use ue4sslua_event_bridge.Backend.Inspect.{TargetMemory}

pub data LuaCall : Type 0 where
  target_delivery : Bool → Args → LuaCall
  get_dispatch_stats : LuaCall
  get_capabilities : LuaCall
  open_component : (EnhancedInputBackend → EnhancedInputBackend) → Args → LuaCall
  inspect_component : TargetMemory → Args → LuaCall
  close_component : Args → LuaCall
  bind_to : Args → LuaCall
  unbind_from : Args → LuaCall
  unbind_every : Bool → Args → LuaCall
  trace : Args → LuaCall
  register_loop : ℕ → ℕ → LuaCall
  cancel_loop : ℕ → ℕ → LuaCall
  capture_object : Memory → ℕ → ℕ → LuaCall
  valid_object : Memory → ℕ → ℕ → Bytes → LuaCall
  release_object : ℕ → Bytes → LuaCall
  report_object_losses : ℕ → LuaCall
  take_lost_object : Memory → ℕ → LuaCall

unfoldable pub reply_values : Reply → Values
reply_values (boolean_reply b) = lua_bool b ∷ []
reply_values (string_reply s) = lua_string s ∷ []
reply_values nil_reply = lua_nil ∷ []
reply_values (nil_error message) = nil_fail message
reply_values exception_reply = []

unfoldable pub stats_values : BridgeMod → Values
stats_values m =
    if not m.active
    then lua_nil ∷ []
    else let stats = queue_stats m.backend in
      lua_integer stats.depth
      ∷ lua_integer stats.high_water
      ∷ lua_integer stats.rejected
      ∷ lua_integer stats.debug_rejected
      ∷ []

reason_value : Option Bytes → LuaValue
reason_value none = lua_nil
reason_value (some why) = lua_string why

unfoldable pub capability_values : BridgeMod → Values
unfolding reason_value
capability_values m =
    let yes = lua_bool true in
    lua_integer 6
    ∷ lua_bool (m.active && available m.backend)
    ∷ yes
    ∷ yes
    ∷ yes
    ∷ yes
    ∷ yes
    ∷ yes
    ∷ yes
    ∷ lua_string (text "97b7e501")
    ∷ yes
    ∷ yes
    ∷ yes
    ∷ lua_bool (m.active && lifetime_service_ready m.lifetime)
    ∷ (if m.active
        then reason_value (reason m.lifetime.probe)
        else lua_string (text "the bridge is not active"))
    ∷ []

-- A function of the lifetimes or the sessions. Without a mod there is no session to find.
unfoldable pub through : BridgeMod → (LifetimeState → LifetimeState × Values) → BridgeMod × Values
through m f =
    let (lifetime, values) = f m.lifetime in
    if m.active
    then (record m { lifetime = lifetime }, values)
    else (m, (f (record m.lifetime { sessions = [] })).1)

registered_values : LifetimeState → Sessions × Bool × Bytes → LifetimeState × Values
registered_values b (sessions, registered, error) =
    (record b { sessions = sessions }, if registered then lua_bool true ∷ [] else bool_fail error)

cancelled_values : LifetimeState → Sessions × Bool → LifetimeState × Values
cancelled_values b (sessions, found) = (record b { sessions = sessions }, lua_bool found ∷ [])

replied : LifetimeState × Reply → LifetimeState × Values
replied (b, reply) = (b, reply_values reply)

answered : LifetimeState × Bool → LifetimeState × Values
answered (b, answer) = (b, lua_bool answer ∷ [])

-- The mod after a call, and what the call pushes.
unfoldable pub perform : LuaCall → BridgeMod → BridgeMod × Values
unfolding registered_values cancelled_values replied answered
perform (target_delivery enable args) m = target_delivery_operation m args enable
perform get_dispatch_stats m = (m, stats_values m)
perform get_capabilities m = (m, capability_values m)
perform (open_component between args) m = open_input_component m between args
perform (inspect_component memory args) m = inspect_input_component m memory args
perform (close_component args) m = close_input_component m args
perform (bind_to args) m = bind_action m args
perform (unbind_from args) m = unbind m args
perform (unbind_every preserve_targets args) m = unbind_all_impl m args preserve_targets
perform (trace args) m = trace_scope m args
perform (register_loop id token) m =
    through m (λ b. registered_values b (register_loop_start b.sessions id token))
perform (cancel_loop id token) m =
    through m (λ b. cancelled_values b (cancel_loop_start b.sessions id token))
perform (capture_object memory id address) m =
    through m (λ b. replied (lifetime_capture memory b id address))
perform (valid_object memory id address token) m =
    through m (λ b. (b, lua_bool (lifetime_valid memory b id address token) ∷ []))
perform (release_object id token) m = through m (λ b. answered (lifetime_release b id token))
perform (report_object_losses id) m = through m (λ b. answered (lifetime_report_losses b id))
perform (take_lost_object memory id) m = through m (λ b. replied (lifetime_take_lost memory b id))

-- The calls of a piece of Lua code, one after the other.
unfoldable pub perform_all : List LuaCall → BridgeMod → BridgeMod
perform_all [] m = m
perform_all (call ∷ calls) m = perform_all calls (perform call m).0
