-- ===== src/Bridge/Handlers.antt =====
-- The Lua functions of bridge/src/BridgeMod.cpp that open and close targets, bind and unbind actions,
-- and write traces of scopes. The results are what a function pushes, which is as many as it returns.
pub mod Refusals
pub mod Frame
use ue4sslua_event_bridge.Base.{
  Bytes, is_nil, text, to_string, ℕ, Bool, true, false, not, ◌||◌, Option, none, some, [], ◌∷◌,
  ◌++◌, ◌==◌, if◌then◌else◌,
}
use ue4sslua_event_bridge.Backend.Engine.{TriggerEvent, Engine, no_trigger}
use ue4sslua_event_bridge.Backend.State.{EnhancedInputDebugInfo, EnhancedInputBackend, available}
use ue4sslua_event_bridge.Backend.Trace.{write_debug_trace}
use ue4sslua_event_bridge.Backend.Faults.{enable_delivery_faults, target_delivery_valid}
use ue4sslua_event_bridge.Backend.Unsubscribe.{unsubscribe, unsubscribe_all}
use ue4sslua_event_bridge.Backend.Target.{open_target, close_target}
use ue4sslua_event_bridge.Backend.Subscribe.{subscribe}
use ue4sslua_event_bridge.Bridge.Decode.{
  Args, get_integer, Decoded, decode_packed_text, decode_packed_path, parse_phase,
}
use ue4sslua_event_bridge.Bridge.LoopStart.{LuaSession, is_positive}
use ue4sslua_event_bridge.Bridge.State.{
  Values, BridgeMod, consume_session, in_session, guarded, nil_fail, bool_fail, count_fail,
  lua_bool, lua_integer, lua_string,
}
use ue4sslua_event_bridge.Backend.Inspect.{TargetMemory, inspect_target}

abbrev pub put_backend : BridgeMod → Engine → EnhancedInputBackend → BridgeMod
put_backend m e b = record m { engine = e; backend = b }

-- target_delivery_operation
pub enabled_reply : BridgeMod → EnhancedInputBackend × Bytes → BridgeMod × Values
enabled_reply m (b, error) =
    (record m { backend = b }, if is_nil error then lua_bool true ∷ [] else bool_fail error)

pub valid_reply : Bool × Bytes → Values
valid_reply (valid, reason) = if valid then lua_bool true ∷ [] else bool_fail reason

pub delivery_in : BridgeMod → Bool → LuaSession → Args → BridgeMod × Values
delivery_in m enable s args =
    let (target, rest) = get_integer args in
    if not (is_positive target)
    then (m, bool_fail (text "invalid target handle"))
    else if enable
    then enabled_reply m (enable_delivery_faults m.engine m.backend s.id target)
    else (m, valid_reply (target_delivery_valid m.backend s.id target))

unfoldable pub target_delivery_operation : BridgeMod → Args → Bool → BridgeMod × Values
unfolding delivery_in enabled_reply valid_reply
target_delivery_operation m args enable =
    in_session m bool_fail (delivery_in m enable) (consume_session m args)

-- What a function answers that gives a handle, 0 being a failure.
pub handle_reply : BridgeMod → Engine × EnhancedInputBackend × ℕ × Bytes → BridgeMod × Values
handle_reply m (e, b, handle, error) =
    (put_backend m e b, if handle == 0 then nil_fail error else lua_integer handle ∷ [])

-- `between` is what other threads do while open_target looks the component up.
pub open_in :
    BridgeMod
    → (EnhancedInputBackend → EnhancedInputBackend)
    → LuaSession
    → Args
    → BridgeMod × Values
open_in m between s args =
    let path = decode_packed_path args in
    if not path.success
    then (m, nil_fail path.error)
    else handle_reply m (open_target m.engine between m.backend s.id path.value)

unfoldable pub open_input_component :
    BridgeMod → (EnhancedInputBackend → EnhancedInputBackend) → Args → BridgeMod × Values
unfolding open_in handle_reply
open_input_component m between args =
    guarded m args nil_fail (text "OpenInputComponent must run on the Unreal game thread")
      (open_in m between)

-- inspect_input_component; the two exceptions that it catches are failed allocations.
pub inspected : Bytes × Bytes → Values
inspected (snapshot, error) = if is_nil error then lua_string snapshot ∷ [] else nil_fail error

pub inspect_in : BridgeMod → TargetMemory → LuaSession → Args → BridgeMod × Values
inspect_in m memory s args =
    let (target, rest) = get_integer args in
    if not (is_positive target)
    then (m, nil_fail (text "invalid Enhanced Input target handle"))
    else (m, inspected (inspect_target m.engine memory m.backend s.id target))

unfoldable pub inspect_input_component : BridgeMod → TargetMemory → Args → BridgeMod × Values
unfolding inspect_in inspected
inspect_input_component m memory args =
    guarded m args nil_fail (text "InspectInputComponent must run on the Unreal game thread")
      (inspect_in m memory)

-- What close and unbind answer; the message of a failure names the handle.
pub done_reply :
    BridgeMod → Bytes → Bytes → ℕ → Engine × EnhancedInputBackend × Bool → BridgeMod × Values
done_reply m unknown shut handle (e, b, done) = (
  put_backend m e b,
  if done
      then lua_bool true ∷ []
      else bool_fail ((if available b then unknown else shut) ++ to_string handle),
)

pub close_in : BridgeMod → LuaSession → Args → BridgeMod × Values
close_in m s args =
    let (handle, rest) = get_integer args in
    if not (is_positive handle)
    then (m, bool_fail (text "invalid Enhanced Input target handle"))
    else done_reply m
        (text "Enhanced Input target handle is unknown or belongs to another Lua session: ")
        (text "Enhanced Input backend shut down while closing target handle: ") handle
        (close_target m.engine m.backend s.id handle)

unfoldable pub close_input_component : BridgeMod → Args → BridgeMod × Values
unfolding close_in done_reply
close_input_component m args =
    guarded m args bool_fail (text "CloseInputComponent must run on the Unreal game thread")
      (close_in m)

pub unbind_in : BridgeMod → LuaSession → Args → BridgeMod × Values
unbind_in m s args =
    let (handle, rest) = get_integer args in
    if not (is_positive handle)
    then (m, bool_fail (text "invalid Enhanced Input subscription handle"))
    else done_reply m
        (text "Enhanced Input subscription handle is unknown or belongs to another Lua session: ")
        (text "Enhanced Input backend shut down while unbinding subscription handle: ") handle
        (unsubscribe m.engine m.backend s.id handle)

unfoldable pub unbind : BridgeMod → Args → BridgeMod × Values
unfolding unbind_in done_reply
unbind m args =
    guarded m args bool_fail (text "Unbind must run on the Unreal game thread") (unbind_in m)

pub unbind_all_in : BridgeMod → Bool → LuaSession → Args → BridgeMod × Values
unbind_all_in m preserve_targets s args =
    let (e, b, count) = unsubscribe_all m.engine m.backend s.id preserve_targets in
    (put_backend m e b, lua_integer count ∷ lua_bool true ∷ [])

unfoldable pub unbind_all_impl : BridgeMod → Args → Bool → BridgeMod × Values
unfolding unbind_all_in
unbind_all_impl m args preserve_targets =
    guarded m args count_fail (text "UnbindAll must run on the Unreal game thread")
      (unbind_all_in m preserve_targets)

abbrev pub no_debug : EnhancedInputDebugInfo
no_debug = record {
  enabled = false;
  primary = false;
  scope_id = 0;
  binding_id = 0;
  label = [];
  key = [];
  trigger_name = [];
}

-- The debug arguments of bind_action: an error, or what they say.
pub data DebugArgs : Type 0 where
  rejected : Bytes → DebugArgs
  accepted_debug : EnhancedInputDebugInfo → DebugArgs

abbrev flag : ℕ → ℕ → ℕ → Bool
flag n a b = n == a || n == b

pub debug_texts : ℕ → ℕ → ℕ → ℕ → Decoded → DebugArgs
debug_texts scope_id binding_id primary trigger key =
    let label = decode_packed_text key.rest 8 64 false (text "debug label") in
    if not key.success
    then rejected key.error
    else if not label.success
    then rejected label.error
    else accepted_debug (record {
      enabled = true;
      primary = primary == 1;
      scope_id = scope_id;
      binding_id = binding_id;
      label = label.value;
      key = key.value;
      trigger_name = if trigger == 1 then text "Tap" else text "Hold";
    })

unfoldable pub read_debug : Args → DebugArgs
unfolding debug_texts
read_debug args =
    let (debug_enabled, a0) = get_integer args in
    if not (flag debug_enabled 0 1)
    then rejected (text "invalid debug tracing flag")
    else if debug_enabled == 0
    then accepted_debug no_debug
    else let (scope_id, a1) = get_integer a0 in
      let (binding_id, a2) = get_integer a1 in
      let (primary, a3) = get_integer a2 in
      let (trigger, a4) = get_integer a3 in
      if not (is_positive scope_id)
        || (not (is_positive binding_id) || (not (flag primary 0 1) || not (flag trigger 1 2)))
      then rejected (text "invalid debug tracing metadata")
      else debug_texts scope_id binding_id primary trigger
          (decode_packed_text a4 8 64 false (text "debug key"))

abbrev pub is_no_trigger : TriggerEvent → Bool
is_no_trigger no_trigger = true
is_no_trigger _ = false

pub bind_debug :
    BridgeMod → LuaSession → ℕ → Bytes → TriggerEvent × Bytes → ℕ → DebugArgs → BridgeMod × Values
bind_debug m s target path (phase, phase_name) token (rejected error) = (m, nil_fail error)
bind_debug m s target path (phase, phase_name) token (accepted_debug debug) = handle_reply m (
    subscribe m.engine m.backend (record {
      session = s.id;
      target_id = target;
      callback_token = token;
      action_path = path;
      phase_name = phase_name;
      phase = phase;
      debug = debug;
    }))

pub bind_phase :
    BridgeMod → LuaSession → ℕ → Bytes → TriggerEvent × Bytes → Args → BridgeMod × Values
bind_phase m s target path phase args =
    let (token, rest) = get_integer args in
    if is_no_trigger phase.0
    then (m, nil_fail (text "invalid trigger event"))
    else if not (is_positive token)
    then (m, nil_fail (text "invalid callback token"))
    else bind_debug m s target path phase token (read_debug rest)

pub bind_path : BridgeMod → LuaSession → ℕ → Decoded → BridgeMod × Values
bind_path m s target path =
    let (phase, rest) = get_integer path.rest in
    if not path.success
    then (m, nil_fail path.error)
    else bind_phase m s target path.value (parse_phase phase) rest

pub bind_in : BridgeMod → LuaSession → Args → BridgeMod × Values
bind_in m s args =
    let (target, rest) = get_integer args in
    if not (is_positive target)
    then (m, nil_fail (text "invalid Enhanced Input target handle"))
    else bind_path m s target (decode_packed_path rest)

unfoldable pub bind_action : BridgeMod → Args → BridgeMod × Values
unfolding bind_in bind_path bind_phase bind_debug handle_reply
bind_action m args =
    guarded m args nil_fail (text "BindAction must run on the Unreal game thread") (bind_in m)

pub trace_in : BridgeMod → ℕ → ℕ → Decoded → Option LuaSession → BridgeMod
trace_in m scope_id stage label none = m
trace_in m scope_id stage label (some s) =
    if not (is_positive scope_id) || (not (flag stage 1 2) || not label.success)
    then m
    else record m {
      backend =
          write_debug_trace m.engine m.backend s.id
            (record no_debug { enabled = true; scope_id = scope_id; label = label.value })
            (if stage == 1 then text "scope_opened" else text "scope_closed") [] 0 [];
    }

unfoldable pub trace_scope : BridgeMod → Args → BridgeMod × Values
unfolding trace_in
trace_scope m args =
    let (session, a0) = consume_session m args in
    let (scope_id, a1) = get_integer a0 in
    let (stage, a2) = get_integer a1 in
    (trace_in m scope_id stage (decode_packed_text a2 8 64 false (text "debug label")) session, [])
