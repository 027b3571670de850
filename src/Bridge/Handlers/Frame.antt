-- ===== src/Bridge/Handlers/Frame.antt =====
-- What the input functions of bridge/src/BridgeMod.cpp leave alone: the sessions, the lifetimes and the
-- aliases.
use ue4sslua_event_bridge.Base.{
  All, Bytes, text, ℕ, ◌≡◌, refl, ◌∙◌, Bool, false, not, ◌||◌, Option, none, some, List, [], ◌∷◌,
  ◌==◌, if_all,
}
use ue4sslua_event_bridge.Backend.Engine.{TriggerEvent}
use ue4sslua_event_bridge.Backend.State.{EnhancedInputBackend, available}
use ue4sslua_event_bridge.Bridge.Decode.{
  Args, get_integer, Decoded, decode_packed_text, decode_packed_path, parse_phase,
}
use ue4sslua_event_bridge.Bridge.LoopStart.{LuaSession, is_positive}
use ue4sslua_event_bridge.Bridge.State.{
  Values, BridgeMod, consume_session, in_session, guarded, nil_fail, bool_fail, count_fail,
}
use ue4sslua_event_bridge.Bridge.Handlers.{
  enabled_reply, valid_reply, delivery_in, target_delivery_operation, handle_reply, open_in,
  open_input_component, inspect_in, inspect_input_component, done_reply, close_in,
  close_input_component, unbind_in, unbind, unbind_all_in, unbind_all_impl, DebugArgs, read_debug,
  is_no_trigger, bind_debug, bind_phase, bind_path, bind_in, bind_action, trace_in, trace_scope,
  rejected, accepted_debug,
}
use ue4sslua_event_bridge.Bridge.Calls.{
  LuaCall, perform, perform_all, target_delivery, get_dispatch_stats, get_capabilities,
  open_component, inspect_component, close_component, bind_to, unbind_from, unbind_every, trace,
  register_loop, cancel_loop, capture_object, valid_object, release_object, report_object_losses,
  take_lost_object,
}
use ue4sslua_event_bridge.Backend.Inspect.{TargetMemory}

-- The parts of the mod that belong to the sessions.
pub record KeepsSessions (m m' : BridgeMod) : Type 0 where
  pub index : m'.session_index ≡ m.session_index
  pub lifetime : m'.lifetime ≡ m.lifetime
  pub active : m'.active ≡ m.active

pub same_mod : (m : BridgeMod) → KeepsSessions m m
same_mod m = record { index = refl; lifetime = refl; active = refl }

pub then_keeps :
    (m m' m'' : BridgeMod) → KeepsSessions m m' → KeepsSessions m' m'' → KeepsSessions m m''
then_keeps m m' m'' h k = record {
  index = k.index ∙ h.index;
  lifetime = k.lifetime ∙ h.lifetime;
  active = k.active ∙ h.active;
}

abbrev Kept : BridgeMod → BridgeMod × Values → Type 0
Kept m r = KeepsSessions m r.0

in_session_keeps :
    (m : BridgeMod) (fail : Bytes → Values) (body : LuaSession → Args → BridgeMod × Values)
    (p : Option LuaSession × Args)
    → ((s : LuaSession) (args : Args) → Kept m (body s args))
    → Kept m (in_session m fail body p)
unfolding in_session
in_session_keeps m fail body (none, args) h = same_mod m
in_session_keeps m fail body (some s, args) h = h s args

guarded_keeps :
    (m : BridgeMod) (args : Args) (fail : Bytes → Values) (wrong_thread : Bytes)
    (body : LuaSession → Args → BridgeMod × Values)
    → ((s : LuaSession) (rest : Args) → Kept m (body s rest))
    → Kept m (guarded m args fail wrong_thread body)
unfolding guarded
guarded_keeps m args fail wrong_thread body h =
    if_all (Kept m) (not m.active || not (available m.backend)) _ _ (λ _. same_mod m)
      (λ _.
        if_all (Kept m) (not m.engine.in_game_thread) _ _ (λ _. same_mod m)
          (λ _. in_session_keeps m fail body (consume_session m args) h))

delivery_in-Kept :
    (m : BridgeMod) (enable : Bool) (s : LuaSession) (args : Args)
    → Kept m (delivery_in m enable s args)
unfolding delivery_in enabled_reply valid_reply
delivery_in-Kept m enable s args =
    let target = (get_integer args).0 in
    if_all (Kept m) (not (is_positive target)) _ _ (λ _. same_mod m)
      (λ _.
        if_all (Kept m) enable _ _ (λ _. record { index = refl; lifetime = refl; active = refl })
          (λ _. same_mod m))

open_in-Kept :
    (m : BridgeMod) (between : EnhancedInputBackend → EnhancedInputBackend) (s : LuaSession)
    (args : Args)
    → Kept m (open_in m between s args)
unfolding open_in handle_reply
open_in-Kept m between s args =
    if_all (Kept m) (not (decode_packed_path args).success) _ _ (λ _. same_mod m)
      (λ _. record { index = refl; lifetime = refl; active = refl })

inspect_in-Kept :
    (m : BridgeMod) (memory : TargetMemory) (s : LuaSession) (args : Args)
    → Kept m (inspect_in m memory s args)
unfolding inspect_in
inspect_in-Kept m memory s args =
    if_all (Kept m) (not (is_positive (get_integer args).0)) _ _ (λ _. same_mod m) (λ _. same_mod m)

close_in-Kept : (m : BridgeMod) (s : LuaSession) (args : Args) → Kept m (close_in m s args)
unfolding close_in done_reply
close_in-Kept m s args =
    if_all (Kept m) (not (is_positive (get_integer args).0)) _ _ (λ _. same_mod m)
      (λ _. record { index = refl; lifetime = refl; active = refl })

unbind_in-Kept : (m : BridgeMod) (s : LuaSession) (args : Args) → Kept m (unbind_in m s args)
unfolding unbind_in done_reply
unbind_in-Kept m s args =
    if_all (Kept m) (not (is_positive (get_integer args).0)) _ _ (λ _. same_mod m)
      (λ _. record { index = refl; lifetime = refl; active = refl })

unbind_all_in-Kept :
    (m : BridgeMod) (preserve_targets : Bool) (s : LuaSession) (args : Args)
    → Kept m (unbind_all_in m preserve_targets s args)
unfolding unbind_all_in
unbind_all_in-Kept m preserve_targets s args = record {
  index = refl;
  lifetime = refl;
  active = refl;
}

bind_debug-Kept :
    (m : BridgeMod) (s : LuaSession) (target : ℕ) (path : Bytes) (phase : TriggerEvent × Bytes)
    (token : ℕ) (debug : DebugArgs)
    → Kept m (bind_debug m s target path phase token debug)
unfolding bind_debug handle_reply
bind_debug-Kept m s target path (phase, name) token (rejected error) = same_mod m
bind_debug-Kept m s target path (phase, name) token (accepted_debug debug) = record {
  index = refl;
  lifetime = refl;
  active = refl;
}

bind_in-Kept : (m : BridgeMod) (s : LuaSession) (args : Args) → Kept m (bind_in m s args)
unfolding bind_in bind_path bind_phase
bind_in-Kept m s args =
    let (target, rest) = get_integer args in
    let path = decode_packed_path rest in
    let (code, after) = get_integer path.rest in
    let phase = parse_phase code in
    let (token, behind) = get_integer after in
    if_all (Kept m) (not (is_positive target)) _ _ (λ _. same_mod m)
      (λ _.
        if_all (Kept m) (not path.success) _ _ (λ _. same_mod m)
          (λ _.
            if_all (Kept m) (is_no_trigger phase.0) _ _ (λ _. same_mod m)
              (λ _.
                if_all (Kept m) (not (is_positive token)) _ _ (λ _. same_mod m)
                  (λ _. bind_debug-Kept m s target path.value phase token (read_debug behind)))))

trace_in-Kept :
    (m : BridgeMod) (scope_id stage : ℕ) (label : Decoded) (o : Option LuaSession)
    → KeepsSessions m (trace_in m scope_id stage label o)
unfolding trace_in
trace_in-Kept m scope_id stage label none = same_mod m
trace_in-Kept m scope_id stage label (some s) =
    if_all (KeepsSessions m)
      (not (is_positive scope_id) || (not (stage == 1 || stage == 2) || not label.success)) m _
      (λ _. same_mod m) (λ _. record { index = refl; lifetime = refl; active = refl })

trace_scope-Kept : (m : BridgeMod) (args : Args) → Kept m (trace_scope m args)
unfolding trace_scope
trace_scope-Kept m args =
    let (session, a0) = consume_session m args in
    let (scope_id, a1) = get_integer a0 in
    let (stage, a2) = get_integer a1 in
    trace_in-Kept m scope_id stage (decode_packed_text a2 8 64 false (text "debug label")) session

-- The calls on targets, bindings, traces and statistics.
abbrev pub IsInput : LuaCall → Type 0
IsInput (register_loop id token) = ⊥
IsInput (cancel_loop id token) = ⊥
IsInput (capture_object memory id address) = ⊥
IsInput (valid_object memory id address token) = ⊥
IsInput (release_object id token) = ⊥
IsInput (report_object_losses id) = ⊥
IsInput (take_lost_object memory id) = ⊥
IsInput _ = Unit

pub perform_keeps : (call : LuaCall) (m : BridgeMod) → IsInput call → Kept m (perform call m)
unfolding perform
perform_keeps (target_delivery enable args) m h =
    unfold target_delivery_operation in
    in_session_keeps m bool_fail (delivery_in m enable) (consume_session m args)
      (delivery_in-Kept m enable)
perform_keeps get_dispatch_stats m h = same_mod m
perform_keeps get_capabilities m h = same_mod m
perform_keeps (open_component between args) m h =
    unfold open_input_component in
    guarded_keeps m args nil_fail _ (open_in m between) (open_in-Kept m between)
perform_keeps (inspect_component memory args) m h =
    unfold inspect_input_component in
    guarded_keeps m args nil_fail _ (inspect_in m memory) (inspect_in-Kept m memory)
perform_keeps (close_component args) m h =
    unfold close_input_component in guarded_keeps m args bool_fail _ (close_in m) (close_in-Kept m)
perform_keeps (bind_to args) m h =
    unfold bind_action in guarded_keeps m args nil_fail _ (bind_in m) (bind_in-Kept m)
perform_keeps (unbind_from args) m h =
    unfold unbind in guarded_keeps m args bool_fail _ (unbind_in m) (unbind_in-Kept m)
perform_keeps (unbind_every preserve_targets args) m h =
    unfold unbind_all_impl in
    guarded_keeps m args count_fail _ (unbind_all_in m preserve_targets)
      (unbind_all_in-Kept m preserve_targets)
perform_keeps (trace args) m h = trace_scope-Kept m args
perform_keeps (register_loop id token) m h = absurd h
perform_keeps (cancel_loop id token) m h = absurd h
perform_keeps (capture_object memory id address) m h = absurd h
perform_keeps (valid_object memory id address token) m h = absurd h
perform_keeps (release_object id token) m h = absurd h
perform_keeps (report_object_losses id) m h = absurd h
perform_keeps (take_lost_object memory id) m h = absurd h

-- A list of such calls keeps the sessions, the lifetimes and the aliases.
pub perform_all_keeps :
    (calls : List LuaCall) (m : BridgeMod)
    → All IsInput calls
    → KeepsSessions m (perform_all calls m)
unfolding perform_all
perform_all_keeps [] m all = same_mod m
perform_all_keeps (call ∷ calls) m (h, all) =
    then_keeps m (perform call m).0 _ (perform_keeps call m h)
      (perform_all_keeps calls (perform call m).0 all)
