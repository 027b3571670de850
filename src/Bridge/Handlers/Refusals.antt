-- ===== src/Bridge/Handlers/Refusals.antt =====
-- Calls that name a session which is not active, bridge/src/BridgeMod.cpp.
use ue4sslua_event_bridge.Base.{
  text, ℕ, ◌≡◌, refl, ap, false, Option, none, some, [], arith, if_all,
}
use ue4sslua_event_bridge.Bridge.Decode.{Args, get_integer, Decoded, decode_packed_text}
use ue4sslua_event_bridge.Bridge.LoopStart.{
  LuaSession, session_for_id, register_loop_start_refused, cancel_loop_start_refused,
}
use ue4sslua_event_bridge.Bridge.Lifetime.{Memory, LifetimeState, lifetime_refused}
use ue4sslua_event_bridge.Bridge.State.{
  Values, BridgeMod, consume_session, nil_fail, bool_fail, count_fail, in_session_refused,
  guarded_refused,
}
use ue4sslua_event_bridge.Bridge.Handlers.{
  target_delivery_operation, open_input_component, inspect_input_component, close_input_component,
  unbind, unbind_all_impl, bind_action, trace_in, trace_scope,
}
use ue4sslua_event_bridge.Bridge.Calls.{
  LuaCall, through, perform, target_delivery, get_dispatch_stats, get_capabilities, open_component,
  inspect_component, close_component, bind_to, unbind_from, unbind_every, trace, register_loop,
  cancel_loop, capture_object, valid_object, release_object, report_object_losses, take_lost_object,
}

-- The session that a call names; the two that name none change nothing.
abbrev pub named_session : LuaCall → Option ℕ
named_session (target_delivery enable args) = some (args.integers args.taken)
named_session get_dispatch_stats = none
named_session get_capabilities = none
named_session (open_component between args) = some (args.integers args.taken)
named_session (inspect_component memory args) = some (args.integers args.taken)
named_session (close_component args) = some (args.integers args.taken)
named_session (bind_to args) = some (args.integers args.taken)
named_session (unbind_from args) = some (args.integers args.taken)
named_session (unbind_every preserve_targets args) = some (args.integers args.taken)
named_session (trace args) = some (args.integers args.taken)
named_session (register_loop id token) = some id
named_session (cancel_loop id token) = some id
named_session (capture_object memory id address) = some id
named_session (valid_object memory id address token) = some id
named_session (release_object id token) = some id
named_session (report_object_losses id) = some id
named_session (take_lost_object memory id) = some id

-- No call names a session that is active.
abbrev pub NamesNoActive : BridgeMod → LuaCall → Type 0
NamesNoActive m call =
    (id : ℕ) → named_session call ≡ some id → session_for_id m.lifetime.sessions id ≡ none

consume_session-none :
    (m : BridgeMod) (args : Args)
    → session_for_id m.lifetime.sessions (args.integers args.taken) ≡ none
    → (consume_session m args).0 ≡ none
unfolding consume_session get_integer
consume_session-none m args gone =
    if_all (λ (p : Option LuaSession × Args). p.0 ≡ none) m.active _ (none, args) (λ _. gone)
      (λ _. refl)

trace_in_refused :
    (m : BridgeMod) (scope_id stage : ℕ) (label : Decoded) (o : Option LuaSession)
    → o ≡ none
    → trace_in m scope_id stage label o ≡ m
unfolding trace_in
trace_in_refused m scope_id stage label none e = refl
trace_in_refused m scope_id stage label (some s) e = absurd (ground (arith, e))

trace_scope_refused :
    (m : BridgeMod) (args : Args) → (consume_session m args).0 ≡ none → (trace_scope m args).0 ≡ m
unfolding trace_scope
trace_scope_refused m args gone =
    let (session, a0) = consume_session m args in
    let (scope_id, a1) = get_integer a0 in
    let (stage, a2) = get_integer a1 in
    trace_in_refused m scope_id stage (decode_packed_text a2 8 64 false (text "debug label"))
      session gone

-- A function that keeps the lifetimes, through which the mod is kept.
through_keeps :
    (m : BridgeMod) (f : LifetimeState → LifetimeState × Values)
    → (f m.lifetime).0 ≡ m.lifetime
    → (through m f).0 ≡ m
unfolding through
through_keeps m f e =
    if_all (λ (r : BridgeMod × Values). r.0 ≡ m) m.active _ _
      (λ _. ap (λ b. record m { lifetime = b }) e) (λ _. refl)

abbrev no_memory : Memory
no_memory = record { in_game_thread = false; read_index = λ a. none; read_item = λ i. none }

-- A call changes nothing at all when the session that it names is not registered or not active.
pub perform_refused :
    (call : LuaCall) (m : BridgeMod) → NamesNoActive m call → (perform call m).0 ≡ m
unfolding perform
perform_refused (target_delivery enable args) m gone =
    unfold target_delivery_operation in
    in_session_refused m bool_fail _ (consume_session m args)
      (consume_session-none m args (gone _ refl))
perform_refused get_dispatch_stats m gone = refl
perform_refused get_capabilities m gone = refl
perform_refused (open_component between args) m gone =
    unfold open_input_component in
    guarded_refused m args nil_fail _ _ (consume_session-none m args (gone _ refl))
perform_refused (inspect_component memory args) m gone =
    unfold inspect_input_component in
    guarded_refused m args nil_fail _ _ (consume_session-none m args (gone _ refl))
perform_refused (close_component args) m gone =
    unfold close_input_component in
    guarded_refused m args bool_fail _ _ (consume_session-none m args (gone _ refl))
perform_refused (bind_to args) m gone =
    unfold bind_action in
    guarded_refused m args nil_fail _ _ (consume_session-none m args (gone _ refl))
perform_refused (unbind_from args) m gone =
    unfold unbind in
    guarded_refused m args bool_fail _ _ (consume_session-none m args (gone _ refl))
perform_refused (unbind_every preserve_targets args) m gone =
    unfold unbind_all_impl in
    guarded_refused m args count_fail _ _ (consume_session-none m args (gone _ refl))
perform_refused (trace args) m gone =
    trace_scope_refused m args (consume_session-none m args (gone _ refl))
perform_refused (register_loop id token) m gone = through_keeps m _ (
    ap (λ x. record m.lifetime { sessions = x })
      (register_loop_start_refused m.lifetime.sessions id token (gone id refl)))
perform_refused (cancel_loop id token) m gone = through_keeps m _ (
    ap (λ x. record m.lifetime { sessions = x })
      (cancel_loop_start_refused m.lifetime.sessions id token (gone id refl)))
perform_refused (capture_object memory id address) m gone =
    through_keeps m _ (lifetime_refused memory m.lifetime id address [] (gone id refl)).0
perform_refused (valid_object memory id address token) m gone = through_keeps m _ refl
perform_refused (release_object id token) m gone =
    through_keeps m _ (lifetime_refused no_memory m.lifetime id 0 token (gone id refl)).1
perform_refused (report_object_losses id) m gone =
    through_keeps m _ (lifetime_refused no_memory m.lifetime id 0 [] (gone id refl)).2
perform_refused (take_lost_object memory id) m gone =
    through_keeps m _ (lifetime_refused memory m.lifetime id 0 [] (gone id refl)).3
