-- ===== src/Bridge/Session/Helpers.antt =====
-- What the helper's Lua code can do while on_lua_stop of bridge/src/BridgeMod.cpp stops its session:
-- the registry has forgotten the session already, so the lifetime functions find nothing of it.
use ue4sslua_event_bridge.Base.{
  All, Bytes, lookup, ℕ, ◌≡◌, refl, sym, ap, ◌∙◌, subst, false, none, List, [], ◌∷◌, nat_eq, if_all,
}
use ue4sslua_event_bridge.Registry.State.{identity_eq}
use ue4sslua_event_bridge.Bridge.LoopStart.Numbered.{IsNumbered, loop_start-IsNumbered}
use ue4sslua_event_bridge.Bridge.Lifetime.{
  Memory, LifetimeState, lifetime_capture, lifetime_release, lifetime_report_losses,
  lifetime_take_lost,
}
use ue4sslua_event_bridge.Bridge.Lifetime.Absent.{KeepsLifetimes, lifetime_forgotten}
use ue4sslua_event_bridge.Bridge.State.{Values, BridgeMod}
use ue4sslua_event_bridge.Bridge.Calls.{
  LuaCall, through, perform, perform_all, target_delivery, get_dispatch_stats, get_capabilities,
  open_component, inspect_component, close_component, bind_to, unbind_from, unbind_every, trace,
  register_loop, cancel_loop, capture_object, valid_object, release_object, report_object_losses,
  take_lost_object,
}
use ue4sslua_event_bridge.Bridge.Handlers.Frame.{IsInput, perform_keeps}

-- A call that a Lua mod with this session can make: its lifetime and loop-start functions name its own
-- session. Which session the input functions name is left open.
abbrev pub IsOwn : ℕ → LuaCall → Type 0
IsOwn own (register_loop id token) = id ≡ own
IsOwn own (cancel_loop id token) = id ≡ own
IsOwn own (capture_object memory id address) = id ≡ own
IsOwn own (valid_object memory id address token) = id ≡ own
IsOwn own (release_object id token) = id ≡ own
IsOwn own (report_object_losses id) = id ≡ own
IsOwn own (take_lost_object memory id) = id ≡ own
IsOwn own _ = Unit

-- The registry does not know the session, and the table has it under its number, or not at all.
pub record IsForgotten (m : BridgeMod) (id : ℕ) : Type 0 where
  pub absent : lookup id m.lifetime.lifetimes.sessions ≡ none
  pub numbered : IsNumbered m.lifetime.sessions id

-- The aliases and the registry stand, and the session stays forgotten.
pub record KeepsForgotten (m : BridgeMod) (id : ℕ) (m' : BridgeMod) : Type 0 where
  pub index : m'.session_index ≡ m.session_index
  pub lifetimes : m'.lifetime.lifetimes ≡ m.lifetime.lifetimes
  pub numbered : IsNumbered m'.lifetime.sessions id

through_forgotten :
    (m : BridgeMod) (id : ℕ) (f : LifetimeState → LifetimeState × Values)
    → IsNumbered m.lifetime.sessions id
    → (f m.lifetime).0.lifetimes ≡ m.lifetime.lifetimes
    → IsNumbered (f m.lifetime).0.sessions id
    → KeepsForgotten m id (through m f).0
unfolding through
through_forgotten m id f before lifetimes numbered =
    if_all (λ (r : BridgeMod × Values). KeepsForgotten m id r.0) m.active _ _
      (λ _. record { index = refl; lifetimes = lifetimes; numbered = numbered })
      (λ _. record { index = refl; lifetimes = refl; numbered = before })

-- A function that keeps the table and the registry.
through_Keeps :
    (m : BridgeMod) (id : ℕ) (f : LifetimeState → LifetimeState × Values)
    → IsNumbered m.lifetime.sessions id
    → KeepsLifetimes m.lifetime (f m.lifetime).0
    → KeepsForgotten m id (through m f).0
through_Keeps m id f numbered (lifetimes, sessions) =
    through_forgotten m id f numbered lifetimes
      (subst (λ x. IsNumbered x id) (sym sessions) numbered)

-- An input function keeps the session forgotten.
input_Keeps :
    (call : LuaCall) (m : BridgeMod) (id : ℕ)
    → IsInput call
    → IsNumbered m.lifetime.sessions id
    → KeepsForgotten m id (perform call m).0
input_Keeps call m id input numbered =
    let kept = perform_keeps call m input in
    record {
      index = kept.index;
      lifetimes = ap (λ b. b.lifetimes) kept.lifetime;
      numbered = subst (λ b. IsNumbered b.sessions id) (sym kept.lifetime) numbered;
    }

abbrev silent_memory : Memory
silent_memory = record { in_game_thread = false; read_index = λ a. none; read_item = λ i. none }

own_lifetime_call :
    (m : BridgeMod) (memory : Memory) (id address : ℕ) (token : Bytes)
    → IsForgotten m id
    → KeepsLifetimes m.lifetime (lifetime_capture memory m.lifetime id address).0
      × KeepsLifetimes m.lifetime (lifetime_release m.lifetime id token).0
      × KeepsLifetimes m.lifetime (lifetime_report_losses m.lifetime id).0
      × KeepsLifetimes m.lifetime (lifetime_take_lost memory m.lifetime id).0
own_lifetime_call m memory id address token h =
    lifetime_forgotten memory m.lifetime id address token h.absent h.numbered

-- A call of the helper keeps the session forgotten.
own_Keeps :
    (call : LuaCall) (m : BridgeMod) (own : ℕ)
    → IsOwn own call
    → IsForgotten m own
    → KeepsForgotten m own (perform call m).0
unfolding perform
own_Keeps (target_delivery enable args) m own h f =
    input_Keeps (target_delivery enable args) m own tt f.numbered
own_Keeps get_dispatch_stats m own h f = input_Keeps get_dispatch_stats m own tt f.numbered
own_Keeps get_capabilities m own h f = input_Keeps get_capabilities m own tt f.numbered
own_Keeps (open_component between args) m own h f =
    input_Keeps (open_component between args) m own tt f.numbered
own_Keeps (inspect_component memory args) m own h f =
    input_Keeps (inspect_component memory args) m own tt f.numbered
own_Keeps (close_component args) m own h f = input_Keeps (close_component args) m own tt f.numbered
own_Keeps (bind_to args) m own h f = input_Keeps (bind_to args) m own tt f.numbered
own_Keeps (unbind_from args) m own h f = input_Keeps (unbind_from args) m own tt f.numbered
own_Keeps (unbind_every preserve_targets args) m own h f =
    input_Keeps (unbind_every preserve_targets args) m own tt f.numbered
own_Keeps (trace args) m own h f = input_Keeps (trace args) m own tt f.numbered
own_Keeps (register_loop id token) m own h f =
    subst (λ k. KeepsForgotten m own (perform (register_loop k token) m).0) (sym h)
      (through_forgotten m own _ f.numbered refl
        (loop_start-IsNumbered m.lifetime.sessions own token f.numbered).0)
own_Keeps (cancel_loop id token) m own h f =
    subst (λ k. KeepsForgotten m own (perform (cancel_loop k token) m).0) (sym h)
      (through_forgotten m own _ f.numbered refl
        (loop_start-IsNumbered m.lifetime.sessions own token f.numbered).1)
own_Keeps (capture_object memory id address) m own h f =
    subst (λ k. KeepsForgotten m own (perform (capture_object memory k address) m).0) (sym h)
      (through_Keeps m own _ f.numbered (own_lifetime_call m memory own address [] f).0)
own_Keeps (valid_object memory id address token) m own h f =
    through_Keeps m own _ f.numbered (refl, refl)
own_Keeps (release_object id token) m own h f =
    subst (λ k. KeepsForgotten m own (perform (release_object k token) m).0) (sym h)
      (through_Keeps m own _ f.numbered (own_lifetime_call m silent_memory own 0 token f).1)
own_Keeps (report_object_losses id) m own h f =
    subst (λ k. KeepsForgotten m own (perform (report_object_losses k) m).0) (sym h)
      (through_Keeps m own _ f.numbered (own_lifetime_call m silent_memory own 0 [] f).2)
own_Keeps (take_lost_object memory id) m own h f =
    subst (λ k. KeepsForgotten m own (perform (take_lost_object memory k) m).0) (sym h)
      (through_Keeps m own _ f.numbered (own_lifetime_call m memory own 0 [] f).3)

-- All that the helper does.
pub helper_Keeps :
    (calls : List LuaCall) (m : BridgeMod) (own : ℕ)
    → All (IsOwn own) calls
    → IsForgotten m own
    → KeepsForgotten m own (perform_all calls m)
unfolding perform_all
helper_Keeps [] m own all f = record { index = refl; lifetimes = refl; numbered = f.numbered }
helper_Keeps (call ∷ calls) m own (h, all) f =
    let one = own_Keeps call m own h f in
    let rest = helper_Keeps calls (perform call m).0 own all (record {
      absent = ap (λ r. lookup own r.sessions) one.lifetimes ∙ f.absent;
      numbered = one.numbered;
    }) in
    record {
      index = rest.index ∙ one.index;
      lifetimes = rest.lifetimes ∙ one.lifetimes;
      numbered = rest.numbered;
    }
