-- ===== src/Bridge/State.antt =====
-- The object UE4SSLuaEventBridgeMod of bridge/src/BridgeMod.cpp, and what its Lua functions share:
-- values on the Lua stack, the session argument and the guards.
use ue4sslua_event_bridge.Base.{
  Bytes, text, ℕ, ◌≡◌, refl, Bool, false, not, ◌||◌, Option, none, some, List, [], ◌∷◌, arith,
  if◌then◌else◌, if_all,
}
use ue4sslua_event_bridge.Alias.{SessionAliasIndex}
use ue4sslua_event_bridge.Backend.Engine.{Engine}
use ue4sslua_event_bridge.Backend.State.{EnhancedInputBackend, available}
use ue4sslua_event_bridge.Bridge.Decode.{Args, get_integer}
use ue4sslua_event_bridge.Bridge.LoopStart.{LuaSession, session_for_id}
use ue4sslua_event_bridge.Bridge.Lifetime.{LifetimeState}

-- What a function pushes for Lua.
pub data LuaValue : Type 0 where
  lua_nil : LuaValue
  lua_bool : Bool → LuaValue
  lua_integer : ℕ → LuaValue
  lua_number : ℕ → LuaValue
  lua_string : Bytes → LuaValue

abbrev pub Values : Type 0
Values = List LuaValue

-- The sessions, the registry and the probe stand in `lifetime`; `active` is whether active_mod leads
-- to this object. The engine is what Unreal answers next.
pub record BridgeMod : Type 0 where
  pub active : Bool
  pub engine : Engine
  pub backend : EnhancedInputBackend
  pub lifetime : LifetimeState
  pub session_index : SessionAliasIndex
  pub next_session_id : ℕ

unfoldable pub consume_session : BridgeMod → Args → Option LuaSession × Args
consume_session m args =
    let (id, rest) = get_integer args in
    if m.active then (session_for_id m.lifetime.sessions id, rest) else (none, args)

abbrev pub no_session : Bytes
no_session = text "Lua session is not registered or is stopping"

unfoldable pub in_session :
    BridgeMod
    → (Bytes → Values)
    → (LuaSession → Args → BridgeMod × Values)
    → Option LuaSession × Args
    → BridgeMod × Values
in_session m fail body (none, args) = (m, fail no_session)
in_session m fail body (some s, args) = body s args

-- The three guards in front of most functions: the backend, the thread and the session. `fail` is how
-- the function reports an error.
unfoldable pub guarded :
    BridgeMod
    → Args
    → (Bytes → Values)
    → Bytes
    → (LuaSession → Args → BridgeMod × Values)
    → BridgeMod × Values
guarded m args fail wrong_thread body =
    if not m.active || not (available m.backend)
    then (m, fail (text "Enhanced Input backend is not initialized"))
    else if not m.engine.in_game_thread
    then (m, fail wrong_thread)
    else in_session m fail body (consume_session m args)

abbrev pub nil_fail : Bytes → Values
nil_fail message = lua_nil ∷ lua_string message ∷ []

abbrev pub bool_fail : Bytes → Values
bool_fail message = lua_bool false ∷ lua_string message ∷ []

abbrev pub count_fail : Bytes → Values
count_fail message = lua_integer 0 ∷ lua_bool false ∷ lua_string message ∷ []

pub in_session_refused :
    (m : BridgeMod) (fail : Bytes → Values) (body : LuaSession → Args → BridgeMod × Values)
    (p : Option LuaSession × Args)
    → p.0 ≡ none
    → (in_session m fail body p).0 ≡ m
unfolding in_session
in_session_refused m fail body (none, args) e = refl
in_session_refused m fail body (some s, args) e = absurd (ground (arith, e))

-- A function that is refused leaves everything as it is: its guards come before any change.
pub guarded_refused :
    (m : BridgeMod) (args : Args) (fail : Bytes → Values) (wrong_thread : Bytes)
    (body : LuaSession → Args → BridgeMod × Values)
    → (consume_session m args).0 ≡ none
    → (guarded m args fail wrong_thread body).0 ≡ m
unfolding guarded
guarded_refused m args fail wrong_thread body gone =
    let Same : BridgeMod × Values → Type 0 = λ r. r.0 ≡ m in
    if_all Same (not m.active || not (available m.backend)) _ _ (λ _. refl)
      (λ _.
        if_all Same (not m.engine.in_game_thread) _ _ (λ _. refl)
          (λ _. in_session_refused m fail body (consume_session m args) gone))
