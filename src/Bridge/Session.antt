-- ===== src/Bridge/Session.antt =====
-- The life of a Lua session, on_lua_start, on_lua_stop, session_for and OnUObjectArrayShutdown of
-- bridge/src/BridgeMod.cpp. A pointer to a session is its id, since ids are never used again; 0 is
-- null.
mod Helpers
pub mod Stops
pub mod Starts
use ue4sslua_event_bridge.Base.{
  take, lookup, insert, erase, ℕ, ◌+◌, ◌%◌, ◌^◌, Bool, true, false, Option, none, some, List, [],
  ◌∷◌, ◌==◌, if◌then◌else◌, nat_eq, is_some,
}
use ue4sslua_event_bridge.Alias.{SessionAliasIndex, bind, find, unbind}
use ue4sslua_event_bridge.Backend.Unsubscribe.{unsubscribe_all, deactivate_all}
use ue4sslua_event_bridge.Registry.{start_session, stop_session}
use ue4sslua_event_bridge.Bridge.LoopStart.{LuaSession, Sessions}
use ue4sslua_event_bridge.Bridge.State.{BridgeMod}
use ue4sslua_event_bridge.Bridge.Calls.{LuaCall, perform_all}

-- What on_lua_start is given and what the calls in it yield: the Lua object, the raw states behind
-- the four Lua objects (0 for none), the registry reference that the setup leaves (none if it threw),
-- and after how many of the five publications one threw, if one did.
pub record LuaStart : Type 0 where
  pub lua : ℕ
  pub states : List ℕ
  pub setup : Option ℕ
  pub publication_fails : Option ℕ

pub bind_states : SessionAliasIndex → List ℕ → ℕ → SessionAliasIndex
bind_states index [] session = index
bind_states index (state ∷ states) session = bind_states (bind index state session) states session

pub new_session : ℕ → ℕ → ℕ → LuaSession
new_session id lua dispatcher_ref = record {
  id = id;
  lua = lua;
  dispatcher_ref = dispatcher_ref;
  active = true;
  loop_start_delivered = false;
  loop_start_callbacks = [];
}

-- Behind emplace: the aliases and the registry, or the roll-back.
pub publish_session : BridgeMod → LuaStart → ℕ → Option ℕ → BridgeMod × Bool
publish_session m start id none = (
  record m {
    session_index = bind_states m.session_index start.states id;
    lifetime = record m.lifetime { lifetimes = start_session m.lifetime.lifetimes id };
  },
  true,
)
publish_session m start id (some after) = (
  record m {
    session_index = (unbind (bind_states m.session_index (take after start.states) id) id).0;
    lifetime = record m.lifetime { sessions = erase id m.lifetime.sessions };
  },
  false,
)

pub emplace_session : BridgeMod → LuaStart → ℕ → Option ℕ → BridgeMod × Bool
emplace_session m start id none = (m, false)
emplace_session m start id (some dispatcher_ref) =
    if is_some (lookup id m.lifetime.sessions)
    then (m, false)
    else publish_session
        (record m {
          lifetime = record m.lifetime {
            sessions = insert id (new_session id start.lua dispatcher_ref) m.lifetime.sessions;
          };
        })
        start id start.publication_fails

-- Whether it returned; it threw otherwise.
unfoldable pub on_lua_start : BridgeMod → LuaStart → BridgeMod × Bool
unfolding bind_states new_session publish_session emplace_session
on_lua_start m start =
    emplace_session (record m { next_session_id = (m.next_session_id + 1) % 2 ^ 64 }) start
      m.next_session_id start.setup

-- `session->...`, for a session that stands in the table
pub set_session : Sessions → ℕ → (LuaSession → LuaSession) → Option LuaSession → Sessions
set_session sessions id change none = sessions
set_session sessions id change (some s) = insert id (change s) sessions

pub change_session : BridgeMod → ℕ → (LuaSession → LuaSession) → BridgeMod
change_session m id change = record m {
  lifetime = record m.lifetime {
    sessions = set_session m.lifetime.sessions id change (lookup id m.lifetime.sessions);
  };
}

pub forget_callbacks : LuaSession → LuaSession
forget_callbacks s = record s { loop_start_callbacks = []; loop_start_delivered = true }

pub stop_flag : LuaSession → LuaSession
stop_flag s = record s { active = false }

-- The registry and the loop-start callbacks of the session are given up first.
pub begin_stop : BridgeMod → ℕ → BridgeMod
begin_stop m id =
    change_session
      (record m {
        lifetime = record m.lifetime { lifetimes = stop_session m.lifetime.lifetimes id };
      })
      id forget_callbacks

pub unsubscribe_session : BridgeMod → ℕ → BridgeMod
unsubscribe_session m id =
    let (e, b, count) = unsubscribe_all m.engine m.backend id false in
    record m { engine = e; backend = b }

-- On the game thread; `helper` is what the helper's Lua code calls, whether or not it throws.
pub stop_in_game_thread : BridgeMod → List LuaCall → ℕ → BridgeMod
stop_in_game_thread m helper id =
    change_session (unsubscribe_session (perform_all helper m) id) id stop_flag

pub stop_elsewhere : BridgeMod → ℕ → BridgeMod
stop_elsewhere m id =
    let stopped = change_session m id stop_flag in
    record stopped { backend = deactivate_all stopped.backend id }

pub stop_registered : BridgeMod → List LuaCall → ℕ → BridgeMod
stop_registered m helper id =
    let begun = begin_stop m id in
    let stopped =
      if m.engine.in_game_thread
      then stop_in_game_thread begun helper id
      else stop_elsewhere begun id in
    record stopped { session_index = (unbind stopped.session_index id).0 }

-- `state` is the raw state of the Lua object that stops.
unfoldable pub on_lua_stop : BridgeMod → List LuaCall → ℕ → BridgeMod
unfolding stop_registered stop_in_game_thread stop_elsewhere begin_stop unsubscribe_session
    change_session set_session forget_callbacks stop_flag
on_lua_stop m helper state =
    let id = find m.session_index state in if id == 0 then m else stop_registered m helper id
