-- ===== src/Bridge/Session/Starts.antt =====
-- What on_lua_start of bridge/src/BridgeMod.cpp publishes, and what it rolls back.
use ue4sslua_event_bridge.Base.{
  take, lookup-insert, lookup-erase, lookup, insert, erase, ℕ, ◌+◌, ◌%◌, ◌^◌, ◌≡◌, refl, sym, ap,
  ◌∙◌, subst, ◌≢◌, inl, inr, Bool, true, false, Option, none, some, List, [], ◌∷◌, arith, ◌==◌,
  if◌then◌else◌, nat_eq, ==_refl, Bool-cases, is_some, if_false,
}
use ue4sslua_event_bridge.Alias.{SessionAliasIndex, bind, find, IsWell, bind-IsWell, find-bind}
use ue4sslua_event_bridge.Backend.State.{has}
use ue4sslua_event_bridge.Bridge.LoopStart.{LuaSession, Sessions, active_session, session_for_id}
use ue4sslua_event_bridge.Bridge.State.{BridgeMod}
use ue4sslua_event_bridge.Bridge.Session.{
  LuaStart, bind_states, new_session, publish_session, emplace_session, on_lua_start,
}
use ue4sslua_event_bridge.Bridge.Session.Stops.{find-unbound}

bind_states-IsWell :
    (states : List ℕ) (x : SessionAliasIndex) (session : ℕ)
    → IsWell x
    → IsWell (bind_states x states session)
unfolding bind_states
bind_states-IsWell [] x session well = well
bind_states-IsWell (state ∷ states) x session well =
    bind_states-IsWell states (bind x state session) session (bind-IsWell x state session well)

-- A state that finds the session goes on finding it while further states are bound to it.
bind_states-keeps :
    (states : List ℕ) (x : SessionAliasIndex) (session k : ℕ)
    → find x k ≡ session
    → find (bind_states x states session) k ≡ session
unfolding bind_states
bind_states-keeps [] x session k e = e
bind_states-keeps (state ∷ states) x session k e =
    bind_states-keeps states (bind x state session) session k
      (ground (arith, find-bind x state session k, e))

find-bind_states :
    (states : List ℕ) (x : SessionAliasIndex) (session k : ℕ)
    → session ≢ 0
    → k ≢ 0
    → has k states ≡ true
    → find (bind_states x states session) k ≡ session
unfolding bind_states
find-bind_states [] x session k real some_state there = absurd (ground (arith, there))
find-bind_states (state ∷ states) x session k real some_state there =
    elim (Bool-cases (state == k)) [
      | inl same ↦
          bind_states-keeps states (bind x state session) session k
            (ground (arith, find-bind x state session k, same, real, some_state))
      | inr other ↦
          find-bind_states states (bind x state session) session k real some_state
            (ground (arith, there, other))
    ]

-- A session that started: it is active under its id, and its states find it. After a publication that
-- failed: it is not registered, and no state finds it.
pub Publishes : LuaStart → ℕ → ℕ → Option ℕ → BridgeMod × Bool → Type 0
Publishes start id dispatcher_ref none (m', returned) =
    (returned ≡ true)
    × (session_for_id m'.lifetime.sessions id ≡ some (new_session id start.lua dispatcher_ref))
    × ((k : ℕ) → k ≢ 0 → has k start.states ≡ true → find m'.session_index k ≡ id)
Publishes start id dispatcher_ref (some after) (m', returned) =
    (returned ≡ false)
    × (session_for_id m'.lifetime.sessions id ≡ none)
    × ((k : ℕ) → find m'.session_index k ≢ id)

inserted :
    (sessions : Sessions) (id : ℕ) (s : LuaSession) → lookup id (insert id s sessions) ≡ some s
inserted sessions id s =
    lookup-insert id id s sessions ∙ ap (λ c. if c then some s else lookup id sessions) (==_refl id)

erased : (sessions : Sessions) (id : ℕ) → lookup id (erase id sessions) ≡ none
erased sessions id =
    lookup-erase id id sessions ∙ ap (λ c. if c then none else lookup id sessions) (==_refl id)

publish_session-Publishes :
    (m : BridgeMod) (start : LuaStart) (id dispatcher_ref : ℕ) (fails : Option ℕ)
    → IsWell m.session_index
    → id ≢ 0
    → Publishes start id dispatcher_ref fails (
        publish_session
          (record m {
            lifetime = record m.lifetime {
              sessions = insert id (new_session id start.lua dispatcher_ref) m.lifetime.sessions;
            };
          })
          start
          id
          fails)
unfolding publish_session Publishes session_for_id new_session
publish_session-Publishes m start id dispatcher_ref none well real = (
  refl,
  ap active_session (inserted m.lifetime.sessions id _),
  λ k some_state there. find-bind_states start.states m.session_index id k real some_state there,
)
publish_session-Publishes m start id dispatcher_ref (some after) well real = (
  refl,
  ap active_session (erased _ id),
  λ k.
      find-unbound (bind_states m.session_index (take after start.states) id) id k
        (bind_states-IsWell (take after start.states) m.session_index id well) real,
)

emplaced :
    (m : BridgeMod) (start : LuaStart) (id dispatcher_ref : ℕ)
    → lookup id m.lifetime.sessions ≡ none
    → Publishes start id dispatcher_ref start.publication_fails (
        publish_session
          (record m {
            lifetime = record m.lifetime {
              sessions = insert id (new_session id start.lua dispatcher_ref) m.lifetime.sessions;
            };
          })
          start
          id
          start.publication_fails)
    → Publishes start id dispatcher_ref start.publication_fails
        (emplace_session m start id (some dispatcher_ref))
unfolding emplace_session
emplaced m start id dispatcher_ref fresh published =
    subst (Publishes start id dispatcher_ref start.publication_fails)
      (sym (if_false (is_some (lookup id m.lifetime.sessions)) (m, false) _ (ap is_some fresh)))
      published

-- When the aliases are well formed, the setup leaves a dispatcher and the id is new and not 0, then
-- either every publication succeeds, and the session is active and found by each of its states, or
-- one fails, and then on_lua_start throws with the session unregistered and found by no state.
pub on_lua_start-Publishes :
    (m : BridgeMod) (start : LuaStart) (dispatcher_ref : ℕ)
    → IsWell m.session_index
    → m.next_session_id ≢ 0
    → lookup m.next_session_id m.lifetime.sessions ≡ none
    → start.setup ≡ some dispatcher_ref
    → Publishes start m.next_session_id dispatcher_ref start.publication_fails
        (on_lua_start m start)
unfolding on_lua_start
on_lua_start-Publishes m start dispatcher_ref well real fresh setup =
    let id = m.next_session_id in
    let counted : BridgeMod = record m { next_session_id = (id + 1) % 2 ^ 64 } in
    let Good : BridgeMod × Bool → Type 0 =
      Publishes start id dispatcher_ref start.publication_fails in
    subst (λ o. Good (emplace_session counted start id o)) (sym setup)
      (emplaced counted start id dispatcher_ref fresh (
        publish_session-Publishes counted start id dispatcher_ref start.publication_fails well
          real))
