-- ===== src/Bridge/Session/Stops.antt =====
-- What on_lua_stop of bridge/src/BridgeMod.cpp leaves of a session.
use ue4sslua_event_bridge.Base.{
  All, lookup-insert, lookup, ℕ, ◌≡◌, refl, sym, ap, ◌∙◌, subst, ◌≢◌, inl, inr, true, false, Option,
  none, some, List, arith, ◌==◌, if◌then◌else◌, nat_eq, ==_refl, Bool-cases, some-injective, if_all,
  if_false,
}
use ue4sslua_event_bridge.Alias.{SessionAliasIndex, find, unbind, IsWell, find-unbind}
use ue4sslua_event_bridge.Backend.State.{has}
use ue4sslua_event_bridge.Backend.Unsubscribe.{session_of}
use ue4sslua_event_bridge.Backend.Unsubscribe.Clears.{unsubscribe_all-Clears}
use ue4sslua_event_bridge.Registry.State.{identity_eq}
use ue4sslua_event_bridge.Registry.Changes.{Clears, IsLinked}
use ue4sslua_event_bridge.Registry.{stop_session}
use ue4sslua_event_bridge.Registry.Stopping.{stop_session-Clears, stop_session_absent}
use ue4sslua_event_bridge.Bridge.LoopStart.{LuaSession, Sessions, active_session, session_for_id}
use ue4sslua_event_bridge.Bridge.State.{BridgeMod}
use ue4sslua_event_bridge.Bridge.Handlers.Refusals.{named_session, perform_refused}
use ue4sslua_event_bridge.Bridge.Calls.{LuaCall, perform, perform_all}
use ue4sslua_event_bridge.Bridge.Session.{
  set_session, change_session, forget_callbacks, stop_flag, begin_stop, unsubscribe_session,
  stop_in_game_thread, stop_elsewhere, stop_registered, on_lua_stop,
}
use ue4sslua_event_bridge.Bridge.LoopStart.Numbered.{IsNumbered}
use ue4sslua_event_bridge.Bridge.Session.Helpers.{IsOwn, IsForgotten, helper_Keeps}

-- Nothing leads to the session any more.
pub record IsStopped (m : BridgeMod) (id : ℕ) (m' : BridgeMod) : Type 0 where
  pub unfound : (state : ℕ) → find m'.session_index state ≢ id
  pub inactive : session_for_id m'.lifetime.sessions id ≡ none
  pub unobserved : Clears m.lifetime.lifetimes id m'.lifetime.lifetimes
  pub unsubscribed :
      m.engine.in_game_thread ≡ true
      → (j : ℕ) → has j m'.backend.subscriptions ≡ true
      → session_of m'.backend j ≢ some id
  pub refused : (call : LuaCall) → named_session call ≡ some id → (perform call m').0 ≡ m'

pub find-unbound :
    (x : SessionAliasIndex) (session state : ℕ)
    → IsWell x
    → session ≢ 0
    → find (unbind x session).0 state ≢ session
find-unbound x session state well real e =
    let same = (find-unbind x session state well).0 in
    elim (Bool-cases (find x state == session)) [
      | inl hit ↦ real (ground (arith, same, hit, e))
      | inr other ↦ absurd (ground (arith, same, other, e))
    ]

lookup-set_session :
    (sessions : Sessions) (id : ℕ) (change : LuaSession → LuaSession) (o : Option LuaSession)
    → lookup id sessions ≡ o
    → lookup id (set_session sessions id change o)
      ≡ (elim o [ none ↦ none | some s ↦ some (change s) ])
unfolding set_session
lookup-set_session sessions id change none e = e
lookup-set_session sessions id change (some s) e =
    lookup-insert id id (change s) sessions
    ∙ ap (λ c. if c then some (change s) else lookup id sessions) (==_refl id)

session_for_id-stopped :
    (sessions : Sessions) (id : ℕ)
    → session_for_id (set_session sessions id stop_flag (lookup id sessions)) id ≡ none
unfolding session_for_id stop_flag active_session
session_for_id-stopped sessions id =
    ap active_session (lookup-set_session sessions id stop_flag (lookup id sessions) refl)
    ∙ flagged (lookup id sessions)
  where
    flagged :
        (o : Option LuaSession)
        → active_session (elim o [ none ↦ none | some s ↦ some (record s { active = false }) ])
          ≡ none
    flagged none = refl
    flagged (some s) = refl

-- The parts that the stop itself gives up, in the order of the code.
record Stopping (m : BridgeMod) (id : ℕ) (m' : BridgeMod) : Type 0 where
  index : m'.session_index ≡ m.session_index
  lifetimes : m'.lifetime.lifetimes ≡ stop_session m.lifetime.lifetimes id
  inactive : session_for_id m'.lifetime.sessions id ≡ none
  unsubscribed :
      m.engine.in_game_thread ≡ true
      → (j : ℕ) → has j m'.backend.subscriptions ≡ true
      → session_of m'.backend j ≢ some id

set_session-IsNumbered :
    (sessions : Sessions) (id : ℕ) (change : LuaSession → LuaSession) (o : Option LuaSession)
    → lookup id sessions ≡ o
    → ((s : LuaSession) → (change s).id ≡ s.id)
    → IsNumbered sessions id
    → IsNumbered (set_session sessions id change o) id
unfolding set_session
set_session-IsNumbered sessions id change none e keeps numbered = numbered
set_session-IsNumbered sessions id change (some s) e keeps numbered =
    λ t there. ground (arith, there, lookup-insert id id (change s) sessions, keeps s, numbered s e)

-- The registry has forgotten the session once its stop has begun.
begin_stop-IsForgotten :
    (m : BridgeMod) (id : ℕ) → IsNumbered m.lifetime.sessions id → IsForgotten (begin_stop m id) id
unfolding begin_stop change_session forget_callbacks
begin_stop-IsForgotten m id numbered = record {
  absent = stop_session_absent m.lifetime.lifetimes id;
  numbered =
      set_session-IsNumbered m.lifetime.sessions id forget_callbacks _ refl (λ s. refl) numbered;
}

stop_in_game_thread-Stopping :
    (m : BridgeMod) (helper : List LuaCall) (id : ℕ)
    → All (IsOwn id) helper
    → IsNumbered m.lifetime.sessions id
    → Stopping m id (stop_in_game_thread (begin_stop m id) helper id)
unfolding stop_in_game_thread begin_stop change_session unsubscribe_session
stop_in_game_thread-Stopping m helper id own numbered =
    let begun = begin_stop m id in
    let kept = helper_Keeps helper begun id own (begin_stop-IsForgotten m id numbered) in
    let helped = perform_all helper begun in
    record {
      index = kept.index;
      lifetimes = kept.lifetimes;
      inactive = session_for_id-stopped helped.lifetime.sessions id;
      unsubscribed = λ _. (unsubscribe_all-Clears helped.engine helped.backend id false).0;
    }

stop_elsewhere-Stopping :
    (m : BridgeMod) (id : ℕ)
    → m.engine.in_game_thread ≡ false
    → Stopping m id (stop_elsewhere (begin_stop m id) id)
unfolding stop_elsewhere begin_stop change_session
stop_elsewhere-Stopping m id elsewhere = record {
  index = refl;
  lifetimes = refl;
  inactive = session_for_id-stopped (begin_stop m id).lifetime.sessions id;
  unsubscribed = λ here. absurd (ground (arith, here, elsewhere));
}

stop_registered-IsStopped :
    (m : BridgeMod) (helper : List LuaCall) (id : ℕ)
    → IsWell m.session_index
    → IsLinked m.lifetime.lifetimes
    → IsNumbered m.lifetime.sessions id
    → All (IsOwn id) helper
    → id ≢ 0
    → IsStopped m id (stop_registered m helper id)
unfolding stop_registered
stop_registered-IsStopped m helper id well linked numbered own real =
    let begun = begin_stop m id in
    let stopped =
      if m.engine.in_game_thread
      then stop_in_game_thread begun helper id
      else stop_elsewhere begun id in
    let done : Stopping m id stopped =
      if_all (Stopping m id) m.engine.in_game_thread (stop_in_game_thread begun helper id)
        (stop_elsewhere begun id) (λ _. stop_in_game_thread-Stopping m helper id own numbered)
        (stop_elsewhere-Stopping m id) in
    let final : BridgeMod = record stopped {
      session_index = (unbind stopped.session_index id).0;
    } in
    record {
      unfound = λ state.
          find-unbound stopped.session_index id state (subst IsWell (sym done.index) well) real;
      inactive = done.inactive;
      unobserved =
          subst (Clears m.lifetime.lifetimes id) (sym done.lifetimes)
            (stop_session-Clears m.lifetime.lifetimes id linked);
      unsubscribed = done.unsubscribed;
      refused = λ call named. perform_refused call final (λ other h.
          subst (λ k. session_for_id final.lifetime.sessions k ≡ none)
            (some-injective (sym named ∙ h)) done.inactive);
    }

-- When the state that stops finds a session, then after on_lua_stop no state finds that session, it is
-- not active, nothing of it is observed or watched while the other sessions' observations stand as
-- they were, on the game thread no subscription of it is left, and every later call that names it
-- changes nothing. The aliases and the registry are well formed before, the session stands under its
-- own number, and the helper's Lua code calls any functions, its lifetime and loop-start functions for
-- its own session.
pub on_lua_stop-IsStopped :
    (m : BridgeMod) (helper : List LuaCall) (state : ℕ)
    → IsWell m.session_index
    → IsLinked m.lifetime.lifetimes
    → IsNumbered m.lifetime.sessions (find m.session_index state)
    → All (IsOwn (find m.session_index state)) helper
    → find m.session_index state ≢ 0
    → IsStopped m (find m.session_index state) (on_lua_stop m helper state)
unfolding on_lua_stop
on_lua_stop-IsStopped m helper state well linked numbered own real =
    let id = find m.session_index state in
    subst (IsStopped m id)
      (sym (if_false (id == 0) m (stop_registered m helper id) (ground (arith, real))))
      (stop_registered-IsStopped m helper id well linked numbered own real)
