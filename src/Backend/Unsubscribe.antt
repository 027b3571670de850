-- ===== src/Backend/Unsubscribe.antt =====
-- unsubscribe_locked, unsubscribe, unsubscribe_all, deactivate, deactivate_all and
-- collect_inactive_locked of bridge/src/EnhancedInputBackend.cpp.
pub mod Removed
pub mod Clears
use ue4sslua_event_bridge.Base.{
  length, keep_if, Bytes, text, lookup, map_keep, ℕ, Bool, true, false, not, ◌&&◌, ◌||◌, Option,
  none, some, List, [], ◌∷◌, ◌==◌, if◌then◌else◌, nat_eq,
}
use ue4sslua_event_bridge.Backend.Engine.{Engine}
use ue4sslua_event_bridge.Backend.State.{
  EnhancedInputEvent, EnhancedInputSubscription, LiveBinding, EnhancedInputBackend, has, without,
  put_dispatch, set_inactive,
}
use ue4sslua_event_bridge.Backend.Trace.{write_debug_trace}
use ue4sslua_event_bridge.Backend.Native.{detach}

-- The loop over the live bindings, which detaches those of the subscription and erases them.
unfoldable pub detach_loop :
    Engine
    → EnhancedInputBackend
    → ℕ
    → List LiveBinding
    → Engine × EnhancedInputBackend × List LiveBinding
detach_loop e b id [] = (e, b, [])
detach_loop e b id (live ∷ rest) =
    let (e', b') = if live.subscription == id then detach e b live else (e, b) in
    let (e'', b'', kept) = detach_loop e' b' id rest in
    (e'', b'', if live.subscription == id then kept else live ∷ kept)

pub remove_bindings :
    Engine × EnhancedInputBackend × List LiveBinding → ℕ → Engine × EnhancedInputBackend
remove_bindings (e, b, kept) id = (
  e,
  record b {
    bindings = record b.bindings { items = kept };
    subscriptions = without id b.subscriptions;
  },
)

-- The trace of a primary subscription.
unfoldable pub trace_primary :
    Engine → EnhancedInputBackend → EnhancedInputSubscription → Bytes → EnhancedInputBackend
trace_primary e b s stage =
    if s.debug.primary then write_debug_trace e b s.session s.debug stage s.phase_name 0 [] else b

pub remove_subscription :
    Engine → EnhancedInputBackend → EnhancedInputSubscription → ℕ → Engine × EnhancedInputBackend
remove_subscription e b s id =
    let (e', b') = remove_bindings (detach_loop e (set_inactive b id) id b.bindings.items) id in
    (e', trace_primary e' b' s (text "binding_removed"))

-- The subscription of an id in the table, if it is there.
unfoldable pub find_subscription : EnhancedInputBackend → ℕ → Option EnhancedInputSubscription
find_subscription b id = if has id b.subscriptions then lookup id b.subscription_store else none

pub unsubscribe_found :
    Engine
    → EnhancedInputBackend
    → ℕ
    → ℕ
    → Option EnhancedInputSubscription
    → Engine × EnhancedInputBackend × Bool
unsubscribe_found e b session id none = (e, b, false)
unsubscribe_found e b session id (some s) =
    if s.session == session
    then (let (e', b') = remove_subscription e b s id in (e', b', true))
    else (e, b, false)

unfoldable pub unsubscribe_locked :
    Engine → EnhancedInputBackend → ℕ → ℕ → Engine × EnhancedInputBackend × Bool
unfolding unsubscribe_found remove_subscription remove_bindings
unsubscribe_locked e b session id = unsubscribe_found e b session id (find_subscription b id)

unfoldable pub unsubscribe_each :
    Engine → EnhancedInputBackend → ℕ → List ℕ → Engine × EnhancedInputBackend
unsubscribe_each e b session [] = (e, b)
unsubscribe_each e b session (id ∷ ids) =
    let (e', b', found) = unsubscribe_locked e b session id in unsubscribe_each e' b' session ids

unfoldable pub subscriber : Option EnhancedInputSubscription → Option ℕ
subscriber none = none
subscriber (some s) = some s.session

-- The session of a subscription, in the store.
unfoldable pub session_of : EnhancedInputBackend → ℕ → Option ℕ
unfolding subscriber
session_of b id = subscriber (lookup id b.subscription_store)

unfoldable pub aim : Option EnhancedInputSubscription → Option ℕ
aim none = none
aim (some s) = some s.target

-- The target of a subscription, in the store.
unfoldable pub target_of : EnhancedInputBackend → ℕ → Option ℕ
unfolding aim
target_of b id = aim (lookup id b.subscription_store)

abbrev pub is_session : Option ℕ → ℕ → Bool
is_session none session = false
is_session (some s) session = s == session

collectable : EnhancedInputBackend → Option EnhancedInputSubscription → Bool
collectable b none = false
collectable b (some s) = not s.active || (s.session == 0 || has s.session b.inactive_sessions)

-- The loop that unsubscribes the collected ids, each for its own session.
collect_each : Engine → EnhancedInputBackend → List ℕ → Engine × EnhancedInputBackend
collect_each e b [] = (e, b)
collect_each e b (id ∷ ids) = elim (find_subscription b id) [
  | none ↦ collect_each e b ids
  | some s ↦
      let (e', b') =
        if s.session == 0
        then (e, b)
        else (let (e1, b1, found) = unsubscribe_locked e b s.session id in (e1, b1)) in
      collect_each e' b' ids
]

unfoldable pub collect_inactive_locked :
    Engine → EnhancedInputBackend → Engine × EnhancedInputBackend
unfolding collect_each collectable
collect_inactive_locked e b =
    let ids = keep_if (λ id. collectable b (lookup id b.subscription_store)) b.subscriptions in
    let (e', b') = collect_each e b ids in
    (
      e',
      record b' {
        targets =
            map_keep (λ t. not (t.session == 0 || has t.session b'.inactive_sessions)) b'.targets;
      },
    )

unfoldable pub unsubscribe :
    Engine → EnhancedInputBackend → ℕ → ℕ → Engine × EnhancedInputBackend × Bool
unsubscribe e b session id =
    let (e', b') = collect_inactive_locked e b in unsubscribe_locked e' b' session id

abbrev pub ids_of : EnhancedInputBackend → ℕ → List ℕ
ids_of b session = keep_if (λ id. is_session (session_of b id) session) b.subscriptions

unfoldable pub unsubscribe_all :
    Engine → EnhancedInputBackend → ℕ → Bool → Engine × EnhancedInputBackend × ℕ
unsubscribe_all e b session preserve_targets =
    let (e1, b1) = collect_inactive_locked e b in
    let ids = ids_of b1 session in
    let (e2, b2) = unsubscribe_each e1 b1 session ids in
    (
      e2,
      record b2 {
        targets = map_keep (λ t. not (not preserve_targets && t.session == session)) b2.targets;
      },
      length ids,
    )

pub purge : EnhancedInputBackend → (EnhancedInputEvent → Bool) → EnhancedInputBackend
purge b stays = put_dispatch b (record b.dispatch {
  events = record b.dispatch.events { items = keep_if stays b.dispatch.events.items };
})

unfoldable pub deactivate : EnhancedInputBackend → ℕ → ℕ → EnhancedInputBackend
unfolding purge
deactivate b session id = elim (find_subscription b id) [
  | none ↦ b
  | some s ↦
      if s.session == session
      then purge (set_inactive b id) (λ event. not (event.subscription == id))
      else b
]

deactivate_each : EnhancedInputBackend → List ℕ → EnhancedInputBackend
deactivate_each b [] = b
deactivate_each b (id ∷ ids) = deactivate_each (set_inactive b id) ids

unfoldable pub deactivate_all : EnhancedInputBackend → ℕ → EnhancedInputBackend
unfolding deactivate_each purge
deactivate_all b session =
    let marked : EnhancedInputBackend = record b {
      inactive_sessions =
          if has session b.inactive_sessions
          then b.inactive_sessions
          else session ∷ b.inactive_sessions;
    } in
    let stopped = deactivate_each marked (ids_of marked session) in
    purge stopped
      (λ event. not (not (event.owner == 0) && is_session (session_of stopped event.owner) session))
