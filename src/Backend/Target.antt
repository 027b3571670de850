-- ===== src/Backend/Target.antt =====
-- open_target and close_target of bridge/src/EnhancedInputBackend.cpp. An error is its text; an
-- empty one is success.
pub mod Closing
use ue4sslua_event_bridge.Base.{
  keep_if, Bytes, text, to_string, lookup, insert, erase, ℕ, ◌+◌, ◌%◌, ◌^◌, Bool, true, false, not,
  ◌&&◌, Option, none, some, List, [], ◌++◌, ◌==◌, if◌then◌else◌, nat_eq, is_some,
}
use ue4sslua_event_bridge.Backend.Engine.{
  Engine, assign, get, enhanced_input_component_size, Resolved, resolve_component, resolved,
  missing, mismatched,
}
use ue4sslua_event_bridge.Backend.State.{EnhancedInputSubscription, EnhancedInputBackend}
use ue4sslua_event_bridge.Backend.Faults.{owned_target}
use ue4sslua_event_bridge.Backend.Unsubscribe.{unsubscribe_each, collect_inactive_locked}

-- The error of a component that is refused, and of one that was not found.
refused_layout : Option ℕ → Bytes
refused_layout size =
    text "EnhancedInputComponent found, but native layout validation failed: properties_size="
    ++ ((elim size [ none ↦ text "-1" | some n ↦ to_string n ])
        ++ (text ", expected=" ++ to_string enhanced_input_component_size))

not_found : Bytes → Bytes
not_found path = text "EnhancedInputComponent was not found at object path: " ++ path

put_target : Engine → EnhancedInputBackend → ℕ → Bytes → ℕ → EnhancedInputBackend × ℕ × Bytes
put_target e b session path component =
    let id = b.next_target in
    let counted : EnhancedInputBackend = record b { next_target = (id + 1) % 2 ^ 64 } in
    let weak = assign e component in
    if not (get e weak == component)
    then (counted, 0, text "Enhanced Input component weak-reference initialization failed")
    else if not b.initialized
    then (counted, 0, text "Enhanced Input backend shut down during component lookup")
    else if is_some (lookup id b.targets)
    then (counted, 0, text "Enhanced Input target handle collision")
    else (
      record counted {
        targets =
            insert id
              (record {
                id = id;
                session = session;
                component = weak;
                component_path_utf8 = path;
                delivery = none;
                has_bound = false;
              })
              b.targets;
      },
      id,
      [],
    )

open_resolved :
    Engine → EnhancedInputBackend → ℕ → Bytes → Resolved → EnhancedInputBackend × ℕ × Bytes
open_resolved e b session path (resolved component) = put_target e b session path component
open_resolved e b session path missing = (b, 0, not_found path)
open_resolved e b session path (mismatched component) =
    (b, 0, refused_layout (e.properties_size component))

-- The engine, the backend, the handle or 0, and the error. `between` is what other threads do between
-- the first lock and the second.
unfoldable pub open_target :
    Engine
    → (EnhancedInputBackend → EnhancedInputBackend)
    → EnhancedInputBackend
    → ℕ
    → Bytes
    → Engine × EnhancedInputBackend × ℕ × Bytes
unfolding open_resolved put_target not_found refused_layout
open_target e between b session path =
    if not b.initialized
    then (e, b, 0, text "Enhanced Input backend is not initialized")
    else let (e', b') = collect_inactive_locked e b in
      let (b'', id, error) =
        open_resolved e' (between b') session path (resolve_component e' path) in
      (e', b'', id, error)

pub targets_it : ℕ → ℕ → Option EnhancedInputSubscription → Bool
targets_it session target none = false
targets_it session target (some s) = s.session == session && s.target == target

-- The ids of a target's subscriptions.
unfoldable pub target_ids : EnhancedInputBackend → ℕ → ℕ → List ℕ
unfolding targets_it
target_ids b session target =
    keep_if (λ id. targets_it session target (lookup id b.subscription_store)) b.subscriptions

unfoldable pub close_target :
    Engine → EnhancedInputBackend → ℕ → ℕ → Engine × EnhancedInputBackend × Bool
close_target e b session target =
    if not b.initialized
    then (e, b, false)
    else let (e1, b1) = collect_inactive_locked e b in
      if is_some (owned_target b1 session target)
      then (let (e2, b2) = unsubscribe_each e1 b1 session (target_ids b1 session target) in
          (e2, record b2 { targets = erase target b2.targets }, true))
      else (e1, b1, false)
