-- ===== src/Bridge/Lifetime.antt =====
-- The lifetime functions of bridge/src/BridgeMod.cpp, which join the sessions and the probe to
-- LifecycleRegistry: read_object_identity, the service's start and stop, the notifications of Unreal
-- and the Lua functions. What ReadProcessMemory and IndexToObject yield stands in a record.
pub mod Absent
use ue4sslua_event_bridge.Base.{
  Bytes, text, to_string, lookup, ℕ, ◌≡◌, refl, sym, ap, ◌∙◌, inl, inr, Bool, true, false, not,
  ◌&&◌, ◌||◌, Option, none, some, arith, ◌==◌, if◌then◌else◌, nat_eq, Option-cases, if_false,
}
use ue4sslua_event_bridge.Backend.Engine.{is_negative, ObjectItem}
use ue4sslua_event_bridge.Registry.State.{
  ObjectLifetimeIdentity, identity_eq, CaptureFailure, CaptureResult, LostResult, LifecycleRegistry,
  no_failure, unknown_session, capacity, faulted,
}
use ue4sslua_event_bridge.Registry.Views.{observed_identity, session_overflow}
use ue4sslua_event_bridge.Registry.{
  report_losses, capture, valid, release, invalidate, take_lost, shutdown,
}
use ue4sslua_event_bridge.Registry.Invalidate.{valid_lem}
use ue4sslua_event_bridge.Probe.{LifetimeProbe, record_probe, shut_down, ready}
use ue4sslua_event_bridge.Bridge.Decode.{parse_token}
use ue4sslua_event_bridge.Bridge.LoopStart.{LuaSession, Sessions, session_for_id, is_positive}

pub record Memory : Type 0 where
  pub in_game_thread : Bool
  -- the int32 at an object's address + 0x0C
  pub read_index : ℕ → Option ℕ
  -- the item of an index, if there is one and it can be read
  pub read_item : ℕ → Option ObjectItem

identity_at : ℕ → ℕ → Option ObjectItem → Option ObjectLifetimeIdentity
identity_at address index none = none
identity_at address index (some item) =
    if item.object == address && (not (item.serial == 0) && not (is_negative item.serial))
    then some (record { address = address; index = index; serial = item.serial })
    else none

identity_in : Memory → ℕ → Option ℕ → Option ObjectLifetimeIdentity
identity_in memory address none = none
identity_in memory address (some index) =
    if is_negative index then none else identity_at address index (memory.read_item index)

unfoldable pub read_object_identity : Memory → ℕ → Bool → Option ObjectLifetimeIdentity
unfolding identity_in identity_at
read_object_identity memory address require_game_thread =
    if address == 0 || (require_game_thread && not memory.in_game_thread)
    then none
    else identity_in memory address (memory.read_index address)

-- The part of the mod's state that these functions use.
pub record LifetimeState : Type 0 where
  pub sessions : Sessions
  pub lifetimes : LifecycleRegistry
  pub probe : LifetimeProbe
  pub listeners_registered : Bool
  pub lifetime_abi_ready : Bool

-- What a Lua function returns.
pub data Reply : Type 0 where
  boolean_reply : Bool → Reply
  string_reply : Bytes → Reply
  nil_reply : Reply
  nil_error : Bytes → Reply
  exception_reply : Reply

-- After the layout probe, with its counts.
unfoldable pub start_lifetime_service : LifetimeState → ℕ → ℕ → LifetimeState × Bool
start_lifetime_service b checked verified =
    let probe = record_probe b.probe checked verified in
    if ready probe
    then (record b { probe = probe; listeners_registered = true; lifetime_abi_ready = true }, true)
    else (record b { probe = probe }, false)

unfoldable pub lifetime_service_ready : LifetimeState → Bool
lifetime_service_ready b = b.lifetime_abi_ready && b.listeners_registered

unfoldable pub stop_lifecycle_service : LifetimeState → LifetimeState
stop_lifecycle_service b = record b {
  probe = shut_down b.probe;
  lifetime_abi_ready = false;
  listeners_registered = false;
  lifetimes = shutdown b.lifetimes;
}

-- NotifyUObjectCreated and NotifyUObjectDeleted
unfoldable pub notify_object : LifetimeState → ℕ → ℕ → LifetimeState
notify_object b object index = record b { lifetimes = invalidate b.lifetimes object index }

refusal : CaptureFailure → Bytes
refusal capacity = text "lifetime observation capacity exceeded"
refusal faulted = text "lifetime notification overflow; reload the Lua session"
refusal no_failure = text "Lua session is not registered or is stopping"
refusal unknown_session = text "Lua session is not registered or is stopping"

pub captured : LifetimeState → Option (LifecycleRegistry × CaptureResult) → LifetimeState × Reply
captured b none = (b, exception_reply)
captured b (some (registry, result)) = (
  record b { lifetimes = registry },
  if result.token == 0
      then nil_error (refusal result.failure)
      else string_reply (to_string result.token),
)

pub capture_identity :
    Memory → LifetimeState → LuaSession → Option ObjectLifetimeIdentity → LifetimeState × Reply
capture_identity memory b s none = (
  b,
  nil_error (
      if memory.in_game_thread
      then text "address is not a live UObject"
      else text "lifetime capture must run on the Unreal game thread"),
)
capture_identity memory b s (some identity) = captured b (capture b.lifetimes s.id identity)

pub capture_for : Memory → LifetimeState → LuaSession → ℕ → LifetimeState × Reply
capture_for memory b s address =
    capture_identity memory b s
      (if is_positive address then read_object_identity memory address true else none)

pub capture_in_session : Memory → LifetimeState → ℕ → Option LuaSession → LifetimeState × Reply
capture_in_session memory b address none =
    (b, nil_error (text "object lifetime service is unavailable"))
capture_in_session memory b address (some s) =
    if lifetime_service_ready b
    then capture_for memory b s address
    else (b, nil_error (text "object lifetime service is unavailable"))

unfoldable pub lifetime_capture : Memory → LifetimeState → ℕ → ℕ → LifetimeState × Reply
unfolding capture_in_session capture_for capture_identity captured refusal
lifetime_capture memory b session_id address =
    capture_in_session memory b address (session_for_id b.sessions session_id)

valid_now : LifetimeState → LuaSession → Option ℕ → Option ObjectLifetimeIdentity → Bool
valid_now b s (some token) (some identity) = valid b.lifetimes s.id token identity
valid_now b s (some token) none = false
valid_now b s none identity = false

valid_for : Memory → LifetimeState → ℕ → Bytes → Option LuaSession → Bool
valid_for memory b address token none = false
valid_for memory b address token (some s) =
    if is_positive address && lifetime_service_ready b
    then valid_now b s (parse_token token) (read_object_identity memory address true)
    else false

-- What lifetime_valid answers; it changes nothing.
unfoldable pub lifetime_valid : Memory → LifetimeState → ℕ → ℕ → Bytes → Bool
unfolding valid_for valid_now
lifetime_valid memory b session_id address token =
    valid_for memory b address token (session_for_id b.sessions session_id)

pub release_parsed : LifetimeState → LuaSession → Option ℕ → LifetimeState × Bool
release_parsed b s none = (b, false)
release_parsed b s (some token) =
    let (registry, released) = release b.lifetimes s.id token in
    (record b { lifetimes = registry }, released)

pub release_for : LifetimeState → Bytes → Option LuaSession → LifetimeState × Bool
release_for b value none = (b, false)
release_for b value (some s) = release_parsed b s (parse_token value)

unfoldable pub lifetime_release : LifetimeState → ℕ → Bytes → LifetimeState × Bool
unfolding release_for release_parsed
lifetime_release b session_id value = release_for b value (session_for_id b.sessions session_id)

pub report_for : LifetimeState → Option LuaSession → LifetimeState × Bool
report_for b none = (b, false)
report_for b (some s) =
    let (registry, found) = report_losses b.lifetimes s.id in
    (record b { lifetimes = registry }, found)

unfoldable pub lifetime_report_losses : LifetimeState → ℕ → LifetimeState × Bool
unfolding report_for
lifetime_report_losses b session_id = report_for b (session_for_id b.sessions session_id)

lost_reply : LostResult → Reply
lost_reply result =
    if result.overflow
    then nil_error
        (text "lifetime notification overflow; discard cached objects and reload the Lua session")
    else if result.unknown_session
    then nil_error (text "Lua session is not registered or is stopping")
    else elim result.token [ none ↦ nil_reply | some token ↦ string_reply (to_string token) ]

pub take_for : Memory → LifetimeState → Option LuaSession → LifetimeState × Reply
take_for memory b none = (b, nil_error (text "Lua session is not registered or is stopping"))
take_for memory b (some s) =
    if not b.lifetime_abi_ready
    then (b, nil_error (text "object lifetime service is unavailable"))
    else if not memory.in_game_thread
    then (b, nil_error (text "lifetime loss draining must run on the Unreal game thread"))
    else let (registry, result) = take_lost b.lifetimes s.id in
      (record b { lifetimes = registry }, lost_reply result)

unfoldable pub lifetime_take_lost : Memory → LifetimeState → ℕ → LifetimeState × Reply
unfolding take_for lost_reply
lifetime_take_lost memory b session_id = take_for memory b (session_for_id b.sessions session_id)

-- What a positive answer of lifetime_valid rests on.
pub record IsSame (memory : Memory) (b : LifetimeState) (session_id address : ℕ) (token : Bytes)
    : Type 0 where
  pub session : LuaSession
  pub number : ℕ
  pub identity : ObjectLifetimeIdentity
  pub live : session_for_id b.sessions session_id ≡ some session
  pub parsed : parse_token token ≡ some number
  pub now : read_object_identity memory address true ≡ some identity
  pub then_captured : observed_identity b.lifetimes session.id number ≡ some identity
  pub intact : session_overflow b.lifetimes session.id ≡ false

when_true : (c x : Bool) → (if c then x else false) ≡ true → x ≡ true
when_true true x h = h
when_true false x h = absurd (ground (arith, h))

valid_now-some :
    (b : LifetimeState) (s : LuaSession) (token : Option ℕ)
    (identity : Option ObjectLifetimeIdentity)
    → valid_now b s token identity ≡ true
    → (n : ℕ) × (i : ObjectLifetimeIdentity) × (token ≡ some n)
      × (identity ≡ some i)
      × (valid b.lifetimes s.id n i ≡ true)
unfolding valid_now
valid_now-some b s none identity h = absurd (ground (arith, h))
valid_now-some b s (some n) none h = absurd (ground (arith, h))
valid_now-some b s (some n) (some i) h = (n, i, refl, refl, h)

valid_for-some :
    (memory : Memory) (b : LifetimeState) (s : LuaSession) (address : ℕ) (token : Bytes)
    → valid_for memory b address token (some s) ≡ true
    → (n : ℕ) × (i : ObjectLifetimeIdentity) × (parse_token token ≡ some n)
      × (read_object_identity memory address true ≡ some i)
      × (valid b.lifetimes s.id n i ≡ true)
unfolding valid_for
valid_for-some memory b s address token h =
    valid_now-some b s (parse_token token) (read_object_identity memory address true)
      (when_true (is_positive address && lifetime_service_ready b) _ h)

-- When `lifetime_valid` says yes, the session is active, and the object that stands at the address now
-- has the address, index and serial number that the session observes under that token.
pub lifetime_valid_sound :
    (memory : Memory) (b : LifetimeState) (session_id address : ℕ) (token : Bytes)
    → lifetime_valid memory b session_id address token ≡ true
    → IsSame memory b session_id address token
unfolding lifetime_valid
lifetime_valid_sound memory b session_id address token h =
    elim (Option-cases (session_for_id b.sessions session_id)) [
      | inl gone ↦ absurd (ground (arith, sym (ap (valid_for memory b address token) gone) ∙ h))
      | inr (s, live) ↦
          let (n, i, parsed, now, same) =
            valid_for-some memory b s address token
              (sym (ap (valid_for memory b address token) live) ∙ h) in
          let (intact, seen) = valid_lem b.lifetimes s.id n i same in
          record {
            session = s;
            number = n;
            identity = i;
            live = live;
            parsed = parsed;
            now = now;
            then_captured = seen;
            intact = intact;
          }
    ]

never_captured :
    (memory : Memory) (b : LifetimeState) (address : ℕ) (o : Option LuaSession)
    → lifetime_service_ready b ≡ false
    → capture_in_session memory b address o
      ≡ (b, nil_error (text "object lifetime service is unavailable"))
unfolding capture_in_session
never_captured memory b address none stopped = refl
never_captured memory b address (some s) stopped = if_false (lifetime_service_ready b) _ _ stopped

-- After the stop of the service no object is observed any more, and a capture is refused without a
-- change, whatever it asks for.
pub stop_lifecycle_service_refuses :
    (memory : Memory) (b : LifetimeState) (session_id address : ℕ)
    → let stopped = stop_lifecycle_service b in
      ((s t : ℕ) → observed_identity stopped.lifetimes s t ≡ none)
      × (lifetime_capture memory stopped session_id address
          ≡ (stopped, nil_error (text "object lifetime service is unavailable")))
unfolding stop_lifecycle_service lifetime_capture lifetime_service_ready shutdown observed_identity
    lookup
stop_lifecycle_service_refuses memory b session_id address = (
  λ s t. refl,
  never_captured memory (stop_lifecycle_service b) address (session_for_id b.sessions session_id)
      refl,
)

-- Without an active session the calls that could change the registry leave it alone.
pub lifetime_refused :
    (memory : Memory) (b : LifetimeState) (session_id address : ℕ) (token : Bytes)
    → session_for_id b.sessions session_id ≡ none
    → ((lifetime_capture memory b session_id address).0 ≡ b)
      × ((lifetime_release b session_id token).0 ≡ b)
      × ((lifetime_report_losses b session_id).0 ≡ b)
      × ((lifetime_take_lost memory b session_id).0 ≡ b)
unfolding lifetime_capture lifetime_release lifetime_report_losses lifetime_take_lost
    capture_in_session release_for report_for take_for
lifetime_refused memory b session_id address token gone = (
  ap (λ o. (capture_in_session memory b address o).0) gone,
  ap (λ o. (release_for b token o).0) gone,
  ap (λ o. (report_for b o).0) gone,
  ap (λ o. (take_for memory b o).0) gone,
)
