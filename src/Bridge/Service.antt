-- ===== src/Bridge/Service.antt =====
-- The life of the mod, bridge/src/BridgeMod.cpp: its limits from the environment, the layout probe,
-- on_unreal_init, OnUObjectArrayShutdown, prepare_for_unload and the two functions of the
-- implementation's descriptor. A variable of the environment is its bytes, none if it is not set.
pub mod Probing
pub mod Unload
use ue4sslua_event_bridge.Base.{
  length, Bytes, is_nil, Errc, no_error, invalid_argument, result_out_of_range, from_chars, ℕ, zero,
  suc, ◌+◌, Bool, true, false, ◌&&◌, ◌||◌, Option, none, some, leb, ◌==◌, if◌then◌else◌,
}
use ue4sslua_event_bridge.Alias.{new_index}
use ue4sslua_event_bridge.Backend.Engine.{ObjectItem, Engine}
use ue4sslua_event_bridge.Backend.State.{new_backend, initialize}
use ue4sslua_event_bridge.Backend.Drain.{set_queue_limit, shutdown}
use ue4sslua_event_bridge.Dispatch.Schedule.{
  default_queue_checks_per_second, parse_queue_check_rate,
}
use ue4sslua_event_bridge.Probe.{required_objects}
use ue4sslua_event_bridge.Registry.State.{ObjectLifetimeIdentity}
use ue4sslua_event_bridge.Bridge.Lifetime.{
  Memory, read_object_identity, LifetimeState, start_lifetime_service, stop_lifecycle_service,
}
use ue4sslua_event_bridge.Bridge.State.{BridgeMod}
use ue4sslua_event_bridge.Loader.Bootstrap.{UninstallResult, can_unload, retain_module}

-- The bytes in the buffer of 32 characters; none when nothing or too much was there.
pub environment_text : Bytes → Option Bytes
environment_text value = if length value == 0 || leb 32 (length value) then none else some value

rate_of : Option Bytes → ℕ
rate_of none = default_queue_checks_per_second
rate_of (some value) = parse_queue_check_rate value

unfoldable pub configured_queue_check_rate : Bytes → ℕ
unfolding rate_of environment_text
configured_queue_check_rate value = rate_of (environment_text value)

pub limited : Errc → ℕ → Bytes → ℕ → ℕ → ℕ
limited no_error result unread fallback maximum =
    if is_nil unread && leb result maximum then result else fallback
limited invalid_argument result unread fallback maximum = fallback
limited result_out_of_range result unread fallback maximum = fallback

pub limit_of : Option Bytes → ℕ → ℕ → ℕ
limit_of none fallback maximum = fallback
limit_of (some value) fallback maximum =
    let parsed = from_chars 0xFFFFFFFF 0 value in
    limited parsed.ec parsed.value parsed.rest fallback maximum

unfoldable pub configured_limit : Bytes → ℕ → ℕ → ℕ
unfolding limit_of limited environment_text
configured_limit value fallback maximum = limit_of (environment_text value) fallback maximum

-- What one index of the object array shows, with two readings of the memory one after the other.
pub data Slot : Type 0 where
  vacant unverified verified_slot : Slot

abbrev same_identity : Option ObjectLifetimeIdentity → Option ObjectLifetimeIdentity → ℕ → Slot
same_identity (some a) (some b) index =
    if (a.address == b.address && (a.index == b.index && a.serial == b.serial)) && a.index == index
    then verified_slot
    else unverified
same_identity _ _ index = unverified

pub slot_of : Memory × Memory → ℕ → Option ObjectItem → Slot
slot_of readings index none = vacant
slot_of (first, second) index (some item) =
    if item.object == 0
    then vacant
    else same_identity (read_object_identity first item.object false)
        (read_object_identity second item.object false) index

pub probe_next : (ℕ → ℕ → ℕ × ℕ) → ℕ → ℕ → Slot → ℕ × ℕ
probe_next later checked verified vacant = later checked verified
probe_next later checked verified unverified = later (checked + 1) verified
probe_next later checked verified verified_slot =
    let more = later (checked + 1) (verified + 1) in
    if leb required_objects (verified + 1) then (checked + 1, verified + 1) else more

pub probe_loop : ℕ → (ℕ → Memory × Memory) → ℕ → ℕ → ℕ → ℕ × ℕ
probe_loop zero readings index checked verified = (checked, verified)
probe_loop (suc n) readings index checked verified =
    probe_next (probe_loop n readings (index + 1)) checked verified
      (slot_of (readings index) index ((readings index).0.read_item index))

-- How many objects were checked and how many verified, over the first 4096 indices.
unfoldable pub probe_lifetime_abi : (ℕ → Memory × Memory) → ℕ × ℕ
unfolding probe_loop probe_next slot_of
probe_lifetime_abi readings = probe_loop 4096 readings 0 0 0

-- The constructor, with what Unreal answers.
unfoldable pub start_implementation : Engine → LifetimeState → BridgeMod
start_implementation e lifetime = record {
  active = true;
  engine = e;
  backend = new_backend;
  lifetime = lifetime;
  session_index = new_index;
  next_session_id = 1;
}

unfoldable pub on_unreal_init : BridgeMod → Bytes → (ℕ → Memory × Memory) → BridgeMod
on_unreal_init m max_queued_events readings =
    let (checked, verified) = probe_lifetime_abi readings in
    record m {
      backend =
          initialize (set_queue_limit m.backend (configured_limit max_queued_events 65536 1000000));
      lifetime = (start_lifetime_service m.lifetime checked verified).0;
    }

unfoldable pub array_shutdown : BridgeMod → BridgeMod
array_shutdown m = record m { lifetime = stop_lifecycle_service m.lifetime }

-- The result is whether the module can be unloaded.
unfoldable pub prepare_for_unload : BridgeMod → BridgeMod × Bool
prepare_for_unload m =
    let (e, b, unloadable) = shutdown m.engine m.backend in
    (record m { engine = e; backend = b; lifetime = stop_lifecycle_service m.lifetime }, unloadable)

-- The destructor.
pub destroy : BridgeMod → BridgeMod
destroy m = record (prepare_for_unload m).0 { active = false }

-- For the handle of a mod that is there; a null handle gives can_unload and changes nothing.
unfoldable pub uninstall_implementation : BridgeMod → BridgeMod × UninstallResult
unfolding destroy
uninstall_implementation m =
    let (prepared, unloadable) = prepare_for_unload m in
    (destroy prepared, if unloadable then can_unload else retain_module)
