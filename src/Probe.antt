-- ===== src/Probe.antt =====
-- LifetimeProbe of bridge/include/LifetimeProbe.hpp: the status of the UObject layout probe. Each
-- method holds the mutex.
mod Examples
use ue4sslua_event_bridge.Base.{
  Bytes, text, to_string, ℕ, ◌≡◌, refl, ◌↔◌, Bool, true, false, not, Option, none, some, ◌++◌,
  arith, leb, ◌==◌, if◌then◌else◌,
}

pub record LifetimeProbe : Type 0 where
  pub checked : ℕ
  pub verified : ℕ
  pub ran : Bool
  pub is_ready : Bool
  pub is_shut_down : Bool

abbrev pub new_probe : LifetimeProbe
new_probe = record {
  checked = 0;
  verified = 0;
  ran = false;
  is_ready = false;
  is_shut_down = false;
}

abbrev pub required_objects : ℕ
required_objects = 2

unfoldable pub record_probe : LifetimeProbe → ℕ → ℕ → LifetimeProbe
record_probe p checked verified = record p {
  ran = true;
  checked = checked;
  verified = verified;
  is_ready = leb required_objects verified;
}

unfoldable pub shut_down : LifetimeProbe → LifetimeProbe
shut_down p = record p { is_shut_down = true; is_ready = false }

unfoldable pub ready : LifetimeProbe → Bool
ready p = p.is_ready

unfoldable pub reason : LifetimeProbe → Option Bytes
reason p =
    if p.is_shut_down
    then some (text "the UObject array has shut down")
    else if p.is_ready
    then none
    else if not p.ran
    then some (text "the UObject layout probe has not run")
    else if p.checked == 0
    then some (text "the UObject layout probe found no live objects to check")
    else some (
        text "the UObject layout probe verified "
        ++ to_string p.verified
        ++ text " of "
        ++ to_string p.checked
        ++ text " objects ("
        ++ to_string required_objects
        ++ text " required)")

-- The order of calls of the bridge: the probe is recorded at most once, before any shutdown.
pub data Step (p : LifetimeProbe) : LifetimeProbe → Type 0 where
  records :
      (checked verified : ℕ) → p.is_shut_down ≡ false → Step p (record_probe p checked verified)
  shuts : Step p (shut_down p)

pub data Reach : LifetimeProbe → Type 0 where
  start : Reach new_probe
  next : {p q : LifetimeProbe} → Reach p → Step p q → Reach q

record IsWell (p : LifetimeProbe) : Type 0 where
  not_both : p.is_shut_down ≡ true → p.is_ready ≡ false

Step-IsWell : {p q : LifetimeProbe} → Step p q → IsWell p → IsWell q
unfolding record_probe shut_down
Step-IsWell (records c v e) h = record { not_both = λ d. cc }
Step-IsWell shuts h = record { not_both = λ d. refl }

Reach-IsWell : {p : LifetimeProbe} → Reach p → IsWell p
Reach-IsWell start = record { not_both = λ d. cc }
Reach-IsWell (next path step) = Step-IsWell step (Reach-IsWell path)

-- While the probe is recorded only before the shutdown, a reason is given exactly when lifetimes are
-- unavailable.
pub reason-ready : {p : LifetimeProbe} → Reach p → (reason p ≡ none ↔ ready p ≡ true)
unfolding reason ready
reason-ready {p} path = ground (arith, (Reach-IsWell path).not_both)
