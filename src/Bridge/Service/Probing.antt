-- ===== src/Bridge/Service/Probing.antt =====
-- The bounds of the layout probe and of the limits of bridge/src/BridgeMod.cpp.
use ue4sslua_event_bridge.Base.{
  Bytes, Errc, no_error, invalid_argument, result_out_of_range, ℕ, zero, suc, ◌+◌, ◌≤◌, ◌<◌, ◌≡◌,
  refl, ◌∙◌, Bool, true, false, Option, none, some, arith, leb, ◌==◌, if◌then◌else◌, if_all,
}
use ue4sslua_event_bridge.Probe.{required_objects, record_probe, ready}
use ue4sslua_event_bridge.Bridge.Lifetime.{Memory, LifetimeState, start_lifetime_service}
use ue4sslua_event_bridge.Bridge.Service.{
  environment_text, limited, limit_of, configured_limit, Slot, probe_next, probe_loop,
  probe_lifetime_abi, vacant, unverified, verified_slot,
}

-- The counts behind `n` more indices.
Within : ℕ → ℕ → ℕ → ℕ × ℕ → Type 0
Within n checked verified (checked', verified') =
    (checked' ≤ checked + n) × (verified' ≤ checked') × (verified' ≤ required_objects)

probe_next-Within :
    (n : ℕ) (later : ℕ → ℕ → ℕ × ℕ) (checked verified : ℕ) (slot : Slot)
    → verified ≤ checked
    → verified < required_objects
    → ((c v : ℕ) → v ≤ c → v < required_objects → Within n c v (later c v))
    → Within (suc n) checked verified (probe_next later checked verified slot)
unfolding probe_next Within
probe_next-Within n later checked verified vacant le few go =
    let (a, b, c) = go checked verified le few in (omega (arith, a), b, c)
probe_next-Within n later checked verified unverified le few go =
    let (a, b, c) = go (checked + 1) verified (omega (arith, le)) few in (omega (arith, a), b, c)
probe_next-Within n later checked verified verified_slot le few go =
    if_all (Within (suc n) checked verified) (leb required_objects (verified + 1))
      (checked + 1, verified + 1) (later (checked + 1) (verified + 1))
      (λ h. (omega arith, omega (arith, le), omega (arith, few)))
      (λ h.
        let (a, b, c) = go (checked + 1) (verified + 1) (omega (arith, le)) (ground (arith, h)) in
        (omega (arith, a), b, c))

probe_loop-Within :
    (n : ℕ) (readings : ℕ → Memory × Memory) (index checked verified : ℕ)
    → verified ≤ checked
    → verified < required_objects
    → Within n checked verified (probe_loop n readings index checked verified)
unfolding probe_loop Within
probe_loop-Within zero readings index checked verified le few =
    (omega arith, le, omega (arith, few))
probe_loop-Within (suc n) readings index checked verified le few =
    probe_next-Within n (probe_loop n readings (index + 1)) checked verified _ le few
      (λ c v h k. probe_loop-Within n readings (index + 1) c v h k)

snd_if :
    (c : Bool) (x y : LifetimeState)
    → let r : LifetimeState × Bool = if c then (x, true) else (y, false) in r.1 ≡ c
snd_if true x y = refl
snd_if false x y = refl

enough : (n : ℕ) → n ≤ required_objects → leb required_objects n ≡ (n == required_objects)
enough n h = ground (arith, h)

-- Whatever the object array holds, the probe checks at most 4096 objects, verifies no more than it
-- checks, and stops at the number that makes the service ready; it makes it ready exactly when it
-- verified that number.
pub probe_lifetime_abi-Within :
    (readings : ℕ → Memory × Memory) (b : LifetimeState)
    → let (checked, verified) = probe_lifetime_abi readings in
      (checked ≤ 4096)
      × (verified ≤ checked)
      × (verified ≤ required_objects)
      × ((start_lifetime_service b checked verified).1 ≡ (verified == required_objects))
unfolding probe_lifetime_abi start_lifetime_service Within record_probe ready
probe_lifetime_abi-Within readings b =
    let (a, le, bound) = probe_loop-Within 4096 readings 0 0 0 (omega arith) (omega arith) in
    (a, le, bound, snd_if _ _ _ ∙ enough (probe_loop 4096 readings 0 0 0).1 bound)

limit_cases :
    (ec : Errc) (result : ℕ) (unread : Bytes) (fallback maximum : ℕ)
    → fallback ≤ maximum
    → limited ec result unread fallback maximum ≤ maximum
unfolding limited
limit_cases no_error result unread fallback maximum h = ground (arith, h)
limit_cases invalid_argument result unread fallback maximum h = h
limit_cases result_out_of_range result unread fallback maximum h = h

-- A limit of the environment never exceeds the largest one, whatever the variable holds.
pub configured_limit-le :
    (value : Bytes) (fallback maximum : ℕ)
    → fallback ≤ maximum
    → configured_limit value fallback maximum ≤ maximum
unfolding configured_limit limit_of
configured_limit-le value fallback maximum h = of_text (environment_text value)
  where
    of_text : (o : Option Bytes) → limit_of o fallback maximum ≤ maximum
    of_text none = h
    of_text (some v) = limit_cases _ _ _ fallback maximum h
