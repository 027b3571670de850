-- ===== src/Probe/Examples.antt =====
-- A run of LifetimeProbe on a concrete input.
use ue4sslua_event_bridge.Base.{◌≡◌, refl, ◌↔◌, true, none}
use ue4sslua_event_bridge.Probe.{
  new_probe, record_probe, ready, reason, reason-ready, records, start, next,
}

reason-ready_example :
    (reason (record_probe new_probe 3 2) ≡ none ↔ ready (record_probe new_probe 3 2) ≡ true)
reason-ready_example = reason-ready (next start (records 3 2 refl))
