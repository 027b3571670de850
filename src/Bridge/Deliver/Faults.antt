-- ===== src/Bridge/Deliver/Faults.antt =====
-- The loop of flush_delivery_faults of bridge/src/BridgeMod.cpp comes to an end.
use ue4sslua_event_bridge.Base.{ℕ, zero, suc, ◌≤◌, ◌<◌, ◌≡◌, refl, Option, none, some, arith}
use ue4sslua_event_bridge.Backend.State.{TargetDeliveryFault}
use ue4sslua_event_bridge.Backend.Faults.{take_delivery_fault}
use ue4sslua_event_bridge.Backend.Faults.Count.{due_count, take_delivery_fault-count}
use ue4sslua_event_bridge.Bridge.LoopStart.{LuaSession}
use ue4sslua_event_bridge.Bridge.State.{Values, BridgeMod}
use ue4sslua_event_bridge.Bridge.Deliver.{
  LuaCode, call_lua, live_session, notify_fault, flush_next, flush_delivery_faults,
}

-- Lua code whose calls make no further fault due.
abbrev pub RaisesNone : LuaCode → Type 0
RaisesNone lua =
    (m : BridgeMod) (s : LuaSession) (values : Values)
    → due_count (call_lua lua m s values).0.backend ≤ due_count m.backend

notify_fault-le :
    (lua : LuaCode) (m : BridgeMod) (fault : TargetDeliveryFault) (o : Option LuaSession)
    → RaisesNone lua
    → due_count (notify_fault lua m fault o).backend ≤ due_count m.backend
unfolding notify_fault
notify_fault-le lua m fault none quiet = omega arith
notify_fault-le lua m fault (some s) quiet = quiet m s _

flush_next-some :
    (lua : LuaCode) (next : BridgeMod → Option BridgeMod) (m : BridgeMod) (n : ℕ)
    (o : Option TargetDeliveryFault)
    → RaisesNone lua
    → ((fault : TargetDeliveryFault) → o ≡ some fault → due_count m.backend < n)
    → ((m1 : BridgeMod) → due_count m1.backend < n → (m2 : BridgeMod) × (next m1 ≡ some m2))
    → (m' : BridgeMod) × (flush_next lua next m o ≡ some m')
unfolding flush_next
flush_next-some lua next m n none quiet fewer go = (m, refl)
flush_next-some lua next m n (some fault) quiet fewer go = go _ (
    omega
      (arith, fewer fault refl, notify_fault-le lua m fault (live_session m fault.session) quiet))

-- More turns than there are faults to hand out are enough for flush_delivery_faults to come to its end,
-- whatever the Lua fault handlers do, as long as they make no further fault due.
pub flush_delivery_faults-some :
    (lua : LuaCode) (fuel : ℕ) (m : BridgeMod)
    → RaisesNone lua
    → due_count m.backend < fuel
    → (m' : BridgeMod) × (flush_delivery_faults lua fuel m ≡ some m')
unfolding flush_delivery_faults
flush_delivery_faults-some lua zero m quiet h = absurd (omega (arith, h))
flush_delivery_faults-some lua (suc fuel) m quiet h =
    let (b, fault) = take_delivery_fault m.backend in
    flush_next-some lua (flush_delivery_faults lua fuel) (record m { backend = b }) fuel fault quiet
      (λ f e. omega (arith, h, take_delivery_fault-count m.backend f e))
      (λ m1 k. flush_delivery_faults-some lua fuel m1 quiet k)
