-- ===== src/Bridge/Deliver/Outcomes.antt =====
-- When the consumer of on_update calls Lua, and what a failed callback leaves, bridge/src/BridgeMod.cpp.
use ue4sslua_event_bridge.Base.{
  Bytes, text, lookup, ℕ, ◌≡◌, refl, sym, ◌∙◌, subst, Bool, true, false, not, ◌||◌, Option, none,
  some, [], arith, ◌==◌, if◌then◌else◌, nat_eq, if_all,
}
use ue4sslua_event_bridge.Backend.State.{
  EnhancedInputEvent, EnhancedInputDebugInfo, EnhancedInputSubscription, EnhancedInputBackend,
  delivery_ok_same, delivery_valid, put_dispatch,
}
use ue4sslua_event_bridge.Backend.Trace.{write_debug_trace}
use ue4sslua_event_bridge.Bridge.LoopStart.{LuaSession}
use ue4sslua_event_bridge.Bridge.State.{BridgeMod}
use ue4sslua_event_bridge.Bridge.Deliver.{
  LuaCode, live_session, Delivery, trace_event, deliver_live, deliver_to, deliver_event, skipped,
}

-- A trace leaves everything but the queues as it is.
pub record KeepsTables (b b' : EnhancedInputBackend) : Type 0 where
  pub subscription_store : b'.subscription_store ≡ b.subscription_store
  pub subscriptions : b'.subscriptions ≡ b.subscriptions
  pub delivery_store : b'.delivery_store ≡ b.delivery_store

write_debug_trace-Keeps :
    (m : BridgeMod) (session : ℕ) (debug : EnhancedInputDebugInfo) (stage phase : Bytes)
    (sequence : ℕ) (reason : Bytes)
    → KeepsTables m.backend
        (write_debug_trace m.engine m.backend session debug stage phase sequence reason)
unfolding write_debug_trace put_dispatch
write_debug_trace-Keeps m session debug stage phase sequence reason =
    if_all (KeepsTables m.backend)
      (not debug.enabled || (session == 0 || not m.backend.dispatch.accepting)) m.backend _
      (λ _. record { subscription_store = refl; subscriptions = refl; delivery_store = refl })
      (λ _. record { subscription_store = refl; subscriptions = refl; delivery_store = refl })

pub trace_event-Keeps :
    (m : BridgeMod) (sub : EnhancedInputSubscription) (stage : Bytes) (event : EnhancedInputEvent)
    (reason : Bytes)
    → KeepsTables m.backend (trace_event m sub stage event reason).backend
unfolding trace_event
trace_event-Keeps m sub stage event reason =
    write_debug_trace-Keeps m sub.session sub.debug stage sub.phase_name event.sequence reason

-- The conditions under which the consumer calls Lua.
abbrev pub MayCall : BridgeMod → EnhancedInputSubscription → Type 0
MayCall m sub =
    (sub.active ≡ true)
    × (delivery_valid m.backend sub ≡ true)
    × ((s : LuaSession) × (live_session m sub.session ≡ some s))

-- What a delivery gives with one Lua code and with another.
Silent : LuaCode → LuaCode → BridgeMod × Delivery → BridgeMod × Delivery → Type 0
Silent lua other r r' = (r.1 ≡ skipped) × (r ≡ r')

deliver_live-Silent :
    (lua other : LuaCode) (m : BridgeMod) (sub : EnhancedInputSubscription)
    (event : EnhancedInputEvent) (o : Option LuaSession)
    → o ≡ none
    → Silent lua other (deliver_live lua m sub event o) (deliver_live other m sub event o)
unfolding deliver_live Silent
deliver_live-Silent lua other m sub event none e = (refl, refl)
deliver_live-Silent lua other m sub event (some s) e = absurd (ground (arith, e))

if_both {ℓ κ} :
    {A : Type ℓ} (R : A → A → Type κ) (c : Bool) (x y x' y' : A)
    → (c ≡ true → R x x')
    → (c ≡ false → R y y')
    → R (if c then x else y) (if c then x' else y')
if_both R true x y x' y' h k = h refl
if_both R false x y x' y' h k = k refl

not_callable :
    (m : BridgeMod) (sub : EnhancedInputSubscription) (o : Option LuaSession)
    → live_session m sub.session ≡ o
    → ¬ MayCall m sub
    → sub.active ≡ true
    → delivery_valid m.backend sub ≡ true
    → o ≡ none
not_callable m sub none e may active valid = refl
not_callable m sub (some s) e may active valid = absurd (may (active, valid, (s, e)))

deliver_to-Silent :
    (lua other : LuaCode) (m : BridgeMod) (event : EnhancedInputEvent)
    (sub : EnhancedInputSubscription)
    → ¬ MayCall m sub
    → Silent lua other (deliver_to lua m event (some sub)) (deliver_to other m event (some sub))
unfolding deliver_to trace_event live_session
deliver_to-Silent lua other m event sub may =
    let seen = trace_event m sub (text "event_dequeued") event [] in
    let valid : delivery_valid seen.backend sub ≡ delivery_valid m.backend sub =
      unfold delivery_valid in
      delivery_ok_same m.backend seen.backend sub.delivery
        (trace_event-Keeps m sub (text "event_dequeued") event []).delivery_store in
    if_both (Silent lua other) (not sub.active || not (delivery_valid seen.backend sub)) _ _ _ _
      (λ _. unfold Silent in (refl, refl))
      (λ good. deliver_live-Silent lua other seen sub event (live_session seen sub.session) (
        not_callable m sub (live_session m sub.session) refl may (ground (arith, good))
          (sym valid ∙ ground (arith, good))))

-- A delivery whose subscription is inactive, whose target has a fault, or whose session is not active
-- is skipped, and Lua is not called for it: the mod afterwards does not depend on the Lua code.
pub deliver_event-Silent :
    (lua other : LuaCode) (m : BridgeMod) (event : EnhancedInputEvent)
    (sub : EnhancedInputSubscription)
    → lookup event.owner m.backend.subscription_store ≡ some sub
    → ¬ MayCall m sub
    → ((deliver_event lua m event).1 ≡ skipped)
      × (deliver_event lua m event ≡ deliver_event other m event)
unfolding deliver_event Silent
deliver_event-Silent lua other m event sub found may =
    subst (λ o. Silent lua other (deliver_to lua m event o) (deliver_to other m event o))
      (sym found) (deliver_to-Silent lua other m event sub may)
