-- ===== src/Bridge/Deliver/Failing.antt =====
-- What a failed callback of bridge/src/BridgeMod.cpp leaves.
use ue4sslua_event_bridge.Base.{
  All, Bytes, text, lookup, ℕ, ◌≡◌, refl, sym, ap, ◌∙◌, subst, ◌≢◌, true, false, none, some,
  if◌then◌else◌, nat_eq,
}
use ue4sslua_event_bridge.Backend.State.{
  TargetDeliveryState, EnhancedInputEvent, EnhancedInputSubscription, EnhancedInputBackend, has,
  delivery_ok, delivery_ok_same, callback_error,
}
use ue4sslua_event_bridge.Backend.Faults.{
  latch_delivery_fault, report_delivery_fault, latch_delivery_fault_unhealthy,
  latch_delivery_fault-Keeps,
}
use ue4sslua_event_bridge.Backend.Unsubscribe.{find_subscription}
use ue4sslua_event_bridge.Backend.Unsubscribe.Clears.{deactivate-delivery_store, deactivate-Purges}
use ue4sslua_event_bridge.Bridge.State.{BridgeMod}
use ue4sslua_event_bridge.Bridge.Deliver.{
  Outcome, LuaCode, Delivery, trace_event, callback_failed, after_callback, settle, returned, threw,
  threw_unknown, failed,
}
use ue4sslua_event_bridge.Bridge.Deliver.Outcomes.{trace_event-Keeps}

-- The binding is off, no event of it is queued, and its target's delivery is not valid.
pub record Disables (m : BridgeMod) (sub stored : EnhancedInputSubscription)
    (r : BridgeMod × Delivery) : Type 0 where
  pub outcome : r.1 ≡ failed
  -- it consumes the count allowance of the pass, whatever the flush of the faults does
  pub attempted : (lua : LuaCode) (fuel : ℕ) → (settle lua fuel r).1 ≡ true
  pub off : lookup sub.id r.0.backend.subscription_store ≡ some (record stored { active = false })
  pub unqueued : All (λ event. event.subscription ≢ sub.id) r.0.backend.dispatch.events.items
  pub faulty :
      (d : ℕ) (state : TargetDeliveryState)
      → sub.delivery ≡ some d
      → lookup d m.backend.delivery_store ≡ some state
      → delivery_ok r.0.backend (some d) ≡ false

find_subscription_same :
    (b b' : EnhancedInputBackend) (id : ℕ)
    → b'.subscription_store ≡ b.subscription_store
    → b'.subscriptions ≡ b.subscriptions
    → find_subscription b' id ≡ find_subscription b id
unfolding find_subscription
find_subscription_same b b' id store table =
    ap (λ store'. if has id b'.subscriptions then lookup id store' else none) store
    ∙ ap (λ table'. if has id table' then lookup id b.subscription_store else none) table

callback_failed-Disables :
    (m : BridgeMod) (sub stored : EnhancedInputSubscription) (event : EnhancedInputEvent)
    (what : Bytes)
    → find_subscription m.backend sub.id ≡ some stored
    → stored.session ≡ sub.session
    → Disables m sub stored (callback_failed m sub event what)
unfolding callback_failed report_delivery_fault settle
callback_failed-Disables m sub stored event what found mine =
    let traced = (trace_event m sub (text "lua_callback_failed") event what).backend in
    let kept = trace_event-Keeps m sub (text "lua_callback_failed") event what in
    let faulted = latch_delivery_fault traced sub.delivery callback_error in
    let latched = latch_delivery_fault-Keeps traced sub.delivery callback_error in
    let there : find_subscription faulted sub.id ≡ some stored =
      find_subscription_same traced faulted sub.id latched.subscription_store latched.subscriptions
      ∙ find_subscription_same m.backend traced sub.id kept.subscription_store kept.subscriptions
      ∙ found in
    let (off, unqueued) = deactivate-Purges faulted sub.session sub.id stored there mine in
    record {
      outcome = refl;
      attempted = λ lua fuel. refl;
      off = off;
      unqueued = unqueued;
      faulty = λ d state has_delivery e.
          delivery_ok_same faulted _ (some d)
            (deactivate-delivery_store faulted sub.session sub.id stored there mine)
          ∙ subst (λ o. delivery_ok (latch_delivery_fault traced o callback_error) (some d) ≡ false)
              (sym has_delivery)
              (latch_delivery_fault_unhealthy traced d state callback_error
                (ap (lookup d) kept.delivery_store ∙ e) refl);
    }

-- A Lua callback that throws counts as an attempt, and it disables its binding, if the subscription
-- still stands in the table of its session then: the subscription is inactive and no event of it is
-- queued. If the subscription has a delivery state, a fault of its target is latched, so that the
-- target's delivery is not valid.
pub after_callback-Disables :
    (m : BridgeMod) (sub stored : EnhancedInputSubscription) (event : EnhancedInputEvent)
    (outcome : Outcome)
    → outcome ≢ returned
    → find_subscription m.backend sub.id ≡ some stored
    → stored.session ≡ sub.session
    → Disables m sub stored (after_callback sub event (m, outcome))
unfolding after_callback
after_callback-Disables m sub stored event returned h found mine = absurd (h refl)
after_callback-Disables m sub stored event (threw what) h found mine =
    callback_failed-Disables m sub stored event what found mine
after_callback-Disables m sub stored event threw_unknown h found mine =
    callback_failed-Disables m sub stored event (text "unknown_lua_exception") found mine
