-- ===== src/Bridge/Service/Unload.antt =====
-- What uninstall_implementation of bridge/src/BridgeMod.cpp leaves.
use ue4sslua_event_bridge.Base.{
  ℕ, ◌≡◌, refl, ap, ◌∙◌, Bool, true, false, not, none, arith, ◌==◌, if◌then◌else◌, if_all,
}
use ue4sslua_event_bridge.Backend.Engine.{Engine}
use ue4sslua_event_bridge.Backend.State.{EnhancedInputBackend}
use ue4sslua_event_bridge.Backend.Drain.{shutdown}
use ue4sslua_event_bridge.Backend.Drain.Shutdown.{shutdown-IsShut}
use ue4sslua_event_bridge.Registry.Views.{observed_identity}
use ue4sslua_event_bridge.Bridge.Lifetime.{
  Memory, stop_lifecycle_service, stop_lifecycle_service_refuses,
}
use ue4sslua_event_bridge.Bridge.State.{BridgeMod}
use ue4sslua_event_bridge.Bridge.Service.{prepare_for_unload, destroy, uninstall_implementation}
use ue4sslua_event_bridge.Loader.Bootstrap.{UninstallResult, can_unload, retain_module}

-- The implementation after its uninstallation.
pub record IsGone (m m' : BridgeMod) (result : UninstallResult) : Type 0 where
  pub inactive : m'.active ≡ false
  pub down : m'.backend.initialized ≡ false
  pub refuses : m'.backend.dispatch.accepting ≡ false
  pub unobserved :
      (session token : ℕ) → observed_identity m'.lifetime.lifetimes session token ≡ none
  pub released : result ≡ can_unload → m'.backend.dispatch.live_bindings ≡ 0

shutdown_again :
    (e : Engine) (b : EnhancedInputBackend)
    → b.initialized ≡ false
    → shutdown e b ≡ (e, b, b.dispatch.live_bindings == 0)
unfolding shutdown
shutdown_again e b down =
    if_all (λ (r : Engine × EnhancedInputBackend × Bool). r ≡ (e, b, b.dispatch.live_bindings == 0))
      (not b.initialized) (e, b, b.dispatch.live_bindings == 0) _ (λ _. refl)
      (λ up. absurd (ground (arith, up, down)))

unloads : (c : Bool) → (if c then can_unload else retain_module) ≡ can_unload → c ≡ true
unloads true h = refl
unloads false h = absurd (ground (arith, h))

abbrev no_memory : Memory
no_memory = record { in_game_thread = false; read_index = λ a. none; read_item = λ i. none }

-- An initialized implementation that is uninstalled is down: it accepts no event, observes no object,
-- and lets its module be unloaded only when no native binding is left that can call into it.
pub uninstall_implementation-IsGone :
    (m : BridgeMod)
    → m.backend.initialized ≡ true
    → IsGone m (uninstall_implementation m).0 (uninstall_implementation m).1
unfolding uninstall_implementation prepare_for_unload destroy
uninstall_implementation-IsGone m up =
    let (e, b, unloadable) = shutdown m.engine m.backend in
    let shut = shutdown-IsShut m.engine m.backend up in
    let again : (shutdown e b).1 ≡ b = ap (λ r. r.1) (shutdown_again e b shut.down) in
    record {
      inactive = refl;
      down = ap (λ x. x.initialized) again ∙ shut.down;
      refuses = ap (λ x. x.dispatch.accepting) again ∙ shut.refuses;
      unobserved =
          (stop_lifecycle_service_refuses no_memory (stop_lifecycle_service m.lifetime) 0 0).0;
      released =
          λ h. ap (λ x. x.dispatch.live_bindings) again ∙ shut.released (unloads unloadable h);
    }
