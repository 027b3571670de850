-- ===== src/Registry/State.antt =====
-- The data of LifecycleRegistry: identities, results, the state of a session and the registry.
use ue4sslua_event_bridge.Base.{
  true, ℕ, ◌≡◌, ◌↔◌, Bool, false, ◌&&◌, Option, List, [], arith, ◌==◌, Eq, Map,
}
use ue4sslua_event_bridge.Registry.Watches.{WatchMap}

pub record ObjectLifetimeIdentity : Type 0 where
  pub address : ℕ
  pub index : ℕ
  pub serial : ℕ

abbrev pub identity_beq : ObjectLifetimeIdentity → ObjectLifetimeIdentity → Bool
identity_beq a b = a.address == b.address && (a.index == b.index && a.serial == b.serial)

pub identity_beq_iff : (a b : ObjectLifetimeIdentity) → (identity_beq a b ≡ true) ↔ (a ≡ b)
identity_beq_iff a b = ground arith

instance abbrev pub identity_eq : Eq ObjectLifetimeIdentity
identity_eq = record { beq = identity_beq; beq_iff = identity_beq_iff }

pub data CaptureFailure : Type 0 where
  no_failure unknown_session capacity faulted : CaptureFailure

pub record CaptureResult : Type 0 where
  pub token : ℕ
  pub failure : CaptureFailure

pub record LostResult : Type 0 where
  pub token : Option ℕ
  pub overflow : Bool
  pub unknown_session : Bool

pub record Observation : Type 0 where
  pub identity : ObjectLifetimeIdentity
  pub references : ℕ

pub record SessionState : Type 0 where
  pub observations : Map ℕ Observation
  pub tokens : Map ObjectLifetimeIdentity ℕ
  pub lost : List ℕ
  pub report_losses : Bool
  pub overflow : Bool

abbrev pub new_state : SessionState
new_state = record {
  observations = [];
  tokens = [];
  lost = [];
  report_losses = false;
  overflow = false;
}

pub record LifecycleRegistry : Type 0 where
  pub observation_limit : ℕ
  pub loss_limit : ℕ
  pub next_token : ℕ
  pub sessions : Map ℕ SessionState
  pub by_index : WatchMap
  pub by_address : WatchMap
  pub observed : ℕ

unfoldable pub new_registry : ℕ → ℕ → LifecycleRegistry
new_registry observation_limit loss_limit = record {
  observation_limit = observation_limit;
  loss_limit = loss_limit;
  next_token = 1;
  sessions = [];
  by_index = [];
  by_address = [];
  observed = 0;
}
