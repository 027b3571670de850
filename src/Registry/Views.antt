-- ===== src/Registry/Views.antt =====
-- What a LifecycleRegistry says of one observation and of one identity, and the laws of these views.
use ue4sslua_event_bridge.Base.{length, ℕ, Bool, false, Option, none, some, nat_eq, lookup}
use ue4sslua_event_bridge.Registry.State.{
  ObjectLifetimeIdentity, identity_eq, Observation, SessionState, LifecycleRegistry,
}

abbrev identity_of : Option Observation → Option ObjectLifetimeIdentity
identity_of none = none
identity_of (some o) = some o.identity

abbrev pub state_identity : ℕ → Option SessionState → Option ObjectLifetimeIdentity
state_identity token none = none
state_identity token (some state) = identity_of (lookup token state.observations)

-- The identity that a session observes under a token.
unfoldable pub observed_identity : LifecycleRegistry → ℕ → ℕ → Option ObjectLifetimeIdentity
observed_identity r session token = state_identity token (lookup session r.sessions)

abbrev pub state_token : ObjectLifetimeIdentity → Option SessionState → Option ℕ
state_token identity none = none
state_token identity (some state) = lookup identity state.tokens

-- The token under which a session observes an identity.
unfoldable pub token_of : LifecycleRegistry → ℕ → ObjectLifetimeIdentity → Option ℕ
token_of r session identity = state_token identity (lookup session r.sessions)

abbrev pub overflowed : Option SessionState → Bool
overflowed none = false
overflowed (some state) = state.overflow

unfoldable pub session_overflow : LifecycleRegistry → ℕ → Bool
session_overflow r session = overflowed (lookup session r.sessions)

abbrev references_of : Option Observation → ℕ
references_of none = 0
references_of (some o) = o.references

abbrev pub state_references : ℕ → Option SessionState → ℕ
state_references t none = 0
state_references t (some state) = references_of (lookup t state.observations)

-- How many captures of a token are not yet released.
unfoldable pub references : LifecycleRegistry → ℕ → ℕ → ℕ
references r s t = state_references t (lookup s r.sessions)

abbrev observation_count : Option SessionState → ℕ
observation_count none = 0
observation_count (some state) = length state.observations

-- How many objects a session observes.
unfoldable pub session_size : LifecycleRegistry → ℕ → ℕ
session_size r session = observation_count (lookup session r.sessions)
