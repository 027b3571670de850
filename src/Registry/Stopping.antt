-- ===== src/Registry/Stopping.antt =====
-- `stop_session` and `shutdown` of bridge/include/LifecycleRegistry.hpp: the loop over the
-- observations of a session.
use ue4sslua_event_bridge.Base.{
  Map, lookup-erase, lookup, ℕ, ◌+◌, ◌-◌, ◌≤◌, ◌≡◌, refl, ap, ◌∙◌, inl, inr, ◌&&◌, none, some, [],
  ◌∷◌, arith, ◌==◌, if◌then◌else◌, nat_eq, ==_refl, Option-cases,
}
use ue4sslua_event_bridge.Registry.Watches.{watch_count, watch_count-erase_watch, watch_count-nil}
use ue4sslua_event_bridge.Registry.State.{identity_eq, Observation, SessionState, LifecycleRegistry}
use ue4sslua_event_bridge.Registry.Views.{observed_identity, token_of}
use ue4sslua_event_bridge.Registry.Changes.{Clears, index_hit, address_hit, IsLinked}
use ue4sslua_event_bridge.Registry.{
  publish_count, unwatch, unwatch_all, stop_found, stop_session, shutdown,
}

-- How many entries of a session's map hold the token and have the index (the address) `k`.
index_hits : ℕ → ℕ → Map ℕ Observation → ℕ
index_hits k t [] = 0
index_hits k t ((token, o) ∷ rest) =
    (if o.identity.index == k && token == t then 1 else 0) + index_hits k t rest

address_hits : ℕ → ℕ → Map ℕ Observation → ℕ
address_hits k t [] = 0
address_hits k t ((token, o) ∷ rest) =
    (if o.identity.address == k && token == t then 1 else 0) + address_hits k t rest

hits_found :
    (k t : ℕ) (m : Map ℕ Observation) (o : Observation)
    → lookup t m ≡ some o
    → (index_hit k (some o.identity) ≤ index_hits k t m)
      × (address_hit k (some o.identity) ≤ address_hits k t m)
unfolding lookup index_hits address_hits
hits_found k t [] o h = cc
hits_found k t ((token, x) ∷ rest) o h = ground (arith, hits_found k t rest o)

index_count-unwatch_all :
    (r : LifecycleRegistry) (s : ℕ) (m : Map ℕ Observation) (k s' t : ℕ)
    → watch_count (unwatch_all r s m).by_index k s' t
      ≡ watch_count r.by_index k s' t - (if s == s' then index_hits k t m else 0)
unfolding unwatch_all unwatch index_hits
index_count-unwatch_all r s [] k s' t = ground arith
index_count-unwatch_all r s ((token, o) ∷ rest) k s' t = ground (
  arith,
  index_count-unwatch_all (unwatch r s token o.identity) s rest k s' t,
  watch_count-erase_watch r.by_index o.identity.index s token k s' t,
)

address_count-unwatch_all :
    (r : LifecycleRegistry) (s : ℕ) (m : Map ℕ Observation) (k s' t : ℕ)
    → watch_count (unwatch_all r s m).by_address k s' t
      ≡ watch_count r.by_address k s' t - (if s == s' then address_hits k t m else 0)
unfolding unwatch_all unwatch address_hits
address_count-unwatch_all r s [] k s' t = ground arith
address_count-unwatch_all r s ((token, o) ∷ rest) k s' t = ground (
  arith,
  address_count-unwatch_all (unwatch r s token o.identity) s rest k s' t,
  watch_count-erase_watch r.by_address o.identity.address s token k s' t,
)

unwatch_all_rest :
    (r : LifecycleRegistry) (s : ℕ) (m : Map ℕ Observation)
    → ((unwatch_all r s m).sessions ≡ r.sessions) × ((unwatch_all r s m).next_token ≡ r.next_token)
unfolding unwatch_all unwatch
unwatch_all_rest r s [] = (refl, refl)
unwatch_all_rest r s ((token, o) ∷ rest) = unwatch_all_rest (unwatch r s token o.identity) s rest

-- a watch of the session stands for an entry of its map
index_le :
    (r : LifecycleRegistry) (s : ℕ) (state : SessionState) (k t : ℕ)
    → lookup s r.sessions ≡ some state
    → index_hit k (observed_identity r s t) ≤ index_hits k t state.observations
unfolding observed_identity
index_le r s state k t found = elim (Option-cases (lookup t state.observations)) [
  | inl e ↦ ground (arith, found, e)
  | inr (o, e) ↦ ground (arith, found, e, hits_found k t state.observations o e)
]

address_le :
    (r : LifecycleRegistry) (s : ℕ) (state : SessionState) (k t : ℕ)
    → lookup s r.sessions ≡ some state
    → address_hit k (observed_identity r s t) ≤ address_hits k t state.observations
unfolding observed_identity
address_le r s state k t found = elim (Option-cases (lookup t state.observations)) [
  | inl e ↦ ground (arith, found, e)
  | inr (o, e) ↦ ground (arith, found, e, hits_found k t state.observations o e)
]

stop_found-Clears :
    (r : LifecycleRegistry) (s : ℕ) (state : SessionState)
    → IsLinked r
    → lookup s r.sessions ≡ some state
    → Clears r s (stop_found r s state)
unfolding stop_found publish_count observed_identity token_of
stop_found-Clears r s state h found =
    let rest = unwatch_all_rest r s state.observations in
    record {
      identities = λ s' t.
          ground (arith, rest, lookup-erase s s' (unwatch_all r s state.observations).sessions);
      tokens = λ s' i.
          ground (arith, rest, lookup-erase s s' (unwatch_all r s state.observations).sessions);
      index_counts = λ k s' t. ground (
        arith,
        index_count-unwatch_all r s state.observations k s' t,
        index_le r s state k t found,
        h.index_watched k s t,
      );
      address_counts = λ k s' t. ground (
        arith,
        address_count-unwatch_all r s state.observations k s' t,
        address_le r s state k t found,
        h.address_watched k s t,
      );
      counter = rest.1;
    }

-- A session that is not there has no observation.
absent-Clears :
    (r : LifecycleRegistry) (s : ℕ) → IsLinked r → lookup s r.sessions ≡ none → Clears r s r
unfolding observed_identity token_of
absent-Clears r s h absent = record {
  identities = λ s' t. ground (arith, absent);
  tokens = λ s' i. ground (arith, absent);
  index_counts = λ k s' t. ground (arith, absent, h.index_watched k s t);
  address_counts = λ k s' t. ground (arith, absent, h.address_watched k s t);
  counter = refl;
}

-- After `stop_session` nothing of the session is observed or watched, and nothing else changes.
pub stop_session-Clears :
    (r : LifecycleRegistry) (s : ℕ) → IsLinked r → Clears r s (stop_session r s)
unfolding stop_session
stop_session-Clears r s h = elim (Option-cases (lookup s r.sessions)) [
  | inl e ↦ rw (e, stop_session) (absent-Clears r s h e)
  | inr (state, e) ↦ rw (e, stop_session) (stop_found-Clears r s state h e)
]

pub shutdown-IsLinked : (r : LifecycleRegistry) → IsLinked r → IsLinked (shutdown r)
unfolding shutdown publish_count observed_identity token_of lookup
shutdown-IsLinked r h = record {
  index_watched = λ k s t. watch_count-nil k s t;
  address_watched = λ k s t. watch_count-nil k s t;
  token_observed = λ s t i p. cc;
  observed_token = λ s t i p. cc;
  fresh = λ s t i p. cc;
  positive = h.positive;
}

-- A session that was stopped is not there.
pub stop_session_absent :
    (r : LifecycleRegistry) (id : ℕ) → lookup id (stop_session r id).sessions ≡ none
unfolding stop_session stop_found publish_count
stop_session_absent r id = elim (Option-cases (lookup id r.sessions)) [
  | inl e ↦ rw (e, stop_session) e
  | inr (state, e) ↦
      rw (e, stop_session)
        (lookup-erase id id (unwatch_all r id state.observations).sessions
          ∙ ap (λ c. if c then none else lookup id (unwatch_all r id state.observations).sessions)
              (==_refl id))
]
