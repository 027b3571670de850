-- ===== src/Registry/Invariant.antt =====
-- The well-formedness of LifecycleRegistry of bridge/include/LifecycleRegistry.hpp.
use ue4sslua_event_bridge.Base.{
  length, Map, lookup, insert, try_emplace, ℕ, ◌≤◌, ◌≡◌, refl, sym, ◌∙◌, inl, inr, true, none, some,
  [], ◌∷◌, arith, ◌==◌, nat_eq, Bool-cases, Option-cases,
}
use ue4sslua_event_bridge.Registry.Watches.{watch_count-nil}
use ue4sslua_event_bridge.Registry.State.{
  ObjectLifetimeIdentity, identity_eq, SessionState, new_state, LifecycleRegistry, new_registry,
}
use ue4sslua_event_bridge.Registry.Views.{state_identity, observed_identity, state_token, token_of}
use ue4sslua_event_bridge.Registry.Changes.{IsLinked, Keeps-IsLinked, Clears-IsLinked}
use ue4sslua_event_bridge.Registry.{
  count_observations, publish_count, put_state, start_session, stop_found, stop_session,
  report_losses, matched, invalidate, shutdown,
}
use ue4sslua_event_bridge.Registry.Effects.{
  put_state-Keeps, start_session-Keeps, publish_count-Keeps,
}
use ue4sslua_event_bridge.Registry.Stopping.{stop_session-Clears, shutdown-IsLinked}
use ue4sslua_event_bridge.Registry.Losing.{lose_all-IsLinked}

-- The published counter is the number of observations, which `invalidate` reads without the lock.
pub record IsWell (r : LifecycleRegistry) : Type 0 where
  pub linked : IsLinked r
  pub counted : r.observed ≡ count_observations r.sessions

-- A call that replaces the state of one session by one with as many observations.
pub count_observations-insert :
    (s : ℕ) (old new : SessionState) (m : Map ℕ SessionState)
    → lookup s m ≡ some old
    → length new.observations ≡ length old.observations
    → count_observations (insert s new m) ≡ count_observations m
unfolding lookup insert count_observations
count_observations-insert s old new [] e h = cc
count_observations-insert s old new ((k, x) ∷ m) e h =
    ground (arith, count_observations-insert s old new m)

count_observations-try_emplace :
    (s : ℕ) (m : Map ℕ SessionState)
    → count_observations (try_emplace s new_state m) ≡ count_observations m
unfolding lookup insert try_emplace count_observations
count_observations-try_emplace s [] = refl
count_observations-try_emplace s ((k, x) ∷ m) = ground (arith, count_observations-try_emplace s m)

length_le_count :
    (s : ℕ) (state : SessionState) (m : Map ℕ SessionState)
    → lookup s m ≡ some state
    → length state.observations ≤ count_observations m
unfolding lookup count_observations
length_le_count s state [] e = cc
length_le_count s state ((k, x) ∷ m) e = ground (arith, length_le_count s state m)

pub length-insert_found {ℓ} :
    {V : Type ℓ} (k : ℕ) (old new : V) (m : Map ℕ V)
    → lookup k m ≡ some old
    → length (insert k new m) ≡ length m
unfolding lookup insert
length-insert_found k old new [] e = cc
length-insert_found k old new ((j, x) ∷ m) e = ground (arith, length-insert_found k old new m)

lookup-of_length_zero {ℓ} : {V : Type ℓ} (k : ℕ) (m : Map ℕ V) → length m ≡ 0 → lookup k m ≡ none
unfolding lookup
lookup-of_length_zero k [] h = refl
lookup-of_length_zero k (x ∷ m) h = absurd (omega arith)

-- When the counter is zero, nothing is observed: the fast path of `invalidate` misses no loss.
pub observed_zero :
    (r : LifecycleRegistry) (s t : ℕ) → IsWell r → r.observed ≡ 0 → observed_identity r s t ≡ none
unfolding observed_identity
observed_zero r s t h e = elim (Option-cases (lookup s r.sessions)) [
  | inl e' ↦ rw e'
  | inr (state, e') ↦
      let few : length state.observations ≡ 0 =
        omega (arith, length_le_count s state r.sessions e', h.counted) in
      ground (arith, e', lookup-of_length_zero t state.observations few)
]

pub put_state-IsWell :
    (r : LifecycleRegistry) (s : ℕ) (old new : SessionState)
    → lookup s r.sessions ≡ some old
    → ((t : ℕ) → state_identity t (some new) ≡ state_identity t (some old))
    → ((i : ObjectLifetimeIdentity) → state_token i (some new) ≡ state_token i (some old))
    → length new.observations ≡ length old.observations
    → IsWell r
    → IsWell (put_state r s new)
unfolding put_state
put_state-IsWell r s old new found f g n h = record {
  linked = Keeps-IsLinked (put_state-Keeps r s old new found f g) h.linked;
  counted = h.counted ∙ sym (count_observations-insert s old new r.sessions found n);
}

pub publish_count-IsWell : (r : LifecycleRegistry) → IsLinked r → IsWell (publish_count r)
unfolding publish_count
publish_count-IsWell r h = record {
  linked = Keeps-IsLinked (publish_count-Keeps r) h;
  counted = refl;
}

pub new_registry-IsWell : (m n : ℕ) → IsWell (new_registry m n)
unfolding new_registry observed_identity token_of lookup count_observations
new_registry-IsWell m n = record {
  linked = record {
    index_watched = λ k s t. watch_count-nil k s t;
    address_watched = λ k s t. watch_count-nil k s t;
    token_observed = λ s t i p. cc;
    observed_token = λ s t i p. cc;
    fresh = λ s t i p. cc;
    positive = omega arith;
  };
  counted = refl;
}

pub start_session-IsWell : (r : LifecycleRegistry) (s : ℕ) → IsWell r → IsWell (start_session r s)
unfolding start_session
start_session-IsWell r s h = record {
  linked = Keeps-IsLinked (start_session-Keeps r s) h.linked;
  counted = h.counted ∙ sym (count_observations-try_emplace s r.sessions);
}

pub stop_session-IsWell : (r : LifecycleRegistry) (s : ℕ) → IsWell r → IsWell (stop_session r s)
unfolding stop_session stop_found publish_count
stop_session-IsWell r s h = record {
  linked = Clears-IsLinked (stop_session-Clears r s h.linked) h.linked;
  counted = ground (arith, h.counted);
}

pub report_losses-IsWell : (r : LifecycleRegistry) (s : ℕ) → IsWell r → IsWell (report_losses r s).0
unfolding report_losses
report_losses-IsWell r s h = elim (Option-cases (lookup s r.sessions)) [
  | inl e ↦ rw (e, report_losses) h
  | inr (state, e) ↦
      rw (e, report_losses)
        (put_state-IsWell r s state (record state { report_losses = true }) e (λ t. refl)
          (λ i. refl) refl h)
]

pub shutdown-IsWell : (r : LifecycleRegistry) → IsWell r → IsWell (shutdown r)
unfolding shutdown publish_count
shutdown-IsWell r h = record { linked = shutdown-IsLinked r h.linked; counted = refl }

pub invalidate-IsWell :
    (r : LifecycleRegistry) (address index : ℕ) → IsWell r → IsWell (invalidate r address index)
unfolding invalidate
invalidate-IsWell r a i h = elim (Bool-cases (r.observed == 0)) [
  | inl e ↦ rw e h
  | inr e ↦ rw e (publish_count-IsWell _ (lose_all-IsLinked (matched r a i) r h.linked))
]
