-- ===== src/Registry/Effects.antt =====
-- What each method of LifecycleRegistry changes, in the terms of Registry/Changes.
use ue4sslua_event_bridge.Base.{
  ℕ, ◌+◌, ◌^◌, ◌<◌, ◌≡◌, refl, none, some, arith, nat_eq, lookup, erase, lookup-insert,
  lookup-erase, lookup-try_emplace,
}
use ue4sslua_event_bridge.Registry.State.{
  ObjectLifetimeIdentity, identity_eq, Observation, SessionState, new_state, LifecycleRegistry,
}
use ue4sslua_event_bridge.Registry.Watches.{watch_count-push_watch, watch_count-erase_watch}
use ue4sslua_event_bridge.Registry.Views.{state_token, state_identity, observed_identity, token_of}
use ue4sslua_event_bridge.Registry.Changes.{Keeps, Ends, Begins}
use ue4sslua_event_bridge.Registry.{
  observing, put_state, unwatch, end_observation, lose_in, note_loss, start_session, observe,
  publish_count,
}

-- A call that changes what the views do not show.
pub put_state-Keeps :
    (r : LifecycleRegistry) (s : ℕ) (old new : SessionState)
    → lookup s r.sessions ≡ some old
    → ((t : ℕ) → state_identity t (some new) ≡ state_identity t (some old))
    → ((i : ObjectLifetimeIdentity) → state_token i (some new) ≡ state_token i (some old))
    → Keeps r (put_state r s new)
unfolding put_state observed_identity token_of
put_state-Keeps r s old new found same_identities same_tokens = record {
  identities = λ s' t. ground (arith, found, lookup-insert s s' new r.sessions, same_identities t);
  tokens = λ s' i. ground (arith, found, lookup-insert s s' new r.sessions, same_tokens i);
  index_counts = λ k s' t. refl;
  address_counts = λ k s' t. refl;
  counter = refl;
}

-- An observation that `release` or `invalidate` takes out of the state of its session.
erased-Ends :
    (r : LifecycleRegistry) (s t : ℕ) (state : SessionState) (o : Observation) (new : SessionState)
    → lookup s r.sessions ≡ some state
    → lookup t state.observations ≡ some o
    → new.observations ≡ erase t state.observations
    → new.tokens ≡ erase o.identity state.tokens
    → Ends r s t o.identity (put_state (unwatch r s t o.identity) s new)
unfolding put_state unwatch observed_identity token_of
erased-Ends r s t state o new found held e f = record {
  was = ground (arith, found, held);
  identities = λ s' t'. ground (
    arith,
    found,
    held,
    lookup-insert s s' new r.sessions,
    e,
    lookup-erase t t' state.observations,
  );
  tokens = λ s' i.
      ground (
        arith,
        found,
        lookup-insert s s' new r.sessions,
        f,
        lookup-erase o.identity i state.tokens,
      );
  index_counts = λ k s' t'. watch_count-erase_watch r.by_index o.identity.index s t k s' t';
  address_counts = λ k s' t'. watch_count-erase_watch r.by_address o.identity.address s t k s' t';
  counter = refl;
}

pub end_observation-Ends :
    (r : LifecycleRegistry) (s t : ℕ) (state : SessionState) (o : Observation)
    → lookup s r.sessions ≡ some state
    → lookup t state.observations ≡ some o
    → Ends r s t o.identity (end_observation r s t state o.identity)
unfolding end_observation
end_observation-Ends r s t state o found held = erased-Ends r s t state o _ found held refl refl

observations-note_loss :
    (n t : ℕ) (state : SessionState)
    → ((note_loss n t state).observations ≡ state.observations)
      × ((note_loss n t state).tokens ≡ state.tokens)
unfolding note_loss
observations-note_loss n t state = ground arith

pub lose_in-Ends :
    (r : LifecycleRegistry) (s t : ℕ) (state : SessionState) (o : Observation)
    → lookup s r.sessions ≡ some state
    → lookup t state.observations ≡ some o
    → Ends r s t o.identity (lose_in r s t state o)
unfolding lose_in
lose_in-Ends r s t state o found held =
    let kept = observations-note_loss r.loss_limit t (record state {
      tokens = erase o.identity state.tokens;
      observations = erase t state.observations;
    }) in
    erased-Ends r s t state o _ found held kept.0 kept.1

pub start_session-Keeps : (r : LifecycleRegistry) (s : ℕ) → Keeps r (start_session r s)
unfolding start_session observed_identity token_of lookup
start_session-Keeps r s = record {
  identities = λ s' t. ground (arith, lookup-try_emplace s s' new_state r.sessions);
  tokens = λ s' i. ground (arith, lookup-try_emplace s s' new_state r.sessions);
  index_counts = λ k s' t. refl;
  address_counts = λ k s' t. refl;
  counter = refl;
}

-- `publish_count` touches the atomic counter only.
pub publish_count-Keeps : (r : LifecycleRegistry) → Keeps r (publish_count r)
unfolding publish_count observed_identity token_of
publish_count-Keeps r = record {
  identities = λ s t. refl;
  tokens = λ s i. refl;
  index_counts = λ k s t. refl;
  address_counts = λ k s t. refl;
  counter = refl;
}

pub observe-Begins :
    (r : LifecycleRegistry) (s : ℕ) (state : SessionState) (i : ObjectLifetimeIdentity)
    → lookup s r.sessions ≡ some state
    → lookup i state.tokens ≡ none
    → observed_identity r s r.next_token ≡ none
    → r.next_token + 1 < 2 ^ 64
    → Begins r s i (observe r s state i)
unfolding observe put_state publish_count observed_identity token_of
observe-Begins r s state i found absent unused room = record {
  was = ground (arith, found, absent);
  identities = λ s' t'. ground (
    arith,
    found,
    unused,
    lookup-insert s s' (observing state r.next_token i) r.sessions,
    lookup-try_emplace r.next_token t' (record { identity = i; references = 1 }) state.observations,
  );
  tokens = λ s' i'. ground (
    arith,
    found,
    absent,
    lookup-insert s s' (observing state r.next_token i) r.sessions,
    lookup-try_emplace i i' r.next_token state.tokens,
  );
  index_counts = λ k s' t'. watch_count-push_watch r.by_index i.index s r.next_token k s' t';
  address_counts = λ k s' t'. watch_count-push_watch r.by_address i.address s r.next_token k s' t';
  counter = omega arith;
}
