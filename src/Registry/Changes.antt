-- ===== src/Registry/Changes.antt =====
-- The ways in which a call changes what LifecycleRegistry observes, and the invariant that ties
-- its five indexes together: observations, tokens, both watch maps and the token counter.
use ue4sslua_event_bridge.Base.{
  inr, inl, Option-cases, ◌-◌, ◌+◌, ◌<◌, ℕ, ◌≡◌, none, some, Option, arith, ◌==◌, ◌&&◌,
  if◌then◌else◌,
}
use ue4sslua_event_bridge.Registry.State.{identity_beq, ObjectLifetimeIdentity, LifecycleRegistry}
use ue4sslua_event_bridge.Registry.Views.{observed_identity, token_of}
use ue4sslua_event_bridge.Registry.Watches.{watch_count, same, at_key}

-- Nothing of it changes.
pub record Keeps (r r' : LifecycleRegistry) : Type 0 where
  pub identities : (s t : ℕ) → observed_identity r' s t ≡ observed_identity r s t
  pub tokens : (s : ℕ) (i : ObjectLifetimeIdentity) → token_of r' s i ≡ token_of r s i
  pub index_counts : (k s t : ℕ) → watch_count r'.by_index k s t ≡ watch_count r.by_index k s t
  pub address_counts :
      (k s t : ℕ) → watch_count r'.by_address k s t ≡ watch_count r.by_address k s t
  pub counter : r'.next_token ≡ r.next_token

-- One observation ends.
pub record Ends (r : LifecycleRegistry) (s t : ℕ) (i : ObjectLifetimeIdentity)
    (r' : LifecycleRegistry) : Type 0 where
  pub was : observed_identity r s t ≡ some i
  pub identities :
      (s' t' : ℕ)
      → observed_identity r' s' t'
        ≡ (if s == s' && t == t' then none else observed_identity r s' t')
  pub tokens :
      (s' : ℕ) (i' : ObjectLifetimeIdentity)
      → token_of r' s' i' ≡ (if s == s' && identity_beq i i' then none else token_of r s' i')
  pub index_counts :
      (k s' t' : ℕ)
      → watch_count r'.by_index k s' t'
        ≡ watch_count r.by_index k s' t' - at_key i.index k (same s t s' t')
  pub address_counts :
      (k s' t' : ℕ)
      → watch_count r'.by_address k s' t'
        ≡ watch_count r.by_address k s' t' - at_key i.address k (same s t s' t')
  pub counter : r'.next_token ≡ r.next_token

-- One observation begins, under the next token.
pub record Begins (r : LifecycleRegistry) (s : ℕ) (i : ObjectLifetimeIdentity)
    (r' : LifecycleRegistry) : Type 0 where
  pub was : token_of r s i ≡ none
  pub identities :
      (s' t' : ℕ)
      → observed_identity r' s' t'
        ≡ (if s == s' && r.next_token == t' then some i else observed_identity r s' t')
  pub tokens :
      (s' : ℕ) (i' : ObjectLifetimeIdentity)
      → token_of r' s' i'
        ≡ (if s == s' && identity_beq i i' then some r.next_token else token_of r s' i')
  pub index_counts :
      (k s' t' : ℕ)
      → watch_count r'.by_index k s' t'
        ≡ watch_count r.by_index k s' t' + at_key i.index k (same s r.next_token s' t')
  pub address_counts :
      (k s' t' : ℕ)
      → watch_count r'.by_address k s' t'
        ≡ watch_count r.by_address k s' t' + at_key i.address k (same s r.next_token s' t')
  pub counter : r'.next_token ≡ r.next_token + 1

-- Every observation of a session ends.
pub record Clears (r : LifecycleRegistry) (s : ℕ) (r' : LifecycleRegistry) : Type 0 where
  pub identities :
      (s' t' : ℕ)
      → observed_identity r' s' t' ≡ (if s == s' then none else observed_identity r s' t')
  pub tokens :
      (s' : ℕ) (i : ObjectLifetimeIdentity)
      → token_of r' s' i ≡ (if s == s' then none else token_of r s' i)
  pub index_counts :
      (k s' t' : ℕ)
      → watch_count r'.by_index k s' t' ≡ (if s == s' then 0 else watch_count r.by_index k s' t')
  pub address_counts :
      (k s' t' : ℕ)
      → watch_count r'.by_address k s' t'
        ≡ (if s == s' then 0 else watch_count r.by_address k s' t')
  pub counter : r'.next_token ≡ r.next_token

abbrev pub index_hit : ℕ → Option ObjectLifetimeIdentity → ℕ
index_hit k none = 0
index_hit k (some i) = if i.index == k then 1 else 0

abbrev pub address_hit : ℕ → Option ObjectLifetimeIdentity → ℕ
address_hit k none = 0
address_hit k (some i) = if i.address == k then 1 else 0

-- An observation stands once in the list of its index and once in that of its address, and nothing
-- else is watched; tokens and identities of a session correspond; every token is below the counter.
pub record IsLinked (r : LifecycleRegistry) : Type 0 where
  pub index_watched :
      (k s t : ℕ) → watch_count r.by_index k s t ≡ index_hit k (observed_identity r s t)
  pub address_watched :
      (k s t : ℕ) → watch_count r.by_address k s t ≡ address_hit k (observed_identity r s t)
  pub token_observed :
      (s t : ℕ) (i : ObjectLifetimeIdentity)
      → token_of r s i ≡ some t
      → observed_identity r s t ≡ some i
  pub observed_token :
      (s t : ℕ) (i : ObjectLifetimeIdentity)
      → observed_identity r s t ≡ some i
      → token_of r s i ≡ some t
  pub fresh :
      (s t : ℕ) (i : ObjectLifetimeIdentity) → observed_identity r s t ≡ some i → t < r.next_token
  pub positive : 0 < r.next_token

pub Keeps-IsLinked : {r r' : LifecycleRegistry} → Keeps r r' → IsLinked r → IsLinked r'
Keeps-IsLinked {r} {r'} e h = record {
  index_watched =
      λ k s t. ground (arith, e.identities s t, e.index_counts k s t, h.index_watched k s t);
  address_watched =
      λ k s t. ground (arith, e.identities s t, e.address_counts k s t, h.address_watched k s t);
  token_observed =
      λ s t i p. ground (arith, e.identities s t, e.tokens s i, h.token_observed s t i);
  observed_token =
      λ s t i p. ground (arith, e.identities s t, e.tokens s i, h.observed_token s t i);
  fresh = λ s t i p. ground (arith, e.identities s t, e.counter, h.fresh s t i);
  positive = ground (arith, e.counter, h.positive);
}

pub Ends-IsLinked :
    {r r' : LifecycleRegistry} {s t : ℕ} {i : ObjectLifetimeIdentity}
    → Ends r s t i r'
    → IsLinked r
    → IsLinked r'
Ends-IsLinked {r} {r'} {s} {t} {i} e h = record {
  index_watched = λ k s' t'.
      ground (arith, e.was, e.identities s' t', e.index_counts k s' t', h.index_watched k s' t');
  address_watched = λ k s' t'.
      ground
        (arith, e.was, e.identities s' t', e.address_counts k s' t', h.address_watched k s' t');
  token_observed = λ s' t' i' p.
      ground (arith, e.was, e.identities s' t', e.tokens s' i', h.token_observed s' t' i');
  observed_token = λ s' t' i' p. ground (
    arith,
    e.was,
    e.identities s' t',
    e.tokens s' i',
    h.observed_token s' t' i',
    h.observed_token s t i,
  );
  fresh = λ s' t' i' p. ground (arith, e.identities s' t', e.counter, h.fresh s' t' i');
  positive = ground (arith, e.counter, h.positive);
}

-- The next token is in use in no session.
pub observed_identity-next_token :
    {r : LifecycleRegistry} (s : ℕ) → IsLinked r → observed_identity r s r.next_token ≡ none
observed_identity-next_token {r} s h = elim (Option-cases (observed_identity r s r.next_token)) [
  | inl e ↦ e
  | inr (i, e) ↦ absurd (omega (arith, h.fresh s r.next_token i e))
]

pub Begins-IsLinked :
    {r r' : LifecycleRegistry} {s : ℕ} {i : ObjectLifetimeIdentity}
    → Begins r s i r'
    → IsLinked r
    → IsLinked r'
Begins-IsLinked {r} {r'} {s} {i} e h = record {
  index_watched = λ k s' t'. ground (
    arith,
    e.identities s' t',
    e.index_counts k s' t',
    h.index_watched k s' t',
    observed_identity-next_token s h,
  );
  address_watched = λ k s' t'. ground (
    arith,
    e.identities s' t',
    e.address_counts k s' t',
    h.address_watched k s' t',
    observed_identity-next_token s h,
  );
  token_observed = λ s' t' i' p. ground (
    arith,
    e.identities s' t',
    e.tokens s' i',
    h.token_observed s' t' i',
    observed_identity-next_token s h,
  );
  observed_token = λ s' t' i' p.
      ground (arith, e.was, e.identities s' t', e.tokens s' i', h.observed_token s' t' i');
  fresh = λ s' t' i' p. ground (arith, e.identities s' t', e.counter, h.fresh s' t' i');
  positive = ground (arith, e.counter, h.positive);
}

pub Clears-IsLinked : {r r' : LifecycleRegistry} {s : ℕ} → Clears r s r' → IsLinked r → IsLinked r'
Clears-IsLinked {r} {r'} {s} e h = record {
  index_watched = λ k s' t'.
      ground (arith, e.identities s' t', e.index_counts k s' t', h.index_watched k s' t');
  address_watched = λ k s' t'.
      ground (arith, e.identities s' t', e.address_counts k s' t', h.address_watched k s' t');
  token_observed =
      λ s' t' i' p. ground (arith, e.identities s' t', e.tokens s' i', h.token_observed s' t' i');
  observed_token =
      λ s' t' i' p. ground (arith, e.identities s' t', e.tokens s' i', h.observed_token s' t' i');
  fresh = λ s' t' i' p. ground (arith, e.identities s' t', e.counter, h.fresh s' t' i');
  positive = ground (arith, e.counter, h.positive);
}
