-- ===== src/Registry/Invalidate.antt =====
-- `invalidate` of bridge/include/LifecycleRegistry.hpp: which observations a notification ends.
use ue4sslua_event_bridge.Base.{
  lookup, ℕ, ◌+◌, ◌≡◌, refl, ◌∙◌, inl, inr, true, false, ◌||◌, Option, none, some, arith, ◌==◌,
  if◌then◌else◌, nat_eq, Bool-cases, Option-cases,
}
use ue4sslua_event_bridge.Registry.Watches.{watches_of, count, watch_count, count-append}
use ue4sslua_event_bridge.Registry.State.{
  ObjectLifetimeIdentity, identity_beq_iff, identity_eq, LifecycleRegistry,
}
use ue4sslua_event_bridge.Registry.Views.{observed_identity, session_overflow}
use ue4sslua_event_bridge.Registry.Changes.{index_hit, address_hit, IsLinked}
use ue4sslua_event_bridge.Registry.{publish_count, valid, matched, invalidate}
use ue4sslua_event_bridge.Registry.Effects.{publish_count-Keeps}
use ue4sslua_event_bridge.Registry.Losing.{observed_identity-lose_all, counter-lose_all}
use ue4sslua_event_bridge.Registry.Invariant.{IsWell, observed_zero}

abbrev pub unless_hit : ℕ → ℕ → Option ObjectLifetimeIdentity → Option ObjectLifetimeIdentity
unless_hit a i none = none
unless_hit a i (some j) = if j.address == a || j.index == i then none else some j

count-matched :
    (r : LifecycleRegistry) (a i s t : ℕ)
    → IsLinked r
    → count s t (matched r a i)
      ≡ index_hit i (observed_identity r s t) + address_hit a (observed_identity r s t)
count-matched r a i s t h =
    count-append s t (watches_of i r.by_index) (watches_of a r.by_address)
    ∙ (unfold watch_count in omega (arith, h.index_watched i s t, h.address_watched a s t))

-- A creation or deletion at an address and an index ends exactly the observations, in every
-- session, of an identity with that address or that index.
pub observed_identity-invalidate :
    (r : LifecycleRegistry) (a i s t : ℕ)
    → IsWell r
    → observed_identity (invalidate r a i) s t ≡ unless_hit a i (observed_identity r s t)
unfolding invalidate
observed_identity-invalidate r a i s t h = elim (Bool-cases (r.observed == 0)) [
  | inl e ↦
      let unseen : observed_identity r s t ≡ none = observed_zero r s t h (ground (arith, e)) in
      rw (e, unseen) refl
  | inr e ↦ rw e (
      (publish_count-Keeps _).identities s t
      ∙ observed_identity-lose_all (matched r a i) r s t
      ∙ rw (count-matched r a i s t h.linked) (elim (Option-cases (observed_identity r s t)) [
        | inl f ↦ rw f refl
        | inr (j, f) ↦ rw f (ground arith)
      ]))
]

-- `valid` in the terms of the views.
pub valid_lem :
    (r : LifecycleRegistry) (s t : ℕ) (j : ObjectLifetimeIdentity)
    → valid r s t j ≡ true
    → (session_overflow r s ≡ false) × (observed_identity r s t ≡ some j)
unfolding valid session_overflow observed_identity
valid_lem r s t j v = elim (Option-cases (lookup s r.sessions)) [
  | inl e ↦ ground (arith, e, v)
  | inr (state, e) ↦ elim (Option-cases (lookup t state.observations)) [
    | inl e' ↦ ground (arith, e, e', v)
    | inr (o, e') ↦ ground (arith, e, e', v, identity_beq_iff o.identity j)
  ]
]

pub counter-invalidate :
    (r : LifecycleRegistry) (a i : ℕ) → (invalidate r a i).next_token ≡ r.next_token
unfolding invalidate publish_count
counter-invalidate r a i = elim (Bool-cases (r.observed == 0)) [
  | inl e ↦ rw e refl
  | inr e ↦ rw e (counter-lose_all (matched r a i) r)
]
