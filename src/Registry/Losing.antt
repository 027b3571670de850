-- ===== src/Registry/Losing.antt =====
-- The loop of `invalidate` over the matched watches, of bridge/include/LifecycleRegistry.hpp.
use mathlib.Core.Option.{none-ne-some}
use ue4sslua_event_bridge.Base.{
  lookup, ℕ, ◌≡◌, refl, ◌∙◌, inl, inr, Option, none, some, List, [], ◌∷◌, arith, ltb, if◌then◌else◌,
  nat_eq, Option-cases,
}
use ue4sslua_event_bridge.Registry.Watches.{Watch, is_watch, count}
use ue4sslua_event_bridge.Registry.State.{
  ObjectLifetimeIdentity, identity_eq, Observation, SessionState, LifecycleRegistry,
}
use ue4sslua_event_bridge.Registry.Views.{observed_identity}
use ue4sslua_event_bridge.Registry.Changes.{Ends, IsLinked, Ends-IsLinked}
use ue4sslua_event_bridge.Registry.{lose_in, lose, lose_all}
use ue4sslua_event_bridge.Registry.Effects.{lose_in-Ends}

-- Nothing ends when the watch names no observation.
pub lose_missing :
    (r : LifecycleRegistry) (w : Watch)
    → observed_identity r w.session w.token ≡ none
    → lose r w ≡ r
unfolding lose observed_identity
lose_missing r w h = ground (arith, h)

pub lose_eq :
    (r : LifecycleRegistry) (w : Watch) (state : SessionState) (o : Observation)
    → lookup w.session r.sessions ≡ some state
    → lookup w.token state.observations ≡ some o
    → lose r w ≡ lose_in r w.session w.token state o
unfolding lose
lose_eq r w state o e e' = rw (e, lose) (rw (e', lose))

lose_held :
    (r : LifecycleRegistry) (w : Watch) (i : ObjectLifetimeIdentity)
    → observed_identity r w.session w.token ≡ some i
    → Ends r w.session w.token i (lose r w)
unfolding observed_identity
lose_held r w i h = elim (Option-cases (lookup w.session r.sessions)) [
  | inl e ↦ absurd (none-ne-some i (rw e at h))
  | inr (state, e) ↦ elim (Option-cases (lookup w.token state.observations)) [
    | inl e' ↦ absurd (none-ne-some i (rw (e, e') at h))
    | inr (o, e') ↦
        let same_identity : i ≡ o.identity = ground (arith, h, e, e') in
        rw (same_identity, lose_eq r w state o e e') (lose_in-Ends r w.session w.token state o e e')
  ]
]

pub lose-IsLinked : (r : LifecycleRegistry) (w : Watch) → IsLinked r → IsLinked (lose r w)
lose-IsLinked r w h = elim (Option-cases (observed_identity r w.session w.token)) [
  | inl e ↦ rw (lose_missing r w e) h
  | inr (i, e) ↦ Ends-IsLinked (lose_held r w i e) h
]

pub lose_all-IsLinked :
    (ws : List Watch) (r : LifecycleRegistry) → IsLinked r → IsLinked (lose_all r ws)
unfolding lose_all
lose_all-IsLinked [] r h = h
lose_all-IsLinked (w ∷ ws) r h = lose_all-IsLinked ws (lose r w) (lose-IsLinked r w h)

pub observed_identity-lose :
    (r : LifecycleRegistry) (w : Watch) (s t : ℕ)
    → observed_identity (lose r w) s t ≡ (if is_watch s t w then none else observed_identity r s t)
observed_identity-lose r w s t = elim (Option-cases (observed_identity r w.session w.token)) [
  | inl e ↦ rw (lose_missing r w e) (ground (arith, e))
  | inr (i, e) ↦ (lose_held r w i e).identities s t
]

abbrev pub unless_watched : ℕ → Option ObjectLifetimeIdentity → Option ObjectLifetimeIdentity
unless_watched n o = if ltb 0 n then none else o

-- The loop ends exactly the observations that the list names.
pub observed_identity-lose_all :
    (ws : List Watch) (r : LifecycleRegistry) (s t : ℕ)
    → observed_identity (lose_all r ws) s t
      ≡ unless_watched (count s t ws) (observed_identity r s t)
unfolding lose_all count
observed_identity-lose_all [] r s t = refl
observed_identity-lose_all (w ∷ ws) r s t =
    ground (arith, observed_identity-lose_all ws (lose r w) s t, observed_identity-lose r w s t)

pub counter-lose : (r : LifecycleRegistry) (w : Watch) → (lose r w).next_token ≡ r.next_token
counter-lose r w = elim (Option-cases (observed_identity r w.session w.token)) [
  | inl e ↦ rw (lose_missing r w e)
  | inr (i, e) ↦ (lose_held r w i e).counter
]

pub counter-lose_all :
    (ws : List Watch) (r : LifecycleRegistry) → (lose_all r ws).next_token ≡ r.next_token
unfolding lose_all
counter-lose_all [] r = refl
counter-lose_all (w ∷ ws) r = counter-lose_all ws (lose r w) ∙ counter-lose r w
