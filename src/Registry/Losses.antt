-- ===== src/Registry/Losses.antt =====
-- The queues of losses of bridge/include/LifecycleRegistry.hpp: what `invalidate` puts into them.
use ue4sslua_event_bridge.Base.{
  lookup-insert, lookup-erase, lookup, erase, ℕ, ◌≡◌, ◌∙◌, ◌⊎◌, inl, inr, Bool, true, false, ◌||◌,
  Option, none, some, List, [], ◌∷◌, ◌++◌, arith, ◌==◌, nat_eq, Bool-cases, Option-cases, is_some,
}
use ue4sslua_event_bridge.Registry.Watches.{Watch}
use ue4sslua_event_bridge.Registry.State.{
  ObjectLifetimeIdentity, identity_eq, Observation, SessionState, LifecycleRegistry,
}
use ue4sslua_event_bridge.Registry.Views.{observed_identity, session_overflow}
use ue4sslua_event_bridge.Registry.{
  publish_count, unwatch, put_state, note_loss, lose_in, lose, lose_all, matched, invalidate,
}
use ue4sslua_event_bridge.Registry.Losing.{lose_eq}
use ue4sslua_event_bridge.Registry.Invariant.{IsWell}
use ue4sslua_event_bridge.Registry.Invalidate.{unless_hit, observed_identity-invalidate}

abbrev reporting : Option SessionState → Bool
reporting none = false
reporting (some state) = state.report_losses

-- The session asked for its losses.
unfoldable pub session_reports : LifecycleRegistry → ℕ → Bool
session_reports r s = reporting (lookup s r.sessions)

unfoldable pub holds : ℕ → List ℕ → Bool
holds t [] = false
holds t (x ∷ xs) = x == t || holds t xs

abbrev queued : ℕ → Option SessionState → Bool
queued t none = false
queued t (some state) = holds t state.lost

-- A loss of the token waits in the session's queue.
unfoldable pub loss_queued : LifecycleRegistry → ℕ → ℕ → Bool
unfolding holds
loss_queued r s t = queued t (lookup s r.sessions)

holds-append : (t : ℕ) (xs : List ℕ) (x : ℕ) → holds t (xs ++ (x ∷ [])) ≡ (holds t xs || x == t)
unfolding holds
holds-append t [] x = ground arith
holds-append t (y ∷ xs) x = ground (arith, holds-append t xs x)

-- The token is observed, its loss is queued, or the session knows that losses overflowed.
abbrev accounted : LifecycleRegistry → ℕ → ℕ → Bool
accounted r s t = is_some (observed_identity r s t) || (session_overflow r s || loss_queued r s t)

note_loss-observations :
    (n t : ℕ) (state : SessionState) → (note_loss n t state).observations ≡ state.observations
unfolding note_loss
note_loss-observations n t state = ground arith

note_loss-accounts :
    (n t t' : ℕ) (state : SessionState)
    → ((note_loss n t state).report_losses ≡ state.report_losses)
      × (state.report_losses ≡ true
          → (t == t' || (state.overflow || holds t' state.lost)) ≡ true
          → ((note_loss n t state).overflow || holds t' (note_loss n t state).lost) ≡ true)
unfolding note_loss
note_loss-accounts n t t' state = ground (arith, holds-append t' state.lost t)

lose_in-accounted :
    (r : LifecycleRegistry) (s t s' t' : ℕ) (state : SessionState) (o : Observation)
    → lookup s r.sessions ≡ some state
    → session_reports r s' ≡ true
    → accounted r s' t' ≡ true
    → (session_reports (lose_in r s t state o) s' ≡ true)
      × (accounted (lose_in r s t state o) s' t' ≡ true)
unfolding lose_in put_state unwatch session_reports session_overflow loss_queued observed_identity
lose_in-accounted r s t s' t' state o found rep acc =
    let rest : SessionState = record state {
      tokens = erase o.identity state.tokens;
      observations = erase t state.observations;
    } in
    ground (
      arith,
      found,
      lookup-insert s s' (note_loss r.loss_limit t rest) r.sessions,
      note_loss-accounts r.loss_limit t t' rest,
      note_loss-observations r.loss_limit t rest,
      lookup-erase t t' state.observations,
    )

lose-accounted :
    (r : LifecycleRegistry) (w : Watch) (s t : ℕ)
    → session_reports r s ≡ true
    → accounted r s t ≡ true
    → (session_reports (lose r w) s ≡ true) × (accounted (lose r w) s t ≡ true)
unfolding lose
lose-accounted r w s t rep acc = elim (Option-cases (lookup w.session r.sessions)) [
  | inl e ↦ rw (e, lose) (rep, acc)
  | inr (state, e) ↦ elim (Option-cases (lookup w.token state.observations)) [
    | inl e' ↦ rw (e, lose) (rw e' (rep, acc))
    | inr (o, e') ↦
        rw (lose_eq r w state o e e') (lose_in-accounted r w.session w.token s t state o e rep acc)
  ]
]

lose_all-accounted :
    (ws : List Watch) (r : LifecycleRegistry) (s t : ℕ)
    → session_reports r s ≡ true
    → accounted r s t ≡ true
    → accounted (lose_all r ws) s t ≡ true
unfolding lose_all
lose_all-accounted [] r s t rep acc = acc
lose_all-accounted (w ∷ ws) r s t rep acc =
    let (rep', acc') = lose-accounted r w s t rep acc in
    lose_all-accounted ws (lose r w) s t rep' acc'

invalidate-accounted :
    (r : LifecycleRegistry) (a i s t : ℕ)
    → session_reports r s ≡ true
    → accounted r s t ≡ true
    → accounted (invalidate r a i) s t ≡ true
unfolding invalidate publish_count session_overflow loss_queued observed_identity
invalidate-accounted r a i s t rep acc = elim (Bool-cases (r.observed == 0)) [
  | inl e ↦ rw e acc
  | inr e ↦ rw e (lose_all-accounted (matched r a i) r s t rep acc)
]

-- An observation that a notification hits, in a session that asked for its losses, is afterwards
-- queued for it, or the session is marked as overflowed: no loss is dropped in silence.
pub invalidate_reports :
    (r : LifecycleRegistry) (a i s t : ℕ) (j : ObjectLifetimeIdentity)
    → IsWell r
    → session_reports r s ≡ true
    → observed_identity r s t ≡ some j
    → unless_hit a i (some j) ≡ none
    → (session_overflow (invalidate r a i) s ≡ true) ⊎ (loss_queued (invalidate r a i) s t ≡ true)
invalidate_reports r a i s t j h rep seen hit =
    let ended : observed_identity (invalidate r a i) s t ≡ none =
      observed_identity-invalidate r a i s t h ∙ rw seen hit in
    ground (arith, seen, ended, invalidate-accounted r a i s t rep)
