-- ===== src/Registry/Release.antt =====
-- The outcomes of `release` and `take_lost` of bridge/include/LifecycleRegistry.hpp.
use mathlib.Core.Option.{none-ne-some}
use ue4sslua_event_bridge.Base.{
  length, lookup-insert, lookup-erase, lookup, insert, erase, ℕ, suc, ◌+◌, ◌-◌, ◌%◌, ◌^◌, ◌<◌, ◌≡◌,
  refl, ap, inl, inr, Bool, true, false, none, some, List, [], ◌∷◌, arith, ltb, ◌==◌, if◌then◌else◌,
  nat_eq, Bool-cases, Option-cases,
}
use ue4sslua_event_bridge.Registry.State.{
  ObjectLifetimeIdentity, identity_eq, Observation, SessionState, LifecycleRegistry,
}
use ue4sslua_event_bridge.Registry.Views.{state_identity, observed_identity, token_of, references}
use ue4sslua_event_bridge.Registry.Changes.{Keeps, Ends, Ends-IsLinked}
use ue4sslua_event_bridge.Registry.{
  publish_count, unwatch, put_state, report_losses, end_observation, release_in, release,
  take_lost_in, take_lost,
}
use ue4sslua_event_bridge.Registry.Effects.{put_state-Keeps, end_observation-Ends}
use ue4sslua_event_bridge.Registry.Invariant.{
  IsWell, length-insert_found, put_state-IsWell, publish_count-IsWell,
}

-- `release` ends the observation, or leaves the views alone.
pub data Releases (r : LifecycleRegistry) (s t : ℕ) (c : LifecycleRegistry × Bool) : Type 0 where
  unknown : observed_identity r s t ≡ none → c ≡ (r, false) → Releases r s t c
  keeps : (r' : LifecycleRegistry) → Keeps r r' → IsWell r' → c ≡ (r', true) → Releases r s t c
  ends :
      (r' : LifecycleRegistry) (i : ObjectLifetimeIdentity)
      → Ends r s t i r'
      → IsWell r'
      → c ≡ (r', true)
      → Releases r s t c

module _ (r : LifecycleRegistry) (s t : ℕ) (state : SessionState) (o : Observation) (h : IsWell r)
    (found : lookup s r.sessions ≡ some state) (held : lookup t state.observations ≡ some o) where
  release_in-Releases : Releases r s t (release_in r s t state o, true)
  unfolding release_in
  release_in-Releases =
      let left = (o.references + 2 ^ 64 - 1) % 2 ^ 64 in
      elim (Bool-cases (ltb 0 left)) [
        | inl more ↦
            let o' : Observation = record o { references = left } in
            let state' : SessionState = record state {
              observations = insert t o' state.observations;
            } in
            let same_identities : (t' : ℕ)
                → state_identity t' (some state') ≡ state_identity t' (some state) =
              λ t'. ground (arith, held, lookup-insert t t' o' state.observations) in
            rw more (
              keeps (put_state r s state')
                (put_state-Keeps r s state state' found same_identities (λ j. refl))
                (put_state-IsWell r s state state' found same_identities (λ j. refl)
                  (length-insert_found t o o' state.observations held) h)
                refl)
        | inr last ↦
            let e = end_observation-Ends r s t state o found held in
            rw last (
              ends (publish_count (end_observation r s t state o.identity)) o.identity
                (record {
                  was = e.was;
                  identities = unfold publish_count observed_identity in e.identities;
                  tokens = unfold publish_count token_of in e.tokens;
                  index_counts = unfold publish_count in e.index_counts;
                  address_counts = unfold publish_count in e.address_counts;
                  counter = unfold publish_count in e.counter;
                })
                (publish_count-IsWell _ (Ends-IsLinked e h.linked)) refl)
      ]

pub release-Releases : (r : LifecycleRegistry) (s t : ℕ) → IsWell r → Releases r s t (release r s t)
unfolding release observed_identity
release-Releases r s t h = elim (Option-cases (lookup s r.sessions)) [
  | inl e ↦ rw (e, release) (unknown (unfold observed_identity in rw e) refl)
  | inr (state, e) ↦ elim (Option-cases (lookup t state.observations)) [
    | inl e' ↦ rw (e, release) (rw e' (unknown (unfold observed_identity in rw (e, e')) refl))
    | inr (o, e') ↦ rw (e, release) (rw e' (release_in-Releases r s t state o h e e'))
  ]
]

release_in-references :
    (r : LifecycleRegistry) (s t n : ℕ) (state : SessionState) (o : Observation)
    → lookup s r.sessions ≡ some state
    → lookup t state.observations ≡ some o
    → o.references ≡ suc n
    → suc n < 2 ^ 64
    → (references (release_in r s t state o) s t ≡ n)
      × (observed_identity (release_in r s t state o) s t
          ≡ (if n == 0 then none else some o.identity))
unfolding references release_in end_observation put_state publish_count unwatch observed_identity
release_in-references r s t n state o found held e small =
    let left : (o.references + 2 ^ 64 - 1) % 2 ^ 64 ≡ n = omega (arith, e) in
    let o' : Observation = record o { references = n } in
    let kept : SessionState = record state { observations = insert t o' state.observations } in
    let dropped : SessionState = record state {
      tokens = erase o.identity state.tokens;
      observations = erase t state.observations;
    } in
    rw left (
      ground (
        arith,
        lookup-insert s s kept r.sessions,
        lookup-insert s s dropped r.sessions,
        lookup-insert t t o' state.observations,
        lookup-erase t t state.observations,
      ))

release_eq :
    (r : LifecycleRegistry) (s t : ℕ) (state : SessionState) (o : Observation)
    → lookup s r.sessions ≡ some state
    → lookup t state.observations ≡ some o
    → release r s t ≡ (release_in r s t state o, true)
unfolding release
release_eq r s t state o found held = rw (found, release) (rw held)

-- Releasing a token that has n + 1 references succeeds and leaves n; the observation stays
-- while n is positive and ends with the last reference.
pub references-release :
    (r : LifecycleRegistry) (s t n : ℕ) (i : ObjectLifetimeIdentity)
    → observed_identity r s t ≡ some i
    → references r s t ≡ suc n
    → suc n < 2 ^ 64
    → ((release r s t).1 ≡ true)
      × (references (release r s t).0 s t ≡ n)
      × (observed_identity (release r s t).0 s t ≡ (if n == 0 then none else some i))
references-release r s t n i e refs small = elim (Option-cases (lookup s r.sessions)) [
  | inl missing ↦ absurd (none-ne-some i (unfold observed_identity in rw missing at e))
  | inr (state, found) ↦ elim (Option-cases (lookup t state.observations)) [
    | inl missing ↦ absurd (none-ne-some i (unfold observed_identity in rw (found, missing) at e))
    | inr (o, held) ↦
        let counted : o.references ≡ suc n =
          unfold references in ground (arith, found, held, refs) in
        let known : o.identity ≡ i = unfold observed_identity in ground (arith, found, held, e) in
        let (left, seen) = release_in-references r s t n state o found held counted small in
        rw (release_eq r s t state o found held) (refl, left, rw (← known) seen)
  ]
]

pub Keeps-refl : (r : LifecycleRegistry) → Keeps r r
Keeps-refl r = record {
  identities = λ s t. refl;
  tokens = λ s i. refl;
  index_counts = λ k s t. refl;
  address_counts = λ k s t. refl;
  counter = refl;
}

take_lost_queue :
    (r : LifecycleRegistry) (s : ℕ) (state : SessionState)
    → lookup s r.sessions ≡ some state
    → state.overflow ≡ false
    → (queue : List ℕ) → state.lost ≡ queue
    → (new : SessionState) × (new.observations ≡ state.observations)
      × (new.tokens ≡ state.tokens)
      × ((take_lost r s).0 ≡ put_state r s new)
unfolding take_lost take_lost_in
take_lost_queue r s state e o [] q =
    (record state { report_losses = true }, refl, refl, ground (arith, e, o, q))
take_lost_queue r s state e o (t ∷ rest) q =
    (record state { report_losses = true; lost = rest }, refl, refl, ground (arith, e, o, q))

take_lost_state :
    (r : LifecycleRegistry) (s : ℕ) (state : SessionState)
    → lookup s r.sessions ≡ some state
    → (new : SessionState) × (new.observations ≡ state.observations)
      × (new.tokens ≡ state.tokens)
      × ((take_lost r s).0 ≡ put_state r s new)
unfolding take_lost take_lost_in
take_lost_state r s state e = elim (Bool-cases state.overflow) [
  | inl o ↦ (record state { report_losses = true }, refl, refl, ground (arith, e, o))
  | inr o ↦ take_lost_queue r s state e o state.lost refl
]

pub take_lost-Keeps-IsWell :
    (r : LifecycleRegistry) (s : ℕ)
    → IsWell r
    → Keeps r (take_lost r s).0 × IsWell (take_lost r s).0
take_lost-Keeps-IsWell r s h = elim (Option-cases (lookup s r.sessions)) [
  | inl e ↦ unfold take_lost in rw (e, take_lost) (Keeps-refl r, h)
  | inr (state, e) ↦
      let (state', same_observations, same_tokens, next) = take_lost_state r s state e in
      rw next (
        put_state-Keeps r s state state' e (λ t. rw same_observations) (λ i. rw same_tokens),
        put_state-IsWell r s state state' e (λ t. rw same_observations) (λ i. rw same_tokens)
            (ap length same_observations) h,
      )
]

pub report_losses-Keeps : (r : LifecycleRegistry) (s : ℕ) → Keeps r (report_losses r s).0
unfolding report_losses
report_losses-Keeps r s = elim (Option-cases (lookup s r.sessions)) [
  | inl e ↦ rw (e, report_losses) (Keeps-refl r)
  | inr (state, e) ↦
      rw (e, report_losses)
        (put_state-Keeps r s state (record state { report_losses = true }) e (λ t. refl)
          (λ i. refl))
]
