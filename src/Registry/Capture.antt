-- ===== src/Registry/Capture.antt =====
-- The outcomes of `capture` of bridge/include/LifecycleRegistry.hpp.
use mathlib.Core.Option.{none-ne-some}
use ue4sslua_event_bridge.Base.{
  length, lookup-insert, lookup-try_emplace, lookup, insert, ℕ, ◌+◌, ◌%◌, ◌^◌, ◌≤◌, ◌<◌, ◌≡◌, refl,
  ◌∙◌, inl, inr, true, false, ◌&&◌, Option, none, some, arith, leb, ◌==◌, if◌then◌else◌, nat_eq,
  Bool-cases, Option-cases,
}
use ue4sslua_event_bridge.Registry.State.{
  ObjectLifetimeIdentity, identity_eq, CaptureFailure, CaptureResult, Observation, SessionState,
  LifecycleRegistry, no_failure, unknown_session, capacity, faulted,
}
use ue4sslua_event_bridge.Registry.Views.{
  state_identity, observed_identity, token_of, session_overflow, references, session_size,
}
use ue4sslua_event_bridge.Registry.Changes.{
  Keeps, Begins, observed_identity-next_token, Begins-IsLinked,
}
use ue4sslua_event_bridge.Registry.{
  publish_count, put_state, observing, observe, recapture, capture_in, capture,
}
use ue4sslua_event_bridge.Registry.Effects.{put_state-Keeps, observe-Begins}
use ue4sslua_event_bridge.Registry.Invariant.{IsWell, length-insert_found, put_state-IsWell}

abbrev pub refused : CaptureFailure → CaptureResult
refused f = record { token = 0; failure = f }

abbrev pub granted : ℕ → CaptureResult
granted t = record { token = t; failure = no_failure }

abbrev pub Calls : Type 0
Calls = Option (LifecycleRegistry × CaptureResult)

-- Why a capture is refused: the session is not there, it lost notifications, or the object is new and
-- the session observes as many as it may.
abbrev pub Refuses : LifecycleRegistry → ℕ → ObjectLifetimeIdentity → CaptureFailure → Type 0
Refuses r s i no_failure = ⊥
Refuses r s i unknown_session = lookup s r.sessions ≡ none
Refuses r s i faulted = session_overflow r s ≡ true
Refuses r s i capacity =
    (session_overflow r s ≡ false)
    × (token_of r s i ≡ none)
    × (r.observation_limit ≤ session_size r s)

-- One token has one more reference, and every other as many as before.
abbrev pub CountsOne : LifecycleRegistry → ℕ → ℕ → LifecycleRegistry → Type 0
CountsOne r s t r' =
    (s' t' : ℕ)
    → references r' s' t'
      ≡ (if s == s' && t == t' then (references r s t + 1) % 2 ^ 64 else references r s' t')

-- What `capture` may do: refuse with its reason and change nothing, count one more reference to the
-- token that the object has, or begin an observation under the next token, with one reference.
pub data Captures (r : LifecycleRegistry) (s : ℕ) (i : ObjectLifetimeIdentity) (c : Calls)
    : Type 0 where
  refuses : (f : CaptureFailure) → Refuses r s i f → c ≡ some (r, refused f) → Captures r s i c
  counts :
      (r' : LifecycleRegistry) (t : ℕ)
      → session_overflow r s ≡ false
      → token_of r s i ≡ some t
      → Keeps r r'
      → CountsOne r s t r'
      → IsWell r'
      → c ≡ some (r', granted t)
      → Captures r s i c
  begins :
      (r' : LifecycleRegistry)
      → session_overflow r s ≡ false
      → session_size r s < r.observation_limit
      → Begins r s i r'
      → references r' s r.next_token ≡ 1
      → IsWell r'
      → c ≡ some (r', granted r.next_token)
      → Captures r s i c

observation_at :
    (r : LifecycleRegistry) (s t : ℕ) (i : ObjectLifetimeIdentity) (state : SessionState)
    → lookup s r.sessions ≡ some state
    → observed_identity r s t ≡ some i
    → (o : Observation) × (lookup t state.observations ≡ some o) × (o.identity ≡ i)
unfolding observed_identity
observation_at r s t i state found e = elim (Option-cases (lookup t state.observations)) [
  | inl e' ↦ absurd (none-ne-some i (rw (found, e') at e))
  | inr (o, e') ↦ (o, e', ground (arith, found, e, e'))
]

session_overflow-some :
    (r : LifecycleRegistry) (s : ℕ) (state : SessionState)
    → lookup s r.sessions ≡ some state
    → session_overflow r s ≡ state.overflow
unfolding session_overflow
session_overflow-some r s state found = rw found refl

unobserved :
    (r : LifecycleRegistry) (s t : ℕ) (state : SessionState)
    → lookup s r.sessions ≡ some state
    → observed_identity r s t ≡ none
    → lookup t state.observations ≡ none
unfolding observed_identity
unobserved r s t state found e = elim (Option-cases (lookup t state.observations)) [
  | inl e' ↦ e'
  | inr (o, e') ↦ absurd (ground (arith, found, e, e'))
]

module _ (r : LifecycleRegistry) (s : ℕ) (i : ObjectLifetimeIdentity) (state : SessionState)
    (h : IsWell r) (found : lookup s r.sessions ≡ some state)
    (intact : state.overflow ≡ false) where
  sound_session : session_overflow r s ≡ false
  sound_session = session_overflow-some r s state found ∙ intact

  observe-references :
      lookup r.next_token state.observations ≡ none
      → references (observe r s state i) s r.next_token ≡ 1
  unfolding references observe put_state publish_count observing
  observe-references absent = ground (
    arith,
    absent,
    lookup-insert s s (observing state r.next_token i) r.sessions,
    lookup-try_emplace r.next_token r.next_token (record { identity = i; references = 1 })
        state.observations,
  )

  observe-Captures :
      lookup i state.tokens ≡ none
      → length state.observations < r.observation_limit
      → r.next_token + 1 < 2 ^ 64
      → Captures r s i (some (observe r s state i, granted r.next_token))
  unfolding session_size
  observe-Captures absent few room =
      let b =
        observe-Begins r s state i found absent (observed_identity-next_token s h.linked) room in
      begins (observe r s state i) sound_session (ground (arith, found, few)) b
        (observe-references
          (unobserved r s r.next_token state found (observed_identity-next_token s h.linked)))
        (record {
          linked = Begins-IsLinked b h.linked;
          counted = unfold observe publish_count in refl;
        })
        refl

  recounted :
      (t : ℕ) (o o' : Observation)
      → lookup t state.observations ≡ some o
      → o'.references ≡ (o.references + 1) % 2 ^ 64
      → CountsOne r s t
          (put_state r s (record state { observations = insert t o' state.observations }))
  unfolding references put_state
  recounted t o o' held more s' t' = ground (
    arith,
    found,
    held,
    more,
    lookup-insert s s' (record state { observations = insert t o' state.observations }) r.sessions,
    lookup-insert t t' o' state.observations,
  )

  recapture-Captures :
      (t : ℕ) → lookup i state.tokens ≡ some t → Captures r s i (recapture r s state t)
  unfolding token_of
  recapture-Captures t e =
      let known : token_of r s i ≡ some t = ground (arith, found, e) in
      let (o, e', same_identity) =
        observation_at r s t i state found (h.linked.token_observed s t i known) in
      let o' : Observation = record o { references = (o.references + 1) % 2 ^ 64 } in
      let state' : SessionState = record state { observations = insert t o' state.observations } in
      let same_identities : (t' : ℕ)
          → state_identity t' (some state') ≡ state_identity t' (some state) =
        λ t'. ground (arith, e', lookup-insert t t' o' state.observations) in
      let same_length : length state'.observations ≡ length state.observations =
        length-insert_found t o o' state.observations e' in
      counts (put_state r s state') t sound_session known
        (put_state-Keeps r s state state' found same_identities (λ j. refl))
        (recounted t o o' e' refl)
        (put_state-IsWell r s state state' found same_identities (λ j. refl) same_length h)
        (unfold recapture in rw (e', recapture))

  capture_in-Captures :
      (token : Option ℕ)
      → lookup i state.tokens ≡ token
      → r.next_token + 1 < 2 ^ 64
      → Captures r s i (capture_in r s state i token)
  unfolding capture_in session_size token_of
  capture_in-Captures (some t) e room = recapture-Captures t e
  capture_in-Captures none e room =
      elim (Bool-cases (leb r.observation_limit (length state.observations))) [
        | inl full ↦ rw full (
            refuses capacity (sound_session, ground (arith, found, e), ground (arith, found, full))
              refl)
        | inr open' ↦ rw open' (observe-Captures e (ground (arith, open')) room)
      ]

-- On a well-formed registry whose counter leaves a token, `capture` never throws, and it does one of
-- three. It refuses and changes nothing, only when the session is not there, has lost notifications, or
-- observes as many as it may and not this object. Or it gives the token that the object has one more
-- reference, and every other as many as before. Or it begins an observation under the next token, with
-- one reference, below the limit.
pub capture-Captures :
    (r : LifecycleRegistry) (s : ℕ) (i : ObjectLifetimeIdentity)
    → IsWell r
    → r.next_token + 1 < 2 ^ 64
    → Captures r s i (capture r s i)
unfolding capture
capture-Captures r s i h room = elim (Option-cases (lookup s r.sessions)) [
  | inl e ↦ rw (e, capture) (refuses unknown_session e refl)
  | inr (state, e) ↦ elim (Bool-cases state.overflow) [
    | inl o ↦
        rw (e, capture) (simp o (refuses faulted (session_overflow-some r s state e ∙ o) refl))
    | inr o ↦ rw (e, capture) (simp o (capture_in-Captures r s i state h e o _ refl room))
  ]
]
