-- ===== src/Bridge/Lifetime/Absent.antt =====
-- The lifetime functions of bridge/src/BridgeMod.cpp for a session that LifecycleRegistry does not know
-- or no longer knows.
use ue4sslua_event_bridge.Base.{
  Bytes, lookup, ℕ, ◌≡◌, refl, sym, ap, ◌∙◌, subst, inl, inr, not, Option, none, some, nat_eq,
  Option-cases, if_all,
}
use ue4sslua_event_bridge.Registry.State.{
  ObjectLifetimeIdentity, identity_eq, LifecycleRegistry, unknown_session,
}
use ue4sslua_event_bridge.Registry.{report_losses, capture, release, take_lost}
use ue4sslua_event_bridge.Bridge.Decode.{parse_token}
use ue4sslua_event_bridge.Bridge.LoopStart.{LuaSession, session_for_id}
use ue4sslua_event_bridge.Bridge.LoopStart.Numbered.{IsNumbered, found_number}
use ue4sslua_event_bridge.Bridge.Lifetime.{
  Memory, LifetimeState, Reply, lifetime_service_ready, captured, capture_identity, capture_for,
  capture_in_session, lifetime_capture, release_parsed, release_for, lifetime_release, report_for,
  lifetime_report_losses, take_for, lifetime_take_lost,
}

-- The registry of a session that it does not know: no call changes it.
registry_absent :
    (r : LifecycleRegistry) (id : ℕ)
    → lookup id r.sessions ≡ none
    → ((i : ObjectLifetimeIdentity)
        → capture r id i ≡ some (r, record { token = 0; failure = unknown_session }))
      × ((t : ℕ) → (release r id t).0 ≡ r)
      × ((report_losses r id).0 ≡ r)
      × ((take_lost r id).0 ≡ r)
unfolding capture release report_losses take_lost
registry_absent r id gone = (
  λ i. rw (gone, capture) refl,
  λ t. rw (gone, release) refl,
  rw (gone, report_losses) refl,
  rw (gone, take_lost) refl,
)

-- The registry and the table stay as they are.
abbrev pub KeepsLifetimes : LifetimeState → LifetimeState → Type 0
KeepsLifetimes b b' = (b'.lifetimes ≡ b.lifetimes) × (b'.sessions ≡ b.sessions)

module _ (memory : Memory) (b : LifetimeState) (s : LuaSession)
    (gone : lookup s.id b.lifetimes.sessions ≡ none) where
  capture_identity-Keeps :
      (identity : Option ObjectLifetimeIdentity)
      → KeepsLifetimes b (capture_identity memory b s identity).0
  unfolding capture_identity captured
  capture_identity-Keeps none = (refl, refl)
  capture_identity-Keeps (some i) =
      subst (λ c. KeepsLifetimes b (captured b c).0)
        (sym ((registry_absent b.lifetimes s.id gone).0 i)) (refl, refl)

  capture_for-Keeps : (address : ℕ) → KeepsLifetimes b (capture_for memory b s address).0
  unfolding capture_for
  capture_for-Keeps address = capture_identity-Keeps _

  release_parsed-Keeps : (token : Option ℕ) → KeepsLifetimes b (release_parsed b s token).0
  unfolding release_parsed
  release_parsed-Keeps none = (refl, refl)
  release_parsed-Keeps (some token) = ((registry_absent b.lifetimes s.id gone).1 token, refl)

  report_for-Keeps : KeepsLifetimes b (report_for b (some s)).0
  unfolding report_for
  report_for-Keeps = ((registry_absent b.lifetimes s.id gone).2, refl)

  take_for-Keeps : KeepsLifetimes b (take_for memory b (some s)).0
  unfolding take_for
  take_for-Keeps =
      if_all (λ (r : LifetimeState × Reply). KeepsLifetimes b r.0) (not b.lifetime_abi_ready) _ _
        (λ _. (refl, refl))
        (λ _.
          if_all (λ (r : LifetimeState × Reply). KeepsLifetimes b r.0) (not memory.in_game_thread) _
            _ (λ _. (refl, refl)) (λ _. ((registry_absent b.lifetimes s.id gone).3, refl)))

-- Once the registry has forgotten a session, its lifetime functions change nothing.
pub lifetime_forgotten :
    (memory : Memory) (b : LifetimeState) (id address : ℕ) (token : Bytes)
    → lookup id b.lifetimes.sessions ≡ none
    → IsNumbered b.sessions id
    → KeepsLifetimes b (lifetime_capture memory b id address).0
      × KeepsLifetimes b (lifetime_release b id token).0
      × KeepsLifetimes b (lifetime_report_losses b id).0
      × KeepsLifetimes b (lifetime_take_lost memory b id).0
unfolding lifetime_capture lifetime_release lifetime_report_losses lifetime_take_lost
    capture_in_session release_for report_for take_for
lifetime_forgotten memory b id address token gone numbered =
    elim (Option-cases (session_for_id b.sessions id)) [
      | inl none_there ↦ rw none_there ((refl, refl), (refl, refl), (refl, refl), (refl, refl))
      | inr (s, there) ↦
          let own : lookup s.id b.lifetimes.sessions ≡ none =
            ap (λ k. lookup k b.lifetimes.sessions) (found_number b.sessions id s numbered there)
            ∙ gone in
          rw there (
            if_all (λ (r : LifetimeState × Reply). KeepsLifetimes b r.0) (lifetime_service_ready b)
                _ _ (λ _. capture_for-Keeps memory b s own address) (λ _. (refl, refl)),
            release_parsed-Keeps memory b s own (parse_token token),
            report_for-Keeps memory b s own,
            take_for-Keeps memory b s own,
          )
    ]
