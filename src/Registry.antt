-- ===== src/Registry.antt =====
-- LifecycleRegistry of bridge/include/LifecycleRegistry.hpp: which UObjects each Lua session
-- observes, and which of them were lost. Every method runs under one mutex, so a call is one step.
-- `invalidate` reads the atomic counter before it locks; the counter is written under the mutex
-- only, and the read is modelled as part of the step. An int32_t that is only compared is its
-- 32-bit pattern. `uint64_t` counters keep their wrap-around; the number of entries of a map is a
-- natural number, for it is bounded by memory.
pub mod Watches
pub mod State
pub mod Views
pub mod Changes
mod Effects
pub mod Stopping
pub mod Losing
pub mod Invariant
pub mod Capture
pub mod Release
pub mod Invalidate
pub mod Losses
pub mod History
mod Examples
use ue4sslua_event_bridge.Base.{
  ℕ, zero, suc, ◌+◌, ◌-◌, ◌%◌, ◌^◌, ◌<◌, ◌≡◌, ◌↔◌, Bool, true, false, not, ◌&&◌, ◌||◌, Option, none,
  some, List, [], ◌∷◌, ◌++◌, arith, ltb, leb, ◌==◌, if◌then◌else◌, Eq, nat_eq, length, Map, lookup,
  insert, erase, try_emplace, is_some,
}
use Watches.{Watch, watches_of, push_watch, erase_watch}
use State.{
  ObjectLifetimeIdentity, identity_beq, identity_eq, CaptureFailure, no_failure, unknown_session,
  capacity, faulted, CaptureResult, LostResult, Observation, SessionState, new_state,
  LifecycleRegistry,
}

pub count_observations : Map ℕ SessionState → ℕ
count_observations [] = 0
count_observations ((_, state) ∷ rest) = length state.observations + count_observations rest

pub publish_count : LifecycleRegistry → LifecycleRegistry
publish_count r = record r { observed = count_observations r.sessions }

pub unwatch : LifecycleRegistry → ℕ → ℕ → ObjectLifetimeIdentity → LifecycleRegistry
unwatch r session token identity = record r {
  by_index = erase_watch identity.index session token r.by_index;
  by_address = erase_watch identity.address session token r.by_address;
}

pub put_state : LifecycleRegistry → ℕ → SessionState → LifecycleRegistry
put_state r session state = record r { sessions = insert session state r.sessions }

unfoldable pub start_session : LifecycleRegistry → ℕ → LifecycleRegistry
start_session r session = record r { sessions = try_emplace session new_state r.sessions }

-- the loop of `stop_session` over the observations
pub unwatch_all : LifecycleRegistry → ℕ → Map ℕ Observation → LifecycleRegistry
unwatch_all r session [] = r
unwatch_all r session ((token, record') ∷ rest) =
    unwatch_all (unwatch r session token record'.identity) session rest

pub stop_found : LifecycleRegistry → ℕ → SessionState → LifecycleRegistry
unfolding unwatch_all unwatch publish_count
stop_found r session state =
    let cleared = unwatch_all r session state.observations in
    publish_count (record cleared { sessions = erase session cleared.sessions })

unfoldable pub stop_session : LifecycleRegistry → ℕ → LifecycleRegistry
unfolding stop_found
stop_session r session = elim (lookup session r.sessions) [
  | none ↦ r
  | some state ↦ stop_found r session state
]

unfoldable pub report_losses : LifecycleRegistry → ℕ → LifecycleRegistry × Bool
unfolding put_state
report_losses r session = elim (lookup session r.sessions) [
  | none ↦ (r, false)
  | some state ↦ (put_state r session (record state { report_losses = true }), true)
]

-- `observations.emplace` and `tokens.emplace`
pub observing : SessionState → ℕ → ObjectLifetimeIdentity → SessionState
observing state token identity = record state {
  observations =
      try_emplace token (record { identity = identity; references = 1 }) state.observations;
  tokens = try_emplace identity token state.tokens;
}

-- A new observation, once the limit is checked.
pub observe : LifecycleRegistry → ℕ → SessionState → ObjectLifetimeIdentity → LifecycleRegistry
unfolding put_state publish_count observing
observe r session state identity =
    let token = r.next_token in
    publish_count (record (put_state r session (observing state token identity)) {
      next_token = (token + 1) % 2 ^ 64;
      by_index = push_watch identity.index session token r.by_index;
      by_address = push_watch identity.address session token r.by_address;
    })

-- `++state.observations.at(existing).references`; `none` is the std::out_of_range of `at`.
pub recapture :
    LifecycleRegistry → ℕ → SessionState → ℕ → Option (LifecycleRegistry × CaptureResult)
unfolding put_state
recapture r session state existing = elim (lookup existing state.observations) [
  | none ↦ none
  | some o ↦ some (
    put_state r session (record state {
      observations =
          insert existing (record o { references = (o.references + 1) % 2 ^ 64 })
            state.observations;
    }),
    record { token = existing; failure = no_failure },
  )
]

pub capture_in :
    LifecycleRegistry
    → ℕ
    → SessionState
    → ObjectLifetimeIdentity
    → Option ℕ
    → Option (LifecycleRegistry × CaptureResult)
unfolding recapture observe
capture_in r session state identity (some existing) = recapture r session state existing
capture_in r session state identity none =
    if leb r.observation_limit (length state.observations)
    then some (r, record { token = 0; failure = capacity })
    else some
        (observe r session state identity, record { token = r.next_token; failure = no_failure })

unfoldable pub capture :
    LifecycleRegistry → ℕ → ObjectLifetimeIdentity → Option (LifecycleRegistry × CaptureResult)
unfolding capture_in
capture r session identity = elim (lookup session r.sessions) [
  | none ↦ some (r, record { token = 0; failure = unknown_session })
  | some state ↦
      if state.overflow
      then some (r, record { token = 0; failure = faulted })
      else capture_in r session state identity (lookup identity state.tokens)
]

unfoldable pub valid : LifecycleRegistry → ℕ → ℕ → ObjectLifetimeIdentity → Bool
valid r session token identity = elim (lookup session r.sessions) [
  | none ↦ false
  | some state ↦ if state.overflow then false else elim (lookup token state.observations) [
    | none ↦ false
    | some o ↦ identity_beq o.identity identity
  ]
]

-- `unwatch`, `tokens.erase`, `observations.erase`, as `release` and `invalidate` end an observation
pub end_observation :
    LifecycleRegistry → ℕ → ℕ → SessionState → ObjectLifetimeIdentity → LifecycleRegistry
unfolding unwatch put_state
end_observation r session token state identity =
    put_state (unwatch r session token identity) session (record state {
      tokens = erase identity state.tokens;
      observations = erase token state.observations;
    })

pub release_in : LifecycleRegistry → ℕ → ℕ → SessionState → Observation → LifecycleRegistry
unfolding end_observation publish_count put_state
release_in r session token state o =
    let left = (o.references + 2 ^ 64 - 1) % 2 ^ 64 in
    if ltb 0 left
    then put_state r session (record state {
      observations = insert token (record o { references = left }) state.observations;
    })
    else publish_count (end_observation r session token state o.identity)

unfoldable pub release : LifecycleRegistry → ℕ → ℕ → LifecycleRegistry × Bool
unfolding release_in
release r session token = elim (lookup session r.sessions) [
  | none ↦ (r, false)
  | some state ↦ elim (lookup token state.observations) [
    | none ↦ (r, false)
    | some o ↦ (release_in r session token state o, true)
  ]
]

pub note_loss : ℕ → ℕ → SessionState → SessionState
note_loss loss_limit token state =
    if state.report_losses && not state.overflow
    then (if ltb (length state.lost) loss_limit
        then record state { lost = state.lost ++ (token ∷ []) }
        else record state { lost = []; overflow = true })
    else state

-- the body of the loop of `invalidate`
pub lose_in : LifecycleRegistry → ℕ → ℕ → SessionState → Observation → LifecycleRegistry
unfolding unwatch put_state note_loss
lose_in r session token state o = put_state (unwatch r session token o.identity) session (
    note_loss r.loss_limit token (record state {
      tokens = erase o.identity state.tokens;
      observations = erase token state.observations;
    }))

pub lose : LifecycleRegistry → Watch → LifecycleRegistry
unfolding lose_in
lose r w = elim (lookup w.session r.sessions) [
  | none ↦ r
  | some state ↦ elim (lookup w.token state.observations) [
    | none ↦ r
    | some o ↦ lose_in r w.session w.token state o
  ]
]

pub lose_all : LifecycleRegistry → List Watch → LifecycleRegistry
lose_all r [] = r
lose_all r (w ∷ ws) = lose_all (lose r w) ws

abbrev pub matched : LifecycleRegistry → ℕ → ℕ → List Watch
matched r address index = watches_of index r.by_index ++ watches_of address r.by_address

unfoldable pub invalidate : LifecycleRegistry → ℕ → ℕ → LifecycleRegistry
unfolding lose_all lose publish_count
invalidate r address index =
    if r.observed == 0 then r else publish_count (lose_all r (matched r address index))

pub take_lost_in : LifecycleRegistry → ℕ → SessionState → List ℕ → LifecycleRegistry × LostResult
unfolding put_state
take_lost_in r session state [] =
    (put_state r session state, record { token = none; overflow = false; unknown_session = false })
take_lost_in r session state (token ∷ rest) = (
  put_state r session (record state { lost = rest }),
  record { token = some token; overflow = false; unknown_session = false },
)

unfoldable pub take_lost : LifecycleRegistry → ℕ → LifecycleRegistry × LostResult
unfolding take_lost_in put_state
take_lost r session = elim (lookup session r.sessions) [
  | none ↦ (r, record { token = none; overflow = false; unknown_session = true })
  | some state ↦
      let state' : SessionState = record state { report_losses = true } in
      if state.overflow
      then (
        put_state r session state',
        record { token = none; overflow = true; unknown_session = false },
      )
      else take_lost_in r session state' state.lost
]

unfoldable pub shutdown : LifecycleRegistry → LifecycleRegistry
unfolding publish_count
shutdown r = publish_count (record r { sessions = []; by_index = []; by_address = [] })
