-- ===== src/Registry/History.antt =====
-- Histories of LifecycleRegistry: any sequence of calls, from any threads, in the order in which they
-- take the mutex.
use mathlib.Core.Option.{none-ne-some}
use ue4sslua_event_bridge.Base.{
  lookup, ℕ, ◌+◌, ◌^◌, ◌≤◌, ◌<◌, ◌≡◌, refl, sym, ◌∙◌, inl, inr, false, none, some, arith, nat_eq,
  Bool-cases,
}
use ue4sslua_event_bridge.Registry.State.{
  ObjectLifetimeIdentity, identity_eq, CaptureResult, LifecycleRegistry, new_registry,
}
use ue4sslua_event_bridge.Registry.Views.{observed_identity}
use ue4sslua_event_bridge.Registry.Changes.{Keeps, Ends, Begins, Clears}
use ue4sslua_event_bridge.Registry.{
  publish_count, start_session, stop_session, report_losses, capture, valid, release, invalidate,
  take_lost, shutdown,
}
use ue4sslua_event_bridge.Registry.Effects.{start_session-Keeps}
use ue4sslua_event_bridge.Registry.Stopping.{stop_session-Clears}
use ue4sslua_event_bridge.Registry.Invariant.{
  IsWell, new_registry-IsWell, start_session-IsWell, stop_session-IsWell, report_losses-IsWell,
  shutdown-IsWell, invalidate-IsWell,
}
use ue4sslua_event_bridge.Registry.Invalidate.{
  observed_identity-invalidate, valid_lem, counter-invalidate,
}
use ue4sslua_event_bridge.Registry.Capture.{Captures, capture-Captures, refuses, counts, begins}
use ue4sslua_event_bridge.Registry.Release.{
  Releases, release-Releases, Keeps-refl, take_lost-Keeps-IsWell, report_losses-Keeps, unknown,
  keeps, ends,
}

-- One call. A capture is made while the 64-bit token counter has not run out.
pub data Step (r : LifecycleRegistry) : LifecycleRegistry → Type 0 where
  starts : (s : ℕ) → Step r (start_session r s)
  stops : (s : ℕ) → Step r (stop_session r s)
  reports : (s : ℕ) → Step r (report_losses r s).0
  captures :
      (s : ℕ) (i : ObjectLifetimeIdentity) (r' : LifecycleRegistry) (c : CaptureResult)
      → r.next_token + 1 < 2 ^ 64
      → capture r s i ≡ some (r', c)
      → Step r r'
  releases : (s t : ℕ) → Step r (release r s t).0
  invalidates : (address index : ℕ) → Step r (invalidate r address index)
  takes : (s : ℕ) → Step r (take_lost r s).0
  shuts : Step r (shutdown r)

pub data Reach (r : LifecycleRegistry) : LifecycleRegistry → Type 0 where
  here : Reach r r
  next : {r' r'' : LifecycleRegistry} → Reach r r' → Step r' r'' → Reach r r''

-- A well-formed registry in which every token that was issued and is not observed stays so.
record Follows (r r' : LifecycleRegistry) : Type 0 where
  well : IsWell r'
  counter_le : r.next_token ≤ r'.next_token
  stays :
      (s t : ℕ)
      → t < r.next_token
      → observed_identity r s t ≡ none
      → observed_identity r' s t ≡ none

Keeps-Follows : {r r' : LifecycleRegistry} → Keeps r r' → IsWell r' → Follows r r'
Keeps-Follows e h = record {
  well = h;
  counter_le = omega (arith, e.counter);
  stays = λ s t _ p. e.identities s t ∙ p;
}

Ends-Follows :
    {r r' : LifecycleRegistry} {s t : ℕ} {i : ObjectLifetimeIdentity}
    → Ends r s t i r'
    → IsWell r'
    → Follows r r'
Ends-Follows e h = record {
  well = h;
  counter_le = omega (arith, e.counter);
  stays = λ s' t' _ p. ground (arith, e.identities s' t');
}

Clears-Follows : {r r' : LifecycleRegistry} {s : ℕ} → Clears r s r' → IsWell r' → Follows r r'
Clears-Follows e h = record {
  well = h;
  counter_le = omega (arith, e.counter);
  stays = λ s' t' _ p. ground (arith, e.identities s' t');
}

Begins-Follows :
    {r r' : LifecycleRegistry} {s : ℕ} {i : ObjectLifetimeIdentity}
    → Begins r s i r'
    → IsWell r'
    → Follows r r'
Begins-Follows e h = record {
  well = h;
  counter_le = omega (arith, e.counter);
  stays = λ s' t' lt p. ground (arith, e.identities s' t');
}

Captures-Follows :
    (r : LifecycleRegistry) (s : ℕ) (i : ObjectLifetimeIdentity) (r' : LifecycleRegistry)
    (c : CaptureResult)
    → IsWell r
    → Captures r s i (capture r s i)
    → capture r s i ≡ some (r', c)
    → Follows r r'
Captures-Follows r s i r' c h (refuses f _ e) p =
    let same_registry : r' ≡ r = ground (arith, e, p) in
    rw same_registry (Keeps-Follows (Keeps-refl r) h)
Captures-Follows r s i r' c h (counts q t _ _ k _ w e) p =
    let same_registry : r' ≡ q = ground (arith, e, p) in rw same_registry (Keeps-Follows k w)
Captures-Follows r s i r' c h (begins q _ _ b _ w e) p =
    let same_registry : r' ≡ q = ground (arith, e, p) in rw same_registry (Begins-Follows b w)

Releases-Follows :
    (r : LifecycleRegistry) (s t : ℕ)
    → IsWell r
    → Releases r s t (release r s t)
    → Follows r (release r s t).0
Releases-Follows r s t h (unknown _ e) = rw e (Keeps-Follows (Keeps-refl r) h)
Releases-Follows r s t h (keeps q k w e) = rw e (Keeps-Follows k w)
Releases-Follows r s t h (ends q i k w e) = rw e (Ends-Follows k w)

invalidate-Follows : (r : LifecycleRegistry) (a i : ℕ) → IsWell r → Follows r (invalidate r a i)
invalidate-Follows r a i h = record {
  well = invalidate-IsWell r a i h;
  counter_le = omega (arith, counter-invalidate r a i);
  stays = λ s t _ p. observed_identity-invalidate r a i s t h ∙ rw p refl;
}

shutdown-Follows : (r : LifecycleRegistry) → IsWell r → Follows r (shutdown r)
unfolding shutdown publish_count observed_identity lookup
shutdown-Follows r h = record {
  well = unfold shutdown publish_count in shutdown-IsWell r h;
  counter_le = omega arith;
  stays = λ s t _ _. refl;
}

Step-Follows : {r r' : LifecycleRegistry} → Step r r' → IsWell r → Follows r r'
Step-Follows {r} (starts s) h = Keeps-Follows (start_session-Keeps r s) (start_session-IsWell r s h)
Step-Follows {r} (stops s) h =
    Clears-Follows (stop_session-Clears r s h.linked) (stop_session-IsWell r s h)
Step-Follows {r} (reports s) h =
    Keeps-Follows (report_losses-Keeps r s) (report_losses-IsWell r s h)
Step-Follows {r} (captures s i r' c room e) h =
    Captures-Follows r s i r' c h (capture-Captures r s i h room) e
Step-Follows {r} (releases s t) h = Releases-Follows r s t h (release-Releases r s t h)
Step-Follows {r} (invalidates a i) h = invalidate-Follows r a i h
Step-Follows {r} (takes s) h = let (k, w) = take_lost-Keeps-IsWell r s h in Keeps-Follows k w
Step-Follows {r} shuts h = shutdown-Follows r h

Reach-Follows : {r r' : LifecycleRegistry} → Reach r r' → IsWell r → Follows r r'
Reach-Follows {r} here h = Keeps-Follows (Keeps-refl r) h
Reach-Follows (next path step) h =
    let f = Reach-Follows path h in
    let g = Step-Follows step f.well in
    record {
      well = g.well;
      counter_le = omega (arith, f.counter_le, g.counter_le);
      stays = λ s t lt p. g.stays s t (omega (arith, f.counter_le)) (f.stays s t lt p);
    }

-- After any calls on a new registry, the captures made while the 64-bit counter leaves a token, its
-- observations, tokens, watch lists and counter agree.
pub Reach-IsWell : {r : LifecycleRegistry} (m n : ℕ) → Reach (new_registry m n) r → IsWell r
Reach-IsWell m n path = (Reach-Follows path (new_registry-IsWell m n)).well

-- A token that was issued and no longer stands for an observation is not valid again, whatever is
-- called afterwards: tokens are not reused.
pub spent_forever :
    {r r' : LifecycleRegistry} (s t : ℕ) (j : ObjectLifetimeIdentity)
    → IsWell r
    → t < r.next_token
    → observed_identity r s t ≡ none
    → Reach r r'
    → valid r' s t j ≡ false
spent_forever {r} {r'} s t j h issued spent path =
    let gone = (Reach-Follows path h).stays s t issued spent in
    elim (Bool-cases (valid r' s t j)) [
      | inl v ↦ absurd (none-ne-some j (sym gone ∙ (valid_lem r' s t j v).1))
      | inr v ↦ v
    ]
