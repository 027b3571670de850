-- ===== src/Backend/Unsubscribe/Removed.antt =====
-- What unsubscribing removes, of bridge/src/EnhancedInputBackend.cpp.
use ue4sslua_event_bridge.Base.{
  keep_if, Bytes, text, ℕ, ◌≡◌, refl, sym, ap, ◌∙◌, subst, ◌≢◌, ◌⊎◌, inl, inr, Bool, true, false,
  not, none, some, List, [], ◌∷◌, arith, ◌==◌, if◌then◌else◌, Bool-cases, Option-cases,
}
use ue4sslua_event_bridge.Backend.Engine.{Engine, get, validate_component}
use ue4sslua_event_bridge.Backend.State.{
  EnhancedInputSubscription, LiveBinding, EnhancedInputBackend, without, set_inactive,
}
use ue4sslua_event_bridge.Backend.Trace.{write_debug_trace, write_debug_trace-KeepsInput}
use ue4sslua_event_bridge.Backend.Native.{delete_native, remove_entry, detach}
use ue4sslua_event_bridge.Backend.Unsubscribe.{
  detach_loop, remove_bindings, trace_primary, remove_subscription, find_subscription,
  unsubscribe_found, unsubscribe_locked,
}

-- What detaching changes: nothing in the tables of subscriptions, targets and bindings.
pub record KeepsTables (b b' : EnhancedInputBackend) : Type 0 where
  pub subscription_store : b'.subscription_store ≡ b.subscription_store
  pub subscriptions : b'.subscriptions ≡ b.subscriptions
  pub targets : b'.targets ≡ b.targets
  pub bindings : b'.bindings ≡ b.bindings

KeepsTables-refl : (b : EnhancedInputBackend) → KeepsTables b b
KeepsTables-refl b = record {
  subscription_store = refl;
  subscriptions = refl;
  targets = refl;
  bindings = refl;
}

KeepsTables-trans :
    (a b c : EnhancedInputBackend) → KeepsTables a b → KeepsTables b c → KeepsTables a c
KeepsTables-trans a b c h k = record {
  subscription_store = k.subscription_store ∙ h.subscription_store;
  subscriptions = k.subscriptions ∙ h.subscriptions;
  targets = k.targets ∙ h.targets;
  bindings = k.bindings ∙ h.bindings;
}

delete_native-KeepsTables :
    (b : EnhancedInputBackend) (memory : ℕ) → KeepsTables b (delete_native b memory)
unfolding delete_native
delete_native-KeepsTables b memory = record {
  subscription_store = refl;
  subscriptions = refl;
  targets = refl;
  bindings = refl;
}

detach-KeepsTables :
    (e : Engine) (b : EnhancedInputBackend) (live : LiveBinding) → KeepsTables b (detach e b live).1
unfolding detach
detach-KeepsTables e b live = elim (Bool-cases (validate_component e (get e live.component))) [
  | inr invalid ↦ rw invalid (KeepsTables-refl b)
  | inl valid ↦
      let array = e.binding_array (get e live.component) in
      elim (Option-cases (remove_entry array.size live.binding array.entries)) [
        | inl gone ↦ rw (valid, gone) (KeepsTables-refl b)
        | inr (rest, found) ↦ rw (valid, found) (delete_native-KeepsTables b live.binding)
      ]
]

-- The kept bindings: none of the subscription, and every one was there.
abbrev Kept : ℕ → List LiveBinding → List LiveBinding → Type 0
Kept id all kept = (kept ≡ keep_if (λ live. not (live.subscription == id)) all)

detach_if : Engine → EnhancedInputBackend → Bool → LiveBinding → Engine × EnhancedInputBackend
detach_if e b found live = if found then detach e b live else (e, b)

detach_if-KeepsTables :
    (e : Engine) (b : EnhancedInputBackend) (found : Bool) (live : LiveBinding)
    → KeepsTables b (detach_if e b found live).1
unfolding detach_if
detach_if-KeepsTables e b true live = detach-KeepsTables e b live
detach_if-KeepsTables e b false live = KeepsTables-refl b

if_not {ℓ} : {A : Type ℓ} (c : Bool) (x y : A) → (if c then x else y) ≡ (if not c then y else x)
if_not true x y = refl
if_not false x y = refl

detach_loop-Kept :
    (e : Engine) (b : EnhancedInputBackend) (id : ℕ) (all : List LiveBinding)
    → KeepsTables b (detach_loop e b id all).1 × Kept id all (detach_loop e b id all).2
unfolding detach_loop detach_if
detach_loop-Kept e b id [] = (KeepsTables-refl b, refl)
detach_loop-Kept e b id (live ∷ rest) =
    let (e1, b1) = detach_if e b (live.subscription == id) live in
    let (tables, kept) = detach_loop-Kept e1 b1 id rest in
    (
      KeepsTables-trans b b1 _ (detach_if-KeepsTables e b (live.subscription == id) live) tables,
      ap (λ k. if live.subscription == id then k else live ∷ k) kept
          ∙ if_not (live.subscription == id) _ _,
    )

-- Each of the bindings detached, in their order.
pub detached : Engine → EnhancedInputBackend → List LiveBinding → Engine × EnhancedInputBackend
detached e b [] = (e, b)
detached e b (live ∷ rest) = let (e', b') = detach e b live in detached e' b' rest

-- The live bindings of a subscription.
abbrev pub bindings_of : ℕ → List LiveBinding → List LiveBinding
bindings_of id all = keep_if (λ live. live.subscription == id) all

abbrev engine_of : Engine × EnhancedInputBackend × List LiveBinding → Engine × EnhancedInputBackend
engine_of (e, b, kept) = (e, b)

detached_one :
    (e : Engine) (b : EnhancedInputBackend) (id : ℕ) (live : LiveBinding) (rest : List LiveBinding)
    (found : Bool)
    → ((e1 : Engine) (b1 : EnhancedInputBackend)
        → engine_of (detach_loop e1 b1 id rest) ≡ detached e1 b1 (bindings_of id rest))
    → engine_of (detach_loop (detach_if e b found live).0 (detach_if e b found live).1 id rest)
      ≡ detached e b (if found then live ∷ bindings_of id rest else bindings_of id rest)
unfolding detached detach_if
detached_one e b id live rest true go = go (detach e b live).0 (detach e b live).1
detached_one e b id live rest false go = go e b

detach_loop-detached :
    (e : Engine) (b : EnhancedInputBackend) (id : ℕ) (all : List LiveBinding)
    → engine_of (detach_loop e b id all) ≡ detached e b (bindings_of id all)
unfolding detach_loop detached detach_if
detach_loop-detached e b id [] = refl
detach_loop-detached e b id (live ∷ rest) =
    detached_one e b id live rest (live.subscription == id)
      (λ e1 b1. detach_loop-detached e1 b1 id rest)

trace_primary-KeepsTables :
    (e : Engine) (b : EnhancedInputBackend) (s : EnhancedInputSubscription) (stage : Bytes)
    → KeepsTables b (trace_primary e b s stage)
unfolding trace_primary
trace_primary-KeepsTables e b s stage = elim (Bool-cases s.debug.primary) [
  | inl primary ↦
      let keeps = write_debug_trace-KeepsInput e b s.session s.debug stage s.phase_name 0 [] in
      let all : KeepsTables b (write_debug_trace e b s.session s.debug stage s.phase_name 0 []) =
        record {
          subscription_store = keeps.subscription_store;
          subscriptions = keeps.subscriptions;
          targets = keeps.targets;
          bindings = keeps.bindings;
        } in
      subst
        (λ p.
          KeepsTables b
            (if p then write_debug_trace e b s.session s.debug stage s.phase_name 0 [] else b))
        (sym primary) all
  | inr other ↦
      subst
        (λ p.
          KeepsTables b
            (if p then write_debug_trace e b s.session s.debug stage s.phase_name 0 [] else b))
        (sym other) (KeepsTables-refl b)
]

-- What removing one subscription does to the tables.
pub record Unsubscribes (b b' : EnhancedInputBackend) (id : ℕ) : Type 0 where
  pub subscriptions : b'.subscriptions ≡ without id b.subscriptions
  pub targets : b'.targets ≡ b.targets
  pub bindings :
      b'.bindings.items ≡ keep_if (λ live. not (live.subscription == id)) b.bindings.items
  pub store : b'.subscription_store ≡ (set_inactive b id).subscription_store

set_inactive-tables :
    (b : EnhancedInputBackend) (id : ℕ)
    → ((set_inactive b id).subscriptions ≡ b.subscriptions)
      × ((set_inactive b id).targets ≡ b.targets)
      × ((set_inactive b id).bindings ≡ b.bindings)
unfolding set_inactive
set_inactive-tables b id = (refl, refl, refl)

remove_subscription-Unsubscribes :
    (e : Engine) (b : EnhancedInputBackend) (s : EnhancedInputSubscription) (id : ℕ)
    → Unsubscribes b (remove_subscription e b s id).1 id
unfolding remove_subscription remove_bindings
remove_subscription-Unsubscribes e b s id =
    let (loop, kept) = detach_loop-Kept e (set_inactive b id) id b.bindings.items in
    let (subs, targets, bindings) = set_inactive-tables b id in
    let (e', b') = remove_bindings (detach_loop e (set_inactive b id) id b.bindings.items) id in
    let traced = trace_primary-KeepsTables e' b' s (text "binding_removed") in
    record {
      subscriptions = traced.subscriptions ∙ ap (without id) (loop.subscriptions ∙ subs);
      targets = traced.targets ∙ loop.targets ∙ targets;
      bindings = ap (λ x. x.items) traced.bindings ∙ kept;
      store = traced.subscription_store ∙ loop.subscription_store;
    }

remove_subscription-detached :
    (e : Engine) (b : EnhancedInputBackend) (s : EnhancedInputSubscription) (id : ℕ)
    → (remove_subscription e b s id).0
      ≡ (detached e (set_inactive b id) (bindings_of id b.bindings.items)).0
unfolding remove_subscription remove_bindings
remove_subscription-detached e b s id =
    ap (λ r. r.0) (detach_loop-detached e (set_inactive b id) id b.bindings.items)

found_own :
    (e : Engine) (b : EnhancedInputBackend) (session id : ℕ) (s : EnhancedInputSubscription)
    → (s.session == session) ≡ true
    → unsubscribe_found e b session id (some s)
      ≡ ((remove_subscription e b s id).0, (remove_subscription e b s id).1, true)
unfolding unsubscribe_found
found_own e b session id s mine =
    ap
      (λ c.
        if c
        then ((remove_subscription e b s id).0, (remove_subscription e b s id).1, true)
        else (e, b, false))
      mine

found_other :
    (e : Engine) (b : EnhancedInputBackend) (session id : ℕ) (s : EnhancedInputSubscription)
    → (s.session == session) ≡ false
    → unsubscribe_found e b session id (some s) ≡ (e, b, false)
unfolding unsubscribe_found
found_other e b session id s other =
    ap
      (λ c.
        if c
        then ((remove_subscription e b s id).0, (remove_subscription e b s id).1, true)
        else (e, b, false))
      other

-- The result of `unsubscribe_locked`: a subscription that is there and belongs to the session is
-- removed from the tables with its live bindings, and these are detached from Unreal's arrays, each
-- once and in their order, and nothing else is; in every other case nothing changes, in the tables or
-- in Unreal.
pub unsubscribe_locked_cases :
    (e : Engine) (b : EnhancedInputBackend) (session id : ℕ)
    → let (e', b', found) = unsubscribe_locked e b session id in
      ((s : EnhancedInputSubscription) × (find_subscription b id ≡ some s)
        × (s.session ≡ session)
        × (found ≡ true)
        × (e' ≡ (detached e (set_inactive b id) (bindings_of id b.bindings.items)).0)
        × Unsubscribes b b' id)
      ⊎ ((find_subscription b id ≡ none
            ⊎ ((s : EnhancedInputSubscription) × (find_subscription b id ≡ some s)
                × (s.session ≢ session)))
          × (found ≡ false)
          × (e' ≡ e)
          × (b' ≡ b))
unfolding unsubscribe_locked
unsubscribe_locked_cases e b session id = elim (Option-cases (find_subscription b id)) [
  | inl absent ↦ inr (
    inl absent,
    ap (λ o. (unsubscribe_found e b session id o).2) absent,
    ap (λ o. (unsubscribe_found e b session id o).0) absent,
    ap (λ o. (unsubscribe_found e b session id o).1) absent,
  )
  | inr (s, found) ↦
      let same = ap (unsubscribe_found e b session id) found in
      elim (Bool-cases (s.session == session)) [
        | inl mine ↦
            let all = same ∙ found_own e b session id s mine in
            inl (
              s,
              found,
              ground (arith, mine),
              ap (λ r. r.2) all,
              ap (λ r. r.0) all ∙ remove_subscription-detached e b s id,
              subst (λ r. Unsubscribes b r.1 id) (sym all)
                  (remove_subscription-Unsubscribes e b s id),
            )
        | inr other ↦
            let all = same ∙ found_other e b session id s other in
            inr (
              inr (s, found, λ q. ground (arith, other, q)),
              ap (λ r. r.2) all,
              ap (λ r. r.0) all,
              ap (λ r. r.1) all,
            )
      ]
]
