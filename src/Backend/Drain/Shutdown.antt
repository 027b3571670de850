-- ===== src/Backend/Drain/Shutdown.antt =====
-- What shutdown of bridge/src/EnhancedInputBackend.cpp leaves.
use ue4sslua_event_bridge.Base.{
  is_nil, lookup, ℕ, ◌≡◌, refl, sym, ap, ◌∙◌, subst, ◌⊎◌, inl, inr, Bool, true, false, not, Option,
  none, some, List, [], ◌∷◌, arith, ◌==◌, if◌then◌else◌, nat_eq, Bool-cases, Option-cases, if_all,
}
use ue4sslua_event_bridge.Queue.Buffers.{clear}
use ue4sslua_event_bridge.Backend.Engine.{Engine, get, validate_component}
use ue4sslua_event_bridge.Backend.State.{
  EnhancedInputSubscription, LiveBinding, EnhancedInputBackend, has, set_inactive, idle,
  lookup-set_inactive,
}
use ue4sslua_event_bridge.Backend.Native.{delete_native, remove_entry, detach}
use ue4sslua_event_bridge.Backend.Drain.{deactivate_ids, detach_each, clear_all, shutdown}

-- What detaching the bindings keeps.
record KeepsFlags (b b' : EnhancedInputBackend) : Type 0 where
  subscription_store : b'.subscription_store ≡ b.subscription_store
  initialized : b'.initialized ≡ b.initialized
  accepting : b'.dispatch.accepting ≡ b.dispatch.accepting

detach-KeepsFlags :
    (e : Engine) (b : EnhancedInputBackend) (live : LiveBinding) → KeepsFlags b (detach e b live).1
unfolding detach delete_native
detach-KeepsFlags e b live = elim (Bool-cases (validate_component e (get e live.component))) [
  | inr invalid ↦
      rw invalid (record { subscription_store = refl; initialized = refl; accepting = refl })
  | inl valid ↦
      let array = e.binding_array (get e live.component) in
      elim (Option-cases (remove_entry array.size live.binding array.entries)) [
        | inl gone ↦
            rw (valid, gone)
              (record { subscription_store = refl; initialized = refl; accepting = refl })
        | inr (rest, found) ↦
            rw (valid, found)
              (record { subscription_store = refl; initialized = refl; accepting = refl })
      ]
]

detach_each-KeepsFlags :
    (e : Engine) (b : EnhancedInputBackend) (lives : List LiveBinding)
    → KeepsFlags b (detach_each e b lives).1
unfolding detach_each
detach_each-KeepsFlags e b [] = record {
  subscription_store = refl;
  initialized = refl;
  accepting = refl;
}
detach_each-KeepsFlags e b (live ∷ rest) =
    let (e', b') = detach e b live in
    let one = detach-KeepsFlags e b live in
    let more = detach_each-KeepsFlags e' b' rest in
    record {
      subscription_store = more.subscription_store ∙ one.subscription_store;
      initialized = more.initialized ∙ one.initialized;
      accepting = more.accepting ∙ one.accepting;
    }

-- Off, if it is there at all.
abbrev pub IsOff : Option EnhancedInputSubscription → Type 0
IsOff none = Unit
IsOff (some s) = s.active ≡ false

idle-IsOff : (o : Option EnhancedInputSubscription) → IsOff (idle o)
idle-IsOff none = tt
idle-IsOff (some s) = refl

still-IsOff :
    (b : EnhancedInputBackend) (id j : ℕ)
    → (id == j) ≡ true ⊎ IsOff (lookup j b.subscription_store)
    → IsOff (lookup j (set_inactive b id).subscription_store)
still-IsOff b id j h = subst IsOff (sym (lookup-set_inactive b id j)) (
    if_all IsOff (id == j) _ _ (λ _. idle-IsOff (lookup j b.subscription_store))
      (λ other. elim h [ inl same ↦ absurd (ground (arith, same, other)) | inr off ↦ off ]))

deactivate_ids-IsOff :
    (b : EnhancedInputBackend) (ids : List ℕ) (j : ℕ)
    → has j ids ≡ true ⊎ IsOff (lookup j b.subscription_store)
    → IsOff (lookup j (deactivate_ids b ids).subscription_store)
unfolding deactivate_ids
deactivate_ids-IsOff b [] j (inl there) = absurd (ground (arith, there))
deactivate_ids-IsOff b [] j (inr off) = off
deactivate_ids-IsOff b (id ∷ ids) j (inr off) =
    deactivate_ids-IsOff (set_inactive b id) ids j (inr (still-IsOff b id j (inr off)))
deactivate_ids-IsOff b (id ∷ ids) j (inl there) = elim (Bool-cases (id == j)) [
  | inl same ↦ deactivate_ids-IsOff (set_inactive b id) ids j (inr (still-IsOff b id j (inl same)))
  | inr other ↦ deactivate_ids-IsOff (set_inactive b id) ids j (inl (ground (arith, there, other)))
]

-- After a shutdown of `b`, with its result.
pub record IsShut (e : Engine) (b b' : EnhancedInputBackend) (unloadable : Bool) : Type 0 where
  pub down : b'.initialized ≡ false
  pub refuses : b'.dispatch.accepting ≡ false
  pub unsubscribed : b'.subscriptions ≡ []
  pub unqueued : b'.dispatch.events.items ≡ []
  pub off : (id : ℕ) → has id b.subscriptions ≡ true → IsOff (lookup id b'.subscription_store)
  pub released : unloadable ≡ true → b'.dispatch.live_bindings ≡ 0
  pub elsewhere :
      unloadable ≡ true
      → e.in_game_thread ≡ false
      → (b.bindings.items ≡ []) × (b.dispatch.clone_created ≡ false)

nil_of : (xs : List LiveBinding) → is_nil xs ≡ true → xs ≡ []
nil_of [] h = refl
nil_of (x ∷ xs) h = absurd (ground (arith, h))

deactivate_ids-same :
    (b : EnhancedInputBackend) (ids : List ℕ)
    → ((deactivate_ids b ids).initialized ≡ b.initialized)
      × ((deactivate_ids b ids).dispatch ≡ b.dispatch)
unfolding deactivate_ids set_inactive
deactivate_ids-same b [] = (refl, refl)
deactivate_ids-same b (id ∷ ids) = deactivate_ids-same (set_inactive b id) ids

-- The detached backend keeps the flags in both branches.
detached-KeepsFlags :
    (e : Engine) (b : EnhancedInputBackend) (lives : List LiveBinding)
    → KeepsFlags b (if e.in_game_thread then detach_each e b lives else (e, b)).1
detached-KeepsFlags e b lives =
    if_all (λ (r : Engine × EnhancedInputBackend). KeepsFlags b r.1) e.in_game_thread
      (detach_each e b lives) (e, b) (λ _. detach_each-KeepsFlags e b lives)
      (λ _. record { subscription_store = refl; initialized = refl; accepting = refl })

-- A shutdown of an initialized backend takes it down for good: it accepts no event, has no
-- subscription and no queued event, and what was subscribed is off. It says that the module can be
-- unloaded only when no native binding is left, and off the game thread, where nothing can be
-- detached, only when no binding was there and none was ever cloned.
pub shutdown-IsShut :
    (e : Engine) (b : EnhancedInputBackend)
    → b.initialized ≡ true
    → IsShut e b (shutdown e b).1 (shutdown e b).2
unfolding shutdown clear_all clear
shutdown-IsShut e b up =
    let stopped : EnhancedInputBackend = record b {
      initialized = false;
      dispatch = record b.dispatch { accepting = false };
    } in
    let inactive = deactivate_ids stopped b.subscriptions in
    let (same, queues) = deactivate_ids-same stopped b.subscriptions in
    let kept = detached-KeepsFlags e inactive b.bindings.items in
    if_all (λ (r : Engine × EnhancedInputBackend × Bool). IsShut e b r.1 r.2) (not b.initialized)
      (e, b, b.dispatch.live_bindings == 0) _ (λ down. absurd (ground (arith, up, down)))
      (λ _. record {
        down = kept.initialized ∙ same;
        refuses = kept.accepting ∙ ap (λ d. d.accepting) queues;
        unsubscribed = refl;
        unqueued = refl;
        off = λ id there.
            subst (λ store. IsOff (lookup id store)) (sym kept.subscription_store)
              (deactivate_ids-IsOff stopped b.subscriptions id (inl there));
        released = λ h. ground (arith, h);
        elsewhere =
            λ h away. (nil_of b.bindings.items (ground (arith, h, away)), ground (arith, h, away));
      })
