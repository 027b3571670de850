-- ===== src/Backend/Unsubscribe/Clears.antt =====
-- What is left of a session after unsubscribe_all, of bridge/src/EnhancedInputBackend.cpp.
use ue4sslua_event_bridge.Base.{
  keep_if, All, All-keep_if, All-map, lookup-map_keep, lookup, ℕ, ◌≡◌, refl, sym, ap, ◌∙◌, subst,
  ◌≢◌, inl, inr, Bool, true, false, not, ◌&&◌, ◌||◌, Option, none, some, List, [], ◌∷◌, arith, ◌==◌,
  if◌then◌else◌, nat_eq, ==→≡, ==_refl, Bool-cases, Option-cases, some-injective,
}
use ue4sslua_event_bridge.Backend.Engine.{Engine}
use ue4sslua_event_bridge.Backend.State.{
  EnhancedInputEvent, EnhancedInputSubscription, Target, EnhancedInputBackend, has, without,
  put_dispatch, set_inactive, idle, lookup-set_inactive,
}
use ue4sslua_event_bridge.Backend.Unsubscribe.{
  find_subscription, unsubscribe_locked, unsubscribe_each, subscriber, session_of, aim, target_of,
  is_session, collect_inactive_locked, ids_of, unsubscribe_all, purge, deactivate,
}
use ue4sslua_event_bridge.Backend.Unsubscribe.Removed.{Unsubscribes, unsubscribe_locked_cases}

pub has-keep_if : (p : ℕ → Bool) (j : ℕ) (xs : List ℕ) → has j (keep_if p xs) ≡ (has j xs && p j)
has-keep_if p j [] = refl
has-keep_if p j (x ∷ xs) = elim (Bool-cases (x == j)) [
  | inl e ↦ ground (arith, has-keep_if p j xs, ap p (==→≡ x j e), e)
  | inr n ↦ ground (arith, has-keep_if p j xs, n)
]

and_left : (a b : Bool) → (a && b) ≡ true → a ≡ true
and_left a b h = ground (arith, h)

and_false : (a : Bool) → (a && false) ≡ false
and_false true = refl
and_false false = refl

pub both : (a b : Bool) → a ≡ true → b ≡ true → (a && b) ≡ true
both a b h k = ground (arith, h, k)

or_left : (a b : Bool) → (a || b) ≡ true → b ≡ false → a ≡ true
or_left a b h n = ground (arith, h, n)

not_true : (a : Bool) → (a ≡ true → ⊥) → a ≡ false
not_true true h = absurd (h refl)
not_true false h = refl

has-without : (id j : ℕ) (xs : List ℕ) → has j (without id xs) ≡ (has j xs && not (j == id))
has-without id j xs = has-keep_if (λ k. not (k == id)) j xs

subscriber-idle :
    (c : Bool) (o : Option EnhancedInputSubscription)
    → subscriber (if c then idle o else o) ≡ subscriber o
unfolding subscriber
subscriber-idle true none = refl
subscriber-idle true (some s) = refl
subscriber-idle false o = refl

session_of-set_inactive :
    (b : EnhancedInputBackend) (id j : ℕ) → session_of (set_inactive b id) j ≡ session_of b j
unfolding session_of
session_of-set_inactive b id j =
    ap subscriber (lookup-set_inactive b id j)
    ∙ subscriber-idle (id == j) (lookup j b.subscription_store)

aim-idle : (c : Bool) (o : Option EnhancedInputSubscription) → aim (if c then idle o else o) ≡ aim o
unfolding aim
aim-idle true none = refl
aim-idle true (some s) = refl
aim-idle false o = refl

target_of-set_inactive :
    (b : EnhancedInputBackend) (id j : ℕ) → target_of (set_inactive b id) j ≡ target_of b j
unfolding target_of
target_of-set_inactive b id j =
    ap aim (lookup-set_inactive b id j) ∙ aim-idle (id == j) (lookup j b.subscription_store)

target_of_store :
    (b c : EnhancedInputBackend) (j : ℕ)
    → b.subscription_store ≡ c.subscription_store
    → target_of b j ≡ target_of c j
unfolding target_of
target_of_store b c j e = ap (λ store. aim (lookup j store)) e

-- What unsubscribing one or more ids does to the table, told of any one id.
pub record Shrinks (b b' : EnhancedInputBackend) : Type 0 where
  pub fewer : (j : ℕ) → has j b'.subscriptions ≡ true → has j b.subscriptions ≡ true
  pub sessions : (j : ℕ) → session_of b' j ≡ session_of b j
  pub aims : (j : ℕ) → target_of b' j ≡ target_of b j
  pub targets : b'.targets ≡ b.targets

Shrinks-refl : (b : EnhancedInputBackend) → Shrinks b b
Shrinks-refl b = record { fewer = λ j h. h; sessions = λ j. refl; aims = λ j. refl; targets = refl }

Shrinks-trans : (a b c : EnhancedInputBackend) → Shrinks a b → Shrinks b c → Shrinks a c
Shrinks-trans a b c h k = record {
  fewer = λ j x. h.fewer j (k.fewer j x);
  sessions = λ j. k.sessions j ∙ h.sessions j;
  aims = λ j. k.aims j ∙ h.aims j;
  targets = k.targets ∙ h.targets;
}

session_of_store :
    (b c : EnhancedInputBackend) (j : ℕ)
    → b.subscription_store ≡ c.subscription_store
    → session_of b j ≡ session_of c j
unfolding session_of
session_of_store b c j e = ap (λ store. subscriber (lookup j store)) e

Unsubscribes-Shrinks :
    (b b' : EnhancedInputBackend) (id : ℕ)
    → Unsubscribes b b' id
    → Shrinks b b' × (has id b'.subscriptions ≡ false)
Unsubscribes-Shrinks b b' id u = (
  record {
    fewer = λ j h.
        and_left _ _
          (sym (has-without id j b.subscriptions) ∙ sym (ap (has j) u.subscriptions) ∙ h);
    sessions =
        λ j. session_of_store b' (set_inactive b id) j u.store ∙ session_of-set_inactive b id j;
    aims = λ j. target_of_store b' (set_inactive b id) j u.store ∙ target_of-set_inactive b id j;
    targets = u.targets;
  },
  ap (has id) u.subscriptions
      ∙ has-without id id b.subscriptions
      ∙ rw (==_refl id) (and_false (has id b.subscriptions)),
)

-- A session's own subscription that the table has, `find_subscription` finds.
find_own :
    (b : EnhancedInputBackend) (session id : ℕ)
    → session_of b id ≡ some session
    → has id b.subscriptions ≡ true
    → (s : EnhancedInputSubscription) × (find_subscription b id ≡ some s) × (s.session ≡ session)
unfolding session_of find_subscription subscriber
find_own b session id own there = elim (Option-cases (lookup id b.subscription_store)) [
  | inl gone ↦ absurd (ground (arith, sym (ap subscriber gone) ∙ own))
  | inr (s, found) ↦ (s, rw there found, some-injective (sym (ap subscriber found) ∙ own))
]

unsubscribe_locked-Shrinks :
    (e : Engine) (b : EnhancedInputBackend) (session id : ℕ)
    → Shrinks b (unsubscribe_locked e b session id).1
      × (session_of b id ≡ some session
          → has id (unsubscribe_locked e b session id).1.subscriptions ≡ false)
unsubscribe_locked-Shrinks e b session id = elim (unsubscribe_locked_cases e b session id) [
  | inl (s, found, mine, told, _, removes) ↦
      let (shrinks, gone) = Unsubscribes-Shrinks b _ id removes in (shrinks, λ own. gone)
  | inr (why, told, _, same) ↦ (
    subst (Shrinks b) (sym same) (Shrinks-refl b),
    λ own.
        subst (λ x. has id x.subscriptions ≡ false) (sym same)
          (elim (Bool-cases (has id b.subscriptions)) [
            | inr gone ↦ gone
            | inl there ↦
                let (s, found, mine) = find_own b session id own there in
                absurd (elim why [
                  | inl none_there ↦ ground (arith, sym none_there ∙ found)
                  | inr (t, found', other) ↦
                      other (ap (λ x. x.session) (some-injective (sym found' ∙ found)) ∙ mine)
                ])
          ]),
  )
]

pub unsubscribe_each-Shrinks :
    (e : Engine) (b : EnhancedInputBackend) (session : ℕ) (ids : List ℕ)
    → Shrinks b (unsubscribe_each e b session ids).1
      × ((j : ℕ)
          → has j ids ≡ true
          → session_of b j ≡ some session
          → has j (unsubscribe_each e b session ids).1.subscriptions ≡ false)
unfolding unsubscribe_each
unsubscribe_each-Shrinks e b session [] = (Shrinks-refl b, λ j h own. absurd (ground (arith, h)))
unsubscribe_each-Shrinks e b session (id ∷ ids) =
    let (e', b', found) = unsubscribe_locked e b session id in
    let (first, gone) = unsubscribe_locked-Shrinks e b session id in
    let (rest, all) = unsubscribe_each-Shrinks e' b' session ids in
    (
      Shrinks-trans b b' _ first rest,
      λ j h own. elim (Bool-cases (has j ids)) [
        | inl later ↦ all j later (first.sessions j ∙ own)
        | inr now ↦
            let same : id ≡ j = ==→≡ id j (or_left _ _ h now) in
            let at_j : has j b'.subscriptions ≡ false =
              subst (λ k. session_of b k ≡ some session → has k b'.subscriptions ≡ false) same gone
                own in
            not_true _ (λ there. absurd (ground (arith, sym (rest.fewer j there) ∙ at_j)))
      ],
    )

-- After `unsubscribe_all` the table holds no subscription of the session, and without
-- `preserve_targets` there is no target of it either.
pub unsubscribe_all-Clears :
    (e : Engine) (b : EnhancedInputBackend) (session : ℕ) (preserve_targets : Bool)
    → let (e', b', count) = unsubscribe_all e b session preserve_targets in
      ((j : ℕ) → has j b'.subscriptions ≡ true → session_of b' j ≢ some session)
      × (preserve_targets ≡ false
          → (id : ℕ) (t : Target) → lookup id b'.targets ≡ some t
          → t.session ≢ session)
unfolding unsubscribe_all session_of
unsubscribe_all-Clears e b session preserve_targets =
    let (e1, b1) = collect_inactive_locked e b in
    let (shrinks, gone) = unsubscribe_each-Shrinks e1 b1 session (ids_of b1 session) in
    (
      λ j there own.
          let own1 : session_of b1 j ≡ some session = sym (shrinks.sessions j) ∙ own in
          let listed : has j (ids_of b1 session) ≡ true =
            has-keep_if (λ id. is_session (session_of b1 id) session) j b1.subscriptions
            ∙ both _ _ (shrinks.fewer j there)
                (ap (λ o. is_session o session) own1 ∙ ==_refl session) in
          ground (arith, sym there ∙ gone j listed own1),
      λ drop_targets id t found mine.
          let kept =
            lookup-map_keep (λ x. not (not preserve_targets && x.session == session)) id t _
              found in
          ground (arith, kept, drop_targets, mine),
    )

purge-items :
    (b : EnhancedInputBackend) (stays : EnhancedInputEvent → Bool)
    → ((purge b stays).dispatch.events.items ≡ keep_if stays b.dispatch.events.items)
      × ((purge b stays).subscription_store ≡ b.subscription_store)
unfolding purge put_dispatch
purge-items b stays = (refl, refl)

find_subscription-lookup :
    (b : EnhancedInputBackend) (id : ℕ) (s : EnhancedInputSubscription)
    → find_subscription b id ≡ some s
    → lookup id b.subscription_store ≡ some s
unfolding find_subscription
find_subscription-lookup b id s found = elim (Bool-cases (has id b.subscriptions)) [
  | inl there ↦ sym (ap (λ c. if c then lookup id b.subscription_store else none) there) ∙ found
  | inr gone ↦ absurd (
      ground
        (arith, sym (ap (λ c. if c then lookup id b.subscription_store else none) gone) ∙ found))
]

deactivate_found :
    (b : EnhancedInputBackend) (session id : ℕ) (s : EnhancedInputSubscription)
    → find_subscription b id ≡ some s
    → s.session ≡ session
    → deactivate b session id ≡ purge (set_inactive b id) (λ event. not (event.subscription == id))
unfolding deactivate
deactivate_found b session id s found mine =
    ap
      (λ o. elim o [
        | none ↦ b
        | some t ↦
            if t.session == session
            then purge (set_inactive b id) (λ event. not (event.subscription == id))
            else b
      ])
      found
    ∙ ap (λ c. if c then purge (set_inactive b id) (λ event. not (event.subscription == id)) else b)
        (subst (λ x. (s.session == x) ≡ true) mine (==_refl s.session))

pub deactivate-delivery_store :
    (b : EnhancedInputBackend) (session id : ℕ) (s : EnhancedInputSubscription)
    → find_subscription b id ≡ some s
    → s.session ≡ session
    → (deactivate b session id).delivery_store ≡ b.delivery_store
unfolding purge put_dispatch set_inactive
deactivate-delivery_store b session id s found mine =
    ap (λ x. x.delivery_store) (deactivate_found b session id s found mine)

not_same : (a b : ℕ) → not (a == b) ≡ true → a ≢ b
not_same a b h e = ground (arith, h, e)

-- After `deactivate` of a subscription that the session has, its flag is off and no event of it is
-- queued.
pub deactivate-Purges :
    (b : EnhancedInputBackend) (session id : ℕ) (s : EnhancedInputSubscription)
    → find_subscription b id ≡ some s
    → s.session ≡ session
    → let b' = deactivate b session id in
      (lookup id b'.subscription_store ≡ some (record s { active = false }))
      × All (λ event. event.subscription ≢ id) b'.dispatch.events.items
deactivate-Purges b session id s found mine =
    let same = deactivate_found b session id s found mine in
    let stays : EnhancedInputEvent → Bool = λ event. not (event.subscription == id) in
    let (items, store) = purge-items (set_inactive b id) stays in
    (
      ap (λ x. lookup id x.subscription_store) same
          ∙ ap (lookup id) store
          ∙ lookup-set_inactive b id id
          ∙ ap
              (λ c.
                if c then idle (lookup id b.subscription_store) else lookup id b.subscription_store)
              (==_refl id)
          ∙ ap idle (find_subscription-lookup b id s found),
      subst (All (λ event. event.subscription ≢ id))
          (sym (ap (λ x. x.dispatch.events.items) same ∙ items))
          (All-map (λ event h. not_same event.subscription id h) _
            (All-keep_if stays (set_inactive b id).dispatch.events.items)),
    )
