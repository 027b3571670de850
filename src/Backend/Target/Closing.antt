-- ===== src/Backend/Target/Closing.antt =====
-- What close_target leaves, of bridge/src/EnhancedInputBackend.cpp.
use ue4sslua_event_bridge.Base.{
  lookup-erase, lookup, erase, ℕ, ◌≡◌, sym, ap, ◌∙◌, ◌≢◌, Bool, true, not, Option, none, some,
  arith, ◌==◌, if◌then◌else◌, nat_eq, ==_refl, is_some, some-injective, if_all,
}
use ue4sslua_event_bridge.Backend.Engine.{Engine}
use ue4sslua_event_bridge.Backend.State.{EnhancedInputSubscription, EnhancedInputBackend, has}
use ue4sslua_event_bridge.Backend.Faults.{owned_target}
use ue4sslua_event_bridge.Backend.Unsubscribe.{
  unsubscribe_each, subscriber, session_of, aim, target_of, collect_inactive_locked,
}
use ue4sslua_event_bridge.Backend.Unsubscribe.Clears.{has-keep_if, both, unsubscribe_each-Shrinks}
use ue4sslua_event_bridge.Backend.Target.{targets_it, target_ids, close_target}

-- No target under the handle, and no subscription that a session made on it.
pub record IsClosed (b : EnhancedInputBackend) (session target : ℕ) : Type 0 where
  pub gone : lookup target b.targets ≡ none
  pub silent :
      (j : ℕ)
      → has j b.subscriptions ≡ true
      → session_of b j ≡ some session
      → target_of b j ≢ some target

targets_it_own :
    (session target : ℕ) (o : Option EnhancedInputSubscription)
    → subscriber o ≡ some session
    → aim o ≡ some target
    → targets_it session target o ≡ true
unfolding targets_it subscriber aim
targets_it_own session target none own at_target = absurd (ground (arith, own))
targets_it_own session target (some s) own at_target =
    both _ _ (ap (λ x. x == session) (some-injective own) ∙ ==_refl session)
      (ap (λ x. x == target) (some-injective at_target) ∙ ==_refl target)

erase_target : EnhancedInputBackend → ℕ → EnhancedInputBackend
erase_target b target = record b { targets = erase target b.targets }

erase_target-IsClosed :
    (e : Engine) (b : EnhancedInputBackend) (session target : ℕ)
    → IsClosed
        (erase_target (unsubscribe_each e b session (target_ids b session target)).1 target)
        session
        target
unfolding erase_target session_of target_of target_ids
erase_target-IsClosed e b session target =
    let (shrinks, all) = unsubscribe_each-Shrinks e b session (target_ids b session target) in
    let b' = (unsubscribe_each e b session (target_ids b session target)).1 in
    record {
      gone =
          lookup-erase target target b'.targets
          ∙ ap (λ c. if c then none else lookup target b'.targets) (==_refl target);
      silent = λ j there own at_target.
          let own1 : session_of b j ≡ some session = sym (shrinks.sessions j) ∙ own in
          let aim1 : target_of b j ≡ some target = sym (shrinks.aims j) ∙ at_target in
          let listed : has j (target_ids b session target) ≡ true =
            has-keep_if (λ id. targets_it session target (lookup id b.subscription_store)) j
              b.subscriptions
            ∙ both _ _ (shrinks.fewer j there) (targets_it_own session target _ own1 aim1) in
          ground (arith, sym there ∙ all j listed own1);
    }

Closes : ℕ → ℕ → Engine × EnhancedInputBackend × Bool → Type 0
Closes session target (e', b', closed) = closed ≡ true → IsClosed b' session target

-- When `close_target` says that it closed the target, the handle stands for nothing any more, and no
-- subscription of the session on that target is left.
pub close_target-IsClosed :
    (e : Engine) (b : EnhancedInputBackend) (session target : ℕ)
    → (close_target e b session target).2 ≡ true
    → IsClosed (close_target e b session target).1 session target
unfolding close_target Closes erase_target
close_target-IsClosed e b session target =
    if_all (Closes session target) (not b.initialized) _ _ (λ off h. absurd (ground (arith, h)))
      (λ on.
        let (e1, b1) = collect_inactive_locked e b in
        if_all (Closes session target) (is_some (owned_target b1 session target)) _ _
          (λ mine h. erase_target-IsClosed e1 b1 session target)
          (λ other h. absurd (ground (arith, h))))
