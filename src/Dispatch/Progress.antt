-- ===== src/Dispatch/Progress.antt =====
-- Repeated passes of dispatch_budgeted, bridge/include/DispatchBudget.hpp, over one backlog.
use ue4sslua_event_bridge.Base.{
  length, ℕ, suc, ◌≤◌, ◌≡◌, refl, sym, subst, Bool, false, Option, some, List, [], ◌∷◌, arith,
  ◌>>=◌,
}
use ue4sslua_event_bridge.Dispatch.Backlog.{DispatchBacklog, pending, IsWell}
use ue4sslua_event_bridge.Dispatch.Budget.{
  DispatchBudget, dispatch_budgeted, serve, dispatch_budgeted-Serves,
}
use ue4sslua_event_bridge.Dispatch.Limits.{serve_limits}

module _ {ℓ κ} {T : Type ℓ} {S : Type κ} (consume : ℕ → T → S → S × Bool) (clock : S → ℕ) where
  -- One pass for each budget, in their order; none is an exception.
  unfoldable pub passes :
      List DispatchBudget → DispatchBacklog T → S → Option (DispatchBacklog T × S)
  passes [] b s = some (b, s)
  passes (budget ∷ budgets) b s = do
    pass ← dispatch_budgeted consume clock budget b s
    passes budgets pass.backlog pass.state

  -- Nothing is left to dispatch.
  pub Drains : Option (DispatchBacklog T × S) → Type (ℓ ⊔ κ)
  Drains r = (b : DispatchBacklog T) × (s : S) × (r ≡ some (b, s)) × (pending b ≡ [])

  one_fewer :
      (budget : DispatchBudget) (xs : List T) (s : S) (n : ℕ)
      → length xs ≤ suc n
      → length (serve consume clock budget xs s 0 false).0 ≤ n
  one_fewer budget [] s n h = unfold serve in omega arith
  one_fewer budget (x ∷ xs) s n h = omega (arith, h, (serve_limits consume clock budget x xs s).0)

  -- Every pass over a well-formed backlog that is not empty hands at least one item on, whatever its
  -- limits, the clock and the consumer are: so as many passes as there are pending items leave none.
  pub passes-Drains :
      (budgets : List DispatchBudget) (b : DispatchBacklog T) (s : S)
      → IsWell b
      → length (pending b) ≤ length budgets
      → Drains (passes budgets b s)
  unfolding passes Drains
  passes-Drains [] b s well few = (b, s, refl, none_pending (pending b) few)
    where
      none_pending : (xs : List T) → length xs ≤ 0 → xs ≡ []
      none_pending [] h = refl
      none_pending (x ∷ xs) h = absurd (omega (arith, h))
  passes-Drains (budget ∷ budgets) b s well few =
      let (pass, e, left, state, count, well') =
        dispatch_budgeted-Serves consume clock budget b s well in
      subst (λ o. Drains (o >>= (λ p. passes budgets p.backlog p.state))) (sym e)
        (passes-Drains budgets pass.backlog pass.state well' (
          subst (λ xs. length xs ≤ length budgets) (sym left)
            (one_fewer budget (pending b) s (length budgets) few)))
