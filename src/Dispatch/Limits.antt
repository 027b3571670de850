-- ===== src/Dispatch/Limits.antt =====
-- The limits of a pass of dispatch_budgeted (bridge/include/DispatchBudget.hpp).
use ue4sslua_event_bridge.Base.{
  length, ℕ, ◌+◌, ◌≤◌, ◌<◌, ◌≡◌, refl, sym, ap, ◌∙◌, subst, ◌≢◌, inl, inr, Bool, true, false,
  Option, some, List, [], ◌∷◌, arith, if◌then◌else◌, Bool-cases,
}
use ue4sslua_event_bridge.Dispatch.Backlog.{DispatchBacklog, pending, IsWell}
use ue4sslua_event_bridge.Dispatch.Budget.{
  DispatchBudget, permits, Pass, dispatch_budgeted, serve, dispatch_budgeted-Serves,
}

module _ {ℓ κ} {T : Type ℓ} {S : Type κ} (consume : ℕ → T → S → S × Bool) (clock : S → ℕ)
    (budget : DispatchBudget) where
  abbrev served : List T → S → ℕ → Bool → List T × S × ℕ
  served xs s processed made = serve consume clock budget xs s processed made

  served_count :
      (xs : List T) (s : S) (processed : ℕ) (made : Bool)
      → budget.count ≢ 0
      → processed ≤ budget.count
      → (served xs s processed made).2 ≤ budget.count
  unfolding serve permits
  served_count [] s processed made h le = le
  served_count (x ∷ xs) s processed made h le = ground (
    arith,
    served_count xs (consume (length xs) x s).0 (processed + 1) true h,
    served_count xs (consume (length xs) x s).0 processed true h,
  )

  length-served :
      (xs : List T) (s : S) (processed : ℕ) (made : Bool)
      → length (served xs s processed made).0 ≤ length xs
  unfolding serve
  length-served [] s processed made = omega arith
  length-served (x ∷ xs) s processed made = ground (
    arith,
    length-served xs (consume (length xs) x s).0
        (if (consume (length xs) x s).1 then processed + 1 else processed) true,
  )

  served_stops :
      (xs : List T) (s : S) (processed : ℕ) (made : Bool)
      → (served xs s processed made).0 ≢ []
      → made ≡ true
      → permits budget (served xs s processed made).2 (clock (served xs s processed made).1) true
        ≡ false
  unfolding serve
  served_stops [] s processed made h m = absurd (h refl)
  served_stops (x ∷ xs) s processed true h m =
      elim (Bool-cases (permits budget processed (clock s) true)) [
        | inl go ↦ rw go (served_stops xs _ _ true (rw go at h) refl)
        | inr stop ↦ rw stop stop
      ]
  served_stops (x ∷ xs) s processed false h m = cc

  served_unlimited :
      (xs : List T) (s : S) (processed : ℕ) (made : Bool)
      → budget.count ≡ 0
      → budget.time ≡ 0
      → (served xs s processed made).0 ≡ []
  unfolding serve permits
  served_unlimited [] s processed made c t = refl
  served_unlimited (x ∷ xs) s processed made c t = ground (
    arith,
    served_unlimited xs (consume (length xs) x s).0
        (if (consume (length xs) x s).1 then processed + 1 else processed) true c t,
  )

  -- The limits of `serve`, the reference of a pass.
  pub serve_limits :
      (x : T) (xs : List T) (s : S)
      → let (rest, s', processed) = serve consume clock budget (x ∷ xs) s 0 false in
        (length rest ≤ length xs)
        × (budget.count ≢ 0 → processed ≤ budget.count)
        × (rest ≢ [] → permits budget processed (clock s') true ≡ false)
        × (budget.count ≡ 0 → budget.time ≡ 0 → rest ≡ [])
  unfolding serve permits
  serve_limits x xs s =
      let s' = (consume (length xs) x s).0 in
      let n : ℕ = if (consume (length xs) x s).1 then 1 else 0 in
      (
        length-served xs s' n true,
        (λ h. served_count (x ∷ xs) s 0 false h (omega arith)),
        (λ h. served_stops xs s' n true h refl),
        served_unlimited xs s' n true,
      )

  limits_of :
      (xs : List T) (s : S)
      → xs ≢ []
      → let (rest, s', processed) = serve consume clock budget xs s 0 false in
        (length rest < length xs)
        × (budget.count ≢ 0 → processed ≤ budget.count)
        × (rest ≢ [] → permits budget processed (clock s') true ≡ false)
        × (budget.count ≡ 0 → budget.time ≡ 0 → rest ≡ [])
  limits_of [] s filled = absurd (filled refl)
  limits_of (x ∷ xs) s filled =
      let (fewer, few, refused, all) = serve_limits x xs s in
      (omega (arith, fewer), few, refused, all)

  -- What a pass keeps to: of `n` items it leaves fewer, it counts no more than the limit of callbacks
  -- unless that is off, it leaves items only if the budget refuses the next one, and none when both
  -- limits are off.
  abbrev pub KeepsTo : ℕ → Option (Pass T S) → Type (ℓ ⊔ κ)
  KeepsTo n r =
      (p : Pass T S) × (r ≡ some p)
      × (length (pending p.backlog) < n)
      × (budget.count ≢ 0 → p.processed ≤ budget.count)
      × (pending p.backlog ≢ [] → permits budget p.processed (clock p.state) true ≡ false)
      × (budget.count ≡ 0 → budget.time ≡ 0 → pending p.backlog ≡ [])

  -- A pass over a well-formed backlog that is not empty ends without an exception, takes at least one
  -- item, counts at most `count` callbacks unless that limit is off, leaves items only if the budget
  -- refuses the next one, and leaves none when both limits are off.
  pub dispatch_budgeted-KeepsTo :
      (b : DispatchBacklog T) (s : S)
      → IsWell b
      → pending b ≢ []
      → KeepsTo (length (pending b)) (dispatch_budgeted consume clock budget b s)
  dispatch_budgeted-KeepsTo b s h filled =
      let (p, ends, left, state, counted, _) =
        dispatch_budgeted-Serves consume clock budget b s h in
      let (fewer, few, refused, all) = limits_of (pending b) s filled in
      (
        p,
        ends,
        subst (λ xs. length xs < length (pending b)) (sym left) fewer,
        (λ on. subst (λ n. n ≤ budget.count) (sym counted) (few on)),
        (λ rest.
            ap (λ n. permits budget n (clock p.state) true) counted
            ∙ ap
                (λ t.
                  permits budget (serve consume clock budget (pending b) s 0 false).2 (clock t)
                    true)
                state
            ∙ refused (λ none_left. rest (left ∙ none_left))),
        (λ count_off time_off. left ∙ all count_off time_off),
      )
