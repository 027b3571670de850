-- ===== src/Dispatch/Budget.antt =====
-- DispatchBudget and dispatch_budgeted of bridge/include/DispatchBudget.hpp. Clock readings are
-- nanoseconds and `time` is microseconds; the signed test `now - start < time` is written without
-- the subtraction. The clock gives one reading a round.
use ue4sslua_event_bridge.Base.{
  length, ℕ, zero, suc, ◌+◌, ◌*◌, ◌≤◌, ◌≡◌, refl, inl, inr, Bool, true, false, not, ◌&&◌, ◌||◌,
  Option, none, some, List, [], ◌∷◌, arith, ltb, ◌==◌, if◌then◌else◌, Bool-cases,
}
use ue4sslua_event_bridge.Dispatch.Backlog.{
  DispatchBacklog, empty, size, pop, pending, IsWell, size-pending, empty-pending, pop-Pops,
}

pub record DispatchBudget : Type 0 where
  pub start : ℕ
  pub count : ℕ
  pub time : ℕ

unfoldable pub permits : DispatchBudget → ℕ → ℕ → Bool → Bool
permits budget processed now made_progress =
    processed == 0 && not made_progress
    || (budget.count == 0 || ltb processed budget.count)
      && (budget.time == 0 || ltb now (budget.start + 1000 * budget.time))

-- What a pass leaves: the backlog, the state that the consumer changed, and the count returned.
pub record Pass {ℓ κ} (T : Type ℓ) (S : Type κ) : Type (ℓ ⊔ κ) where
  pub backlog : DispatchBacklog T
  pub state : S
  pub processed : ℕ

-- `consume(pending.pop())` also sees how many items are left after the pop; the clock may depend on
-- the state, which holds all that the callbacks change.
module _ {ℓ κ} {T : Type ℓ} {S : Type κ} (consume : ℕ → T → S → S × Bool) (clock : S → ℕ)
    (budget : DispatchBudget) where
  -- One round for each pending item is enough, so the fuel is the size of the backlog; `none` is an
  -- exception of `pop`.
  dispatch_loop : ℕ → DispatchBacklog T → S → ℕ → Bool → Option (Pass T S)
  dispatch_loop zero b s processed made =
      some (record { backlog = b; state = s; processed = processed })
  dispatch_loop (suc fuel) b s processed made =
      elim (not (empty b) && permits budget processed (clock s) made) [
        | false ↦ some (record { backlog = b; state = s; processed = processed })
        | true ↦ elim (pop b) [
          | none ↦ none
          | some (item, b') ↦
              let (s', counted) = consume (size b') item s in
              dispatch_loop fuel b' s' (if counted then processed + 1 else processed) true
        ]
      ]

  unfoldable pub dispatch_budgeted : DispatchBacklog T → S → Option (Pass T S)
  unfolding dispatch_loop
  dispatch_budgeted b s = dispatch_loop (size b) b s 0 false

  -- The pass over the pending items themselves: what is left, the state and the count.
  unfoldable pub serve : List T → S → ℕ → Bool → List T × S × ℕ
  serve [] s processed made = ([], s, processed)
  serve (item ∷ rest) s processed made =
      let (s', counted) = consume (length rest) item s in
      let later = serve rest s' (if counted then processed + 1 else processed) true in
      if permits budget processed (clock s) made then later else (item ∷ rest, s, processed)

  -- A pass over a backlog does what `serve` does to the pending items.
  abbrev pub Serves : List T × S × ℕ → Option (Pass T S) → Type (ℓ ⊔ κ)
  Serves e r =
      (p : Pass T S) × (r ≡ some p)
      × (pending p.backlog ≡ e.0)
      × (p.state ≡ e.1)
      × (p.processed ≡ e.2)
      × IsWell p.backlog

  abbrev goes_on : DispatchBacklog T → S → ℕ → Bool → Bool
  goes_on b s processed made = not (empty b) && permits budget processed (clock s) made

  loop_stops :
      (fuel : ℕ) (b : DispatchBacklog T) (s : S) (processed : ℕ) (made : Bool)
      → IsWell b
      → goes_on b s processed made ≡ false
      → Serves (pending b, s, processed) (dispatch_loop fuel b s processed made)
  unfolding dispatch_loop
  loop_stops zero b s processed made h e =
      (record { backlog = b; state = s; processed = processed }, refl, refl, refl, refl, h)
  loop_stops (suc fuel) b s processed made h e = (
    record { backlog = b; state = s; processed = processed },
    rw (e, dispatch_loop) refl,
    refl,
    refl,
    refl,
    h,
  )

  loop_step :
      (fuel : ℕ) (b b' : DispatchBacklog T) (item : T) (s : S) (processed : ℕ) (made : Bool)
      → goes_on b s processed made ≡ true
      → pop b ≡ some (item, b')
      → let (s', counted) = consume (size b') item s in
        dispatch_loop (suc fuel) b s processed made
        ≡ dispatch_loop fuel b' s' (if counted then processed + 1 else processed) true
  unfolding dispatch_loop
  loop_step fuel b b' item s processed made e popped = rw (e, dispatch_loop) (rw popped refl)

  loop-Serves :
      (xs : List T) (fuel : ℕ) (b : DispatchBacklog T) (s : S) (processed : ℕ) (made : Bool)
      → IsWell b
      → pending b ≡ xs
      → length xs ≤ fuel
      → Serves (serve xs s processed made) (dispatch_loop fuel b s processed made)
  unfolding serve
  loop-Serves [] fuel b s processed made h e enough =
      rw (← e) (loop_stops fuel b s processed made h (rw ((empty-pending b h).1 e) refl))
  loop-Serves (x ∷ rest) zero b s processed made h e enough = absurd (omega arith)
  loop-Serves (x ∷ rest) (suc fuel) b s processed made h e enough =
      let filled : empty b ≡ false = ground (arith, (empty-pending b h).0, e) in
      elim (Bool-cases (permits budget processed (clock s) made)) [
        | inl go ↦ elim (pop-Pops b h) [
          | inl (none_left, _) ↦ cc (none_left, e)
          | inr (item, b', e', popped, w) ↦
              let same_item : item ≡ x = ground (arith, e, e') in
              let same_rest : pending b' ≡ rest = ground (arith, e, e') in
              rw
                (
                  go,
                  loop_step fuel b b' item s processed made (rw (filled, go) refl) popped,
                  size-pending b' w,
                  same_rest,
                  same_item,
                )
                (loop-Serves rest fuel b' _ _ true w same_rest (omega arith))
        ]
        | inr stop ↦
            rw (stop, ← e) (loop_stops (suc fuel) b s processed made h (rw (filled, stop) refl))
      ]

  -- A pass is `serve` on the pending items: they go to the consumer in their order, from the first
  -- one, and what it does not reach stays pending; nothing throws and the loop ends by its own test.
  pub dispatch_budgeted-Serves :
      (b : DispatchBacklog T) (s : S)
      → IsWell b
      → Serves (serve (pending b) s 0 false) (dispatch_budgeted b s)
  unfolding dispatch_budgeted
  dispatch_budgeted-Serves b s h =
      rw (size-pending b h)
        (loop-Serves (pending b) (length (pending b)) b s 0 false h refl (omega arith))
