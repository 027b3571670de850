-- ===== src/Dispatch/Backlog.antt =====
-- DispatchBacklog of bridge/include/DispatchBacklog.hpp: a batch with the index of its next item.
-- `none` is a std::logic_error. `size_t` subtraction wraps.
use ue4sslua_event_bridge.Base.{
  length, drop, ℕ, zero, suc, ◌+◌, ◌-◌, ◌%◌, ◌^◌, ◌≤◌, ◌<◌, ◌≡◌, refl, ap, ◌∙◌, ◌≢◌, ◌↔◌, ◌⊎◌, inl,
  inr, Bool, true, Option, none, some, List, [], ◌∷◌, arith, ◌==◌, if◌then◌else◌, Bool-cases,
}

pub record DispatchBacklog {ℓ} (T : Type ℓ) : Type ℓ where
  pub batch : List T
  pub index : ℕ

module _ {ℓ} {T : Type ℓ} where
  abbrev pub new_backlog : DispatchBacklog T
  new_backlog = record { batch = []; index = 0 }

  unfoldable pub empty : DispatchBacklog T → Bool
  empty b = b.index == length b.batch

  unfoldable pub size : DispatchBacklog T → ℕ
  size b = (length b.batch + 2 ^ 64 - b.index) % 2 ^ 64

  abbrev pub get_elem? : List T → ℕ → Option T
  get_elem? [] i = none
  get_elem? (x ∷ xs) zero = some x
  get_elem? (x ∷ xs) (suc i) = get_elem? xs i

  -- A read past the end of the vector is undefined; `IsWell` below excludes it.
  unfoldable pub pop : DispatchBacklog T → Option (T × DispatchBacklog T)
  unfolding empty
  pop b = if empty b then none else elim (get_elem? b.batch b.index) [
    | none ↦ none
    | some item ↦ some (item, record b { index = b.index + 1 })
  ]

  unfoldable pub load : DispatchBacklog T → List T → Option (DispatchBacklog T)
  unfolding empty
  load b batch = if empty b then some (record { batch = batch; index = 0 }) else none

  -- The buffer and the backlog afterwards.
  unfoldable pub release_buffer : DispatchBacklog T → Option (List T × DispatchBacklog T)
  unfolding empty
  release_buffer b = if empty b then some (b.batch, new_backlog) else none

  -- What is left to dispatch, in order.
  unfoldable pub pending : DispatchBacklog T → List T
  pending b = drop b.index b.batch

  pub record IsWell (b : DispatchBacklog T) : Type 0 where
    pub within : b.index ≤ length b.batch
    pub small : length b.batch < 2 ^ 64

  drop_next :
      (i : ℕ) (xs : List T)
      → i < length xs
      → (x : T) × (get_elem? xs i ≡ some x) × (drop i xs ≡ x ∷ drop (suc i) xs)
  drop_next i [] h = elim h [ ]
  drop_next zero (x ∷ xs) h = (x, refl, refl)
  drop_next (suc i) (x ∷ xs) h = drop_next i xs (omega arith)

  drop_all : (xs : List T) → drop (length xs) xs ≡ []
  drop_all [] = refl
  drop_all (x ∷ xs) = drop_all xs

  length-drop : (i : ℕ) (xs : List T) → i ≤ length xs → length (drop i xs) ≡ length xs - i
  length-drop zero xs h = omega arith
  length-drop (suc i) [] h = elim h [ ]
  length-drop (suc i) (x ∷ xs) h = omega (arith, length-drop i xs (omega arith))

  -- `size` is the number of pending items, without wrapping.
  pub size-pending : (b : DispatchBacklog T) → IsWell b → size b ≡ length (pending b)
  unfolding size pending
  size-pending b h = omega (arith, h.within, h.small, length-drop b.index b.batch h.within)

  pub empty-pending : (b : DispatchBacklog T) → IsWell b → (empty b ≡ true ↔ pending b ≡ [])
  unfolding empty pending
  empty-pending b h = (
    (λ e. let same : b.index ≡ length b.batch = ground (arith, e) in rw same (drop_all b.batch)),
    λ e. ground (arith, h.within, length-drop b.index b.batch h.within, ap (length {A = T}) e),
  )

  -- The ways in which `pop` ends: refused on an exhausted backlog, or the next pending item.
  abbrev pub Pops : DispatchBacklog T → Option (T × DispatchBacklog T) → Type ℓ
  Pops b r =
      ((pending b ≡ []) × (r ≡ none))
      ⊎ ((x : T) × (b' : DispatchBacklog T) × (pending b ≡ x ∷ pending b')
          × (r ≡ some (x, b'))
          × IsWell b')

  -- `pop` takes the pending items in their order, and throws exactly when none is left.
  pub pop-Pops : (b : DispatchBacklog T) → IsWell b → Pops b (pop b)
  unfolding pop pending
  pop-Pops b h = elim (Bool-cases (empty b)) [
    | inl e ↦ inl ((empty-pending b h).0 e, rw e refl)
    | inr e ↦
        let (x, got, rest) =
          drop_next b.index b.batch (unfold empty in ground (arith, e, h.within)) in
        inr (
          x,
          record b { index = b.index + 1 },
          rest
              ∙ ap (λ (n : ℕ). x ∷ drop n b.batch) {x = suc b.index} {y = b.index + 1}
                  (omega arith),
          rw (e, got) refl,
          record { within = unfold empty in ground (arith, e, h.within); small = h.small },
        )
  ]

  -- A fresh batch is loaded only over an exhausted one, and is then all that is pending.
  pub load-pending :
      (b : DispatchBacklog T) (batch : List T)
      → IsWell b
      → length batch < 2 ^ 64
      → ((pending b ≢ []) × (load b batch ≡ none))
        ⊎ ((b' : DispatchBacklog T) × (pending b ≡ [])
            × (load b batch ≡ some b')
            × (pending b' ≡ batch)
            × IsWell b')
  unfolding load pending
  load-pending b batch h small = elim (Bool-cases (empty b)) [
    | inl e ↦ inr (
      record { batch = batch; index = 0 },
      (empty-pending b h).0 e,
      rw e refl,
      refl,
      record { within = omega arith; small = small },
    )
    | inr e ↦ inl ((λ p. cc (e, (empty-pending b h).1 p)), rw e refl)
  ]
