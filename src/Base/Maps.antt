-- ===== src/Base/Maps.antt =====
-- std::unordered_map as an association list. The standard leaves the order of iteration open; the
-- list's order is one such order.
use mathlib.Core.Path.{◌≡◌, refl, sym, ap, ◌∙◌}
use mathlib.Core.Logic.{inl, inr}
use mathlib.Core.Bool.{Bool, true}
use mathlib.Core.List.{List, [], ◌∷◌}
use mathlib.Core.Option.{Option, none, some}
use native.Mathlib.Omega.{arith}
use ue4sslua_event_bridge.Base.Tests.{Eq, if◌then◌else◌, is_some, Bool-cases, some-injective}

abbrev pub Map {ℓ κ} : Type ℓ → Type κ → Type (ℓ ⊔ κ)
Map K V = List (K × V)

module _ {ℓ κ} {K : Type ℓ} {V : Type κ} ⦃e : Eq K⦄ where
  unfoldable pub lookup : K → Map K V → Option V
  lookup k [] = none
  lookup k ((j, v) ∷ m) = if e.beq j k then some v else lookup k m

  -- insert_or_assign
  unfoldable pub insert : K → V → Map K V → Map K V
  insert k v [] = (k, v) ∷ []
  insert k v ((j, w) ∷ m) = if e.beq j k then (k, v) ∷ m else (j, w) ∷ insert k v m

  unfoldable pub erase : K → Map K V → Map K V
  erase k [] = []
  erase k ((j, v) ∷ m) = let rest = erase k m in if e.beq j k then rest else (j, v) ∷ rest

  abbrev pub contains : K → Map K V → Bool
  contains k m = is_some (lookup k m)

  -- try_emplace, and emplace: a key that is there keeps its value
  unfoldable pub try_emplace : K → V → Map K V → Map K V
  try_emplace k v m = if contains k m then m else insert k v m

  pub lookup-insert :
      (k j : K) (v : V) (m : Map K V)
      → lookup j (insert k v m) ≡ (if e.beq k j then some v else lookup j m)
  unfolding lookup insert
  lookup-insert k j v [] = refl
  lookup-insert k j v ((i, w) ∷ m) =
      ground (arith, e.beq_iff k j, e.beq_iff i k, e.beq_iff i j, lookup-insert k j v m)

  pub lookup-erase :
      (k j : K) (m : Map K V) → lookup j (erase k m) ≡ (if e.beq k j then none else lookup j m)
  unfolding lookup erase
  lookup-erase k j [] = ground arith
  lookup-erase k j ((i, w) ∷ m) =
      ground (arith, e.beq_iff k j, e.beq_iff i k, e.beq_iff i j, lookup-erase k j m)

  pub lookup-try_emplace :
      (k j : K) (v : V) (m : Map K V)
      → lookup j (try_emplace k v m)
        ≡ (if e.beq k j then (if is_some (lookup j m) then lookup j m else some v) else lookup j m)
  unfolding try_emplace
  lookup-try_emplace k j v m = ground (arith, lookup-insert k j v m, e.beq_iff k j)

  -- an iteration that erases the entries that fail the test
  unfoldable pub map_keep : (V → Bool) → Map K V → Map K V
  map_keep p [] = []
  map_keep p ((j, v) ∷ m) = let rest = map_keep p m in if p v then (j, v) ∷ rest else rest

  pub lookup-map_keep :
      (p : V → Bool) (k : K) (v : V) (m : Map K V) → lookup k (map_keep p m) ≡ some v → p v ≡ true
  unfolding lookup map_keep
  lookup-map_keep p k v [] h = absurd (ground (arith, h))
  lookup-map_keep p k v ((j, w) ∷ m) h = elim (Bool-cases (p w)) [
    | inr out ↦
        lookup-map_keep p k v m
          (sym (ap (λ c. lookup k (if c then (j, w) ∷ map_keep p m else map_keep p m)) out) ∙ h)
    | inl stays ↦
        let kept =
          sym (ap (λ c. lookup k (if c then (j, w) ∷ map_keep p m else map_keep p m)) stays) ∙ h in
        elim (Bool-cases (e.beq j k)) [
          | inl same ↦
              ap p (
                sym (
                  some-injective
                    (sym (ap (λ c. if c then some w else lookup k (map_keep p m)) same) ∙ kept)))
              ∙ stays
          | inr other ↦
              lookup-map_keep p k v m
                (sym (ap (λ c. if c then some w else lookup k (map_keep p m)) other) ∙ kept)
        ]
  ]

pub ruleset map_laws = (lookup-insert, lookup-erase)
