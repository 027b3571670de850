-- ===== src/Base/Lists.antt =====
-- Lists measured by native numbers, bytes of texts and decimal numerals (std::to_string).
use Prim.Native.Char.{code}
use Prim.Native.Nat.{ℕ, zero, suc, ◌+◌, ◌/◌, ◌%◌, ◌≤◌}
use Prim.Native.String.{String}
use mathlib.Core.Path.{◌≡◌, sym, subst}
use mathlib.Core.Logic.{inl, inr}
use mathlib.Core.Bool.{Bool, true, false, ◌&&◌}
use mathlib.Core.List.{List, [], ◌∷◌, ◌++◌}
use native.Mathlib.Omega.{arith}
use ue4sslua_event_bridge.Base.Tests.{Bool-cases, if◌then◌else◌, ltb, ◌==◌}

module _ {ℓ} {A : Type ℓ} where
  abbrev pub length : List A → ℕ
  length [] = 0
  length (x ∷ xs) = suc (length xs)

  pub length-append : (xs ys : List A) → length (xs ++ ys) ≡ length xs + length ys
  length-append [] ys = omega arith
  length-append (x ∷ xs) ys = omega (arith, length-append xs ys)

  abbrev pub take : ℕ → List A → List A
  take zero xs = []
  take (suc n) [] = []
  take (suc n) (x ∷ xs) = x ∷ take n xs

  abbrev pub drop : ℕ → List A → List A
  drop zero xs = xs
  drop (suc n) [] = []
  drop (suc n) (x ∷ xs) = drop n xs

  abbrev pub replicate : ℕ → A → List A
  replicate zero a = []
  replicate (suc n) a = a ∷ replicate n a

  pub length-drop_le : (n : ℕ) (xs : List A) → length (drop n xs) ≤ length xs
  length-drop_le zero xs = omega arith
  length-drop_le (suc n) [] = omega arith
  length-drop_le (suc n) (x ∷ xs) = omega (arith, length-drop_le n xs)

  -- std::erase_if with the test negated: what passes stays, in order.
  abbrev pub keep_if : (A → Bool) → List A → List A
  keep_if p [] = []
  keep_if p (x ∷ xs) = let rest = keep_if p xs in if p x then x ∷ rest else rest

  pub length-keep_if_le : (p : A → Bool) (xs : List A) → length (keep_if p xs) ≤ length xs
  length-keep_if_le p [] = omega arith
  length-keep_if_le p (x ∷ xs) = ground (arith, length-keep_if_le p xs)

  -- A predicate on every entry.
  abbrev pub All {κ} : (A → Type κ) → List A → Type κ
  All P [] = Unit
  All P (x ∷ xs) = P x × All P xs

abbrev pub Bytes : Type 0
Bytes = List ℕ

-- The bytes of an ASCII literal. Shut, so that a message stays one term.
unfoldable pub text : String → Bytes
text String.[] = []
text (String.◌∷◌ c s) = code c ∷ text s

-- The decimal digits of `n` in front of `rest`; the fuel is enough when it exceeds `n`.
unfoldable pub digits : ℕ → ℕ → Bytes → Bytes
digits zero n rest = rest
digits (suc fuel) n rest =
    let out = (48 + n % 10) ∷ rest in
    let more = digits fuel (n / 10) out in if ltb n 10 then out else more

-- std::to_string of an unsigned number of at most 64 bits, which has at most 20 digits.
unfoldable pub to_string : ℕ → Bytes
unfolding digits
to_string n = digits 20 n []

unfoldable pub bytes_beq : Bytes → Bytes → Bool
bytes_beq [] [] = true
bytes_beq (a ∷ x) (b ∷ y) = (a == b) && bytes_beq x y
bytes_beq _ _ = false

abbrev pub is_nil {ℓ} : {A : Type ℓ} → List A → Bool
is_nil [] = true
is_nil (x ∷ xs) = false

pub All-keep_if {ℓ} :
    {A : Type ℓ} (p : A → Bool) (xs : List A) → All (λ x. p x ≡ true) (keep_if p xs)
All-keep_if p [] = tt
All-keep_if p (x ∷ xs) = elim (Bool-cases (p x)) [
  | inl e ↦
      subst (λ c. All (λ y. p y ≡ true) (if c then x ∷ keep_if p xs else keep_if p xs)) (sym e)
        (e, All-keep_if p xs)
  | inr e ↦
      subst (λ c. All (λ y. p y ≡ true) (if c then x ∷ keep_if p xs else keep_if p xs)) (sym e)
        (All-keep_if p xs)
]

pub All-map {ℓ κ μ} :
    {A : Type ℓ} {P : A → Type κ} {Q : A → Type μ} (f : (x : A) → P x → Q x) (xs : List A)
    → All P xs
    → All Q xs
All-map f [] all = tt
All-map f (x ∷ xs) (p, all) = (f x p, All-map f xs all)
