-- ===== src/Base/Numerals.antt =====
-- std::from_chars in base ten, on the bytes of a text.
use native.Mathlib.Nat.{pow-suc}
use ue4sslua_event_bridge.Base.Tests.{ltb, leb, ◌==◌, if◌then◌else◌, Bool-cases}
use ue4sslua_event_bridge.Base.Lists.{All, Bytes, digits, to_string}
use Prim.Native.Nat.{ℕ, zero, suc, ◌+◌, ◌-◌, ◌*◌, ◌/◌, ◌%◌, ◌^◌, ◌≤◌, ◌<◌}
use mathlib.Core.Path.{◌≡◌, refl, ◌∙◌}
use mathlib.Core.Logic.{◌⊎◌, inl, inr}
use mathlib.Core.Bool.{Bool, true, false, ◌&&◌}
use mathlib.Core.List.{[], ◌∷◌, ◌++◌}
use native.Mathlib.Omega.{arith}

abbrev pub is_digit : ℕ → Bool
is_digit c = leb 48 c && leb c 57

-- The digits in front, read behind `n`, and what follows them.
pub scan_digits : ℕ → Bytes → ℕ × Bytes
scan_digits n [] = (n, [])
scan_digits n (c ∷ s) =
    let more = scan_digits (n * 10 + (c - 48)) s in if is_digit c then more else (n, c ∷ s)

pub data Errc : Type 0 where
  no_error invalid_argument result_out_of_range : Errc

pub record FromChars : Type 0 where
  pub ec : Errc
  pub value : ℕ
  pub rest : Bytes

from_chars_in : ℕ → ℕ → ℕ × Bytes → FromChars
from_chars_in limit before (n, rest) =
    if leb n limit
    then record { ec = no_error; value = n; rest = rest }
    else record { ec = result_out_of_range; value = before; rest = rest }

-- `before` is the value of the result variable, which an error leaves alone; `limit` is the largest
-- value of its type.
unfoldable pub from_chars : ℕ → ℕ → Bytes → FromChars
unfolding from_chars_in scan_digits
from_chars limit before [] = record { ec = invalid_argument; value = before; rest = [] }
from_chars limit before (c ∷ s) =
    if is_digit c
    then from_chars_in limit before (scan_digits 0 (c ∷ s))
    else record { ec = invalid_argument; value = before; rest = c ∷ s }

-- What stands behind a number does not go on with a digit.
abbrev pub StopsDigits : Bytes → Type 0
StopsDigits [] = Unit
StopsDigits (c ∷ s) = is_digit c ≡ false

scan_digits-stop : (n : ℕ) (s : Bytes) → StopsDigits s → scan_digits n s ≡ (n, s)
unfolding scan_digits
scan_digits-stop n [] h = refl
scan_digits-stop n (c ∷ s) h = rw h refl

-- one digit is read onto the number before it
scan_digits_last : (n : ℕ) (s : Bytes) → scan_digits (n / 10) ((48 + n % 10) ∷ s) ≡ scan_digits n s
unfolding scan_digits
scan_digits_last n s = ground arith

scan_digits_one : (n : ℕ) (s : Bytes) → n < 10 → scan_digits 0 ((48 + n % 10) ∷ s) ≡ scan_digits n s
unfolding scan_digits
scan_digits_one n s h = ground arith

scan_digits-digits :
    (fuel n : ℕ) (s : Bytes)
    → n < 10 ^ suc fuel
    → scan_digits 0 (digits (suc fuel) n s) ≡ scan_digits n s
unfolding digits
scan_digits-digits zero n s h = elim (Bool-cases (ltb n 10)) [
  | inl e ↦ rw e (scan_digits_one n s (ground arith))
  | inr e ↦ absurd (ground arith)
]
scan_digits-digits (suc fuel) n s h = elim (Bool-cases (ltb n 10)) [
  | inl e ↦ rw e (scan_digits_one n s (ground arith))
  | inr e ↦ rw e (
      scan_digits-digits fuel (n / 10) ((48 + n % 10) ∷ s) (omega (arith, pow-suc 10 (suc fuel)))
      ∙ scan_digits_last n s)
]

digits_head :
    (fuel n : ℕ) (s : Bytes)
    → (c : ℕ) × (rest : Bytes) × (digits (suc fuel) n s ≡ c ∷ rest) × (is_digit c ≡ true)
unfolding digits
digits_head zero n s = (48 + n % 10, s, ground arith, ground arith)
digits_head (suc fuel) n s = elim (Bool-cases (ltb n 10)) [
  | inl e ↦ (48 + n % 10, s, rw e refl, ground arith)
  | inr e ↦ rw e (digits_head fuel (n / 10) ((48 + n % 10) ∷ s))
]

digits-append : (fuel n : ℕ) (s t : Bytes) → digits fuel n s ++ t ≡ digits fuel n (s ++ t)
unfolding digits
digits-append zero n s t = refl
digits-append (suc fuel) n s t = ground (arith, digits-append fuel (n / 10) ((48 + n % 10) ∷ s) t)

from_chars_head :
    (limit before c : ℕ) (s t : Bytes)
    → t ≡ c ∷ s
    → is_digit c ≡ true
    → from_chars limit before t ≡ from_chars_in limit before (scan_digits 0 t)
unfolding from_chars
from_chars_head limit before c s t e d = rw e (rw d refl)

-- What std::to_string prints, std::from_chars reads back, up to what follows it.
pub from_chars-to_string :
    (limit before n : ℕ) (s : Bytes)
    → n ≤ limit
    → n < 10 ^ 20
    → StopsDigits s
    → from_chars limit before (to_string n ++ s) ≡ record { ec = no_error; value = n; rest = s }
unfolding to_string
from_chars-to_string limit before n s fits small stop =
    let (c, more, e, d) = digits_head 19 n s in
    rw (digits-append 20 n [] s) (
      from_chars_head limit before c more _ e d
      ∙ rw (scan_digits-digits 19 n s small, scan_digits-stop n s stop)
          (unfold from_chars_in in ground arith))

pub to_string-cons : (n : ℕ) → (c : ℕ) × (s : Bytes) × (to_string n ≡ c ∷ s)
unfolding to_string
to_string-cons n = let (c, s, e, d) = digits_head 19 n [] in (c, s, e)

-- A numeral is made of digits.
digits-IsDigits :
    (fuel n : ℕ) (s : Bytes)
    → All (λ c. is_digit c ≡ true) s
    → All (λ c. is_digit c ≡ true) (digits fuel n s)
unfolding digits
digits-IsDigits zero n s all = all
digits-IsDigits (suc fuel) n s all = elim (Bool-cases (ltb n 10)) [
  | inl e ↦ rw e (ground arith, all)
  | inr e ↦ rw e (digits-IsDigits fuel (n / 10) ((48 + n % 10) ∷ s) (ground arith, all))
]

pub to_string-IsDigits : (n : ℕ) → All (λ c. is_digit c ≡ true) (to_string n)
unfolding to_string
to_string-IsDigits n = digits-IsDigits 20 n [] tt

digits_first :
    (fuel n : ℕ) (s : Bytes)
    → n < 10 ^ suc fuel
    → 0 < n
    → (c : ℕ) × (rest : Bytes) × (digits (suc fuel) n s ≡ c ∷ rest) × ((c == 48) ≡ false)
unfolding digits
digits_first zero n s h pos = (48 + n % 10, s, ground arith, ground arith)
digits_first (suc fuel) n s h pos = elim (Bool-cases (ltb n 10)) [
  | inl e ↦ (48 + n % 10, s, rw e refl, ground arith)
  | inr e ↦ rw e (
      digits_first fuel (n / 10) ((48 + n % 10) ∷ s) (omega (arith, pow-suc 10 (suc fuel)))
        (ground arith))
]

-- A numeral of more than one digit does not begin with 0.
pub to_string_head :
    (n : ℕ)
    → n < 10 ^ 20
    → (to_string n ≡ 48 ∷ [])
      ⊎ ((c : ℕ) × (rest : Bytes) × (to_string n ≡ c ∷ rest) × ((c == 48) ≡ false))
unfolding to_string
to_string_head zero h = inl (unfold digits in refl)
to_string_head (suc n) h = inr (digits_first 19 (suc n) [] h (omega arith))
