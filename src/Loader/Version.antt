-- ===== src/Loader/Version.antt =====
-- SemanticVersion, parse_semantic_version and version_text of
-- bootstrap/include/CandidateDiscovery.hpp.
use ue4sslua_event_bridge.Base.{
  All, Bytes, is_nil, to_string, is_digit, no_error, invalid_argument, result_out_of_range,
  FromChars, from_chars-to_string, to_string-IsDigits, to_string_head, from_chars, ℕ, zero, suc,
  ◌^◌, ◌≤◌, ◌<◌, ◌≡◌, refl, sym, ap, ◌∙◌, subst, inl, inr, Bool, true, false, not, ◌&&◌, ◌||◌,
  Option, none, some, List, [], ◌∷◌, ◌++◌, arith, ltb, ◌==◌, if◌then◌else◌,
}

pub record SemanticVersion : Type 0 where
  pub major : ℕ
  pub minor : ℕ
  pub patch : ℕ

-- The order that the defaulted `<=>` gives.
unfoldable pub version_less : SemanticVersion → SemanticVersion → Bool
version_less a b =
    ltb a.major b.major
    || (a.major == b.major && (ltb a.minor b.minor || (a.minor == b.minor && ltb a.patch b.patch)))

unfoldable pub version_beq : SemanticVersion → SemanticVersion → Bool
version_beq a b = a.major == b.major && (a.minor == b.minor && a.patch == b.patch)

abbrev uint32_max : ℕ
uint32_max = 0xFFFFFFFF

-- The text in front of the first dot, and what follows the dot, if there is one.
pub split_dot : Bytes → Bytes × Option Bytes
split_dot [] = ([], none)
split_dot (c ∷ s) =
    let (field, more) = split_dot s in if c == 46 then ([], some s) else (c ∷ field, more)

field_value : FromChars → Option ℕ
field_value r = elim r.ec [
  | no_error ↦ if is_nil r.rest then some r.value else none
  | invalid_argument ↦ none
  | result_out_of_range ↦ none
]

-- One field: not empty, no leading zero, a number of 32 bits and nothing behind it.
pub parse_field : Bytes → Option ℕ
parse_field [] = none
parse_field (c ∷ s) =
    if not (is_nil s) && c == 48 then none else field_value (from_chars uint32_max 0 (c ∷ s))

-- One turn of the loop: `n` fields are still to come, and `later` reads them.
next_fields : (Bytes → Option (List ℕ)) → ℕ → Bytes × Option Bytes → Option (List ℕ)
next_fields later n (field, none) =
    if n == 0 then elim (parse_field field) [ none ↦ none | some v ↦ some (v ∷ []) ] else none
next_fields later n (field, some rest) = if n == 0 then none else elim (parse_field field) [
  | none ↦ none
  | some v ↦ elim (later rest) [ none ↦ none | some vs ↦ some (v ∷ vs) ]
]

-- The fields, of which the last has no dot behind it.
parse_fields : ℕ → Bytes → Option (List ℕ)
parse_fields zero s = none
parse_fields (suc n) s = next_fields (parse_fields n) n (split_dot s)

pub version_of : Option (List ℕ) → Option SemanticVersion
version_of (some (a ∷ b ∷ c ∷ [])) = some (record { major = a; minor = b; patch = c })
version_of _ = none

unfoldable pub parse_semantic_version : Bytes → Option SemanticVersion
unfolding version_of parse_fields next_fields parse_field field_value split_dot
parse_semantic_version s = version_of (parse_fields 3 s)

unfoldable pub version_text : SemanticVersion → Bytes
version_text v = to_string v.major ++ (46 ∷ (to_string v.minor ++ (46 ∷ to_string v.patch)))

-- The dot ends a field of digits; without a dot the field goes to the end.
split_dot-digits :
    (s t : Bytes)
    → All (λ c. is_digit c ≡ true) s
    → (split_dot (s ++ (46 ∷ t)) ≡ (s, some t)) × (split_dot s ≡ (s, none))
unfolding split_dot
split_dot-digits [] t all = (refl, refl)
split_dot-digits (c ∷ s) t (d, all) =
    let (dotted, last) = split_dot-digits s t all in
    let other : (c == 46) ≡ false = ground (arith, d) in
    (rw (dotted, other) refl, rw (last, other) refl)

append_nil : (s : Bytes) → s ++ [] ≡ s
append_nil [] = refl
append_nil (c ∷ s) = ap (λ t. c ∷ t) (append_nil s)

-- A number fills the field: it is read to its end, and no zero stands in front of it.
parse_field_full :
    (n c : ℕ) (s : Bytes)
    → (not (is_nil s) && c == 48) ≡ false
    → from_chars uint32_max 0 (c ∷ s) ≡ record { ec = no_error; value = n; rest = [] }
    → parse_field (c ∷ s) ≡ some n
unfolding parse_field field_value
parse_field_full n c s head number =
    ap (λ b. if b then none else field_value (from_chars uint32_max 0 (c ∷ s))) head
    ∙ ap field_value number

small : (n : ℕ) → n ≤ uint32_max → n < 10 ^ 20
small n fits = omega (arith, fits)

from_chars_field :
    (n : ℕ)
    → n ≤ uint32_max
    → from_chars uint32_max 0 (to_string n) ≡ record { ec = no_error; value = n; rest = [] }
from_chars_field n fits =
    ap (from_chars uint32_max 0) (sym (append_nil (to_string n)))
    ∙ from_chars-to_string uint32_max 0 n [] fits (small n fits) tt

pub parse_field-to_string : (n : ℕ) → n ≤ uint32_max → parse_field (to_string n) ≡ some n
parse_field-to_string n fits =
    let number = from_chars_field n fits in
    elim (to_string_head n (small n fits)) [
      | inl z ↦
          subst (λ t. parse_field t ≡ some n) (sym z)
            (parse_field_full n 48 [] refl (
              subst
                (λ t. from_chars uint32_max 0 t ≡ record { ec = no_error; value = n; rest = [] }) z
                number))
      | inr (c, s, e, head) ↦
          subst (λ t. parse_field t ≡ some n) (sym e)
            (parse_field_full n c s (ground (arith, head)) (
              subst
                (λ t. from_chars uint32_max 0 t ≡ record { ec = no_error; value = n; rest = [] }) e
                number))
    ]

never_zero : (n : ℕ) → (suc n == 0) ≡ false
never_zero n = ground arith

parse_fields_dot :
    (n v : ℕ) (t : Bytes) (vs : List ℕ)
    → v ≤ uint32_max
    → parse_fields (suc n) t ≡ some vs
    → parse_fields (suc (suc n)) (to_string v ++ (46 ∷ t)) ≡ some (v ∷ vs)
unfolding parse_fields next_fields
parse_fields_dot n v t vs fits rest =
    ap (next_fields (parse_fields (suc n)) (suc n))
      (split_dot-digits (to_string v) t (to_string-IsDigits v)).0
    ∙ rw (parse_field-to_string v fits, never_zero n)
        (ap (λ o. elim o [ none ↦ none | some ws ↦ some (v ∷ ws) ]) rest)

parse_fields_last : (v : ℕ) → v ≤ uint32_max → parse_fields 1 (to_string v) ≡ some (v ∷ [])
unfolding parse_fields next_fields
parse_fields_last v fits =
    ap (next_fields (parse_fields 0) 0) (split_dot-digits (to_string v) [] (to_string-IsDigits v)).1
    ∙ rw (parse_field-to_string v fits) refl

abbrev pub IsVersion : SemanticVersion → Type 0
IsVersion v = (v.major ≤ uint32_max) × (v.minor ≤ uint32_max) × (v.patch ≤ uint32_max)

-- The text of a version whose numbers have 32 bits parses to that version.
pub parse_semantic_version-version_text :
    (v : SemanticVersion) → IsVersion v → parse_semantic_version (version_text v) ≡ some v
unfolding parse_semantic_version version_text
parse_semantic_version-version_text v (major, minor, patch) =
    ap version_of (
      parse_fields_dot 1 v.major _ _ major
        (parse_fields_dot 0 v.minor _ _ minor (parse_fields_last v.patch patch)))
    ∙ refl
