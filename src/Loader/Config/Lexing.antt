-- ===== src/Loader/Config/Lexing.antt =====
-- White space, marks, strings and integers, read by the parser of bootstrap/include/LoaderConfig.hpp.
use ue4sslua_event_bridge.Base.{
  All, Bytes, bytes_beq, is_digit, from_chars, ℕ, ◌≡◌, refl, sym, ap, ◌∙◌, Bool, true, false, not,
  ◌&&◌, ◌||◌, none, some, [], ◌∷◌, ◌++◌, arith, ltb, ◌==◌, if◌then◌else◌, ==_refl, if_false,
}
use ue4sslua_event_bridge.Loader.Config.{
  is_space, skip_space, consume_here, consume, read_string, string_here, json_string, take_digits,
  integer_of, integer_here, json_integer,
}

abbrev pub IsBlank : Bytes → Type 0
IsBlank w = All (λ c. is_space c ≡ true) w

-- A character that a string holds as it is.
abbrev pub plain : ℕ → Bool
plain c = not (c == 34) && not (c == 92 || ltb c 0x20)

abbrev pub IsPlain : Bytes → Type 0
IsPlain s = All (λ c. plain c ≡ true) s

skip_space-blank : (w s : Bytes) → IsBlank w → skip_space (w ++ s) ≡ skip_space s
unfolding skip_space
skip_space-blank [] s blank = refl
skip_space-blank (c ∷ w) s (h, blank) =
    ap (λ b. if b then skip_space (w ++ s) else c ∷ (w ++ s)) h ∙ skip_space-blank w s blank

pub skip_space_stop : (c : ℕ) (s : Bytes) → is_space c ≡ false → skip_space (c ∷ s) ≡ c ∷ s
unfolding skip_space
skip_space_stop c s h = if_false (is_space c) (skip_space s) (c ∷ s) h

pub skip_space_to :
    (w : Bytes) (c : ℕ) (s : Bytes)
    → IsBlank w
    → is_space c ≡ false
    → skip_space (w ++ (c ∷ s)) ≡ c ∷ s
skip_space_to w c s blank h = skip_space-blank w (c ∷ s) blank ∙ skip_space_stop c s h

append_nil : (s : Bytes) → s ++ [] ≡ s
append_nil [] = refl
append_nil (c ∷ s) = ap (λ t. c ∷ t) (append_nil s)

pub skip_space_all : (w : Bytes) → IsBlank w → skip_space w ≡ []
unfolding skip_space
skip_space_all w blank = ap skip_space (sym (append_nil w)) ∙ skip_space-blank w [] blank

pub consume_at : (c : ℕ) (s : Bytes) → is_space c ≡ false → consume c (c ∷ s) ≡ (true, s)
unfolding consume consume_here
consume_at c s h =
    ap (consume_here c) (skip_space_stop c s h)
    ∙ ap (λ b. if b then (true, s) else (false, c ∷ s)) (==_refl c)

pub consume_other :
    (v c : ℕ) (s : Bytes)
    → is_space c ≡ false
    → (c == v) ≡ false
    → consume v (c ∷ s) ≡ (false, c ∷ s)
unfolding consume consume_here
consume_other v c s h other =
    ap (consume_here v) (skip_space_stop c s h) ∙ if_false (c == v) (true, s) (false, c ∷ s) other

read_string_plain : (s t : Bytes) → IsPlain s → read_string (s ++ (34 ∷ t)) ≡ some (s, t)
unfolding read_string
read_string_plain [] t all = refl
read_string_plain (c ∷ s) t (h, all) =
    let quote : (c == 34) ≡ false = ground (arith, h) in
    let control : (c == 92 || ltb c 0x20) ≡ false = ground (arith, h) in
    if_false (c == 34) _ _ quote
    ∙ if_false (c == 92 || ltb c 0x20) none _ control
    ∙ ap (λ o. elim o [ none ↦ none | some (value, more) ↦ some (c ∷ value, more) ])
        (read_string_plain s t all)

pub json_string_plain : (s t : Bytes) → IsPlain s → json_string (34 ∷ (s ++ (34 ∷ t))) ≡ some (s, t)
unfolding json_string string_here
json_string_plain s t all =
    ap string_here (skip_space_stop 34 (s ++ (34 ∷ t)) refl) ∙ read_string_plain s t all

take_digits_none :
    (w : Bytes) (c : ℕ) (s : Bytes)
    → IsBlank w
    → is_digit c ≡ false
    → take_digits (w ++ (c ∷ s)) ≡ ([], w ++ (c ∷ s))
unfolding take_digits
take_digits_none [] c s blank h = if_false (is_digit c) _ _ h
take_digits_none (d ∷ w) c s (e, blank) h = if_false (is_digit d) _ _ (ground (arith, e))

pub json_integer_one :
    (w : Bytes) (c : ℕ) (s : Bytes)
    → IsBlank w
    → is_digit c ≡ false
    → json_integer (49 ∷ (w ++ (c ∷ s))) ≡ some (1, w ++ (c ∷ s))
unfolding json_integer take_digits integer_here integer_of from_chars
json_integer_one w c s blank h =
    ap (λ t. integer_here (take_digits t)) (skip_space_stop 49 (w ++ (c ∷ s)) refl)
    ∙ ap (λ p. integer_here (49 ∷ p.0, p.1)) (take_digits_none w c s blank h)

pub bytes_beq_refl : (s : Bytes) → bytes_beq s s ≡ true
unfolding bytes_beq
bytes_beq_refl [] = refl
bytes_beq_refl (c ∷ s) = ap (λ b. b && bytes_beq s s) (==_refl c) ∙ bytes_beq_refl s
