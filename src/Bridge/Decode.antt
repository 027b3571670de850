-- ===== src/Bridge/Decode.antt =====
-- The arguments of the Lua functions of bridge/src/BridgeMod.cpp. An integer of 64 bits is its
-- pattern.
use ue4sslua_event_bridge.Base.{
  length, All, Bytes, is_nil, text, to_string, no_error, invalid_argument, result_out_of_range,
  FromChars, from_chars-to_string, from_chars, ℕ, zero, suc, ◌+◌, ◌-◌, ◌*◌, ◌/◌, ◌%◌, ◌^◌, ◌≤◌, ◌<◌,
  ◌≡◌, refl, sym, ap, ◌∙◌, subst, inl, inr, Bool, true, false, not, ◌&&◌, ◌||◌, Option, none, some,
  List, [], ◌∷◌, ◌++◌, arith, ltb, leb, ◌==◌, if◌then◌else◌, Bool-cases, Option-cases,
  some-injective, if_all, if_false,
}
use ue4sslua_event_bridge.Backend.Engine.{
  TriggerEvent, no_trigger, triggered, started, ongoing, canceled, completed,
}

-- The results of lua.get_integer(1), in the order of the calls, and how many were taken. The call
-- belongs to UE4SS, which is not part of the repository.
pub record Args : Type 0 where
  pub integers : ℕ → ℕ
  pub taken : ℕ

unfoldable pub get_integer : Args → ℕ × Args
get_integer args = (args.integers args.taken, record args { taken = args.taken + 1 })

-- A signed 64-bit pattern below zero.
abbrev pub is_negative64 : ℕ → Bool
is_negative64 n = leb (2 ^ 63) n

-- The loop that takes the words.
unfoldable pub get_words : ℕ → Args → List ℕ × Args
get_words zero args = ([], args)
get_words (suc n) args =
    let (word, rest) = get_integer args in
    let (words, more) = get_words n rest in (word ∷ words, more)

-- words[index], 0 behind the words, since the array is zeroed
unfoldable pub word_at : ℕ → List ℕ → ℕ
word_at n [] = 0
word_at zero (w ∷ words) = w
word_at (suc n) (w ∷ words) = word_at n words

unfoldable pub byte_at : List ℕ → ℕ → ℕ
byte_at words index = word_at (index / 8) words / 2 ^ (index % 8 * 8) % 256

-- The bytes with that of `index` in front.
abbrev next : List ℕ → ℕ → Option Bytes → Option Bytes
next words index none = none
next words index (some rest) = some (byte_at words index ∷ rest)

-- The loop over the bytes, `count` of them from `index`; none at a zero byte.
unfoldable pub decode_bytes : List ℕ → ℕ → ℕ → Option Bytes
decode_bytes words zero index = some []
decode_bytes words (suc count) index =
    if byte_at words index == 0
    then none
    else next words index (decode_bytes words count (index + 1))

pub record Decoded : Type 0 where
  pub success : Bool
  pub value : Bytes
  pub error : Bytes
  pub rest : Args

decoded : Bytes → Args → Option Bytes → Decoded
decoded description rest none = record {
  success = false;
  value = [];
  error = text "invalid encoded " ++ (description ++ text " byte");
  rest = rest;
}
decoded description rest (some value) = record {
  success = true;
  value = value;
  error = [];
  rest = rest;
}

-- The value is empty where the code leaves it half written.
unfoldable pub decode_packed_text : Args → ℕ → ℕ → Bool → Bytes → Decoded
unfolding decoded
decode_packed_text args word_count maximum_length allow_empty description =
    let (count, rest) = get_integer args in
    if (is_negative64 count || (not allow_empty && count == 0)) || ltb maximum_length count
    then record {
      success = false;
      value = [];
      error = text "invalid encoded " ++ (description ++ text " length");
      rest = rest;
    }
    else let (words, rest') = get_words word_count rest in
      decoded description rest' (decode_bytes words count 0)

unfoldable pub decode_packed_path : Args → Decoded
decode_packed_path args = decode_packed_text args 64 512 false (text "object path")

unfoldable pub parse_phase : ℕ → TriggerEvent × Bytes
parse_phase phase =
    if phase == 1
    then (triggered, text "Triggered")
    else if phase == 2
    then (started, text "Started")
    else if phase == 3
    then (ongoing, text "Ongoing")
    else if phase == 4
    then (canceled, text "Canceled")
    else if phase == 5
    then (completed, text "Completed")
    else (no_trigger, [])

token_of : FromChars → Option ℕ
token_of r = elim r.ec [
  | no_error ↦ if is_nil r.rest && not (r.value == 0) then some r.value else none
  | invalid_argument ↦ none
  | result_out_of_range ↦ none
]

unfoldable pub parse_token : Bytes → Option ℕ
unfolding token_of
parse_token value = token_of (from_chars (2 ^ 64 - 1) 0 value)

abbrev pub IsText : Bytes → Type 0
IsText s = All (λ c. (0 < c) × (c < 256)) s

decode_bytes-IsText :
    (words : List ℕ) (count index : ℕ) (value : Bytes)
    → decode_bytes words count index ≡ some value
    → (length value ≡ count) × IsText value
unfolding decode_bytes
decode_bytes-IsText words zero index value e =
    subst (λ v. (length v ≡ 0) × IsText v) (some-injective e) (refl, tt)
decode_bytes-IsText words (suc count) index value e = elim (Bool-cases (byte_at words index == 0)) [
  | inl z ↦ absurd (
      ground (
        arith,
        sym (
              ap (λ b. if b then none else next words index (decode_bytes words count (index + 1)))
                z)
            ∙ e,
      ))
  | inr nz ↦
      let e' : next words index (decode_bytes words count (index + 1)) ≡ some value =
        sym (if_false (byte_at words index == 0) none _ nz) ∙ e in
      elim (Option-cases (decode_bytes words count (index + 1))) [
        | inl none_left ↦ absurd (ground (arith, sym (ap (next words index) none_left) ∙ e'))
        | inr (rest, more) ↦
            let (len, all) = decode_bytes-IsText words count (index + 1) rest more in
            subst (λ v. (length v ≡ suc count) × IsText v)
              (some-injective (sym (ap (next words index) more) ∙ e'))
              (ap (λ k. suc k) len, ((unfold byte_at in ground (arith, nz)), all))
      ]
]

IsAccepted : ℕ → ℕ → Bool → Decoded → Type 0
IsAccepted count maximum_length allow_empty result =
    result.success ≡ true
    → (length result.value ≡ count)
      × (count ≤ maximum_length)
      × (allow_empty ≡ false → 0 < count)
      × IsText result.value

decoded-IsAccepted :
    (count maximum_length : ℕ) (allow_empty : Bool) (description : Bytes) (rest : Args)
    (words : List ℕ) (o : Option Bytes)
    → decode_bytes words count 0 ≡ o
    → count ≤ maximum_length
    → (allow_empty ≡ false → 0 < count)
    → IsAccepted count maximum_length allow_empty (decoded description rest o)
unfolding decoded IsAccepted
decoded-IsAccepted count maximum_length allow_empty description rest words none e fits some_byte h =
    absurd (ground (arith, h))
decoded-IsAccepted count maximum_length allow_empty description rest words (some value) e fits
      some_byte h =
    let (len, all) = decode_bytes-IsText words count 0 value e in (len, fits, some_byte, all)

-- What `decode_packed_text` accepts has the length that was announced, at most the largest one and at
-- least one byte unless an empty text is allowed, and holds bytes other than 0 only.
pub decode_packed_text_sound :
    (args : Args) (word_count maximum_length : ℕ) (allow_empty : Bool) (description : Bytes)
    → (decode_packed_text args word_count maximum_length allow_empty description).success ≡ true
    → let value =
        (decode_packed_text args word_count maximum_length allow_empty description).value in
      (length value ≡ args.integers args.taken)
      × (args.integers args.taken ≤ maximum_length)
      × (allow_empty ≡ false → 0 < args.integers args.taken)
      × IsText value
unfolding decode_packed_text get_integer IsAccepted
decode_packed_text_sound args word_count maximum_length allow_empty description =
    let count = args.integers args.taken in
    if_all (IsAccepted count maximum_length allow_empty)
      ((is_negative64 count || (not allow_empty && count == 0)) || ltb maximum_length count) _ _
      (λ bad h. absurd (ground (arith, h)))
      (λ good.
        decoded-IsAccepted count maximum_length allow_empty description _ _ _ refl
          (ground (arith, good)) (λ never. ground (arith, good, never)))

append_nil : (s : Bytes) → s ++ [] ≡ s
append_nil [] = refl
append_nil (c ∷ s) = ap (λ t. c ∷ t) (append_nil s)

token_of_whole :
    (token : ℕ)
    → 0 < token
    → token_of (record { ec = no_error; value = token; rest = [] }) ≡ some token
unfolding token_of
token_of_whole token positive = ground (arith, positive)

-- A printed token that is not 0 and has 64 bits parses to itself.
pub parse_token-to_string :
    (token : ℕ) → 0 < token → token < 2 ^ 64 → parse_token (to_string token) ≡ some token
unfolding parse_token
parse_token-to_string token positive small =
    ap (λ s. token_of (from_chars (2 ^ 64 - 1) 0 s)) (sym (append_nil (to_string token)))
    ∙ ap token_of (
        from_chars-to_string (2 ^ 64 - 1) 0 token [] (omega (arith, small)) (omega (arith, small))
          tt)
    ∙ token_of_whole token positive
