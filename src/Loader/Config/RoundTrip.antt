-- ===== src/Loader/Config/RoundTrip.antt =====
-- A configuration as its documentation writes it, with any white space, through the parser of
-- bootstrap/include/LoaderConfig.hpp.
use ue4sslua_event_bridge.Base.{
  length, All-map, Bytes, is_nil, text, to_string, bytes_beq, is_digit, to_string-IsDigits,
  from_chars, ℕ, suc, ◌≤◌, ◌≡◌, refl, sym, ap, ◌∙◌, subst, inl, inr, Bool, true, false, not, ◌&&◌,
  Option, none, some, [], ◌∷◌, ◌++◌, arith, ltb, ◌==◌, if◌then◌else◌, ==→≡, Bool-cases, if_false,
}
use ue4sslua_event_bridge.Loader.Version.{
  SemanticVersion, parse_semantic_version, version_text, IsVersion,
  parse_semantic_version-version_text,
}
use ue4sslua_event_bridge.Loader.Config.{
  LoaderConfig, skip_space, consume, no_members, read_members, exact_config, finish_config,
  config_of, parse_object, parse, without_mark, parse_loader_config,
}
use ue4sslua_event_bridge.Loader.Config.Lexing.{
  IsBlank, plain, IsPlain, skip_space_to, skip_space_all, consume_at, bytes_beq_refl,
}
use ue4sslua_event_bridge.Loader.Config.Reading.{
  Layout, IsBlankLayout, members, with_mark, configuration, length-cons, read_configuration,
}

valid_config : Option SemanticVersion → LoaderConfig
valid_config version = record { valid = true; exact_version = version; error = [] }

-- What a version string asks for.
abbrev pub Asks : Bytes → Option SemanticVersion → Type 0
Asks s none = s ≡ text "auto"
Asks s (some v) = IsVersion v × (s ≡ version_text v)

IsPlain-append : (s t : Bytes) → IsPlain s → IsPlain t → IsPlain (s ++ t)
IsPlain-append [] t all more = more
IsPlain-append (c ∷ s) t (h, all) more = (h, IsPlain-append s t all more)

digit-plain : (c : ℕ) → is_digit c ≡ true → plain c ≡ true
digit-plain c h = ground (arith, h)

to_string-IsPlain : (n : ℕ) → IsPlain (to_string n)
to_string-IsPlain n = All-map digit-plain (to_string n) (to_string-IsDigits n)

version_text-IsPlain : (v : SemanticVersion) → IsPlain (version_text v)
unfolding version_text
version_text-IsPlain v = IsPlain-append (to_string v.major) _ (to_string-IsPlain v.major) (
  refl,
  IsPlain-append (to_string v.minor) _ (to_string-IsPlain v.minor)
      (refl, to_string-IsPlain v.patch),
)

Asks-IsPlain : (s : Bytes) (wanted : Option SemanticVersion) → Asks s wanted → IsPlain s
unfolding text
Asks-IsPlain s none e = subst IsPlain (sym e) (refl, (refl, (refl, (refl, tt))))
Asks-IsPlain s (some v) (h, e) = subst IsPlain (sym e) (version_text-IsPlain v)

bytes_beq→≡ : (s t : Bytes) → bytes_beq s t ≡ true → s ≡ t
unfolding bytes_beq
bytes_beq→≡ [] [] h = refl
bytes_beq→≡ [] (d ∷ t) h = absurd (ground (arith, h))
bytes_beq→≡ (c ∷ s) [] h = absurd (ground (arith, h))
bytes_beq→≡ (c ∷ s) (d ∷ t) h = elim (Bool-cases (c == d)) [
  | inl e ↦ cc (==→≡ c d e, bytes_beq→≡ s t (subst (λ b. (b && bytes_beq s t) ≡ true) e h))
  | inr e ↦ absurd (ground (arith, h, e))
]

auto_is_no_version : parse_semantic_version (text "auto") ≡ none
unfolding parse_semantic_version text from_chars
auto_is_no_version = refl

-- A version text is not "auto", since that is none.
version_text_exact :
    (v : SemanticVersion) → IsVersion v → bytes_beq (version_text v) (text "auto") ≡ false
version_text_exact v h = elim (Bool-cases (bytes_beq (version_text v) (text "auto"))) [
  | inl e ↦ absurd (
      ground (
        arith,
        sym (parse_semantic_version-version_text v h)
            ∙ ap parse_semantic_version (bytes_beq→≡ _ _ e)
            ∙ auto_is_no_version,
      ))
  | inr e ↦ e
]

finish_version :
    (version : Bytes) (wanted : Option SemanticVersion)
    → Asks version wanted
    → (if bytes_beq version (text "auto")
        then valid_config none
        else exact_config (parse_semantic_version version))
      ≡ valid_config wanted
unfolding valid_config exact_config
finish_version version none e =
    ap (λ b. if b then valid_config none else exact_config (parse_semantic_version version))
      (ap (λ t. bytes_beq t (text "auto")) e ∙ bytes_beq_refl (text "auto"))
finish_version version (some v) (h, e) =
    subst
      (λ t.
        (if bytes_beq t (text "auto")
          then valid_config none
          else exact_config (parse_semantic_version t))
        ≡ valid_config (some v))
      (sym e)
      (if_false _ _ _ (version_text_exact v h)
        ∙ ap exact_config (parse_semantic_version-version_text v h))

finish_configuration :
    (w version : Bytes) (wanted : Option SemanticVersion)
    → IsBlank w
    → Asks version wanted
    → finish_config
        (record { have_schema = true; have_version = true; schema = 1; version = version })
        w
      ≡ valid_config wanted
unfolding finish_config
finish_configuration w version wanted blank asks =
    if_false (not (is_nil (skip_space w))) _ _ (ap (λ t. not (is_nil t)) (skip_space_all w blank))
    ∙ unfold valid_config in finish_version version wanted asks

without_mark_other : (a : ℕ) (s : Bytes) → (a == 0xEF) ≡ false → without_mark (a ∷ s) ≡ a ∷ s
unfolding without_mark
without_mark_other a [] h = refl
without_mark_other a (b ∷ []) h = refl
without_mark_other a (b ∷ c ∷ s) h =
    ap (λ t. if t && (b == 0xBB && c == 0xBF) then s else a ∷ b ∷ c ∷ s) h

without_mark-blank : (w s : Bytes) → IsBlank w → without_mark (w ++ (123 ∷ s)) ≡ w ++ (123 ∷ s)
without_mark-blank [] s blank = without_mark_other 123 s refl
without_mark-blank (c ∷ w) s (h, blank) = without_mark_other c (w ++ (123 ∷ s)) (ground (arith, h))

without_mark-with_mark :
    (marked : Bool) (w s : Bytes)
    → IsBlank w
    → without_mark (with_mark marked (w ++ (123 ∷ s))) ≡ w ++ (123 ∷ s)
unfolding with_mark without_mark
without_mark-with_mark true w s blank = refl
without_mark-with_mark false w s blank = without_mark-blank w s blank

-- A configuration of at most 4096 bytes that holds the schema 1 and a version, in either order, with
-- any white space in each place that allows it and with a byte order mark or not, is valid, and asks
-- for what its version string says: any implementation for auto, and otherwise that version.
pub parse_loader_config-configuration :
    (l : Layout) (version : Bytes) (wanted : Option SemanticVersion)
    → IsBlankLayout l
    → Asks version wanted
    → length (configuration l version) ≤ 4096
    → parse_loader_config (some (configuration l version))
      ≡ some (record { valid = true; exact_version = wanted; error = [] })
unfolding parse_loader_config parse parse_object config_of configuration valid_config
parse_loader_config-configuration l version wanted blank asks fits =
    let (before, opened, _, _, _, _, _, _, _, behind) = blank in
    let (n, e) = length-cons l.opened 34 (members l version) in
    if_false (ltb 4096 (length (configuration l version))) _ _ (ground (arith, fits))
    ∙ ap parse (without_mark-with_mark l.marked l.before _ before)
    ∙ ap (λ t. parse_object (consume 123 t)) (skip_space_to l.before 123 _ before refl)
    ∙ ap parse_object (consume_at 123 _ refl)
    ∙ ap
        (λ t.
          config_of
            (read_members (suc (length (l.opened ++ (34 ∷ members l version)))) no_members t))
        (skip_space_to l.opened 34 _ opened refl)
    ∙ ap (λ k. config_of (read_members (suc k) no_members (34 ∷ members l version))) e
    ∙ ap config_of (read_configuration n l version blank (Asks-IsPlain version wanted asks))
    ∙ ap some (finish_configuration l.behind version wanted behind asks)
