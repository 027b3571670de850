-- ===== src/Loader/Config.antt =====
-- The JSON parser of bootstrap/include/LoaderConfig.hpp. A position in the source is the bytes that
-- are left. std::isspace and std::isdigit are those of the C locale.
pub mod Terminates
mod Lexing
pub mod Reading
pub mod RoundTrip
use ue4sslua_event_bridge.Base.{
  length, Bytes, is_nil, text, bytes_beq, is_digit, Errc, no_error, invalid_argument,
  result_out_of_range, from_chars, ℕ, zero, suc, ◌-◌, ◌^◌, Bool, true, false, not, ◌&&◌, ◌||◌,
  Option, none, some, [], ◌∷◌, ltb, leb, ◌==◌, if◌then◌else◌,
}
use ue4sslua_event_bridge.Loader.Version.{SemanticVersion, parse_semantic_version}

pub record LoaderConfig : Type 0 where
  pub valid : Bool
  pub exact_version : Option SemanticVersion
  pub error : Bytes

unfoldable pub fail : Bytes → LoaderConfig
fail message = record { valid = false; exact_version = none; error = message }

abbrev pub is_space : ℕ → Bool
is_space c = c == 32 || (leb 9 c && leb c 13)

unfoldable pub skip_space : Bytes → Bytes
skip_space [] = []
skip_space (c ∷ s) = let rest = skip_space s in if is_space c then rest else c ∷ s

pub consume_here : ℕ → Bytes → Bool × Bytes
consume_here value [] = (false, [])
consume_here value (c ∷ s) = if c == value then (true, s) else (false, c ∷ s)

-- Whether the character stood there, and what is left.
unfoldable pub consume : ℕ → Bytes → Bool × Bytes
unfolding consume_here
consume value s = consume_here value (skip_space s)

-- The characters up to the closing quote, and what is left behind it.
unfoldable pub read_string : Bytes → Option (Bytes × Bytes)
read_string [] = none
read_string (c ∷ s) =
    let rest = read_string s in
    if c == 34
    then some ([], s)
    else if c == 92 || ltb c 0x20
    then none
    else elim rest [ none ↦ none | some (value, more) ↦ some (c ∷ value, more) ]

pub string_here : Bytes → Option (Bytes × Bytes)
string_here [] = none
string_here (c ∷ s) = if c == 34 then read_string s else none

-- Parser::string
unfoldable pub json_string : Bytes → Option (Bytes × Bytes)
unfolding string_here
json_string s = string_here (skip_space s)

unfoldable pub take_digits : Bytes → Bytes × Bytes
take_digits [] = ([], [])
take_digits (c ∷ s) =
    let (digits, rest) = take_digits s in if is_digit c then (c ∷ digits, rest) else ([], c ∷ s)

-- What from_chars made of the digits; `unread` is what it left of them.
pub integer_of : Errc → ℕ → Bytes → Bytes → Option (ℕ × Bytes)
integer_of no_error value unread rest = if is_nil unread then some (value, rest) else none
integer_of invalid_argument value unread rest = none
integer_of result_out_of_range value unread rest = none

pub integer_here : Bytes × Bytes → Option (ℕ × Bytes)
integer_here ([], rest) = none
integer_here (c ∷ digits, rest) =
    let r = from_chars (2 ^ 31 - 1) 0 (c ∷ digits) in integer_of r.ec r.value r.rest rest

-- Parser::integer
unfoldable pub json_integer : Bytes → Option (ℕ × Bytes)
unfolding integer_here integer_of
json_integer s = integer_here (take_digits (skip_space s))

-- The local variables of Parser::parse.
pub record Members : Type 0 where
  pub have_schema : Bool
  pub have_version : Bool
  pub schema : ℕ
  pub version : Bytes

abbrev pub no_members : Members
no_members = record { have_schema = false; have_version = false; schema = 0; version = [] }

-- What a turn of the loop leaves, or its error.
pub data Turn : Type 0 where
  read : Members → Bytes → Turn
  refused : Bytes → Turn

pub schema_value : Members → Option (ℕ × Bytes) → Turn
schema_value m none = refused (text "schema must be a unique integer")
schema_value m (some (value, rest)) =
    if m.have_schema
    then refused (text "schema must be a unique integer")
    else read (record m { have_schema = true; schema = value }) rest

pub version_value : Members → Option (Bytes × Bytes) → Turn
version_value m none = refused (text "version must be a unique string")
version_value m (some (value, rest)) =
    if m.have_version
    then refused (text "version must be a unique string")
    else read (record m { have_version = true; version = value }) rest

pub value_of : Members → Bytes → Bytes → Turn
value_of m key s =
    if bytes_beq key (text "schema")
    then schema_value m (json_integer s)
    else if bytes_beq key (text "version")
    then version_value m (json_string s)
    else refused (text "unknown configuration key")

pub after_key : Members → Bytes → Bool × Bytes → Turn
after_key m key (false, s) = refused (text "configuration key must have a value")
after_key m key (true, s) = value_of m key (skip_space s)

pub member_of : Members → Option (Bytes × Bytes) → Turn
member_of m none = refused (text "configuration key must be a string")
member_of m (some (key, s)) = after_key m key (consume 58 (skip_space s))

-- One member: its key, the colon and its value.
unfoldable pub read_member : Members → Bytes → Turn
unfolding member_of after_key value_of version_value schema_value
read_member m s = member_of m (json_string s)

-- How the loop ends: behind the closing brace, with an error, or out of fuel.
pub data Object : Type 0 where
  closed : Members → Bytes → Object
  malformed : Bytes → Object
  out_of_fuel : Object

abbrev pub starts_with : ℕ → Bytes → Bool
starts_with c [] = false
starts_with c (d ∷ s) = d == c

-- Behind the comma, if there was one, the next turn.
pub after_comma : (Members → Bytes → Object) → Members → Bool × Bytes → Object
after_comma next m (false, s) = malformed (text "configuration members must be comma-separated")
after_comma next m (true, s) =
    let rest = skip_space s in
    let further = next m rest in
    if starts_with 125 rest then malformed (text "trailing comma is not allowed") else further

pub after_value : (Members → Bytes → Object) → Members → Bool × Bytes → Object
after_value next m (true, s) = closed m s
after_value next m (false, s) = after_comma next m (consume 44 s)

-- What follows a member: the end, or a comma and the next turn.
pub after_member : (Members → Bytes → Object) → Turn → Object
after_member next (refused message) = malformed message
after_member next (read m s) = after_value next m (consume 125 (skip_space s))

-- The loop `while (!consume('}'))`.
unfoldable pub read_members : ℕ → Members → Bytes → Object
unfolding after_member after_value after_comma
read_members zero m s = out_of_fuel
read_members (suc fuel) m s =
    let (ends, s1) = consume 125 s in
    let further = after_member (read_members fuel) (read_member m s1) in
    if ends then closed m s1 else further

pub exact_config : Option SemanticVersion → LoaderConfig
exact_config none = fail (text "version must be auto or MAJOR.MINOR.PATCH")
exact_config (some version) = record { valid = true; exact_version = some version; error = [] }

-- The checks behind the loop.
pub finish_config : Members → Bytes → LoaderConfig
finish_config m s =
    if not (is_nil (skip_space s))
    then fail (text "unexpected data after configuration")
    else if not m.have_schema || not (m.schema == 1)
    then fail (text "unsupported configuration schema")
    else if not m.have_version
    then fail (text "configuration version is required")
    else if bytes_beq m.version (text "auto")
    then record { valid = true; exact_version = none; error = [] }
    else exact_config (parse_semantic_version m.version)

pub config_of : Object → Option LoaderConfig
config_of (closed m s) = some (finish_config m s)
config_of (malformed message) = some (fail message)
config_of out_of_fuel = none

pub parse_object : Bool × Bytes → Option LoaderConfig
parse_object (false, s) = some (fail (text "configuration must be a JSON object"))
parse_object (true, s) = config_of (read_members (suc (length s)) no_members (skip_space s))

-- Parser::parse; none is only lack of fuel.
unfoldable pub parse : Bytes → Option LoaderConfig
unfolding parse_object config_of finish_config exact_config
parse s = parse_object (consume 123 (skip_space s))

-- starts_with("\xEF\xBB\xBF") and remove_prefix(3)
unfoldable pub without_mark : Bytes → Bytes
without_mark (a ∷ b ∷ c ∷ s) = if a == 0xEF && (b == 0xBB && c == 0xBF) then s else a ∷ b ∷ c ∷ s
without_mark s = s

unfoldable pub parse_loader_config : Option Bytes → Option LoaderConfig
parse_loader_config none = some (record { valid = true; exact_version = none; error = [] })
parse_loader_config (some source) =
    if ltb 4096 (length source)
    then some (fail (text "configuration exceeds 4096 bytes"))
    else parse (without_mark source)
