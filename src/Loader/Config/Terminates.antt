-- ===== src/Loader/Config/Terminates.antt =====
-- The parser of bootstrap/include/LoaderConfig.hpp consumes its source.
use ue4sslua_event_bridge.Base.{
  length, Bytes, is_nil, text, bytes_beq, Errc, no_error, invalid_argument, result_out_of_range, ℕ,
  zero, suc, ◌≤◌, ◌<◌, ◌≡◌, refl, ap, ◌∙◌, inl, inr, Bool, true, false, ◌||◌, Option, none, some,
  [], ◌∷◌, arith, ltb, ◌==◌, if◌then◌else◌, Bool-cases, if_all, if_false,
}
use ue4sslua_event_bridge.Loader.Config.{
  LoaderConfig, fail, skip_space, consume_here, consume, read_string, string_here, json_string,
  take_digits, integer_of, integer_here, json_integer, Members, no_members, Turn, schema_value,
  version_value, value_of, after_key, member_of, read_member, Object, starts_with, after_comma,
  after_value, after_member, read_members, finish_config, config_of, parse_object, parse,
  without_mark, parse_loader_config, read, refused, closed, malformed, out_of_fuel,
}

length-skip_space : (s : Bytes) → length (skip_space s) ≤ length s
unfolding skip_space
length-skip_space [] = omega arith
length-skip_space (c ∷ s) = ground (arith, length-skip_space s)

length-consume_here :
    (v : ℕ) (s : Bytes)
    → (length (consume_here v s).1 ≤ length s)
      × ((consume_here v s).0 ≡ true → length (consume_here v s).1 < length s)
unfolding consume_here
length-consume_here v [] = ground arith
length-consume_here v (c ∷ s) = ground arith

-- What `consume` leaves: no more, and less if the character was there.
pub length-consume :
    (v : ℕ) (s : Bytes)
    → (length (consume v s).1 ≤ length s)
      × ((consume v s).0 ≡ true → length (consume v s).1 < length s)
unfolding consume
length-consume v s = ground (arith, length-consume_here v (skip_space s), length-skip_space s)

-- A result that leaves less than `n` characters.
Shorter : {A : Type 0} → ℕ → Option (A × Bytes) → Type 0
Shorter n none = Unit
Shorter n (some (a, rest)) = length rest < n

Shorter-cons :
    (c n : ℕ) (o : Option (Bytes × Bytes))
    → Shorter n o
    → Shorter (suc n) (elim o [ none ↦ none | some (value, more) ↦ some (c ∷ value, more) ])
unfolding Shorter
Shorter-cons c n none h = tt
Shorter-cons c n (some (value, more)) h = omega (arith, h)

read_string-Shorter : (s : Bytes) → Shorter (suc (length s)) (read_string s)
unfolding read_string Shorter
read_string-Shorter [] = tt
read_string-Shorter (c ∷ s) =
    if_all (Shorter (suc (suc (length s)))) (c == 34) _ _ (λ h. omega arith)
      (λ h.
        if_all (Shorter (suc (suc (length s)))) (c == 92 || ltb c 0x20) none _ (λ h. tt)
          (λ h. Shorter-cons c (suc (length s)) (read_string s) (read_string-Shorter s)))

Shorter-le : {A : Type 0} (m n : ℕ) (o : Option (A × Bytes)) → m ≤ n → Shorter m o → Shorter n o
unfolding Shorter
Shorter-le m n none h k = tt
Shorter-le m n (some (a, rest)) h k = omega (arith, h, k)

string_here-Shorter : (s : Bytes) → Shorter (length s) (string_here s)
unfolding string_here Shorter
string_here-Shorter [] = tt
string_here-Shorter (c ∷ s) =
    if_all (Shorter (suc (length s))) (c == 34) _ none (λ h. read_string-Shorter s) (λ h. tt)

json_string-Shorter : (s : Bytes) → Shorter (length s) (json_string s)
unfolding json_string
json_string-Shorter s =
    Shorter-le (length (skip_space s)) (length s) _ (length-skip_space s)
      (string_here-Shorter (skip_space s))

take_digits-le : (s : Bytes) → length (take_digits s).1 ≤ length s
unfolding take_digits
take_digits-le [] = omega arith
take_digits-le (c ∷ s) = ground (arith, take_digits-le s)

integer_of-Shorter :
    (ec : Errc) (value : ℕ) (unread rest : Bytes) (n : ℕ)
    → length rest < n
    → Shorter n (integer_of ec value unread rest)
unfolding integer_of Shorter
integer_of-Shorter no_error value unread rest n h =
    if_all (Shorter n) (is_nil unread) (some (value, rest)) none (λ _. h) (λ _. tt)
integer_of-Shorter invalid_argument value unread rest n h = tt
integer_of-Shorter result_out_of_range value unread rest n h = tt

integer_here-Shorter : (p : Bytes × Bytes) (n : ℕ) → length p.1 < n → Shorter n (integer_here p)
unfolding integer_here Shorter
integer_here-Shorter ([], rest) n h = tt
integer_here-Shorter (c ∷ digits, rest) n h = integer_of-Shorter _ _ _ rest n h

json_integer-Shorter : (s : Bytes) → Shorter (suc (length s)) (json_integer s)
unfolding json_integer
json_integer-Shorter s =
    integer_here-Shorter (take_digits (skip_space s)) (suc (length s))
      (omega (arith, take_digits-le (skip_space s), length-skip_space s))

-- A turn that leaves less than `n` characters, or an error.
Shrinks : ℕ → Turn → Type 0
Shrinks n (read m rest) = length rest < n
Shrinks n (refused message) = Unit

schema_value-Shrinks :
    (m : Members) (o : Option (ℕ × Bytes)) (n : ℕ) → Shorter n o → Shrinks n (schema_value m o)
unfolding schema_value Shrinks Shorter
schema_value-Shrinks m none n h = tt
schema_value-Shrinks m (some (v, rest)) n h =
    if_all (Shrinks n) m.have_schema (refused (text "schema must be a unique integer")) _ (λ _. tt)
      (λ _. h)

version_value-Shrinks :
    (m : Members) (o : Option (Bytes × Bytes)) (n : ℕ) → Shorter n o → Shrinks n (version_value m o)
unfolding version_value Shrinks Shorter
version_value-Shrinks m none n h = tt
version_value-Shrinks m (some (v, rest)) n h =
    if_all (Shrinks n) m.have_version (refused (text "version must be a unique string")) _ (λ _. tt)
      (λ _. h)

value_of-Shrinks :
    (m : Members) (key s : Bytes) (n : ℕ) → length s < n → Shrinks n (value_of m key s)
unfolding value_of
value_of-Shrinks m key s n h =
    if_all (Shrinks n) (bytes_beq key (text "schema")) _ _
      (λ _.
        schema_value-Shrinks m _ n (Shorter-le _ n _ (omega (arith, h)) (json_integer-Shorter s)))
      (λ _.
        if_all (Shrinks n) (bytes_beq key (text "version")) _
          (refused (text "unknown configuration key"))
          (λ _.
            version_value-Shrinks m _ n
              (Shorter-le _ n _ (omega (arith, h)) (json_string-Shorter s)))
          (λ _. unfold Shrinks in tt))

after_key-Shrinks :
    (m : Members) (key : Bytes) (p : Bool × Bytes) (n : ℕ)
    → length p.1 < n
    → Shrinks n (after_key m key p)
unfolding after_key Shrinks
after_key-Shrinks m key (false, s) n h = tt
after_key-Shrinks m key (true, s) n h =
    value_of-Shrinks m key (skip_space s) n (omega (arith, h, length-skip_space s))

member_of-Shrinks :
    (m : Members) (o : Option (Bytes × Bytes)) (n : ℕ) → Shorter n o → Shrinks n (member_of m o)
unfolding member_of Shrinks Shorter
member_of-Shrinks m none n h = tt
member_of-Shrinks m (some (key, s)) n h =
    after_key-Shrinks m key (consume 58 (skip_space s)) n
      (omega (arith, (length-consume 58 (skip_space s)).0, length-skip_space s, h))

read_member-Shrinks : (m : Members) (s : Bytes) → Shrinks (length s) (read_member m s)
unfolding read_member
read_member-Shrinks m s = member_of-Shrinks m (json_string s) (length s) (json_string-Shorter s)

-- The loop came to an end of its own.
pub Ends : Object → Type 0
Ends (closed m s) = Unit
Ends (malformed message) = Unit
Ends out_of_fuel = ⊥

-- The later turns come to an end on every text of fewer than `n` characters.
EndsBelow : ℕ → (Members → Bytes → Object) → Type 0
EndsBelow n next = (m : Members) (s : Bytes) → length s < n → Ends (next m s)

after_comma-Ends :
    (next : Members → Bytes → Object) (m : Members) (p : Bool × Bytes) (n : ℕ)
    → length p.1 < n
    → EndsBelow n next
    → Ends (after_comma next m p)
unfolding after_comma Ends EndsBelow
after_comma-Ends next m (false, s) n h go = tt
after_comma-Ends next m (true, s) n h go =
    if_all Ends (starts_with 125 (skip_space s)) (malformed (text "trailing comma is not allowed"))
      _ (λ _. tt) (λ _. go m (skip_space s) (omega (arith, h, length-skip_space s)))

after_value-Ends :
    (next : Members → Bytes → Object) (m : Members) (p : Bool × Bytes) (n : ℕ)
    → length p.1 < n
    → EndsBelow n next
    → Ends (after_value next m p)
unfolding after_value Ends
after_value-Ends next m (true, s) n h go = tt
after_value-Ends next m (false, s) n h go =
    after_comma-Ends next m (consume 44 s) n (omega (arith, h, (length-consume 44 s).0)) go

after_member-Ends :
    (next : Members → Bytes → Object) (t : Turn) (n : ℕ)
    → Shrinks n t
    → EndsBelow n next
    → Ends (after_member next t)
unfolding after_member Shrinks Ends
after_member-Ends next (refused message) n h go = tt
after_member-Ends next (read m s) n h go =
    after_value-Ends next m (consume 125 (skip_space s)) n
      (omega (arith, h, length-skip_space s, (length-consume 125 (skip_space s)).0)) go

-- A number of turns above the number of characters is enough.
pub read_members-Ends :
    (fuel : ℕ) (m : Members) (s : Bytes) → length s < fuel → Ends (read_members fuel m s)
unfolding read_members EndsBelow
read_members-Ends zero m s h = absurd (omega (arith, h))
read_members-Ends (suc fuel) m s h =
    let (ends, s1) = consume 125 s in
    if_all Ends ends (closed m s1) _ (λ _. unfold Ends in tt)
      (λ _.
        after_member-Ends (read_members fuel) (read_member m s1) (length s1)
          (read_member-Shrinks m s1)
          (λ m' s' k. read_members-Ends fuel m' s' (omega (arith, h, k, (length-consume 125 s).0))))

config_of-some : (o : Object) → Ends o → (c : LoaderConfig) × (config_of o ≡ some c)
unfolding config_of Ends
config_of-some (closed m s) h = (finish_config m s, refl)
config_of-some (malformed message) h = (fail message, refl)
config_of-some out_of_fuel h = absurd h

parse_object-some : (p : Bool × Bytes) → (c : LoaderConfig) × (parse_object p ≡ some c)
unfolding parse_object
parse_object-some (false, s) = (fail (text "configuration must be a JSON object"), refl)
parse_object-some (true, s) = config_of-some _ (
    read_members-Ends (suc (length s)) no_members (skip_space s)
      (omega (arith, length-skip_space s)))

-- The parser comes to a result on every text: its loop never runs out of turns.
pub parse_loader_config-some :
    (source : Option Bytes) → (c : LoaderConfig) × (parse_loader_config source ≡ some c)
unfolding parse_loader_config parse
parse_loader_config-some none = (record { valid = true; exact_version = none; error = [] }, refl)
parse_loader_config-some (some source) = elim (Bool-cases (ltb 4096 (length source))) [
  | inl big ↦ (
    fail (text "configuration exceeds 4096 bytes"),
    ap
        (λ b.
          if b
          then some (fail (text "configuration exceeds 4096 bytes"))
          else parse_object (consume 123 (skip_space (without_mark source))))
        big,
  )
  | inr fits ↦
      let (c, e) = parse_object-some (consume 123 (skip_space (without_mark source))) in
      (c, if_false _ _ _ fits ∙ e)
]
