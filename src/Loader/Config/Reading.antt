-- ===== src/Loader/Config/Reading.antt =====
-- The lines of a configuration as its documentation writes it, with any white space, read by the
-- parser of bootstrap/include/LoaderConfig.hpp.
use ue4sslua_event_bridge.Base.{
  length, Bytes, text, bytes_beq, is_digit, ℕ, suc, ◌≡◌, refl, ap, ◌∙◌, Bool, true, false, not, [],
  ◌∷◌, ◌++◌, if◌then◌else◌, if_false,
}
use ue4sslua_event_bridge.Loader.Config.{
  is_space, consume, Members, no_members, schema_value, version_value, value_of, after_key,
  member_of, read_member, Object, starts_with, after_comma, after_value, after_member, read_members,
  read, closed, malformed,
}
use ue4sslua_event_bridge.Loader.Config.Lexing.{
  IsBlank, IsPlain, skip_space_to, consume_at, consume_other, json_string_plain, json_integer_one,
}

-- How a configuration is written: with a byte order mark or not, which member stands first, and the
-- white space in each place, in the order of the text.
pub record Layout : Type 0 where
  pub marked : Bool
  pub schema_first : Bool
  pub before : Bytes
  pub opened : Bytes
  pub key : Bytes
  pub value : Bytes
  pub comma : Bytes
  pub next : Bytes
  pub next_key : Bytes
  pub next_value : Bytes
  pub closing : Bytes
  pub behind : Bytes

abbrev pub IsBlankLayout : Layout → Type 0
IsBlankLayout l =
    IsBlank l.before
    × IsBlank l.opened
    × IsBlank l.key
    × IsBlank l.value
    × IsBlank l.comma
    × IsBlank l.next
    × IsBlank l.next_key
    × IsBlank l.next_value
    × IsBlank l.closing
    × IsBlank l.behind

-- One member from behind its first quote, with the white space around its colon, in front of `s`.
pub member : Bytes → Bool → Bytes → Bytes → Bytes → Bytes
member version true k v s = text "schema" ++ (34 ∷ (k ++ (58 ∷ (v ++ (49 ∷ s)))))
member version false k v s =
    text "version" ++ (34 ∷ (k ++ (58 ∷ (v ++ (34 ∷ (version ++ (34 ∷ s)))))))

-- The two members behind the first quote, up to the end.
pub members : Layout → Bytes → Bytes
members l version = member version l.schema_first l.key l.value (
    l.comma
    ++ (44
        ∷ (l.next
            ++ (34
                ∷ member version (not l.schema_first) l.next_key l.next_value
                    (l.closing ++ (125 ∷ l.behind))))))

abbrev pub unmarked : Layout → Bytes → Bytes
unmarked l version = l.before ++ (123 ∷ (l.opened ++ (34 ∷ members l version)))

unfoldable pub with_mark : Bool → Bytes → Bytes
with_mark true s = 0xEF ∷ 0xBB ∷ 0xBF ∷ s
with_mark false s = s

-- {"schema":1,"version":"..."}, or the members in the other order.
unfoldable pub configuration : Layout → Bytes → Bytes
unfolding members member with_mark
configuration l version = with_mark l.marked (unmarked l version)

-- A key, its colon, and the value that follows the white space.
read_member_key :
    (m : Members) (k v key : Bytes) (c : ℕ) (s : Bytes)
    → IsBlank k
    → IsBlank v
    → IsPlain key
    → is_space c ≡ false
    → read_member m (34 ∷ (key ++ (34 ∷ (k ++ (58 ∷ (v ++ (c ∷ s))))))) ≡ value_of m key (c ∷ s)
unfolding read_member member_of after_key
read_member_key m k v key c s blank_k blank_v all h =
    ap (member_of m) (json_string_plain key _ all)
    ∙ ap (λ t. after_key m key (consume 58 t)) (skip_space_to k 58 (v ++ (c ∷ s)) blank_k refl)
    ∙ ap (after_key m key) (consume_at 58 (v ++ (c ∷ s)) refl)
    ∙ ap (value_of m key) (skip_space_to v c s blank_v h)

schema_member :
    (m : Members) (k v w : Bytes) (c : ℕ) (s : Bytes)
    → m.have_schema ≡ false
    → IsBlank k
    → IsBlank v
    → IsBlank w
    → is_digit c ≡ false
    → read_member m (34 ∷ (text "schema" ++ (34 ∷ (k ++ (58 ∷ (v ++ (49 ∷ (w ++ (c ∷ s)))))))))
      ≡ read (record m { have_schema = true; schema = 1 }) (w ++ (c ∷ s))
unfolding text value_of schema_value bytes_beq
schema_member m k v w c s fresh blank_k blank_v blank_w h =
    read_member_key m k v (text "schema") 49 (w ++ (c ∷ s)) blank_k blank_v
      (refl, (refl, (refl, (refl, (refl, (refl, tt)))))) refl
    ∙ ap (schema_value m) (json_integer_one w c s blank_w h)
    ∙ if_false m.have_schema _ _ fresh

version_member :
    (m : Members) (k v version s : Bytes)
    → m.have_version ≡ false
    → IsBlank k
    → IsBlank v
    → IsPlain version
    → read_member m
        (34 ∷ (text "version" ++ (34 ∷ (k ++ (58 ∷ (v ++ (34 ∷ (version ++ (34 ∷ s)))))))))
      ≡ read (record m { have_version = true; version = version }) s
unfolding text value_of version_value bytes_beq
version_member m k v version s fresh blank_k blank_v all =
    read_member_key m k v (text "version") 34 (version ++ (34 ∷ s)) blank_k blank_v
      (refl, (refl, (refl, (refl, (refl, (refl, (refl, tt))))))) refl
    ∙ ap (version_value m) (json_string_plain version s all)
    ∙ if_false m.have_version _ _ fresh

-- The locals of the parser behind a member, and whether they had it already.
put_member : Bytes → Bool → Members → Members
put_member version true m = record m { have_schema = true; schema = 1 }
put_member version false m = record m { have_version = true; version = version }

had_member : Bool → Members → Bool
had_member true m = m.have_schema
had_member false m = m.have_version

read_one :
    (m : Members) (version : Bytes) (is_schema : Bool) (k v w : Bytes) (c : ℕ) (s : Bytes)
    → had_member is_schema m ≡ false
    → IsBlank k
    → IsBlank v
    → IsBlank w
    → is_digit c ≡ false
    → IsPlain version
    → read_member m (34 ∷ member version is_schema k v (w ++ (c ∷ s)))
      ≡ read (put_member version is_schema m) (w ++ (c ∷ s))
unfolding member put_member had_member
read_one m version true k v w c s fresh blank_k blank_v blank_w h all =
    schema_member m k v w c s fresh blank_k blank_v blank_w h
read_one m version false k v w c s fresh blank_k blank_v blank_w h all =
    version_member m k v version (w ++ (c ∷ s)) fresh blank_k blank_v all

-- A member in front of a comma: the loop goes on behind it.
after_member_comma :
    (go : Members → Bytes → Object) (m : Members) (w next s : Bytes)
    → IsBlank w
    → IsBlank next
    → after_member go (read m (w ++ (44 ∷ (next ++ (34 ∷ s))))) ≡ go m (34 ∷ s)
unfolding after_member after_value after_comma
after_member_comma go m w next s blank blank_next =
    ap (λ t. after_value go m (consume 125 t)) (skip_space_to w 44 (next ++ (34 ∷ s)) blank refl)
    ∙ ap (after_value go m) (consume_other 125 44 (next ++ (34 ∷ s)) refl refl)
    ∙ ap (after_comma go m) (consume_at 44 (next ++ (34 ∷ s)) refl)
    ∙ ap
        (λ t.
          if starts_with 125 t then malformed (text "trailing comma is not allowed") else go m t)
        (skip_space_to next 34 s blank_next refl)

-- The last member, in front of the brace.
after_member_brace :
    (go : Members → Bytes → Object) (m : Members) (w s : Bytes)
    → IsBlank w
    → after_member go (read m (w ++ (125 ∷ s))) ≡ closed m s
unfolding after_member after_value
after_member_brace go m w s blank =
    ap (λ t. after_value go m (consume 125 t)) (skip_space_to w 125 s blank refl)
    ∙ ap (after_value go m) (consume_at 125 s refl)

-- A turn that does not begin at the closing brace reads a member.
read_members_turn :
    (fuel : ℕ) (m : Members) (s : Bytes)
    → read_members (suc fuel) m (34 ∷ s) ≡ after_member (read_members fuel) (read_member m (34 ∷ s))
unfolding read_members
read_members_turn fuel m s =
    ap (λ p. if p.0 then closed m p.1 else after_member (read_members fuel) (read_member m p.1))
      (consume_other 125 34 s refl refl)

pub length-cons : (w : Bytes) (c : ℕ) (s : Bytes) → (n : ℕ) × (length (w ++ (c ∷ s)) ≡ suc n)
length-cons [] c s = (length s, refl)
length-cons (d ∷ w) c s = (length (w ++ (c ∷ s)), refl)

-- Both members are read, whichever stands first.
both_members :
    (version : Bytes) (is_schema : Bool)
    → (had_member is_schema no_members ≡ false)
      × (had_member (not is_schema) (put_member version is_schema no_members) ≡ false)
      × (put_member version (not is_schema) (put_member version is_schema no_members)
          ≡ record { have_schema = true; have_version = true; schema = 1; version = version })
unfolding had_member put_member
both_members version true = (refl, refl, refl)
both_members version false = (refl, refl, refl)

pub read_configuration :
    (fuel : ℕ) (l : Layout) (version : Bytes)
    → IsBlankLayout l
    → IsPlain version
    → read_members (suc (suc fuel)) no_members (34 ∷ members l version)
      ≡ closed
          (record { have_schema = true; have_version = true; schema = 1; version = version })
          l.behind
unfolding members
read_configuration fuel l version (_, _, key, value, comma, next, next_key, next_value, closing, _)
      all =
    let first = l.schema_first in
    let one = put_member version first no_members in
    let go = read_members (suc fuel) in
    let (fresh, fresh_next, both) = both_members version first in
    let rest = l.closing ++ (125 ∷ l.behind) in
    read_members_turn (suc fuel) no_members _
    ∙ ap (after_member go) (
        read_one no_members version first l.key l.value l.comma 44 _ fresh key value comma refl all)
    ∙ after_member_comma go one l.comma l.next _ comma next
    ∙ read_members_turn fuel one _
    ∙ ap (after_member (read_members fuel)) (
        read_one one version (not first) l.next_key l.next_value l.closing 125 l.behind fresh_next
          next_key next_value closing refl all)
    ∙ after_member_brace (read_members fuel) _ l.closing l.behind closing
    ∙ ap (λ m. closed m l.behind) both
