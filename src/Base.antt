-- ===== src/Base.antt =====
-- The names that the other modules share: the libraries', passed on, and those of the children.
mod Tests
mod Lists
mod Maps
mod Numerals
pub use Tests.*
pub use Lists.{
  length, length-append, take, drop, replicate, length-drop_le, keep_if, length-keep_if_le, All,
  All-keep_if, All-map, Bytes, is_nil,
}
unfoldable pub use Lists.{text, to_string, bytes_beq}
pub use Maps.{
  Map, contains, lookup-insert, lookup-erase, map_laws, lookup-try_emplace, lookup-map_keep,
}
pub use Numerals.{
  is_digit, Errc, no_error, invalid_argument, result_out_of_range, FromChars, StopsDigits,
  from_chars-to_string, to_string-cons, to_string-IsDigits, to_string_head,
}
unfoldable pub use Numerals.{from_chars}
unfoldable pub use Maps.{lookup, insert, erase, try_emplace, map_keep}
pub use Prim.Native.Nat.{ℕ, zero, suc, ◌+◌, ◌-◌, ◌*◌, ◌/◌, ◌%◌, ◌^◌, ◌≤◌, ◌<◌, min, max}
pub use Prim.Native.String.{String}
pub use mathlib.Core.Path.{◌≡◌, refl, sym, ap, ◌∙◌, subst}
pub use mathlib.Core.Logic.{◌≢◌, ◌↔◌, ◌⊎◌, inl, inr}
pub use mathlib.Core.Bool.{Bool, true, false, not, ◌&&◌, ◌||◌}
pub use mathlib.Core.Option.{Option, none, some}
pub use mathlib.Core.List.{List, [], ◌∷◌, ◌++◌, map}
pub use native.Mathlib.Omega.{arith}
