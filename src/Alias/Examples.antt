-- ===== src/Alias/Examples.antt =====
-- Runs of SessionAliasIndex on concrete inputs.
use ue4sslua_event_bridge.Base.{lookup, ◌+◌, ◌≡◌, [], ◌∷◌, arith, nat_eq}
use ue4sslua_event_bridge.Alias.{SessionAliasIndex, find, unbind, size, IsWell, find-unbind}

abbrev two_aliases : SessionAliasIndex
two_aliases = record { aliases = (10, 1) ∷ (20, 2) ∷ [] }

two_aliases-IsWell : IsWell two_aliases
two_aliases-IsWell = record {
  distinct = (
    (λ e. absurd (omega arith)),
    ((λ e. absurd (omega arith)), tt),
    ((λ e. absurd (omega arith)), tt, tt),
  );
}

find-unbind_example :
    (find (unbind two_aliases 1).0 10 ≡ 0)
    × (size (unbind two_aliases 1).0 + (unbind two_aliases 1).1 ≡ 2)
    × IsWell (unbind two_aliases 1).0
unfolding find size lookup
find-unbind_example = find-unbind two_aliases 1 10 two_aliases-IsWell
