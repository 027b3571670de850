-- ===== src/Alias.antt =====
-- SessionAliasIndex of bridge/include/SessionAliasIndex.hpp: from a Lua state to its session. A
-- pointer is a number, and 0 is the null pointer.
mod Examples
use ue4sslua_event_bridge.Base.{
  length, Map, lookup-insert, lookup, insert, ℕ, ◌+◌, ◌≡◌, refl, sym, ◌≢◌, inl, inr, not, ◌&&◌,
  ◌||◌, Option, none, some, [], ◌∷◌, arith, ◌==◌, if◌then◌else◌, nat_eq, Bool-cases,
}

pub record SessionAliasIndex : Type 0 where
  pub aliases : Map ℕ ℕ

abbrev pub new_index : SessionAliasIndex
new_index = record { aliases = [] }

unfoldable pub bind : SessionAliasIndex → ℕ → ℕ → SessionAliasIndex
bind x state session =
    if state == 0 || session == 0 then x else record { aliases = insert state session x.aliases }

abbrev or_null : Option ℕ → ℕ
or_null none = 0
or_null (some session) = session

unfoldable pub find : SessionAliasIndex → ℕ → ℕ
find x state = or_null (lookup state x.aliases)

unbind_loop : ℕ → Map ℕ ℕ → Map ℕ ℕ × ℕ
unbind_loop session [] = ([], 0)
unbind_loop session ((state, owner) ∷ rest) =
    let (kept, removed) = unbind_loop session rest in
    if owner == session then (kept, removed + 1) else ((state, owner) ∷ kept, removed)

unfoldable pub unbind : SessionAliasIndex → ℕ → SessionAliasIndex × ℕ
unfolding unbind_loop
unbind x session =
    let (kept, removed) = unbind_loop session x.aliases in (record { aliases = kept }, removed)

unfoldable pub size : SessionAliasIndex → ℕ
size x = length x.aliases

-- Keys of a std::unordered_map are distinct, and null pointers are not bound.
abbrev Absent : ℕ → Map ℕ ℕ → Type 0
Absent k [] = Unit
Absent k ((j, v) ∷ m) = (j ≢ k) × Absent k m

abbrev Distinct : Map ℕ ℕ → Type 0
Distinct [] = Unit
Distinct ((j, v) ∷ m) = (v ≢ 0) × Absent j m × Distinct m

pub record IsWell (x : SessionAliasIndex) : Type 0 where
  pub distinct : Distinct x.aliases

Absent-insert : (j k v : ℕ) (m : Map ℕ ℕ) → j ≢ k → Absent j m → Absent j (insert k v m)
unfolding insert
Absent-insert j k v [] ne a = ((λ e. ne (sym e)), tt)
Absent-insert j k v ((i, w) ∷ m) ne a = elim (Bool-cases (i == k)) [
  | inl e ↦ rw e ((λ e'. ne (sym e')), a.1)
  | inr e ↦ rw e (a.0, Absent-insert j k v m ne a.1)
]

Distinct-insert : (k v : ℕ) (m : Map ℕ ℕ) → v ≢ 0 → Distinct m → Distinct (insert k v m)
unfolding insert
Distinct-insert k v [] nz d = (nz, tt, tt)
Distinct-insert k v ((i, w) ∷ m) nz d = elim (Bool-cases (i == k)) [
  | inl e ↦ let same_key : i ≡ k = ground (arith, e) in rw e (nz, rw (← same_key) (d.1), d.2)
  | inr e ↦ rw e (d.0, Absent-insert i k v m (ground (arith, e)) d.1, Distinct-insert k v m nz d.2)
]

-- Binding keeps the keys distinct, and null states and sessions out.
pub bind-IsWell :
    (x : SessionAliasIndex) (state session : ℕ) → IsWell x → IsWell (bind x state session)
unfolding bind
bind-IsWell x state session h = elim (Bool-cases (state == 0 || session == 0)) [
  | inl e ↦ rw e h
  | inr e ↦
      rw e (record {
        distinct = Distinct-insert state session x.aliases (ground (arith, e)) h.distinct;
      })
]

abbrev unbound : ℕ → Option ℕ → Option ℕ
unbound session none = none
unbound session (some owner) = if owner == session then none else some owner

lookup-Absent : (k : ℕ) (m : Map ℕ ℕ) → Absent k m → lookup k m ≡ none
unfolding lookup
lookup-Absent k [] a = refl
lookup-Absent k ((j, v) ∷ m) a = ground (arith, a.0, lookup-Absent k m a.1)

lookup-unbind_loop :
    (session k : ℕ) (m : Map ℕ ℕ)
    → Distinct m
    → lookup k (unbind_loop session m).0 ≡ unbound session (lookup k m)
unfolding lookup unbind_loop
lookup-unbind_loop session k [] d = refl
lookup-unbind_loop session k ((j, v) ∷ m) d =
    ground (arith, lookup-unbind_loop session k m d.2, lookup-Absent j m d.1)

Absent-unbind_loop : (session k : ℕ) (m : Map ℕ ℕ) → Absent k m → Absent k (unbind_loop session m).0
unfolding unbind_loop
Absent-unbind_loop session k [] a = tt
Absent-unbind_loop session k ((j, v) ∷ m) a = elim (Bool-cases (v == session)) [
  | inl e ↦ rw e (Absent-unbind_loop session k m a.1)
  | inr e ↦ rw e (a.0, Absent-unbind_loop session k m a.1)
]

Distinct-unbind_loop : (session : ℕ) (m : Map ℕ ℕ) → Distinct m → Distinct (unbind_loop session m).0
unfolding unbind_loop
Distinct-unbind_loop session [] d = tt
Distinct-unbind_loop session ((j, v) ∷ m) d = elim (Bool-cases (v == session)) [
  | inl e ↦ rw e (Distinct-unbind_loop session m d.2)
  | inr e ↦ rw e (d.0, Absent-unbind_loop session j m d.1, Distinct-unbind_loop session m d.2)
]

unbind-IsWell : (x : SessionAliasIndex) (session : ℕ) → IsWell x → IsWell (unbind x session).0
unfolding unbind
unbind-IsWell x session h = record { distinct = Distinct-unbind_loop session x.aliases h.distinct }

length-unbind_loop :
    (session : ℕ) (m : Map ℕ ℕ)
    → length (unbind_loop session m).0 + (unbind_loop session m).1 ≡ length m
unfolding unbind_loop
length-unbind_loop session [] = omega arith
length-unbind_loop session ((j, v) ∷ m) = ground (arith, length-unbind_loop session m)

-- A state finds the session that it was bound to last; null pointers change nothing.
pub find-bind :
    (x : SessionAliasIndex) (state session k : ℕ)
    → find (bind x state session) k
      ≡ (if state == k && not (state == 0 || session == 0) then session else find x k)
unfolding find bind
find-bind x state session k = ground (arith, lookup-insert state k session x.aliases)

-- After `unbind` no state finds the session, every other state finds what it found, the index stays
-- well-formed, and the number returned is by how much the index shrank.
pub find-unbind :
    (x : SessionAliasIndex) (session k : ℕ)
    → IsWell x
    → (find (unbind x session).0 k ≡ (if find x k == session then 0 else find x k))
      × (size (unbind x session).0 + (unbind x session).1 ≡ size x)
      × IsWell (unbind x session).0
unfolding find size unbind
find-unbind x session k h = (
  ground (arith, lookup-unbind_loop session k x.aliases h.distinct),
  length-unbind_loop session x.aliases,
  unbind-IsWell x session h,
)
