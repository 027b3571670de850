-- ===== src/Registry/Watches.antt =====
-- The watch lists of LifecycleRegistry: by key, the observations that a notification ends. A key
-- is an index or an address. `watch_count` says how often an observation stands under a key.
use ue4sslua_event_bridge.Base.{
  Map, lookup-insert, lookup-erase, lookup, insert, erase, ℕ, ◌+◌, ◌-◌, ◌≡◌, refl, inl, inr, Bool,
  ◌&&◌, Option, none, some, List, [], ◌∷◌, ◌++◌, arith, ◌==◌, if◌then◌else◌, nat_eq, Option-cases,
}

pub record Watch : Type 0 where
  pub session : ℕ
  pub token : ℕ

abbrev pub WatchMap : Type 0
WatchMap = Map ℕ (List Watch)

abbrev pub is_watch : ℕ → ℕ → Watch → Bool
is_watch session token w = w.session == session && w.token == token

abbrev or_nil : Option (List Watch) → List Watch
or_nil none = []
or_nil (some ws) = ws

-- what `collect` appends
unfoldable pub watches_of : ℕ → WatchMap → List Watch
watches_of key watches = or_nil (lookup key watches)

-- `watches[key].push_back({session, token})`
unfoldable pub push_watch : ℕ → ℕ → ℕ → WatchMap → WatchMap
unfolding watches_of
push_watch key session token watches =
    insert key (watches_of key watches ++ (record { session = session; token = token } ∷ []))
      watches

pub erase_first : ℕ → ℕ → List Watch → List Watch
erase_first session token [] = []
erase_first session token (w ∷ ws) =
    if is_watch session token w then ws else w ∷ erase_first session token ws

unfoldable pub erase_watch : ℕ → ℕ → ℕ → WatchMap → WatchMap
unfolding erase_first
erase_watch key session token watches = elim (lookup key watches) [
  | none ↦ watches
  | some list ↦ elim (erase_first session token list) [
    | [] ↦ erase key watches
    | w ∷ ws ↦ insert key (w ∷ ws) watches
  ]
]

-- How often an observation stands in a list.
unfoldable pub count : ℕ → ℕ → List Watch → ℕ
count session token [] = 0
count session token (w ∷ ws) = (if is_watch session token w then 1 else 0) + count session token ws

unfoldable pub watch_count : WatchMap → ℕ → ℕ → ℕ → ℕ
unfolding watches_of
watch_count watches key session token = count session token (watches_of key watches)

pub count-append :
    (s t : ℕ) (xs ys : List Watch) → count s t (xs ++ ys) ≡ count s t xs + count s t ys
unfolding count
count-append s t [] ys = omega arith
count-append s t (x ∷ xs) ys = omega (arith, count-append s t xs ys)

abbrev pub same : ℕ → ℕ → ℕ → ℕ → ℕ
same s t s' t' = if s == s' && t == t' then 1 else 0

count-erase_first :
    (s t s' t' : ℕ) (ws : List Watch)
    → count s' t' (erase_first s t ws) ≡ count s' t' ws - same s t s' t'
unfolding count erase_first
count-erase_first s t s' t' [] = ground arith
count-erase_first s t s' t' (w ∷ ws) = ground (arith, count-erase_first s t s' t' ws)

abbrev pub at_key : ℕ → ℕ → ℕ → ℕ
at_key k k' n = if k == k' then n else 0

pub watch_count-push_watch :
    (m : WatchMap) (k s t k' s' t' : ℕ)
    → watch_count (push_watch k s t m) k' s' t'
      ≡ watch_count m k' s' t' + at_key k k' (same s t s' t')
unfolding watch_count push_watch count
watch_count-push_watch m k s t k' s' t' = ground (
  arith,
  lookup-insert k k' (watches_of k m ++ (record { session = s; token = t } ∷ [])) m,
  count-append s' t' (watches_of k m) (record { session = s; token = t } ∷ []),
)

watch_count-erase_watch_found :
    (m : WatchMap) (k s t k' s' t' : ℕ) (list : List Watch)
    → lookup k m ≡ some list
    → watch_count (erase_watch k s t m) k' s' t'
      ≡ watch_count m k' s' t' - at_key k k' (same s t s' t')
unfolding watch_count erase_watch count
watch_count-erase_watch_found m k s t k' s' t' list e = ground (
  arith,
  count-erase_first s t s' t' list,
  lookup-erase k k' m,
  lookup-insert k k' (erase_first s t list) m,
)

pub watch_count-erase_watch :
    (m : WatchMap) (k s t k' s' t' : ℕ)
    → watch_count (erase_watch k s t m) k' s' t'
      ≡ watch_count m k' s' t' - at_key k k' (same s t s' t')
unfolding watch_count erase_watch count
watch_count-erase_watch m k s t k' s' t' = elim (Option-cases (lookup k m)) [
  | inl missing ↦ ground (arith, missing)
  | inr (list, found) ↦ watch_count-erase_watch_found m k s t k' s' t' list found
]

pub watch_count-nil : (k s t : ℕ) → watch_count [] k s t ≡ 0
unfolding watch_count watches_of count lookup
watch_count-nil k s t = refl
