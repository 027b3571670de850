-- ===== src/Loader/Candidate.antt =====
-- Discovery and order of candidates, bootstrap/include/CandidateDiscovery.hpp. A wide text is its
-- characters.
use ue4sslua_event_bridge.Base.{
  length, take, keep_if, All, All-keep_if, All-map, Bytes, text, to_string, bytes_beq, ℕ, suc, ◌+◌,
  ◌≤◌, ◌<◌, ◌≡◌, refl, ap, ◌∙◌, ◌⊎◌, inl, inr, Bool, true, false, ◌&&◌, Option, none, some, List,
  [], ◌∷◌, ◌++◌, arith, ltb, leb, ◌==◌, if◌then◌else◌, Bool-cases, is_some,
}
use ue4sslua_event_bridge.Loader.Version.{SemanticVersion, version_less, version_beq}

pub record BootstrapCandidate : Type 0 where
  pub version : SemanticVersion
  pub path : Bytes

pub record CandidateMetadata : Type 0 where
  pub version : SemanticVersion
  pub filename : Bytes
  pub original_filename : Bytes
  pub product_name : Bytes
  pub role : Bytes
  pub implementation_abi : Bytes
  pub ue4ss_commit : Bytes
  pub unreal_version : Bytes

unfoldable pub candidate_filename : SemanticVersion → Bytes
candidate_filename version =
    text "UE4SSLuaEventBridge-"
    ++ (to_string version.major
        ++ (text "."
            ++ (to_string version.minor ++ (text "." ++ (to_string version.patch ++ text ".dll")))))

unfoldable pub lower : ℕ → ℕ
lower c = if leb 65 c && leb c 90 then c + 32 else c

-- The portable branch of the code: lengths, then letters. The branch for Windows is _wcsicmp, which
-- stops at a null character.
unfoldable pub same_candidate_name : Bytes → Bytes → Bool
same_candidate_name [] [] = true
same_candidate_name (a ∷ left) (b ∷ right) = lower a == lower b && same_candidate_name left right
same_candidate_name _ _ = false

unfoldable pub compatible_candidate : CandidateMetadata → Bool
compatible_candidate metadata =
    let expected = candidate_filename metadata.version in
    bytes_beq metadata.product_name (text "UE4SSLuaEventBridge")
    && (bytes_beq metadata.role (text "Implementation")
        && (bytes_beq metadata.implementation_abi (text "1")
            && (bytes_beq metadata.ue4ss_commit (text "97b7e501")
                && (bytes_beq metadata.unreal_version (text "5.5")
                    && (same_candidate_name metadata.filename expected
                        && same_candidate_name metadata.original_filename expected)))))

-- std::stable_sort by `left->version > right->version`, as an insertion that leaves equal versions
-- in their order.
unfoldable pub insert_candidate :
    BootstrapCandidate → List BootstrapCandidate → List BootstrapCandidate
insert_candidate c [] = c ∷ []
insert_candidate c (d ∷ ds) =
    let further = insert_candidate c ds in
    if version_less c.version d.version then d ∷ further else c ∷ d ∷ ds

unfoldable pub newest_first : List BootstrapCandidate → List BootstrapCandidate
newest_first [] = []
newest_first (c ∷ cs) = insert_candidate c (newest_first cs)

-- Candidates of a pinned version, or all of them.
abbrev pub wanted : Option SemanticVersion → BootstrapCandidate → Bool
wanted none c = true
wanted (some exact) c = version_beq c.version exact

unfoldable pub candidate_order :
    List BootstrapCandidate → Option SemanticVersion → List BootstrapCandidate
candidate_order candidates exact =
    let ordered = newest_first (keep_if (wanted exact) candidates) in
    if is_some exact && ltb 1 (length ordered) then take 1 ordered else ordered

unfoldable pub select_candidate :
    List BootstrapCandidate → Option SemanticVersion → Option BootstrapCandidate
select_candidate candidates exact = elim (candidate_order candidates exact) [
  | [] ↦ none
  | c ∷ cs ↦ some c
]

-- Compared number by number, the first one foremost.
abbrev pub IsAtMost : SemanticVersion → SemanticVersion → Type 0
IsAtMost a b =
    (a.major < b.major)
    ⊎ ((a.major ≡ b.major) × ((a.minor < b.minor) ⊎ ((a.minor ≡ b.minor) × (a.patch ≤ b.patch))))

-- No candidate is older than one that stands behind it.
abbrev pub NewestFirst : List BootstrapCandidate → Type 0
NewestFirst [] = Unit
NewestFirst (c ∷ cs) = All (λ d. IsAtMost d.version c.version) cs × NewestFirst cs

not_less-IsAtMost : (a b : SemanticVersion) → version_less a b ≡ false → IsAtMost b a
unfolding version_less
not_less-IsAtMost a b h = elim (Bool-cases (ltb b.major a.major)) [
  | inl lower ↦ inl (ground (arith, lower))
  | inr same ↦ inr (
    ground (arith, h, same),
    elim (Bool-cases (ltb b.minor a.minor)) [
      | inl lower ↦ inl (ground (arith, lower))
      | inr even ↦ inr (ground (arith, h, same, even), ground (arith, h, same, even))
    ],
  )
]

-- The same, with the code's comparison.
abbrev Descending : List BootstrapCandidate → Type 0
Descending [] = Unit
Descending (c ∷ cs) = All (λ d. version_less c.version d.version ≡ false) cs × Descending cs

less_trans :
    (a b c : SemanticVersion)
    → version_less b c ≡ false
    → version_less a b ≡ false
    → version_less a c ≡ false
unfolding version_less
less_trans a b c h k = ground (arith, h, k)

less_asym : (a b : SemanticVersion) → version_less a b ≡ true → version_less b a ≡ false
unfolding version_less
less_asym a b h = ground (arith, h)

insert_candidate-All :
    (P : BootstrapCandidate → Type 0) (c : BootstrapCandidate) (cs : List BootstrapCandidate)
    → P c
    → All P cs
    → All P (insert_candidate c cs)
unfolding insert_candidate
insert_candidate-All P c [] p all = (p, tt)
insert_candidate-All P c (d ∷ ds) p (q, all) =
    elim (Bool-cases (version_less c.version d.version)) [
      | inl e ↦ rw e (q, insert_candidate-All P c ds p all)
      | inr e ↦ rw e (p, (q, all))
    ]

insert_candidate-Descending :
    (c : BootstrapCandidate) (cs : List BootstrapCandidate)
    → Descending cs
    → Descending (insert_candidate c cs)
unfolding insert_candidate
insert_candidate-Descending c [] sorted = (tt, tt)
insert_candidate-Descending c (d ∷ ds) (first, sorted) =
    elim (Bool-cases (version_less c.version d.version)) [
      | inl e ↦ rw e (
        insert_candidate-All (λ x. version_less d.version x.version ≡ false) c ds
            (less_asym c.version d.version e) first,
        insert_candidate-Descending c ds sorted,
      )
      | inr e ↦ rw e (
        (e, All-map (λ x h. less_trans c.version d.version x.version h e) ds first),
        (first, sorted),
      )
    ]

newest_first-Descending : (cs : List BootstrapCandidate) → Descending (newest_first cs)
unfolding newest_first
newest_first-Descending [] = tt
newest_first-Descending (c ∷ cs) =
    insert_candidate-Descending c (newest_first cs) (newest_first-Descending cs)

-- Inserting moves a candidate only past others of another version.
abbrev pub at_version : SemanticVersion → List BootstrapCandidate → List BootstrapCandidate
at_version v = keep_if (λ c. version_beq c.version v)

less_apart :
    (a b v : SemanticVersion)
    → version_less a b ≡ true
    → (version_beq a v && version_beq b v) ≡ false
unfolding version_less version_beq
less_apart a b v h = ground (arith, h)

insert_candidate-at_version :
    (v : SemanticVersion) (c : BootstrapCandidate) (cs : List BootstrapCandidate)
    → at_version v (insert_candidate c cs) ≡ at_version v (c ∷ cs)
unfolding insert_candidate
insert_candidate-at_version v c [] = refl
insert_candidate-at_version v c (d ∷ ds) = elim (Bool-cases (version_less c.version d.version)) [
  | inr e ↦ rw e refl
  | inl e ↦
      rw e (ground (arith, less_apart c.version d.version v e, insert_candidate-at_version v c ds))
]

newest_first-at_version :
    (v : SemanticVersion) (cs : List BootstrapCandidate)
    → at_version v (newest_first cs) ≡ at_version v cs
unfolding newest_first
newest_first-at_version v [] = refl
newest_first-at_version v (c ∷ cs) =
    insert_candidate-at_version v c (newest_first cs)
    ∙ ap (λ rest. if version_beq c.version v then c ∷ rest else rest) (newest_first-at_version v cs)

keep_if-wanted : (cs : List BootstrapCandidate) → keep_if (wanted none) cs ≡ cs
keep_if-wanted [] = refl
keep_if-wanted (c ∷ cs) = ap (λ rest. c ∷ rest) (keep_if-wanted cs)

pub newest_first-All :
    (P : BootstrapCandidate → Type 0) (cs : List BootstrapCandidate)
    → All P cs
    → All P (newest_first cs)
unfolding newest_first
newest_first-All P [] all = tt
newest_first-All P (c ∷ cs) (p, all) =
    insert_candidate-All P c (newest_first cs) p (newest_first-All P cs all)

Descending-NewestFirst : (cs : List BootstrapCandidate) → Descending cs → NewestFirst cs
Descending-NewestFirst [] sorted = tt
Descending-NewestFirst (c ∷ cs) (first, sorted) = (
  All-map (λ d h. not_less-IsAtMost c.version d.version h) cs first,
  Descending-NewestFirst cs sorted,
)

-- The automatic order is sorted from the newest to the oldest, by major, minor and patch number, and
-- for every version it keeps the discovered candidates of that version, all of them and in the order
-- of discovery.
pub candidate_order_automatic :
    (candidates : List BootstrapCandidate)
    → NewestFirst (candidate_order candidates none)
      × ((v : SemanticVersion)
          → at_version v (candidate_order candidates none) ≡ at_version v candidates)
unfolding candidate_order
candidate_order_automatic candidates = (
  Descending-NewestFirst _ (newest_first-Descending (keep_if (wanted none) candidates)),
  λ v.
      newest_first-at_version v (keep_if (wanted none) candidates)
      ∙ ap (at_version v) (keep_if-wanted candidates),
)

at_most_one :
    (P : BootstrapCandidate → Type 0) (cs : List BootstrapCandidate)
    → All P cs
    → (length (if ltb 1 (length cs) then take 1 cs else cs) ≤ 1)
      × All P (if ltb 1 (length cs) then take 1 cs else cs)
at_most_one P [] all = (omega arith, tt)
at_most_one P (c ∷ []) all = (omega arith, all)
at_most_one P (c ∷ d ∷ cs) (p, all) =
    let more : ltb 1 (suc (suc (length cs))) ≡ true = ground arith in rw more (omega arith, (p, tt))

-- A pinned order has at most one candidate, of the pinned version.
pub candidate_order_exact :
    (candidates : List BootstrapCandidate) (exact : SemanticVersion)
    → (length (candidate_order candidates (some exact)) ≤ 1)
      × All (λ c. version_beq c.version exact ≡ true) (candidate_order candidates (some exact))
unfolding candidate_order
candidate_order_exact candidates exact =
    at_most_one (λ c. version_beq c.version exact ≡ true)
      (newest_first (keep_if (wanted (some exact)) candidates))
      (newest_first-All _ (keep_if (wanted (some exact)) candidates)
        (All-keep_if (wanted (some exact)) candidates))
