-- ===== src/Loader/Bootstrap/Loop.antt =====
-- The loop of start_mod over the candidates, bootstrap/src/Bootstrap.cpp.
use ue4sslua_event_bridge.Base.{
  ℕ, ◌≡◌, refl, sym, ap, ◌∙◌, subst, inl, inr, Bool, true, false, not, ◌&&◌, Option, none, some,
  List, [], ◌∷◌, arith, ◌==◌, if◌then◌else◌, Bool-cases,
}
use ue4sslua_event_bridge.Loader.Candidate.{BootstrapCandidate}
use ue4sslua_event_bridge.Loader.Bootstrap.{
  Windows, BootstrapState, descriptor_matches, say, freed, started_mod, try_candidate, start_loop,
}

-- What `start_mod` and `uninstall_mod` keep: exactly the running module is loaded, and then the claim
-- is held.
abbrev pub Consistent : ℕ × List ℕ × Bool → Type 0
Consistent (module_handle, loaded, claim) =
    (loaded ≡ (if module_handle == 0 then [] else module_handle ∷ []))
    × (claim ≡ not (module_handle == 0))

abbrev pub running : BootstrapState → ℕ × List ℕ × Bool
running b = (b.implementation_module, b.loaded, b.bootstrap_claim)

abbrev pub IsConsistent : BootstrapState → Type 0
IsConsistent b = Consistent (running b)

-- Whether a candidate loads, matches its version and starts.
abbrev pub starts : Windows → BootstrapCandidate → Bool
starts w c =
    let loaded_module = w.load_library c.path in
    not (loaded_module == 0)
    && (descriptor_matches (w.get_api loaded_module) c.version
        && not (started_mod (w.start loaded_module) == 0))

-- The first candidate that starts.
abbrev pub first_starting : Windows → List BootstrapCandidate → Option BootstrapCandidate
first_starting w [] = none
first_starting w (c ∷ cs) = let later = first_starting w cs in if starts w c then some c else later

try_candidate-starts :
    (w : Windows) (first : Bool) (b : BootstrapState) (c : BootstrapCandidate)
    → starts w c ≡ true
    → ((try_candidate w first b c).1 ≡ started_mod (w.start (w.load_library c.path)))
      × (((try_candidate w first b c).1 == 0) ≡ false)
      × (running (try_candidate w first b c).0
          ≡ (w.load_library c.path, w.load_library c.path ∷ b.loaded, b.bootstrap_claim))
unfolding try_candidate say
try_candidate-starts w first b c h =
    let e : (w.load_library c.path == 0) ≡ false = ground (arith, h) in
    let m : descriptor_matches (w.get_api (w.load_library c.path)) c.version ≡ true =
      ground (arith, h) in
    let nz : (started_mod (w.start (w.load_library c.path)) == 0) ≡ false = ground (arith, h) in
    rw (e, m, nz) (refl, nz, refl)

try_candidate_fails :
    (w : Windows) (first : Bool) (b : BootstrapState) (c : BootstrapCandidate)
    → starts w c ≡ false
    → ((try_candidate w first b c).1 ≡ 0) × (running (try_candidate w first b c).0 ≡ running b)
unfolding try_candidate say freed
try_candidate_fails w first b c h = elim (Bool-cases (w.load_library c.path == 0)) [
  | inl e ↦ rw e (refl, refl)
  | inr e ↦ elim (Bool-cases (descriptor_matches (w.get_api (w.load_library c.path)) c.version)) [
    | inr n ↦ rw (e, n) (refl, refl)
    | inl m ↦ elim (Bool-cases (started_mod (w.start (w.load_library c.path)) == 0)) [
      | inl z ↦ rw (e, m, z) (refl, refl)
      | inr nz ↦ absurd (ground (arith, h, e, m, nz))
    ]
  ]
]

-- The loop runs the first candidate that starts, and frees every module it tried before; if none
-- starts, no module is left.
abbrev pub Ran : Windows → BootstrapState → Option BootstrapCandidate → BootstrapState × ℕ → Type 0
Ran w b none (b', result) = (result ≡ 0) × (running b' ≡ running b)
Ran w b (some c) (b', result) =
    (starts w c ≡ true)
    × (result ≡ started_mod (w.start (w.load_library c.path)))
    × ((result == 0) ≡ false)
    × (running b' ≡ (w.load_library c.path, w.load_library c.path ∷ b.loaded, b.bootstrap_claim))

Ran-same :
    (w : Windows) (b b1 : BootstrapState) (o : Option BootstrapCandidate) (r : BootstrapState × ℕ)
    → running b1 ≡ running b
    → Ran w b1 o r
    → Ran w b o r
Ran-same w b b1 none r same (result, run) = (result, run ∙ same)
Ran-same w b b1 (some c) r same (good, result, positive, run) = (
  good,
  result,
  positive,
  run ∙ ap (λ x. (w.load_library c.path, w.load_library c.path ∷ x.1, x.2)) same,
)

pub start_loop-Ran :
    (w : Windows) (first : Bool) (b : BootstrapState) (order : List BootstrapCandidate)
    → Ran w b (first_starting w order) (start_loop w first b order)
unfolding start_loop
start_loop-Ran w first b [] = (refl, refl)
start_loop-Ran w first b (c ∷ rest) = elim (Bool-cases (starts w c)) [
  | inl good ↦
      let (result, positive, run) = try_candidate-starts w first b c good in
      subst
        (λ o. Ran w b (if o then some c else first_starting w rest) (
          if (try_candidate w first b c).1 == 0
          then start_loop w false (try_candidate w first b c).0 rest
          else ((try_candidate w first b c).0, (try_candidate w first b c).1)))
        (sym good)
        (subst
          (λ z. Ran w b (some c) (
            if z
            then start_loop w false (try_candidate w first b c).0 rest
            else ((try_candidate w first b c).0, (try_candidate w first b c).1)))
          (sym positive) (good, result, positive, run))
  | inr bad ↦
      let (result, run) = try_candidate_fails w first b c bad in
      subst
        (λ o. Ran w b (if o then some c else first_starting w rest) (
          if (try_candidate w first b c).1 == 0
          then start_loop w false (try_candidate w first b c).0 rest
          else ((try_candidate w first b c).0, (try_candidate w first b c).1)))
        (sym bad)
        (subst
          (λ z. Ran w b (first_starting w rest) (
            if z == 0
            then start_loop w false (try_candidate w first b c).0 rest
            else ((try_candidate w first b c).0, z)))
          (sym result)
          (Ran-same w b (try_candidate w first b c).0 (first_starting w rest) _ run
            (start_loop-Ran w false (try_candidate w first b c).0 rest)))
]
