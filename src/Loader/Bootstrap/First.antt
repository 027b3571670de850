-- ===== src/Loader/Bootstrap/First.antt =====
-- Which candidate start_mod runs.
use ue4sslua_event_bridge.Base.{
  ℕ, ◌≡◌, refl, sym, ap, ◌∙◌, subst, true, false, not, Option, none, some, List, [], ◌∷◌, arith,
  ◌==◌, if_false,
}
use ue4sslua_event_bridge.Loader.Candidate.{BootstrapCandidate, candidate_order}
use ue4sslua_event_bridge.Loader.Config.{LoaderConfig}
use ue4sslua_event_bridge.Loader.Bootstrap.{
  Windows, BootstrapState, started_mod, unclaimed, finish, run_order, start_mod,
}
use ue4sslua_event_bridge.Loader.Bootstrap.Loop.{first_starting, Ran, start_loop-Ran}

-- What is to run: the mod of a candidate, or nothing.
abbrev pub Runs : Windows → Option BootstrapCandidate → BootstrapState × ℕ → Type 0
Runs w none (b', result) = result ≡ 0
Runs w (some c) (b', result) =
    (result ≡ started_mod (w.start (w.load_library c.path)))
    × ((result == 0) ≡ false)
    × (b'.implementation_module ≡ w.load_library c.path)

finish-Runs :
    (w : Windows) (b : BootstrapState) (o : Option BootstrapCandidate) (r : BootstrapState × ℕ)
    → Ran w b o r
    → Runs w o (finish r)
unfolding finish
finish-Runs w b none (b', result) (zero_result, run) = rw zero_result refl
finish-Runs w b (some c) (b', result) (good, same, positive, run) =
    subst (Runs w (some c)) (sym (if_false (result == 0) _ _ positive))
      (same, positive, ap (λ x. x.0) run)

run_order-Runs :
    (w : Windows) (config : LoaderConfig) (b : BootstrapState) (order : List BootstrapCandidate)
    → Runs w (first_starting w order) (run_order w config b order)
unfolding run_order unclaimed
run_order-Runs w config b [] = refl
run_order-Runs w config b (c ∷ rest) =
    let claimed : BootstrapState = record b { bootstrap_claim = true } in
    finish-Runs w claimed (first_starting w (c ∷ rest)) _ (start_loop-Ran w true claimed (c ∷ rest))

-- When nothing runs yet, the claim is new, the file is found and the configuration is valid,
-- `start_mod` runs the first candidate of the order that loads, matches its version and starts, and
-- returns its mod; it returns null when no candidate of the order does.
pub start_mod_first :
    (w : Windows) (config : LoaderConfig) (candidates : List BootstrapCandidate)
    (b : BootstrapState)
    → b.implementation_module ≡ 0
    → w.claim_is_new ≡ true
    → w.bootstrap_file_found ≡ true
    → config.valid ≡ true
    → Runs w
        (first_starting w (candidate_order candidates config.exact_version))
        (start_mod w config candidates b)
unfolding start_mod
start_mod_first w config candidates b idle new found valid =
    subst (Runs w _)
      (sym (
        if_false (not (b.implementation_module == 0)) _ _ (ground (arith, idle))
        ∙ if_false (not w.claim_is_new) _ _ (ap not new)
        ∙ if_false (not w.bootstrap_file_found) _ _ (ap not found)
        ∙ if_false (not config.valid) _ _ (ap not valid)))
      (run_order-Runs w config b (candidate_order candidates config.exact_version))
