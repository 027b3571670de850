-- ===== src/Loader/Bootstrap/Consistent.antt =====
-- Which module is loaded and who holds the claim after start_mod and uninstall_mod.
use ue4sslua_event_bridge.Base.{
  drop, Bytes, text, ℕ, ◌≡◌, refl, sym, ap, ◌∙◌, subst, Bool, true, false, not, ◌||◌, Option, none,
  some, List, [], ◌∷◌, arith, ◌==◌, if◌then◌else◌, is_some, if_all, if_false,
}
use ue4sslua_event_bridge.Loader.Candidate.{BootstrapCandidate, candidate_order}
use ue4sslua_event_bridge.Loader.Config.{LoaderConfig}
use ue4sslua_event_bridge.Loader.Bootstrap.{
  UninstallResult, Windows, BootstrapState, say, unclaimed, finish, run_order, start_mod,
  after_uninstall, uninstall_mod, can_unload, retain_module, threw,
}
use ue4sslua_event_bridge.Loader.Bootstrap.Loop.{
  Consistent, running, IsConsistent, first_starting, Ran, start_loop-Ran,
}

finish_by : Bool → BootstrapState → ℕ → BootstrapState × ℕ
finish_by z b' result = if z then (record b' { bootstrap_claim = false }, 0) else (b', result)

finish-Consistent :
    (w : Windows) (b : BootstrapState) (o : Option BootstrapCandidate) (r : BootstrapState × ℕ)
    → b.implementation_module ≡ 0
    → b.loaded ≡ []
    → b.bootstrap_claim ≡ true
    → Ran w b o r
    → IsConsistent (finish r).0
unfolding finish finish_by
finish-Consistent w b none (b', result) no_module no_loaded claimed (zero_result, run) =
    let m : b'.implementation_module ≡ 0 = ap (λ x. x.0) run ∙ no_module in
    let l : b'.loaded ≡ [] = ap (λ x. x.1) run ∙ no_loaded in rw (zero_result, m, l) (refl, refl)
finish-Consistent w b (some c) (b', result) no_module no_loaded claimed
      (good, same, positive, run) =
    let nz : (w.load_library c.path == 0) ≡ false = ground (arith, good) in
    let one : (w.load_library c.path ∷ b.loaded) ≡ (w.load_library c.path ∷ []) =
      ap (λ l. w.load_library c.path ∷ l) no_loaded in
    let all : running b' ≡ (w.load_library c.path, w.load_library c.path ∷ [], true) =
      run
      ∙ ap (λ l. (w.load_library c.path, l, b.bootstrap_claim)) one
      ∙ ap (λ q. (w.load_library c.path, w.load_library c.path ∷ [], q)) claimed in
    subst (λ z. Consistent (running (finish_by z b' result).0)) (sym positive)
      (subst Consistent (sym all) (rw nz (refl, refl)))

unclaimed-IsConsistent :
    (b : BootstrapState) (line : Bytes)
    → b.implementation_module ≡ 0
    → b.loaded ≡ []
    → IsConsistent (unclaimed b line).0
unfolding unclaimed say
unclaimed-IsConsistent b line m l = rw (m, l) (refl, refl)

run_order-IsConsistent :
    (w : Windows) (config : LoaderConfig) (b : BootstrapState) (order : List BootstrapCandidate)
    → b.implementation_module ≡ 0
    → b.loaded ≡ []
    → IsConsistent (run_order w config b order).0
unfolding run_order
run_order-IsConsistent w config b [] m l = unclaimed-IsConsistent b _ m l
run_order-IsConsistent w config b (c ∷ rest) m l =
    let claimed : BootstrapState = record b { bootstrap_claim = true } in
    finish-Consistent w claimed (first_starting w (c ∷ rest)) _ m l refl
      (start_loop-Ran w true claimed (c ∷ rest))

-- `start_mod` leaves exactly the running implementation loaded and holds the process claim exactly
-- while one runs, whatever the configuration, the candidates and the answers of Windows are.
pub start_mod-IsConsistent :
    (w : Windows) (config : LoaderConfig) (candidates : List BootstrapCandidate)
    (b : BootstrapState)
    → IsConsistent b
    → IsConsistent (start_mod w config candidates b).0
unfolding start_mod say
start_mod-IsConsistent w config candidates b (modules, claim) =
    let Fine : BootstrapState × ℕ → Type 0 = λ r. IsConsistent r.0 in
    if_all Fine (not (b.implementation_module == 0)) _ _ (λ busy. (modules, claim))
      (λ idle.
        let m : b.implementation_module ≡ 0 = ground (arith, idle) in
        let l : b.loaded ≡ [] = modules ∙ rw m refl in
        if_all Fine (not w.claim_is_new) _ _
          (λ h.
            unclaimed-IsConsistent b (text "another bootstrap instance already owns this process") m
              l)
          (λ new.
            if_all Fine (not w.bootstrap_file_found) _ _
              (λ h. unclaimed-IsConsistent b (text "cannot locate main.dll") m l)
              (λ found.
                if_all Fine (not config.valid) _ _ (λ h. unclaimed-IsConsistent b config.error m l)
                  (λ valid.
                    run_order-IsConsistent w config b
                      (candidate_order candidates config.exact_version) m l))))

or_false : (a b : Bool) → (a || b) ≡ false → a ≡ false
or_false a b h = ground (arith, h)

after_uninstall-IsConsistent :
    (b : BootstrapState) (result : UninstallResult)
    → (b.implementation_module == 0) ≡ false
    → IsConsistent b
    → IsConsistent (after_uninstall b result)
unfolding after_uninstall say
after_uninstall-IsConsistent b can_unload busy (modules, claim) =
    (ap (drop 1) (modules ∙ if_false (b.implementation_module == 0) _ _ busy), refl)
after_uninstall-IsConsistent b retain_module busy consistent = consistent
after_uninstall-IsConsistent b threw busy consistent = consistent

-- `uninstall_mod` keeps that too: a module that may not be unloaded stays loaded and keeps the claim.
pub uninstall_mod-IsConsistent :
    (w : Windows) (b : BootstrapState) (mod_handle : ℕ)
    → IsConsistent b
    → IsConsistent (uninstall_mod w b mod_handle)
unfolding uninstall_mod
uninstall_mod-IsConsistent w b mod_handle consistent =
    if_all IsConsistent (b.implementation_module == 0 || not (is_some b.implementation_api)) _ _
      (λ h. consistent)
      (λ h.
        after_uninstall-IsConsistent b (w.uninstall b.implementation_module mod_handle)
          (or_false _ _ h) consistent)
