-- ===== src/Loader/Bootstrap/Installed.antt =====
-- start_mod on the files of an installation, bootstrap/src/Bootstrap.cpp.
use ue4sslua_event_bridge.Base.{
  length, take, keep_if, All, Bytes, ℕ, ◌≡◌, refl, sym, ap, ◌∙◌, subst, ◌⊎◌, inl, inr, true, not,
  ◌&&◌, Option, none, some, List, [], ◌∷◌, arith, ltb, ◌==◌, if◌then◌else◌, Bool-cases, is_some,
  some-injective, if_all, if_false, ◌>>=◌,
}
use ue4sslua_event_bridge.Loader.Version.{SemanticVersion}
use ue4sslua_event_bridge.Loader.Candidate.{
  BootstrapCandidate, newest_first, wanted, candidate_order, newest_first-All,
}
use ue4sslua_event_bridge.Loader.Config.{LoaderConfig}
use ue4sslua_event_bridge.Loader.Discovery.{discover, load_config, Installation, start_installed}
use ue4sslua_event_bridge.Loader.Discovery.Genuine.{Genuine, discover-Genuine, load_config-some}
use ue4sslua_event_bridge.Loader.Bootstrap.{
  Windows, BootstrapState, say, started_mod, unclaimed, finish, run_order, start_mod,
}
use ue4sslua_event_bridge.Loader.Bootstrap.Loop.{starts, first_starting, Ran, start_loop-Ran}

take_one-All :
    (P : BootstrapCandidate → Type 0) (cs : List BootstrapCandidate) → All P cs → All P (take 1 cs)
take_one-All P [] all = tt
take_one-All P (c ∷ cs) (p, all) = (p, tt)

keep_if-wanted_both :
    (P : BootstrapCandidate → Type 0) (exact : Option SemanticVersion)
    (cs : List BootstrapCandidate)
    → All P cs
    → All (λ c. P c × (wanted exact c ≡ true)) (keep_if (wanted exact) cs)
keep_if-wanted_both P exact [] all = tt
keep_if-wanted_both P exact (c ∷ cs) (p, all) =
    let rest = keep_if-wanted_both P exact cs all in
    if_all (All (λ x. P x × (wanted exact x ≡ true))) (wanted exact c)
      (c ∷ keep_if (wanted exact) cs) (keep_if (wanted exact) cs) (λ h. ((p, h), rest)) (λ _. rest)

-- What holds of every discovered candidate holds of every candidate of the order, which is wanted.
candidate_order-All :
    (P : BootstrapCandidate → Type 0) (exact : Option SemanticVersion)
    (cs : List BootstrapCandidate)
    → All P cs
    → All (λ c. P c × (wanted exact c ≡ true)) (candidate_order cs exact)
unfolding candidate_order
candidate_order-All P exact cs all =
    let Q : BootstrapCandidate → Type 0 = λ c. P c × (wanted exact c ≡ true) in
    let ordered =
      newest_first-All Q (keep_if (wanted exact) cs) (keep_if-wanted_both P exact cs all) in
    if_all (All Q) (is_some exact && ltb 1 (length (newest_first (keep_if (wanted exact) cs)))) _ _
      (λ _. take_one-All Q _ ordered) (λ _. ordered)

first_starting-All :
    (w : Windows) (P : BootstrapCandidate → Type 0) (cs : List BootstrapCandidate)
    (c : BootstrapCandidate)
    → All P cs
    → first_starting w cs ≡ some c
    → P c × (starts w c ≡ true)
first_starting-All w P [] c all h = absurd (ground (arith, h))
first_starting-All w P (d ∷ cs) c (p, all) h = elim (Bool-cases (starts w d)) [
  | inl e ↦
      subst (λ x. P x × (starts w x ≡ true))
        (some-injective (sym (ap (λ b. if b then some d else first_starting w cs) e) ∙ h)) (p, e)
  | inr e ↦
      first_starting-All w P cs c all
        (sym (if_false (starts w d) (some d) (first_starting w cs) e) ∙ h)
]

-- Nothing runs, or what runs is a genuine file of the wanted version that loaded, matched and started.
pub Installed : Windows → Installation → Option SemanticVersion → BootstrapState × ℕ → Type 0
Installed w files exact (b, result) =
    ((result ≡ 0) × (b.implementation_module ≡ 0))
    ⊎ ((c : BootstrapCandidate) × Genuine files.versions.entries c
        × (wanted exact c ≡ true)
        × (starts w c ≡ true)
        × (result ≡ started_mod (w.start (w.load_library c.path)))
        × (b.implementation_module ≡ w.load_library c.path))

-- What a run of start_mod on an idle loader gives is what it gives when it refuses, or when it tries
-- the order.
start_mod_all :
    (P : BootstrapState × ℕ → Type 0) (w : Windows) (config : LoaderConfig)
    (candidates : List BootstrapCandidate) (b : BootstrapState)
    → b.implementation_module ≡ 0
    → ((line : Bytes) → P (unclaimed b line))
    → P (run_order w config b (candidate_order candidates config.exact_version))
    → P (start_mod w config candidates b)
unfolding start_mod
start_mod_all P w config candidates b idle refuses tries =
    subst P (sym (if_false (not (b.implementation_module == 0)) _ _ (ground (arith, idle)))) (
      if_all P (not w.claim_is_new) _ _ (λ _. refuses _)
        (λ _.
          if_all P (not w.bootstrap_file_found) _ _ (λ _. refuses _)
            (λ _. if_all P (not config.valid) _ _ (λ _. refuses _) (λ _. tries))))

finish-Installed :
    (w : Windows) (files : Installation) (exact : Option SemanticVersion) (b : BootstrapState)
    (o : Option BootstrapCandidate) (r : BootstrapState × ℕ)
    → b.implementation_module ≡ 0
    → ((c : BootstrapCandidate)
        → o ≡ some c
        → Genuine files.versions.entries c × (wanted exact c ≡ true))
    → Ran w b o r
    → Installed w files exact (finish r)
unfolding finish Installed
finish-Installed w files exact b none (b', result) idle good (zero_result, run) =
    if_all (Installed w files exact) (result == 0) _ _ (λ _. inl (refl, ap (λ x. x.0) run ∙ idle))
      (λ h. absurd (ground (arith, h, zero_result)))
finish-Installed w files exact b (some c) (b', result) idle good (started, same, positive, run) =
    let (genuine, right) = good c refl in
    subst (Installed w files exact) (sym (if_false (result == 0) _ _ positive))
      (inr (c, genuine, right, started, same, ap (λ x. x.0) run))

run_order-Installed :
    (w : Windows) (files : Installation) (config : LoaderConfig) (b : BootstrapState)
    (order : List BootstrapCandidate)
    → b.implementation_module ≡ 0
    → All (λ c. Genuine files.versions.entries c × (wanted config.exact_version c ≡ true)) order
    → Installed w files config.exact_version (run_order w config b order)
unfolding run_order unclaimed Installed say
run_order-Installed w files config b [] idle all = inl (refl, idle)
run_order-Installed w files config b (c ∷ rest) idle all =
    let claimed : BootstrapState = record b { bootstrap_claim = true } in
    finish-Installed w files config.exact_version claimed (first_starting w (c ∷ rest)) _ idle
      (λ d h. (first_starting-All w _ (c ∷ rest) d all h).0)
      (start_loop-Ran w true claimed (c ∷ rest))

-- On every installation, an idle start_mod reads some configuration and comes to a result: either it
-- runs nothing, or it runs a regular file of the versions directory that is no symbolic link, whose
-- resources name this program, this role, this ABI and its own file name, which has the configured
-- version if one is configured, and which loaded, described that version and started.
pub start_installed-Installed :
    (w : Windows) (files : Installation) (b : BootstrapState)
    → b.implementation_module ≡ 0
    → (config : LoaderConfig) × (r : BootstrapState × ℕ) × (load_config files.config ≡ some config)
      × (start_installed w files b ≡ some r)
      × Installed w files config.exact_version r
unfolding start_installed
start_installed-Installed w files b idle =
    let (config, e) = load_config-some files.config in
    (
      config,
      start_mod w config (discover files.versions) b,
      e,
      ap (λ o. o >>= (λ c. some (start_mod w c (discover files.versions) b))) e,
      start_mod_all (Installed w files config.exact_version) w config (discover files.versions) b
          idle (λ line. unfold Installed in unfold unclaimed in unfold say in inl (refl, idle))
          (run_order-Installed w files config b _ idle
            (candidate_order-All _ config.exact_version _ (discover-Genuine files.versions))),
    )
