-- ===== src/Loader/Bootstrap.antt =====
-- start_mod and uninstall_mod of bootstrap/src/Bootstrap.cpp. What Windows and an implementation
-- answer stands in a record: LoadLibraryExW by path, UE4SSLEB_GetImplementationV1 by module, and the
-- results of `start` and `uninstall`. A call that throws has its own answer.
pub mod Loop
pub mod Consistent
pub mod First
pub mod Installed
use ue4sslua_event_bridge.Base.{
  drop, Bytes, text, ℕ, String, Bool, true, false, not, ◌&&◌, ◌||◌, Option, none, some, List, [],
  ◌∷◌, ◌++◌, leb, ◌==◌, if◌then◌else◌, is_some,
}
use ue4sslua_event_bridge.Loader.Version.{SemanticVersion, version_text}
use ue4sslua_event_bridge.Loader.Candidate.{BootstrapCandidate, candidate_order}
use ue4sslua_event_bridge.Loader.Config.{LoaderConfig}

pub record ImplementationV1 : Type 0 where
  pub struct_size : ℕ
  pub magic : ℕ
  pub abi_version : ℕ
  pub ue4ss_commit : ℕ
  pub version_major : ℕ
  pub version_minor : ℕ
  pub version_patch : ℕ
  pub has_start : Bool
  pub has_uninstall : Bool

pub data UninstallResult : Type 0 where
  can_unload retain_module threw : UninstallResult

pub record Windows : Type 0 where
  -- CreateMutexW made a mutex that did not exist
  pub claim_is_new : Bool
  pub bootstrap_file_found : Bool
  -- 0 is a failure
  pub load_library : Bytes → ℕ
  pub get_api : ℕ → Option ImplementationV1
  -- 0 is null, and none an exception
  pub start : ℕ → Option ℕ
  pub uninstall : ℕ → ℕ → UninstallResult

pub record BootstrapState : Type 0 where
  pub implementation_module : ℕ
  pub implementation_api : Option ImplementationV1
  pub bootstrap_claim : Bool
  -- the modules that are loaded and not freed, the latest first
  pub loaded : List ℕ
  pub log : List Bytes

abbrev pub new_bootstrap : BootstrapState
new_bootstrap = record {
  implementation_module = 0;
  implementation_api = none;
  bootstrap_claim = false;
  loaded = [];
  log = [];
}

unfoldable pub descriptor_matches : Option ImplementationV1 → SemanticVersion → Bool
descriptor_matches none version = false
descriptor_matches (some api) version =
    leb 48 api.struct_size
    && (api.magic == 0x4C454231
        && (api.abi_version == 1
            && (api.ue4ss_commit == 0x97b7e501
                && (api.has_start
                    && (api.has_uninstall
                        && (api.version_major == version.major
                            && (api.version_minor == version.minor
                                && api.version_patch == version.patch)))))))

unfoldable pub say : BootstrapState → Bytes → BootstrapState
say b line = record b { log = line ∷ b.log }

pub implementation : SemanticVersion → String → Bytes
implementation v what = text "implementation " ++ (version_text v ++ text what)

-- FreeLibrary of the module that was loaded last
pub freed : BootstrapState → BootstrapState
freed b = record b { loaded = drop 1 b.loaded }

abbrev pub started_mod : Option ℕ → ℕ
started_mod none = 0
started_mod (some result) = result

-- One candidate: the state, and its mod or 0.
unfoldable pub try_candidate :
    Windows → Bool → BootstrapState → BootstrapCandidate → BootstrapState × ℕ
unfolding implementation freed
try_candidate w first b candidate =
    let loaded_module = w.load_library candidate.path in
    if loaded_module == 0
    then (say b (implementation candidate.version " could not be loaded"), 0)
    else let held : BootstrapState = record b { loaded = loaded_module ∷ b.loaded } in
      let api = w.get_api loaded_module in
      if not (descriptor_matches api candidate.version)
      then (freed (say held (implementation candidate.version " failed its private ABI check")), 0)
      else let result = started_mod (w.start loaded_module) in
        if result == 0
        then (
          freed (
              say held (
                implementation candidate.version (
                  if is_some (w.start loaded_module)
                  then " did not start"
                  else " threw during startup"))),
          0,
        )
        else (
          say (record held { implementation_module = loaded_module; implementation_api = api })
              (text "started "
                ++ implementation candidate.version
                    (if first then "" else " after newer versions failed")),
          result,
        )

-- The loop over the order.
unfoldable pub start_loop :
    Windows → Bool → BootstrapState → List BootstrapCandidate → BootstrapState × ℕ
start_loop w first b [] = (b, 0)
start_loop w first b (candidate ∷ rest) =
    let (b', result) = try_candidate w first b candidate in
    let later = start_loop w false b' rest in if result == 0 then later else (b', result)

pub unclaimed : BootstrapState → Bytes → BootstrapState × ℕ
unclaimed b line = (record (say b line) { bootstrap_claim = false }, 0)

-- After the loop: a claim without an implementation is closed.
pub finish : BootstrapState × ℕ → BootstrapState × ℕ
finish (b', result) =
    if result == 0 then (record b' { bootstrap_claim = false }, 0) else (b', result)

pub run_order :
    Windows → LoaderConfig → BootstrapState → List BootstrapCandidate → BootstrapState × ℕ
run_order w config b [] = unclaimed b (
    if is_some config.exact_version
    then text "configured implementation is unavailable or incompatible"
    else text "no compatible implementation was discovered")
run_order w config b (candidate ∷ rest) =
    finish (start_loop w true (record b { bootstrap_claim = true }) (candidate ∷ rest))

-- `config` is what load_config reads, `candidates` what discover finds.
unfoldable pub start_mod :
    Windows → LoaderConfig → List BootstrapCandidate → BootstrapState → BootstrapState × ℕ
unfolding unclaimed run_order finish
start_mod w config candidates b =
    if not (b.implementation_module == 0)
    then (say b (text "start_mod called more than once"), 0)
    else if not w.claim_is_new
    then unclaimed b (text "another bootstrap instance already owns this process")
    else if not w.bootstrap_file_found
    then unclaimed b (text "cannot locate main.dll")
    else if not config.valid
    then unclaimed b config.error
    else run_order w config b (candidate_order candidates config.exact_version)

pub after_uninstall : BootstrapState → UninstallResult → BootstrapState
after_uninstall b threw =
    record (say b (text "implementation threw during uninstall; retaining its module")) {
      implementation_api = none;
    }
after_uninstall b retain_module =
    record (say b (
      text
        "implementation retained native code; restart the process before selecting another version")) {
          implementation_api = none;
        }
after_uninstall b can_unload = record b {
  implementation_module = 0;
  implementation_api = none;
  bootstrap_claim = false;
  loaded = drop 1 b.loaded;
}

unfoldable pub uninstall_mod : Windows → BootstrapState → ℕ → BootstrapState
unfolding after_uninstall
uninstall_mod w b mod_handle =
    if b.implementation_module == 0 || not (is_some b.implementation_api)
    then b
    else after_uninstall b (w.uninstall b.implementation_module mod_handle)
