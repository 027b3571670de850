-- ===== src/Loader/Examples.antt =====
-- Runs of the loader on concrete inputs.
use ue4sslua_event_bridge.Base.{
  Bytes, text, bytes_beq, ℕ, String, ◌≡◌, refl, true, false, Option, none, some, [], ◌∷◌, ◌++◌,
  arith, ◌==◌, if◌then◌else◌,
}
use ue4sslua_event_bridge.Loader.Version.{SemanticVersion, version_less}
use ue4sslua_event_bridge.Loader.Candidate.{
  BootstrapCandidate, insert_candidate, newest_first, candidate_order, NewestFirst, at_version,
  candidate_order_automatic,
}
use ue4sslua_event_bridge.Loader.Bootstrap.{
  ImplementationV1, Windows, BootstrapState, new_bootstrap, descriptor_matches, say, try_candidate,
  start_loop, start_mod, uninstall_mod, can_unload,
}
use ue4sslua_event_bridge.Loader.Bootstrap.Loop.{IsConsistent, first_starting}
use ue4sslua_event_bridge.Loader.Bootstrap.Consistent.{
  start_mod-IsConsistent, uninstall_mod-IsConsistent,
}
use ue4sslua_event_bridge.Loader.Bootstrap.First.{Runs, start_mod_first}
use ue4sslua_event_bridge.Loader.Config.{LoaderConfig, parse_loader_config}
use ue4sslua_event_bridge.Loader.Discovery.{
  DirectoryEntry, load_config, Installation, start_installed,
}
use ue4sslua_event_bridge.Loader.Config.Reading.{Layout, configuration}
use ue4sslua_event_bridge.Loader.Config.RoundTrip.{parse_loader_config-configuration}
use ue4sslua_event_bridge.Loader.Config.Terminates.{parse_loader_config-some}
use ue4sslua_event_bridge.Loader.Bootstrap.Installed.{Installed, start_installed-Installed}

abbrev old : BootstrapCandidate
old = record { version = record { major = 1; minor = 2; patch = 0 }; path = 1 ∷ [] }

abbrev new : BootstrapCandidate
new = record { version = record { major = 1; minor = 10; patch = 0 }; path = 2 ∷ [] }

candidate_order_automatic_example :
    NewestFirst (candidate_order (old ∷ new ∷ []) none)
    × ((v : SemanticVersion)
        → at_version v (candidate_order (old ∷ new ∷ []) none) ≡ at_version v (old ∷ new ∷ []))
candidate_order_automatic_example = candidate_order_automatic (old ∷ new ∷ [])

abbrev old_api : ImplementationV1
old_api = record {
  struct_size = 48;
  magic = 0x4C454231;
  abi_version = 1;
  ue4ss_commit = 0x97b7e501;
  version_major = 1;
  version_minor = 2;
  version_patch = 0;
  has_start = true;
  has_uninstall = true;
}

-- Both modules load; that of the newer version exports no descriptor.
abbrev host : Windows
host = record {
  claim_is_new = true;
  bootstrap_file_found = true;
  load_library = λ path. if bytes_beq path (1 ∷ []) then 100 else 200;
  get_api = λ m. if m == 100 then some old_api else none;
  start = λ m. some 5;
  uninstall = λ m h. can_unload;
}

abbrev automatic : LoaderConfig
automatic = record { valid = true; exact_version = none; error = [] }

start_mod_first_example :
    Runs host
      (first_starting host (candidate_order (old ∷ new ∷ []) none))
      (start_mod host automatic (old ∷ new ∷ []) new_bootstrap)
start_mod_first_example =
    start_mod_first host automatic (old ∷ new ∷ []) new_bootstrap refl refl refl refl

start_mod-IsConsistent_example :
    IsConsistent (start_mod host automatic (old ∷ new ∷ []) new_bootstrap).0
start_mod-IsConsistent_example =
    start_mod-IsConsistent host automatic (old ∷ new ∷ []) new_bootstrap (refl, refl)

uninstall_mod-IsConsistent_example :
    IsConsistent (uninstall_mod host (start_mod host automatic (old ∷ new ∷ []) new_bootstrap).0 5)
uninstall_mod-IsConsistent_example =
    uninstall_mod-IsConsistent host (start_mod host automatic (old ∷ new ∷ []) new_bootstrap).0 5
      (start_mod-IsConsistent host automatic (old ∷ new ∷ []) new_bootstrap (refl, refl))

-- The newer candidate fails, and the older one runs.
fallback : (start_mod host automatic (old ∷ new ∷ []) new_bootstrap).1 ≡ 5
unfolding start_mod candidate_order start_loop try_candidate descriptor_matches say bytes_beq
    newest_first insert_candidate version_less
fallback = refl

parse_loader_config-some_example :
    (c : LoaderConfig) × (parse_loader_config (some (text "{\"schema\"")) ≡ some c)
parse_loader_config-some_example = parse_loader_config-some (some (text "{\"schema\""))

-- The version first, on lines of their own, behind a byte order mark.
abbrev on_lines : Layout
on_lines = record {
  marked = true;
  schema_first = false;
  before = [];
  opened = 10 ∷ 32 ∷ [];
  key = [];
  value = 32 ∷ [];
  comma = [];
  next = 10 ∷ 32 ∷ [];
  next_key = [];
  next_value = 32 ∷ [];
  closing = 10 ∷ [];
  behind = 10 ∷ [];
}

parse_loader_config-configuration_example :
    parse_loader_config (some (configuration on_lines (text "auto")))
    ≡ some (record { valid = true; exact_version = none; error = [] })
unfolding configuration text
parse_loader_config-configuration_example =
    parse_loader_config-configuration on_lines (text "auto") none
      (
        tt,
        (refl, (refl, tt)),
        tt,
        (refl, tt),
        tt,
        (refl, (refl, tt)),
        tt,
        (refl, tt),
        (refl, tt),
        (refl, tt),
      )
      refl (omega arith)

abbrev resource_name : String → Bytes
resource_name name = text "\\StringFileInfo\\040904B0\\" ++ text name

-- The version resource of an implementation 1.2.0.
abbrev resources : Bytes → Option Bytes
resources name =
    if bytes_beq name (resource_name "ProductVersion")
    then some (text "1.2.0")
    else if bytes_beq name (resource_name "ProductName")
    then some (text "UE4SSLuaEventBridge")
    else if bytes_beq name (resource_name "BridgeRole")
    then some (text "Implementation")
    else if bytes_beq name (resource_name "ImplementationABI")
    then some (text "1")
    else if bytes_beq name (resource_name "UE4SSCommit")
    then some (text "97b7e501")
    else if bytes_beq name (resource_name "UnrealVersion")
    then some (text "5.5")
    else some (text "UE4SSLuaEventBridge-1.2.0.dll")

abbrev old_file : DirectoryEntry
old_file = record {
  path = 1 ∷ [];
  filename = text "UE4SSLuaEventBridge-1.2.0.dll";
  extension = text ".dll";
  is_symlink = some false;
  is_regular_file = some true;
  version_info = record { size = 1; loaded = true; query = resources };
  advances = true;
}

abbrev installation : Installation
installation = record {
  config = record { exists = some false; opens = false; contents = [] };
  versions = record { opened = true; entries = old_file ∷ [] };
}

start_installed-Installed_example :
    (config : LoaderConfig) × (r : BootstrapState × ℕ) × (load_config installation.config
      ≡ some config)
    × (start_installed host installation new_bootstrap ≡ some r)
    × Installed host installation config.exact_version r
start_installed-Installed_example = start_installed-Installed host installation new_bootstrap refl
