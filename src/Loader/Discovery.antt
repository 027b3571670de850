-- ===== src/Loader/Discovery.antt =====
-- The files that the bootstrap reads, bootstrap/src/Bootstrap.cpp: the version resource of a module,
-- the directory of versions and the configuration. What Windows and the file system answer stands in
-- records. A wide text is its code units.
pub mod Genuine
use ue4sslua_event_bridge.Base.{
  length, Bytes, text, ℕ, String, Bool, true, false, not, ◌&&◌, ◌||◌, Option, none, some, List, [],
  ◌∷◌, ◌++◌, ltb, ◌==◌, if◌then◌else◌, ◌>>=◌,
}
use ue4sslua_event_bridge.Loader.Version.{parse_semantic_version}
use ue4sslua_event_bridge.Loader.Candidate.{
  BootstrapCandidate, CandidateMetadata, same_candidate_name, compatible_candidate, wanted,
}
use ue4sslua_event_bridge.Loader.Config.{LoaderConfig, fail, parse_loader_config}
use ue4sslua_event_bridge.Loader.Bootstrap.{Windows, BootstrapState, start_mod}

-- What GetFileVersionInfoSizeW, GetFileVersionInfoW and VerQueryValueW answer for a file; a query
-- that fails or gives no value is none.
pub record VersionInfo : Type 0 where
  pub size : ℕ
  pub loaded : Bool
  pub query : Bytes → Option Bytes

without_terminator : Bytes → Bytes
without_terminator [] = []
without_terminator (c ∷ []) = if c == 0 then [] else c ∷ []
without_terminator (c ∷ d ∷ s) = c ∷ without_terminator (d ∷ s)

queried : Option Bytes → Option Bytes
queried none = none
queried (some value) = if length value == 0 then none else some (without_terminator value)

-- One null character at the end, if it stands there, is left out.
unfoldable pub resource_string : VersionInfo → String → Option Bytes
unfolding queried without_terminator
resource_string info name = queried (info.query (text "\\StringFileInfo\\040904B0\\" ++ text name))

-- The loop that copies a text of characters up to 0x7f.
narrow : Bytes → Option Bytes
narrow [] = some []
narrow (c ∷ s) =
    let rest = narrow s in
    if ltb 0x7f c then none else elim rest [ none ↦ none | some t ↦ some (c ∷ t) ]

-- std::filesystem::directory_entry: its path and parts of it, and what its queries answer; none is
-- an error. `advances` is whether the increment behind the entry reports none.
pub record DirectoryEntry : Type 0 where
  pub path : Bytes
  pub filename : Bytes
  pub extension : Bytes
  pub is_symlink : Option Bool
  pub is_regular_file : Option Bool
  pub version_info : VersionInfo
  pub advances : Bool

unfoldable pub read_metadata : DirectoryEntry → Option CandidateMetadata
unfolding narrow
read_metadata entry =
    let info = entry.version_info in
    if info.size == 0 || not info.loaded then none else do
      product_version ← resource_string info "ProductVersion"
      product_name ← resource_string info "ProductName"
      original_filename ← resource_string info "OriginalFilename"
      role ← resource_string info "BridgeRole"
      implementation_abi ← resource_string info "ImplementationABI"
      ue4ss_commit ← resource_string info "UE4SSCommit"
      unreal_version ← resource_string info "UnrealVersion"
      narrow_version ← narrow product_version
      version ← parse_semantic_version narrow_version
      some (record {
        version = version;
        filename = entry.filename;
        original_filename = original_filename;
        product_name = product_name;
        role = role;
        implementation_abi = implementation_abi;
        ue4ss_commit = ue4ss_commit;
        unreal_version = unreal_version;
      })

-- _wcsicmp in the C locale, on texts without null characters.
unfoldable pub same_name : Bytes → Bytes → Bool
same_name left right = same_candidate_name left right

abbrev answers : Option Bool → Bool → Bool
answers none wanted = false
answers (some true) wanted = wanted
answers (some false) wanted = not wanted

-- An entry that the loop does not skip for its kind or name.
unfoldable pub is_module_file : DirectoryEntry → Bool
is_module_file entry =
    answers entry.is_symlink false
    && (answers entry.is_regular_file true && same_name entry.extension (text ".dll"))

-- The candidate that an entry gives.
pub found : DirectoryEntry → Option CandidateMetadata → List BootstrapCandidate
found entry none = []
found entry (some metadata) =
    if compatible_candidate metadata
    then record { version = metadata.version; path = entry.path } ∷ []
    else []

pub candidate_of : DirectoryEntry → List BootstrapCandidate
candidate_of entry = if is_module_file entry then found entry (read_metadata entry) else []

pub discover_entries : List DirectoryEntry → List BootstrapCandidate
discover_entries [] = []
discover_entries (entry ∷ entries) =
    let rest = discover_entries entries in
    candidate_of entry ++ (if entry.advances then rest else [])

pub record Directory : Type 0 where
  -- the iterator was made without an error
  pub opened : Bool
  pub entries : List DirectoryEntry

unfoldable pub discover : Directory → List BootstrapCandidate
unfolding discover_entries candidate_of found
discover directory = if directory.opened then discover_entries directory.entries else []

-- main.json: whether it exists (none is an error), whether it opens, and its bytes.
pub record ConfigFile : Type 0 where
  pub exists : Option Bool
  pub opens : Bool
  pub contents : Bytes

pub existing_config : ConfigFile → Option Bool → Option LoaderConfig
existing_config file none = some (fail (text "cannot inspect main.json"))
existing_config file (some false) = parse_loader_config none
existing_config file (some true) =
    if not file.opens
    then some (fail (text "cannot open main.json"))
    else parse_loader_config (some file.contents)

unfoldable pub load_config : ConfigFile → Option LoaderConfig
unfolding existing_config
load_config file = existing_config file file.exists

-- The directory of main.dll.
pub record Installation : Type 0 where
  pub config : ConfigFile
  pub versions : Directory

-- start_mod on the files of an installation; none is only a parser without fuel.
unfoldable pub start_installed :
    Windows → Installation → BootstrapState → Option (BootstrapState × ℕ)
start_installed w files b = do
  config ← load_config files.config
  some (start_mod w config (discover files.versions) b)
