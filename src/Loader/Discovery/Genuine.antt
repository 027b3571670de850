-- ===== src/Loader/Discovery/Genuine.antt =====
-- What bootstrap/src/Bootstrap.cpp reads from an installation: the candidates and the configuration.
use mathlib.Core.List.{Memᴰ}
use mathlib.Core.List.Memᴰ.{head, tail}
use ue4sslua_event_bridge.Base.{
  All, All-map, text, ◌≡◌, refl, Bool, true, false, not, Option, none, some, List, [], ◌∷◌, ◌++◌,
  if◌then◌else◌, if_all,
}
use ue4sslua_event_bridge.Loader.Candidate.{
  BootstrapCandidate, CandidateMetadata, compatible_candidate,
}
use ue4sslua_event_bridge.Loader.Config.{LoaderConfig, fail}
use ue4sslua_event_bridge.Loader.Config.Terminates.{parse_loader_config-some}
use ue4sslua_event_bridge.Loader.Discovery.{
  DirectoryEntry, read_metadata, is_module_file, found, candidate_of, discover_entries, Directory,
  discover, ConfigFile, existing_config, load_config,
}

-- A candidate that stands for a file of the directory with the metadata of this program.
pub Genuine : List DirectoryEntry → BootstrapCandidate → Type 0
Genuine entries c =
    (entry : DirectoryEntry) × (metadata : CandidateMetadata) × Memᴰ entry entries
    × (is_module_file entry ≡ true)
    × (read_metadata entry ≡ some metadata)
    × (compatible_candidate metadata ≡ true)
    × (c ≡ record { version = metadata.version; path = entry.path })

found-Genuine :
    (entry : DirectoryEntry) (entries : List DirectoryEntry) (o : Option CandidateMetadata)
    → read_metadata entry ≡ o
    → is_module_file entry ≡ true
    → All (Genuine (entry ∷ entries)) (found entry o)
unfolding found Genuine
found-Genuine entry entries none e kind = tt
found-Genuine entry entries (some metadata) e kind =
    if_all (All (Genuine (entry ∷ entries))) (compatible_candidate metadata) _ []
      (λ h. ((entry, metadata, head refl, kind, e, h, refl), tt)) (λ _. tt)

Genuine-cons :
    (entry : DirectoryEntry) (entries : List DirectoryEntry) (c : BootstrapCandidate)
    → Genuine entries c
    → Genuine (entry ∷ entries) c
unfolding Genuine
Genuine-cons entry entries c (e, m, member, kind, metadata, compatible, same) =
    (e, m, tail member, kind, metadata, compatible, same)

All-append :
    (P : BootstrapCandidate → Type 0) (xs ys : List BootstrapCandidate)
    → All P xs
    → All P ys
    → All P (xs ++ ys)
All-append P [] ys all more = more
All-append P (x ∷ xs) ys (p, all) more = (p, All-append P xs ys all more)

discover_entries-Genuine :
    (entries : List DirectoryEntry) → All (Genuine entries) (discover_entries entries)
unfolding discover_entries candidate_of
discover_entries-Genuine [] = tt
discover_entries-Genuine (entry ∷ entries) =
    let P = Genuine (entry ∷ entries) in
    let later = All-map (Genuine-cons entry entries) _ (discover_entries-Genuine entries) in
    All-append P (if is_module_file entry then found entry (read_metadata entry) else []) _
      (if_all (All P) (is_module_file entry) _ []
        (λ kind. found-Genuine entry entries (read_metadata entry) refl kind) (λ _. tt))
      (if_all (All P) entry.advances (discover_entries entries) [] (λ _. later) (λ _. tt))

pub discover-Genuine : (d : Directory) → All (Genuine d.entries) (discover d)
unfolding discover
discover-Genuine d =
    if_all (All (Genuine d.entries)) d.opened _ [] (λ _. discover_entries-Genuine d.entries)
      (λ _. tt)

pub load_config-some : (file : ConfigFile) → (c : LoaderConfig) × (load_config file ≡ some c)
unfolding load_config existing_config
load_config-some file = existing (file.exists)
  where
    existing : (o : Option Bool) → (c : LoaderConfig) × (existing_config file o ≡ some c)
    existing none = (_, refl)
    existing (some false) = parse_loader_config-some none
    existing (some true) =
        if_all (λ r. (c : LoaderConfig) × (r ≡ some c)) (not file.opens)
          (some (fail (text "cannot open main.json"))) _ (λ _. (_, refl))
          (λ _. parse_loader_config-some (some file.contents))
