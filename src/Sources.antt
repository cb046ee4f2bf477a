-- ===== src/Sources.antt =====
-- The sources of pups (pkg/sources/source.go): the list of sources, the lookup of a pup in them, and the
-- download of a pup. What git and the disk do is the record `SourceHost`.
pub mod Distinct
pub mod Changes
mod Tests
use dogeboxd.Base.{
  String, ◌≡◌, Bool, true, false, Option, none, some, List, [], ◌∷◌, ◌++◌, ◌==◌, ◌&&◌, ◌||◌, not,
  if◌then◌else◌, filter,
}
use dogeboxd.Base.Text.{has_prefix, has_suffix}
use dogeboxd.Base.Steps.{
  Result, ok, err, Step, Ends, pure, raise, gets, modify, and_then, when, ◌>>=◌, ◌>>◌,
}
use dogeboxd.Pups.State.{PupManifest}

-- ManifestSourceConfiguration
pub record Source : Type 0 where
  pub id : String
  pub name : String
  pub description : String
  pub location : String
  pub type_of : String

-- The parts of a ManifestSourcePup that are read.
pub record SourcePup : Type 0 where
  pub name : String
  pub version : String
  pub location : String
  pub manifest : PupManifest

-- The sources, the copy of them that the state manager holds in memory, the sources of the managed pups,
-- and the host, which has what is stored.
pub record Sourced (H : Type 0) : Type 0 where
  pub sources : List Source
  pub config : List Source
  pub pup_sources : List Source
  pub host : H

pub record SourceHost (H : Type 0) : Type 0 where
  -- os.Stat without an error
  pub path_exists : String → H → Bool
  -- ValidateFromLocation of the two types of sources
  pub validate_disk : String → Step H Source
  pub validate_git : String → Step H Source
  -- List(false)
  pub list : Source → Step H (List SourcePup)
  -- the sources that a restart reads, and srcStore.Set, which replaces them or leaves them
  pub saved : H → List Source
  pub save_sources : List Source → Step H (Unit {0})
  pub save_sources-Ends :
      (ss : List Source) (h : H)
      → Ends (λ _ h'. saved h' ≡ ss) (λ _ h'. saved h' ≡ saved h) (save_sources ss h)
  -- the calls of DownloadPup on the pup's directory
  pub remove_dir : String → Step H (Unit {0})
  pub make_parent_dir : String → Step H (Unit {0})
  pub download : Source → String → String → Step H (Unit {0})
  -- manifest.json of the directory, read, parsed and validated
  pub read_manifest : String → Step H PupManifest
  -- whether the nix file, and the logo if one is named, are there
  pub has_nix_file : String → PupManifest → H → Bool
  pub has_logo : String → PupManifest → H → Bool

-- Equality of two configurations
abbrev pub same_source : Source → Source → Bool
same_source a b =
    (a.id == b.id)
    && (a.name == b.name)
    && (a.description == b.description)
    && (a.location == b.location)
    && (a.type_of == b.type_of)

abbrev pub find_source : String → List Source → Option Source
find_source id [] = none
find_source id (s ∷ ss) = let rest = find_source id ss in if s.id == id then some s else rest

abbrev pub find_pup : String → String → List SourcePup → Option SourcePup
find_pup name version [] = none
find_pup name version (p ∷ ps) =
    let rest = find_pup name version ps in
    if (p.name == name) && (p.version == version) then some p else rest

-- The first source that has the id or the location of the new one, as the error that it gives.
abbrev pub conflict : Source → List Source → Option String
conflict c [] = none
conflict c (s ∷ ss) =
    let rest = conflict c ss in
    if s.id == c.id
    then some "source with this id already exists"
    else (if s.location == c.location
        then some "source with this location already exists"
        else rest)

abbrev pub last_of :
    String → Source → List Source → Option (Source × List Source) → Option (Source × List Source)
last_of id s ss (some (m, rest)) = some (m, s ∷ rest)
last_of id s ss none = if s.id == id then some (s, ss) else none

-- The last source of that id, and the list without it.
abbrev pub without_last : String → List Source → Option (Source × List Source)
without_last id [] = none
without_last id (s ∷ ss) = last_of id s ss (without_last id ss)

abbrev pub is_empty : List Source → Bool
is_empty [] = true
is_empty (s ∷ ss) = false

module _ {H : Type 0} where
  abbrev with_host : {A : Type 0} → Sourced H → Result A × H → Result A × Sourced H
  with_host t (r, h) = (r, record t { host = h })

  unfoldable pub on_host : {A : Type 0} → Step H A → Step (Sourced H) A
  on_host m t = with_host t (m t.host)

  abbrev or_raise : {A : Type 0} → String → Option A → Step (Sourced H) A
  or_raise e none = raise e
  or_raise e (some a) = pure a

  -- GetSource
  unfoldable pub get_source : String → Step (Sourced H) Source
  get_source id t = or_raise "no source found" (find_source id t.sources) t

module _ {H : Type 0} (host : SourceHost H) where
  -- GetSourcePup
  unfoldable pub get_source_pup : String → String → String → Step (Sourced H) SourcePup
  get_source_pup id name version = do
    s ← get_source id
    pups ← on_host (host.list s)
    or_raise "no pup found" (find_pup name version pups)

  -- GetSourceManifest, with the source
  unfoldable pub get_source_manifest :
      String → String → String → Step (Sourced H) (PupManifest × Source)
  get_source_manifest id name version = do
    s ← get_source id
    pups ← on_host (host.list s)
    p ← or_raise "no pup found" (find_pup name version pups)
    pure (p.manifest, s)

  -- DownloadPup, with validatePupFiles
  unfoldable pub download_pup : String → String → String → String → Step (Sourced H) PupManifest
  download_pup path id name version = do
    s ← get_source id
    p ← get_source_pup id name version
    there ← gets (λ t. host.path_exists path t.host)
    when there (on_host (host.remove_dir path))
    on_host (host.make_parent_dir path)
    on_host (host.download s path p.location)
    manifest ← on_host (host.read_manifest path)
    read_again ← on_host (host.read_manifest path)
    nix ← gets (λ t. host.has_nix_file path read_again t.host)
    logo ← gets (λ t. host.has_logo path read_again t.host)
    if nix
        then (if logo then pure manifest else raise "logo file not found")
        else raise "nix file not found"

  -- Save, with SetSources of the state manager (pkg/system/state.go)
  unfoldable pub save : Step (Sourced H) (Unit {0})
  save = do
    modify (λ t. record t { config = t.sources })
    t ← gets (λ t. t)
    on_host (host.save_sources t.sources)

  -- determineSourceType
  unfoldable pub determine_source_type : String → Step (Sourced H) String
  determine_source_type location t =
      if has_prefix location "https://" && has_suffix location ".git"
      then (ok "git", t)
      else (if has_prefix location "git@"
          then (ok "git", t)
          else (if has_prefix location "/"
              then (if host.path_exists location t.host
                  then (ok "disk", t)
                  else (err "path does not exist", t))
              else (err "unknown source type", t)))

  abbrev pub validate : String → String → Step (Sourced H) Source
  validate kind location =
      if kind == "disk"
      then on_host (host.validate_disk location)
      else on_host (host.validate_git location)

  abbrev pub added : Source → Option String → Step (Sourced H) Source
  added c (some e) = raise e
  added c none = do modify (λ t. record t { sources = t.sources ++ c ∷ [] }); save; pure c

  -- AddSource
  unfoldable pub add_source : String → Step (Sourced H) Source
  add_source location = do
    kind ← determine_source_type location
    c ← validate kind location
    t ← gets (λ t. t)
    added c (conflict c t.sources)

  abbrev pub removed : Option (Source × List Source) → Step (Sourced H) (Unit {0})
  removed none = raise "no existing source id"
  removed (some (matched, rest)) = do
    t ← gets (λ t. t)
    if is_empty (filter (λ s. same_source s matched) t.pup_sources)
        then (modify (λ t. record t { sources = rest }) >> save)
        else raise "installed pups using this source, aborting"

  -- RemoveSource
  unfoldable pub remove_source : String → Step (Sourced H) (Unit {0})
  remove_source id = do t ← gets (λ t. t); removed (without_last id t.sources)
