-- ===== src/Upgrades.antt =====
-- The update of the system (pkg/system/upgrades.go): which releases are offered, and the staging and the
-- launch of one. git, the files and the command are the record `ReleaseHost`.
pub mod Launched
mod Tests
use Prim.Native.String
use Prim.Native.Nat.{Ordering}
use Prim.Native.Char.{Char, code}
use dogeboxd.Base.{
  ℕ, zero, suc, String, Bool, true, false, List, [], ◌∷◌, ◌++◌, ◌==◌, ◌&&◌, ◌||◌, not,
  if◌then◌else◌, any, filter, eqb, contains, Memᴰ,
}
use dogeboxd.Base.Steps.{Result, ok, err, Step, pure, raise, and_then, ignore_error, ◌>>=◌, ◌>>◌}
use dogeboxd.Semver.{Semver}

-- sort.Slice, with what its documentation says of the items.
pub record Sorting : Type 0 where
  pub sort : (String → String → Bool) → List String → List String
  pub Mem-sort :
      (less : String → String → Bool) (a : String) (xs : List String)
      → Memᴰ a xs
      → Memᴰ a (sort less xs)
  pub sort-Mem :
      (less : String → String → Bool) (a : String) (xs : List String)
      → Memᴰ a (sort less xs)
      → Memᴰ a xs

-- A reference of the remote repository.
pub record Ref : Type 0 where
  pub is_tag : Bool
  pub short : String

pub record ReleaseHost (H : Type 0) : Type 0 where
  -- the references of the release repository
  pub list_refs : Step H (List Ref)
  -- GetDBXRelease().Release
  pub current_release : Step H String
  -- MigrateLegacyCustomNix
  pub migrate_custom_nix : Step H (Unit {0})
  -- os.TempDir
  pub temp_dir : String
  -- os.MkdirTemp: a new directory for the clone in the directory
  pub make_temp_dir : String → Step H String
  -- the directory and the version
  pub clone_release : String → String → Step H (Unit {0})
  pub stat_flake : String → Step H (Unit {0})
  pub head_hash : String → Step H String
  pub remove_all : String → Step H (Unit {0})
  -- from, to
  pub rename : String → String → Step H (Unit {0})
  -- cmd.Run of the command with these arguments
  pub run_command : List String → Step H (Unit {0})

-- The commands that were run, and the host.
pub record Updating (H : Type 0) : Type 0 where
  pub launched : List (List String)
  pub host : H

-- The versions of the tags
abbrev pub valid_tags : Semver → List Ref → List String
valid_tags semver [] = []
valid_tags semver (r ∷ rs) =
    let rest = valid_tags semver rs in
    if r.is_tag && semver.valid r.short then r.short ∷ rest else rest

abbrev pub is_gt : Ordering → Bool
is_gt Ordering.gt = true
is_gt _ = false

abbrev pub is_newer : Semver → String → String → Bool
is_newer semver v w = is_gt (semver.compare v w)

-- Whether a tag is offered to the current release
abbrev pub is_offered : Semver → String → Bool → String → Bool
is_offered semver current pre tag =
    is_newer semver tag current && (pre || (semver.prerelease tag == ""))

-- strings.NewReplacer of sanitizeSystemdUnitComponent: . / space : @ + =
abbrev pub is_replaced : Char → Bool
is_replaced c = any (eqb (code c)) (46 ∷ 47 ∷ 32 ∷ 58 ∷ 64 ∷ 43 ∷ 61 ∷ [])

abbrev pub sanitize_systemd_unit_component : String → String
sanitize_systemd_unit_component String.[] = ""
sanitize_systemd_unit_component (String.◌∷◌ c s) =
    let rest = sanitize_systemd_unit_component s in
    if is_replaced c then String.◌++◌ "-" rest else String.◌∷◌ c rest

abbrev pub first_chars : ℕ → String → String
first_chars zero s = ""
first_chars (suc n) String.[] = ""
first_chars (suc n) (String.◌∷◌ c s) = String.◌∷◌ c (first_chars n s)

-- shortCommitHash
abbrev pub short_commit_hash : String → String
short_commit_hash hash = first_chars 8 hash

-- buildSystemUpdateUnitName
unfoldable pub build_system_update_unit_name : String → String → String
build_system_update_unit_name version hash =
    let name = String.◌++◌ "dogebox-system-update-" (sanitize_systemd_unit_component version) in
    if hash == ""
    then name
    else String.◌++◌ name
        (String.◌++◌ "-" (sanitize_systemd_unit_component (short_commit_hash hash)))

-- buildSystemUpdateCommandArgs
unfoldable pub build_system_update_command_args : String → String → String → List String
build_system_update_command_args dir version unit =
    "/run/wrappers/bin/_dbxroot" ∷ "nix" ∷ "rs" ∷ "--systemd-run" ∷ "--systemd-unit" ∷ unit
    ∷ "--flake-dir" ∷ dir ∷ "--cleanup-flake-dir" ∷ "--set-release" ∷ version ∷ []

-- buildStagedReleaseDirPath
abbrev pub build_staged_release_dir_path : String → String → String → String
build_staged_release_dir_path tmp version hash =
    String.◌++◌ tmp (String.◌++◌ "/os-upgrade-" (String.◌++◌ version (String.◌++◌ "-" hash)))

module _ {H : Type 0} where
  abbrev with_host : {A : Type 0} → Updating H → Result A × H → Result A × Updating H
  with_host t (r, h) = (r, record t { host = h })

  unfoldable pub on_host : {A : Type 0} → Step H A → Step (Updating H) A
  on_host m t = with_host t (m t.host)

module _ {H : Type 0} (semver : Semver) (sorting : Sorting) (host : ReleaseHost H) where
  -- semverSortTags and semverSortReleases, descending
  abbrev pub sort_desc : List String → List String
  sort_desc = sorting.sort (is_newer semver)

  -- getRepoTags
  unfoldable pub get_repo_tags : Step (Updating H) (List String)
  get_repo_tags = do refs ← on_host host.list_refs; pure (sort_desc (valid_tags semver refs))

  -- GetUpgradableReleasesForVersionWithFetcher: the versions of the releases
  unfoldable pub get_upgradable_releases_for_version :
      String → Bool → Step (Updating H) (List String)
  get_upgradable_releases_for_version current pre = do
    tags ← get_repo_tags
    pure (sort_desc (filter (is_offered semver current pre) tags))

  -- GetUpgradableReleases
  unfoldable pub get_upgradable_releases : Bool → Step (Updating H) (List String)
  get_upgradable_releases pre = do
    current ← on_host host.current_release
    get_upgradable_releases_for_version current pre

  abbrev pub cleaning : {A : Type 0} → String → Result A × Updating H → Result A × Updating H
  cleaning dir (ok a, t) = (ok a, t)
  cleaning dir (err e, t) = (err e, (on_host (host.remove_all dir) t).1)

  -- A step after whose error the clone is removed.
  abbrev pub or_clean : {A : Type 0} → String → Step (Updating H) A → Step (Updating H) A
  or_clean dir m t = cleaning dir (m t)

  -- stageReleaseFlakeWithClone: the staged directory and the hash of the commit
  unfoldable pub stage_release_flake : String → String → Step (Updating H) (String × String)
  stage_release_flake tmp version = do
    let root = if tmp == "" then host.temp_dir else tmp
    dir ← on_host (host.make_temp_dir root)
    or_clean dir (on_host (host.clone_release dir version))
    or_clean dir (on_host (host.stat_flake dir))
    hash ← or_clean dir (on_host (host.head_hash dir))
    or_clean dir (on_host (host.remove_all (String.◌++◌ dir "/.git")))
    let final = build_staged_release_dir_path root version hash
    or_clean dir (on_host (host.remove_all final))
    or_clean dir (on_host (host.rename dir final))
    pure (final, hash)

  -- cmd.Run
  unfoldable pub launch : List String → Step (Updating H) (Unit {0})
  launch args t = on_host (host.run_command args) (record t { launched = t.launched ++ args ∷ [] })

  -- doSystemUpdate, from the releases that are offered
  abbrev pub update_to : String → String → String → List String → Step (Updating H) (Unit {0})
  update_to tmp pkg version releases =
      if pkg == "os"
      then (if contains releases version
          then (do
            (dir, hash) ← stage_release_flake tmp version
            launch (
                build_system_update_command_args dir version
                  (build_system_update_unit_name version hash)))
          else raise "release is not available")
      else raise "invalid pkg to upgrade"

  -- DoSystemUpdate
  unfoldable pub do_system_update : String → String → String → Step (Updating H) (Unit {0})
  do_system_update tmp pkg version = do
    on_host host.migrate_custom_nix
    releases ← get_upgradable_releases true
    update_to tmp pkg version releases
