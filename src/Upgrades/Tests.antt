-- ===== src/Upgrades/Tests.antt =====
-- A repository of two releases, and an update to the newer one.
use Prim.Native.Nat.{Ordering}
use dogeboxd.Base.{String, ◌≡◌, refl, true, false, List, [], ◌∷◌, ◌⊎◌, ◌↔◌, Memᴰ, ◌||◌, ◌==◌}
use dogeboxd.Base.Steps.{ok, err, Ends}
use dogeboxd.Migrations.ConstraintTests.{by_size}
use dogeboxd.Upgrades.{
  Sorting, Ref, ReleaseHost, Updating, do_system_update, get_upgradable_releases_for_version,
  valid_tags, is_newer,
}
use dogeboxd.Upgrades.Launched.{
  IsTag, do_system_update-Launches, get_upgradable_releases-exactly, IsOffered, HasLaunched,
}

-- Lists that are left as they are.
abbrev unsorted : Sorting
unsorted = record { sort = λ less xs. xs; Mem-sort = λ less a xs m. m; sort-Mem = λ less a xs m. m }

abbrev refs : List Ref
refs =
    record { is_tag = true; short = "v0.9" }
    ∷ record { is_tag = true; short = "v0.10" }
    ∷ record { is_tag = false; short = "main" }
    ∷ []

abbrev host : ReleaseHost (Unit {0})
host = record {
  list_refs = λ h. (ok refs, h);
  current_release = λ h. (ok "v0.9", h);
  migrate_custom_nix = λ h. (ok tt, h);
  temp_dir = "/tmp";
  make_temp_dir = λ dir h. (ok "/tmp/a", h);
  clone_release = λ d v h. (ok tt, h);
  stat_flake = λ d h. (ok tt, h);
  head_hash = λ d h. (ok "0123456789", h);
  remove_all = λ d h. (ok tt, h);
  rename = λ d e h. (ok tt, h);
  run_command = λ args h. (err "exit status 1", h);
}

abbrev os : String
os = "os"

abbrev nothing_run : Updating (Unit {0})
nothing_run = record { launched = []; host = tt }

do_system_update-Launches_example :
    Ends
      (λ _ t'.
        (os ≡ "os")
        × IsOffered by_size unsorted host "v0.9" refs "v0.10"
        × HasLaunched by_size unsorted host "v0.10" [] t'.launched)
      (λ _ t'.
        (t'.launched ≡ [])
        ⊎ (os ≡ "os")
          × IsOffered by_size unsorted host "v0.9" refs "v0.10"
          × HasLaunched by_size unsorted host "v0.10" [] t'.launched)
      (do_system_update by_size unsorted host "/tmp" "os" "v0.10" nothing_run)
do_system_update-Launches_example =
    do_system_update-Launches by_size unsorted host "v0.9" refs "/tmp" "os" "v0.10" nothing_run
      (λ h. refl) (λ h. refl)

get_upgradable_releases-exactly_example :
    Ends
      (λ rs _. Memᴰ "v0.10" rs ↔ (
        IsTag by_size "v0.10" refs
        × (by_size.compare "v0.10" "v0.9" ≡ Ordering.gt)
        × ((false || (by_size.prerelease "v0.10" == "")) ≡ true)))
      (λ _ t'. t'.launched ≡ [])
      (get_upgradable_releases_for_version by_size unsorted host "v0.9" false nothing_run)
get_upgradable_releases-exactly_example =
    get_upgradable_releases-exactly by_size unsorted host "v0.9" false refs "v0.10" nothing_run
      (λ h. refl)

-- The command is run with the staged directory and the unit of the version and the commit.
update_runs :
    (do_system_update by_size unsorted host "/tmp" "os" "v0.10" nothing_run).1.launched
    ≡ ("/run/wrappers/bin/_dbxroot" ∷ "nix" ∷ "rs" ∷ "--systemd-run" ∷ "--systemd-unit"
        ∷ "dogebox-system-update-v0-10-01234567" ∷ "--flake-dir"
        ∷ "/tmp/os-upgrade-v0.10-0123456789" ∷ "--cleanup-flake-dir" ∷ "--set-release" ∷ "v0.10"
        ∷ [])
      ∷ []
unfolding do_system_update dogeboxd.Upgrades.get_upgradable_releases
    dogeboxd.Upgrades.get_upgradable_releases_for_version dogeboxd.Upgrades.get_repo_tags
    dogeboxd.Upgrades.stage_release_flake dogeboxd.Upgrades.launch dogeboxd.Upgrades.on_host
    dogeboxd.Upgrades.build_system_update_unit_name
    dogeboxd.Upgrades.build_system_update_command_args
update_runs = refl
