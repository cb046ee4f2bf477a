-- ===== src/Updater/Upgrade.antt =====
-- The upgrade of a pup to another version and the way back (pkg/system/updater.go).
use dogeboxd.Base.{String, Bool, true, Option, none, some, List, [], ◌∷◌, if◌then◌else◌}
use dogeboxd.Base.Steps.{ok, Step, pure, raise, gets, when, ignore_error, ◌>>=◌, ◌>>◌}
use dogeboxd.Pups.State.{
  PupState, UpdateFn, upgrading, ready, set_pup_installation, set_pup_version, set_pup_manifest,
  set_pup_config, set_pup_providers, pup_enabled,
}
use dogeboxd.Pups.Manager.{
  Snapshot, get_pup, stop_pup, create_snapshot, get_snapshot, delete_snapshot,
}
use dogeboxd.Updater.Host.{Host, DogeboxState, System, on_pups, call, apply_patch, update}
use dogeboxd.Updater.Install.{or_broken, verify_nix_file_hash}

abbrev pub ready_and : Bool → List UpdateFn
ready_and enabled = set_pup_installation ready ∷ (if enabled then pup_enabled true ∷ [] else [])

module _ {H : Type 0} (host : Host H) where
  abbrev pub apply_broken : PupState → Step (System H) (Unit {0}) → Step (System H) (Unit {0})
  apply_broken s m = or_broken host s "nix_apply_failed" m

  -- The pup leaves the nix configuration, so that it comes back as a new container.
  unfoldable pub remove_container : PupState → Step (System H) (Unit {0})
  remove_container s = do
    apply_broken s (apply_patch host (host.remove_pup_file s.id ∷ []))
    ignore_error (call (host.remove_container_dir s.id))

  unfoldable pub add_container : PupState → PupState → DogeboxState → Step (System H) (Unit {0})
  add_container s new_state dogebox = do
    t ← gets (λ t. t)
    apply_broken s (
        apply_patch host
          (host.write_pup_file new_state dogebox ∷ host.update_includes_file t.pups.state ∷ []))
    ignore_error (call (host.wait_for_container_running s.id))

  -- The part of upgradePup that follows the snapshot.
  unfoldable pub after_snapshot : String → String → PupState → Step (System H) (Unit {0})
  after_snapshot source target s = do
    new_manifest ←
        or_broken host s "manifest_fetch_failed"
          (call (host.get_source_manifest source s.manifest.name target))
    or_broken host s "state_update_failed" (
        update host s.id (
          set_pup_installation upgrading
          ∷ set_pup_version target
          ∷ set_pup_manifest new_manifest
          ∷ []))
    call (λ h. (ok tt, host.clear_cache_entry s.id h))
    or_broken host s "download_failed" (call (host.download_pup s.id source s.manifest.name target))
    or_broken host s "nix_hash_mismatch"
        (verify_nix_file_hash host s.id new_manifest s.is_dev_mode_enabled)
    (updated_state, _) ← or_broken host s "state_update_failed" (on_pups (get_pup s.id))
    or_broken host s "storage_creation_failed"
        (call (host.write_pup_config s.id updated_state.config))
    t ← gets (λ t. t)
    apply_broken s (
        apply_patch host (
          host.write_pup_file updated_state t.dogebox
          ∷ host.update_includes_file t.pups.state
          ∷ []))
    when s.enabled (remove_container s)
    new_state ← or_broken host s "state_update_failed" (update host s.id (ready_and s.enabled))
    when s.enabled (add_container s new_state t.dogebox)

  -- upgradePup, with the source and the target version
  unfoldable pub upgrade_pup : String → String → PupState → Step (System H) (Unit {0})
  upgrade_pup source target s = do
    when s.enabled (ignore_error (on_pups (stop_pup host.machine s.id)))
    on_pups (create_snapshot host.machine s)
    after_snapshot source target s

  abbrev pub some_snapshot : Option Snapshot → Step (System H) Snapshot
  some_snapshot none = raise "no snapshot available for rollback"
  some_snapshot (some snapshot) = pure snapshot

  -- The part of rollbackPupUpgrade that follows the snapshot. The pup is in the manager when its restored
  -- state is read.
  unfoldable pub roll_back : PupState → Snapshot → Step (System H) (Unit {0})
  roll_back s snapshot = do
    ignore_error (call (host.stop_container s.id))
    or_broken host s "state_update_failed" (update host s.id (set_pup_installation upgrading ∷ []))
    or_broken host s "download_failed"
        (call (host.download_pup s.id snapshot.source_id s.manifest.name snapshot.version))
    or_broken host s "state_update_failed" (
        update host s.id (
          set_pup_version snapshot.version
          ∷ set_pup_manifest snapshot.manifest
          ∷ set_pup_config snapshot.config
          ∷ set_pup_providers snapshot.providers
          ∷ []))
    or_broken host s "storage_creation_failed" (call (host.write_pup_config s.id snapshot.config))
    or_broken host s "state_update_failed" (update host s.id (ready_and snapshot.enabled))
    (restored_state, _) ← on_pups (get_pup s.id)
    t ← gets (λ t. t)
    apply_broken s (
        apply_patch host (
          host.write_pup_file restored_state t.dogebox
          ∷ host.update_includes_file t.pups.state
          ∷ []))
    when snapshot.enabled (ignore_error (call (host.start_container s.id)))
    ignore_error (on_pups (delete_snapshot host.machine s.id))

  -- rollbackPupUpgrade
  unfoldable pub rollback_pup_upgrade : PupState → Step (System H) (Unit {0})
  rollback_pup_upgrade s = do
    snapshot ← some_snapshot (← on_pups (get_snapshot host.machine s.id))
    roll_back s snapshot
