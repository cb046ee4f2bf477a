-- ===== src/Updater/Install.antt =====
-- The jobs of the updater on one pup, but for its upgrades (pkg/system/updater.go):
-- installation, removal, purge, and the enabled flag.
use dogeboxd.Base.{
  String, Bool, true, false, Option, none, some, List, [], ◌∷◌, ◌==◌, not, if◌then◌else◌, filter,
}
use dogeboxd.Base.Steps.{Result, ok, err, Step, pure, raise, gets, ignore_error, ◌>>=◌, ◌>>◌}
use dogeboxd.Action.{InstallPup}
use dogeboxd.Pups.State.{
  PupState, PupManifest, InstallationState, installing, ready, uninstalling, uninstalled, purging,
  broken, set_pup_installation, set_pup_broken_reason, pup_enabled,
}
use dogeboxd.Pups.Manager.{purge_pup}
use dogeboxd.Updater.Host.{Host, System, on_pups, call, apply_patch, update, set_dogebox}

abbrev pub without_pup : String → Option (List String) → Option (List String)
without_pup id none = none
without_pup id (some ids) = some (filter (λ i. not (i == id)) ids)

abbrev pub is_uninstalled : InstallationState → Bool
is_uninstalled uninstalled = true
is_uninstalled _ = false

module _ {H : Type 0} (host : Host H) where
  -- markPupBroken: the error that is passed on is returned, unless the update fails.
  unfoldable pub mark_pup_broken : {A : Type 0} → PupState → String → String → Step (System H) A
  mark_pup_broken s reason upstream_error = do
    update host s.id (set_pup_broken_reason reason ∷ set_pup_installation broken ∷ [])
    raise upstream_error

  abbrev pub handled : {A : Type 0} → PupState → String → Result A × System H → Result A × System H
  handled s reason (ok a, t) = (ok a, t)
  handled s reason (err e, t) = mark_pup_broken s reason e t

  -- A step whose error marks the pup as broken and ends the job.
  abbrev pub or_broken : {A : Type 0} → PupState → String → Step (System H) A → Step (System H) A
  or_broken s reason m t = handled s reason (m t)

  -- cleanupSidebarPreferences; the error of the store is dropped.
  abbrev pub cleanup_sidebar : String → Option (List String) → Step (System H) (Unit {0})
  cleanup_sidebar id none t = (ok tt, t)
  cleanup_sidebar id (some ids) t =
      ignore_error
        (set_dogebox host (record t.dogebox { sidebar_pups = without_pup id (some ids) })) t

  unfoldable pub cleanup_sidebar_preferences : String → Step (System H) (Unit {0})
  cleanup_sidebar_preferences id t = cleanup_sidebar id t.dogebox.sidebar_pups t

  -- verifyNixFileHash
  unfoldable pub verify_nix_file_hash : String → PupManifest → Bool → Step (System H) (Unit {0})
  verify_nix_file_hash id manifest is_dev_mode = do
    actual_hash ← call (host.nix_file_hash id manifest)
    if actual_hash == manifest.nix_file_sha256
        then pure tt
        else (if is_dev_mode then pure tt else raise "nix file hash mismatch")

  -- installPup, with the token of the session
  unfoldable pub install_pup : InstallPup → String → PupState → Step (System H) (Unit {0})
  install_pup selection token s = do
    or_broken s "state_update_failed" (update host s.id (set_pup_installation installing ∷ []))
    downloaded ←
        or_broken s "download_failed" (
          call
            (host.download_pup s.id selection.source_id selection.pup_name selection.pup_version))
    or_broken s "nix_hash_mismatch" (verify_nix_file_hash s.id downloaded s.is_dev_mode_enabled)
    or_broken s "storage_creation_failed" (call (host.create_storage s.id))
    key ← or_broken s "delegate_key_creation_failed" (call (host.make_delegate s.id token))
    or_broken s "delegate_key_write_failed" (call (host.write_key s.id "delegated.key" key.priv))
    or_broken s "delegate_key_write_failed"
        (call (host.write_key s.id "delegated.extended.key" key.wif))
    or_broken s "storage_creation_failed" (call (host.write_pup_config s.id s.config))
    new_state ← or_broken s "enable_failed" (update host s.id (pup_enabled true ∷ []))
    t ← gets (λ t. t)
    or_broken s "nix_apply_failed" (
        apply_patch host
          (host.write_pup_file new_state t.dogebox ∷ host.update_includes_file t.pups.state ∷ []))
    or_broken s "state_update_failed" (update host s.id (set_pup_installation ready ∷ []))
    pure tt

  -- uninstallPup
  unfoldable pub uninstall_pup : PupState → Step (System H) (Unit {0})
  uninstall_pup s = do
    or_broken s "state_update_failed"
        (update host s.id (set_pup_installation uninstalling ∷ pup_enabled false ∷ []))
    t ← gets (λ t. t)
    or_broken s "nix_apply_failed"
        (apply_patch host (host.remove_pup_file s.id ∷ host.update_includes_file t.pups.state ∷ []))
    or_broken s "state_update_failed" (update host s.id (set_pup_installation uninstalled ∷ []))
    cleanup_sidebar_preferences s.id

  -- purgePup: after the state of the pup was read, no error ends the job.
  unfoldable pub purge : PupState → Step (System H) (Unit {0})
  purge s = if not (is_uninstalled s.installation) then raise "cannot purge pup" else (do
    or_broken s "state_update_failed"
        (update host s.id (set_pup_installation purging ∷ pup_enabled false ∷ []))
    ignore_error (call (host.remove_pup_gob s.id))
    ignore_error (call (host.remove_pup_source s.id))
    ignore_error (call (host.delete_storage s.id))
    ignore_error (on_pups (purge_pup host.machine s.id))
    cleanup_sidebar_preferences s.id)

  -- enablePup
  unfoldable pub enable_pup : PupState → Step (System H) (Unit {0})
  enable_pup s = do
    new_state ← update host s.id (pup_enabled true ∷ [])
    t ← gets (λ t. t)
    apply_patch host (host.write_pup_file new_state t.dogebox ∷ [])

  -- disablePup
  unfoldable pub disable_pup : PupState → Step (System H) (Unit {0})
  disable_pup s = do
    new_state ← update host s.id (pup_enabled false ∷ [])
    call (host.stop_container s.id)
    t ← gets (λ t. t)
    apply_patch host (host.write_pup_file new_state t.dogebox ∷ [])
