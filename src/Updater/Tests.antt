-- ===== src/Updater/Tests.antt =====
-- A host whose calls succeed or fail as told, and the theorems on the updater at it.
use dogeboxd.Base.{
  String, ◌≡◌, refl, Bool, true, false, none, some, [], ◌∷◌, empty_map, put, ◌⊎◌, inl,
}
use dogeboxd.Base.Steps.{Result, ok, err, Step, Ends}
use dogeboxd.Action.{InstallPup}
use dogeboxd.Pups.State.{PupState, PupManifest, ready, uninstalled}
use dogeboxd.Pups.Manager.{Machine, Managed, snapshot_of, Snapshot}
use dogeboxd.Nix.Patch.{NixHost, Operation}
use dogeboxd.Updater.Host.{Host, System, DogeboxState}
use dogeboxd.Updater.Install.{
  install_pup, uninstall_pup, purge, enable_pup, disable_pup, is_uninstalled,
}
use dogeboxd.Updater.Upgrade.{upgrade_pup, rollback_pup_upgrade}
use dogeboxd.Updater.Import.{import_blockchain_data}
use dogeboxd.Updater.View.{At, IsBrokenBy}
use dogeboxd.Updater.Logic.{view}
use dogeboxd.Updater.Installed.{install_pup-Installs, contents, install_reasons, IsBrokenKept}
use dogeboxd.Updater.Removed.{uninstall_pup-Removes, purge-Purges, cleaned, IsGone, removal_reasons}
use dogeboxd.Updater.Upgraded.{
  upgrade_pup-Upgrades, snapshotted, KeepsData, IsAsEnabled, upgrade_reasons,
}
use dogeboxd.Updater.RolledBack.{
  rollback_pup_upgrade-RollsBack, restored, rollback_reasons, without_snapshot,
}
use dogeboxd.Updater.Undone.{rollback-upgrade, IsBack, SameOthers}
use dogeboxd.Updater.Toggled.{enable_pup-HasFlag, import_blockchain_data-HasFlag, HasFlag}

-- The host remembers whether its next download fails.
abbrev pub H : Type 0
H = Bool

abbrev fine : {A : Type 0} → A → Step H A
fine a h = (ok a, h)

abbrev done : Step H (Unit {0})
done = fine tt

abbrev same : Operation H
same h = (h, none)

abbrev manifest_of : String → PupManifest
manifest_of v = record {
  name = "Core";
  version = v;
  sections = [];
  show_on_install = false;
  dependencies = [];
  nix_file_sha256 = "ab";
}

abbrev downloaded : Bool → Result PupManifest
downloaded true = err "no network"
downloaded false = ok (manifest_of "2")

abbrev machine : Machine H
machine = record {
  save_pup = λ p. done;
  rebuild = done;
  write_tmp = λ id s. done;
  rename_tmp = λ id. done;
  remove_tmp = λ id. done;
  read_file = λ id. done;
  remove_file = λ id. done;
}

abbrev nix : NixHost H
nix = record {
  snapshot = same;
  remove_nix_dir = same;
  copy_back = same;
  remove_snapshot = λ h. h;
  rebuild = λ b. same;
  post_rebuild = λ h. h;
}

abbrev pub host : Host H
host = record {
  machine = machine;
  nix = nix;
  write_pup_file = λ p d. same;
  update_includes_file = λ m. same;
  remove_pup_file = λ id. same;
  update_system = λ d. same;
  update_firewall_rules = λ m d. same;
  save_dogebox = λ d. done;
  download_pup = λ id src name v h. (downloaded h, false);
  get_source_manifest = λ src name v. fine (manifest_of v);
  clear_cache_entry = λ id h. h;
  nix_file_hash = λ id m. fine "ab";
  make_delegate = λ id token. fine (record { priv = "p"; wif = "w" });
  create_storage = λ id. done;
  delete_storage = λ id. done;
  stop_container = λ id. done;
  start_container = λ id. done;
  write_key = λ id f k. done;
  write_pup_config = λ id c. done;
  wait_for_container_running = λ id. done;
  remove_pup_gob = λ id. done;
  remove_pup_source = λ id. done;
  remove_container_dir = λ id. done;
  import_blockchain = λ h. (err "no disk", h);
  random_id = fine "r";
  get_config_value = λ k. done;
}

abbrev pub core : PupState
core = record {
  id = "core";
  source_id = "main";
  manifest = manifest_of "1";
  config = put "port" "80" empty_map;
  config_saved = true;
  providers = empty_map;
  hooks = [];
  installation = ready;
  broken_reason = "";
  enabled = true;
  needs_conf = false;
  needs_deps = false;
  version = "1";
  is_dev_mode_enabled = false;
  skipped_version = "";
}

abbrev removed_core : PupState
removed_core = record core { installation = uninstalled; enabled = false }

abbrev dogebox : DogeboxState
dogebox = record {
  key_map = "us";
  timezone = "UTC";
  ssh_enabled = false;
  ssh_keys = [];
  binary_caches = [];
  sidebar_pups = some ("core" ∷ "other" ∷ []);
}

abbrev pub system : PupState → Bool → System H
system p h = record {
  pups = record {
    state = put "core" p empty_map;
    stats = empty_map;
    sent = [];
    snapshots = put "core" (snapshot_of core) empty_map;
    machine = h;
  };
  dogebox = dogebox;
}

abbrev selection : InstallPup
selection = record { pup_name = "Core"; pup_version = "1"; source_id = "main" }

install_pup-Installs_example :
    Ends
      (λ _ t'.
        At "core"
          (view (system core true))
          (λ p'. (p'.installation ≡ ready) × (p'.enabled ≡ true) × (contents p' ≡ contents core))
          (view t'))
      (λ _ t'. At "core" (view (system core true)) (IsBrokenKept install_reasons core) (view t'))
      (install_pup host selection "token" core (system core true))
install_pup-Installs_example =
    install_pup-Installs host selection "token" core core (system core true) refl

uninstall_pup-Removes_example :
    Ends
      (λ _ t'.
        At "core"
          (cleaned "core" (view (system core false)))
          (λ p'.
            (p'.installation ≡ uninstalled) × (p'.enabled ≡ false) × (contents p' ≡ contents core))
          (view t'))
      (λ _ t'. At "core" (view (system core false)) (IsBrokenKept removal_reasons core) (view t'))
      (uninstall_pup host core (system core false))
uninstall_pup-Removes_example = uninstall_pup-Removes host core core (system core false) refl

purge-Purges_example :
    Ends
      (λ _ t'.
        (is_uninstalled uninstalled ≡ true)
        × IsGone "core" (cleaned "core" (view (system removed_core false))) (view t'))
      (λ _ t'.
        ((is_uninstalled uninstalled ≡ false) × (t' ≡ system removed_core false))
        ⊎ At "core"
            (view (system removed_core false))
            (IsBrokenKept ("state_update_failed" ∷ []) removed_core)
            (view t'))
      (purge host removed_core (system removed_core false))
purge-Purges_example = purge-Purges host removed_core removed_core (system removed_core false) refl

upgrade_pup-Upgrades_example :
    Ends
      (λ _ t'.
        At "core"
          (snapshotted core (view (system core true)))
          (λ p'.
            (p'.installation ≡ ready)
            × (p'.version ≡ "2")
            × (p'.enabled ≡ true)
            × KeepsData core p')
          (view t'))
      (λ _ t'.
        At "core"
          (view (system core true))
          (λ p'. IsAsEnabled true p' × (contents p' ≡ contents core))
          (view t')
        ⊎ At "core"
            (snapshotted core (view (system core true)))
            (λ p'. IsBrokenBy upgrade_reasons p' × (IsAsEnabled true p' × KeepsData core p'))
            (view t'))
      (upgrade_pup host "main" "2" core (system core true))
upgrade_pup-Upgrades_example =
    upgrade_pup-Upgrades host "main" "2" core core (system core true) refl refl

rollback_pup_upgrade-RollsBack_example :
    let t = system core false in
    let IsRolledBack = λ (p' : PupState).
      (p'.installation ≡ ready)
      × (p'.enabled ≡ true)
      × (contents p' ≡ restored (snapshot_of core) core) in
    Ends
      (λ _ t'.
        At "core" (view t) IsRolledBack (view t')
        ⊎ At "core" (without_snapshot "core" (view t)) IsRolledBack (view t'))
      (λ _ t'.
        At "core" (view t) (λ p'. p' ≡ core) (view t')
        ⊎ At "core" (view t) (IsBrokenBy rollback_reasons) (view t'))
      (rollback_pup_upgrade host core t)
rollback_pup_upgrade-RollsBack_example =
    rollback_pup_upgrade-RollsBack host core core (snapshot_of core) (system core false) refl refl
      (inl refl)

-- The download of the new version fails, and that of the old one does not.
failed_upgrade : (upgrade_pup host "main" "2" core (system core true)).0 ≡ err "no network"
unfolding upgrade_pup dogeboxd.Updater.Host.on_pups dogeboxd.Pups.Manager.create_snapshot
    dogeboxd.Updater.Upgrade.after_snapshot dogeboxd.Updater.Host.call dogeboxd.Updater.Host.update
    dogeboxd.Pups.Manager.update_pup dogeboxd.Pups.Manager.stop_pup dogeboxd.Pups.Manager.get_pup
    dogeboxd.Updater.Install.mark_pup_broken
failed_upgrade = refl

undone :
    (rollback_pup_upgrade host core (upgrade_pup host "main" "2" core (system core true)).1).0
    ≡ ok tt
unfolding upgrade_pup dogeboxd.Updater.Host.on_pups dogeboxd.Pups.Manager.create_snapshot
    dogeboxd.Updater.Upgrade.after_snapshot dogeboxd.Updater.Host.call dogeboxd.Updater.Host.update
    dogeboxd.Pups.Manager.update_pup dogeboxd.Pups.Manager.stop_pup dogeboxd.Pups.Manager.get_pup
    dogeboxd.Updater.Install.mark_pup_broken rollback_pup_upgrade dogeboxd.Pups.Manager.get_snapshot
    dogeboxd.Updater.Upgrade.roll_back dogeboxd.Updater.Host.apply_patch dogeboxd.Nix.Patch.apply
    dogeboxd.Nix.Patch.apply_custom dogeboxd.Updater.Host.add_operations dogeboxd.Nix.Patch.add
    dogeboxd.Nix.Patch.run_operations dogeboxd.Pups.Manager.delete_snapshot
undone = refl

rollback-upgrade_example :
    let t = system core true in
    Ends
      (λ _ t'. IsBack core t t')
      (λ _ t'. SameOthers "core" t t')
      (rollback_pup_upgrade host core (upgrade_pup host "main" "2" core t).1)
unfolding upgrade_pup dogeboxd.Updater.Host.on_pups dogeboxd.Pups.Manager.create_snapshot
    dogeboxd.Updater.Upgrade.after_snapshot dogeboxd.Updater.Host.call dogeboxd.Updater.Host.update
    dogeboxd.Pups.Manager.update_pup dogeboxd.Pups.Manager.stop_pup dogeboxd.Pups.Manager.get_pup
    dogeboxd.Updater.Install.mark_pup_broken
rollback-upgrade_example = rollback-upgrade host "main" "2" core (system core true) refl refl

import_blockchain_data-HasFlag_example :
    Ends
      (λ _ t'. At "core" (view (system core false)) (HasFlag true core) (view t'))
      (λ _ t'. At "core" (view (system core false)) (HasFlag true core) (view t'))
      (import_blockchain_data host (some core) (system core false))
import_blockchain_data-HasFlag_example =
    import_blockchain_data-HasFlag host core (system core false) (λ p h. (h, refl)) refl

enable_pup-HasFlag_example :
    Ends
      (λ _ t'. At "core" (view (system core false)) (HasFlag true core) (view t'))
      (λ _ t'. At "core" (view (system core false)) (HasFlag true core) (view t'))
      (enable_pup host core (system core false))
    × Ends
        (λ _ t'. At "core" (view (system core false)) (HasFlag false core) (view t'))
        (λ _ t'. At "core" (view (system core false)) (HasFlag false core) (view t'))
        (disable_pup host core (system core false))
enable_pup-HasFlag_example = enable_pup-HasFlag host core core (system core false) refl
