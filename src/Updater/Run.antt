-- ===== src/Updater/Run.antt =====
-- The loop of the updater (Run of pkg/system/updater.go): what it does with one job. The jobs
-- whose code is in other files of the package (bootstrap.go, custom_nix.go, upgrades.go and network/) are
-- the record `Elsewhere`.
use dogeboxd.Base.{String, Option, none, some}
use dogeboxd.Base.Steps.{Result, ok, err, Step}
use dogeboxd.Action.{
  Action, install_pup, uninstall_pup, purge_pup, enable_pup, disable_pup, rollback_pup_upgrade,
  upgrade_pup, import_blockchain_data, update_pending_system_network, initial_bootstrap, enable_ssh,
  disable_ssh, update_nix_cache, add_ssh_key, remove_ssh_key, save_custom_nix, add_binary_cache,
  remove_binary_cache, update_timezone, update_keymap, system_update,
}
use dogeboxd.Pups.State.{PupState}
use dogeboxd.Updater.Host.{Host, System}
use dogeboxd.Updater.Install
use dogeboxd.Updater.Upgrade
use dogeboxd.Updater.Import
use dogeboxd.Updater.Settings

-- A job with what the updater reads of it; the last three fields are the session token of InstallPup, the
-- source of UpgradePup, and the pup that the search of importBlockchainData finds.
pub record UpdaterJob : Type 0 where
  pub action : Action
  pub err : String
  pub state : PupState
  pub session_token : String
  pub source_id : String
  pub dogecoin_core : Option PupState

pub record Elsewhere (H : Type 0) : Type 0 where
  pub set_pending_network : Step (System H) (Unit {0})
  pub bootstrap : Step (System H) (Unit {0})
  pub save_nix : String → Step (System H) (Unit {0})
  pub do_system_update : String → String → Step (System H) (Unit {0})

-- j.Err after the job, with the message that the case sets.
abbrev pub job_error : String → String → Result (Unit {0}) → String
job_error old message (ok _) = old
job_error old message (err e) = message

-- j.Err where the case takes the error itself.
abbrev pub own_error : String → Result (Unit {0}) → String
own_error old (ok _) = old
own_error old (err e) = e

module _ {H : Type 0} (host : Host H) (elsewhere : Elsewhere H) where
  -- The job that is sent to `done`, if one is, and the new state.
  abbrev pub Served : Type 0
  Served = Option UpdaterJob × System H

  abbrev pub sent : UpdaterJob → String → Result (Unit {0}) × System H → Served
  sent j message r = (some (record j { err = job_error j.err message r.0 }), r.1)

  abbrev pub sent_own : UpdaterJob → Result (Unit {0}) × System H → Served
  sent_own j r = (some (record j { err = own_error j.err r.0 }), r.1)

  unfoldable pub serve : Action → UpdaterJob → System H → Served
  serve (install_pup i) j t =
      sent j "Failed to install pup" (Install.install_pup host i j.session_token j.state t)
  serve (uninstall_pup id) j t =
      sent j "Failed to uninstall pup" (Install.uninstall_pup host j.state t)
  serve (purge_pup id) j t = sent j "Failed to purge pup" (Install.purge host j.state t)
  serve (enable_pup id) j t = sent j "Failed to enable pup" (Install.enable_pup host j.state t)
  serve (disable_pup id) j t = sent j "Failed to disable pup" (Install.disable_pup host j.state t)
  serve (upgrade_pup id v) j t =
      sent j "Failed to upgrade pup" (Upgrade.upgrade_pup host j.source_id v j.state t)
  serve (rollback_pup_upgrade id) j t =
      sent j "Failed to rollback pup" (Upgrade.rollback_pup_upgrade host j.state t)
  serve import_blockchain_data j t =
      sent j "Failed to import blockchain data"
        (Import.import_blockchain_data host j.dogecoin_core t)
  serve update_pending_system_network j t =
      sent j "Failed to set system network" (elsewhere.set_pending_network t)
  serve initial_bootstrap j t = sent_own j (elsewhere.bootstrap t)
  serve enable_ssh j t = sent j "Failed to enable SSH" (Settings.enable_ssh host t)
  serve disable_ssh j t = sent j "Failed to disable SSH" (Settings.disable_ssh host t)
  serve (add_ssh_key key) j t = sent j "Failed to add SSH key" (Settings.add_ssh_key host key t)
  serve (remove_ssh_key id) j t =
      sent j "Failed to remove SSH key" (Settings.remove_ssh_key host id t)
  serve (save_custom_nix c) j t =
      sent j "Failed to save custom configuration" (elsewhere.save_nix c t)
  serve (add_binary_cache h k) j t =
      sent j "Failed to add binary cache" (Settings.add_binary_cache host h k t)
  serve (remove_binary_cache id) j t =
      sent j "Failed to remove binary cache" (Settings.remove_binary_cache host id t)
  serve (system_update p v) j t = sent_own j (elsewhere.do_system_update p v t)
  serve (update_timezone z) j t =
      sent j "Failed to update timezone" (Settings.update_timezone host z t)
  serve (update_keymap k) j t =
      sent j "Failed to update keyboard layout" (Settings.update_keymap host k t)
  serve update_nix_cache j t = sent_own j (Settings.update_nix_cache host t)
  serve _ j t = (none, t)
