-- ===== src/Jobs/Display.antt =====
-- The display name of a job and the pup that its action names (pkg/jobs.go, lines 591 to 735).
-- `fmt` and the pup manager's names are given by a `Lookup`.
use Prim.Native.String
use dogeboxd.Base.{ℕ, String, Option, none, some, List, [], ◌∷◌, ◌==◌, if◌then◌else◌, length}
use dogeboxd.Action.{
  Action, Job, PupRef, InstallPup, install_pup, install_pups, uninstall_pup, purge_pup, enable_pup,
  disable_pup, rollback_pup_upgrade, upgrade_pup, update_pup_config, update_pup_providers,
  update_pup_hooks, update_metrics, check_pup_updates, import_blockchain_data,
  update_pending_system_network, initial_bootstrap, enable_ssh, disable_ssh, update_nix_cache,
  add_ssh_key, remove_ssh_key, save_custom_nix, add_binary_cache, remove_binary_cache,
  update_timezone, update_keymap, system_update,
}

-- `name_of` is the pup's name by id, `none` where there is no `Dogeboxd` or no such pup;
-- `decimal` prints a number.
pub record Lookup : Type 0 where
  pub name_of : String → Option String
  pub decimal : ℕ → String

infixr 60 ◌<>◌
abbrev ◌<>◌ : String → String → String
s <> t = String.◌++◌ s t

abbrev from_name : String → String → String → Option String → String
from_name verb tail fallback none = fallback
from_name verb tail fallback (some name) = verb <> " " <> name <> tail

-- The name from the job's pup state if it has one, else from the pup manager, else the fallback.
abbrev named : Lookup → Option PupRef → String → String → String → String → String
named l none id verb tail fallback = from_name verb tail fallback (l.name_of id)
named l (some p) id verb tail fallback =
    if p.name == ""
    then from_name verb tail fallback (l.name_of id)
    else verb <> " " <> p.name <> tail

abbrev batch_name : Lookup → List InstallPup → String
batch_name l (p ∷ []) = "Install " <> p.pup_name
batch_name l ps = "Install " <> l.decimal (length ps) <> " Pups"

unfoldable pub action_display_name : Lookup → Option PupRef → Action → String
action_display_name l s (install_pup p) = "Install " <> p.pup_name
action_display_name l s (install_pups ps) = batch_name l ps
action_display_name l s (uninstall_pup id) = named l s id "Uninstall" "" "Uninstall Pup"
action_display_name l s (purge_pup id) = named l s id "Purge" "" "Purge Pup"
action_display_name l s (enable_pup id) = named l s id "Enable" "" "Enable Pup"
action_display_name l s (disable_pup id) = named l s id "Disable" "" "Disable Pup"
action_display_name l s (rollback_pup_upgrade id) = named l s id "Rollback" "" "Rollback Pup"
action_display_name l s (upgrade_pup id v) = named l s id "Upgrade" (" to " <> v) "Upgrade Pup"
action_display_name l s (update_pup_config id c) = "Update Pup Configuration"
action_display_name l s (update_pup_providers id p) = "Update Pup Providers"
action_display_name l s (update_metrics id) = "Update Metrics"
action_display_name l s (check_pup_updates id) =
    if id == ""
    then "Check All Pup Updates"
    else from_name "Check Updates for" "" "Check Pup Updates" (l.name_of id)
action_display_name l s import_blockchain_data = "Import Blockchain Data"
action_display_name l s update_pending_system_network = "Update Network Configuration"
action_display_name l s initial_bootstrap = "Initial Setup"
action_display_name l s enable_ssh = "Enable SSH"
action_display_name l s disable_ssh = "Disable SSH"
action_display_name l s update_nix_cache = "Update Nix Cache"
action_display_name l s (add_ssh_key k) = "Add SSH Key"
action_display_name l s (remove_ssh_key k) = "Remove SSH Key"
action_display_name l s (save_custom_nix c) = "Save Custom OS Configuration"
action_display_name l s (add_binary_cache h k) = "Add Binary Cache"
action_display_name l s (remove_binary_cache id) = "Remove Binary Cache"
action_display_name l s (update_timezone z) = "Update Timezone"
action_display_name l s (update_keymap k) = "Update Keyboard Layout"
action_display_name l s (system_update p v) = "System Update"
action_display_name l s _ = "System Operation"

unfoldable pub get_display_name : Lookup → Job → String
unfolding action_display_name
get_display_name l j = action_display_name l j.state j.action

-- The `PupID` field of the action, if it has one.
unfoldable pub get_pup_id_from_action : Action → String
get_pup_id_from_action (uninstall_pup id) = id
get_pup_id_from_action (purge_pup id) = id
get_pup_id_from_action (enable_pup id) = id
get_pup_id_from_action (disable_pup id) = id
get_pup_id_from_action (rollback_pup_upgrade id) = id
get_pup_id_from_action (upgrade_pup id v) = id
get_pup_id_from_action (update_pup_config id c) = id
get_pup_id_from_action (update_pup_providers id p) = id
get_pup_id_from_action (update_pup_hooks id) = id
get_pup_id_from_action (update_metrics id) = id
get_pup_id_from_action (check_pup_updates id) = id
get_pup_id_from_action _ = ""
