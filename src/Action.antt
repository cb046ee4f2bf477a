-- ===== src/Action.antt =====
-- The actions that a client submits, and the job that carries one (pkg/events.go).
-- Payloads that no modelled code reads (bootstrap settings, metrics, hooks) are left out.
use dogeboxd.Base.{ℕ, String, Option, List}

pub record InstallPup : Type 0 where
  pub pup_name : String
  pub pup_version : String
  pub source_id : String

pub data Action : Type 0 where
  install_pup : InstallPup → Action
  install_pups : List InstallPup → Action
  uninstall_pup purge_pup enable_pup disable_pup rollback_pup_upgrade : String → Action
  -- the pup and the target version
  upgrade_pup : String → String → Action
  update_pup_config update_pup_providers : String → List (String × String) → Action
  update_pup_hooks update_metrics check_pup_updates : String → Action
  import_blockchain_data update_pending_system_network initial_bootstrap : Action
  enable_ssh disable_ssh update_nix_cache : Action
  add_ssh_key remove_ssh_key save_custom_nix : String → Action
  add_binary_cache : String → String → Action
  remove_binary_cache update_timezone update_keymap : String → Action
  -- the package and the version
  system_update : String → String → Action
  -- an action type that the switches of the program do not list
  unknown_action : String → Action

-- The part of a `PupState` that a job carries.
pub record PupRef : Type 0 where
  pub id : String
  pub name : String

pub record Job : Type 0 where
  pub action : Action
  pub id : String
  pub err : String
  pub start : ℕ
  pub state : Option PupRef

-- The `ActionName` methods.
unfoldable pub action_name : Action → String
action_name (install_pup p) = "install"
action_name (install_pups ps) = "install"
action_name (uninstall_pup id) = "uninstall"
action_name (purge_pup id) = "purge"
action_name (enable_pup id) = "enable"
action_name (disable_pup id) = "disable"
action_name (rollback_pup_upgrade id) = "rollback"
action_name (upgrade_pup id v) = "upgrade"
action_name (update_pup_config id c) = "config"
action_name (update_pup_providers id p) = "providers"
action_name (update_pup_hooks id) = "hooks"
action_name (update_metrics id) = "metrics"
action_name (check_pup_updates id) = "check-updates"
action_name import_blockchain_data = "import-blockchain"
action_name update_pending_system_network = "network"
action_name initial_bootstrap = "initial-bootstrap"
action_name enable_ssh = "enable-ssh"
action_name disable_ssh = "disable-ssh"
action_name update_nix_cache = "update-nix-cache"
action_name (add_ssh_key k) = "add-ssh-key"
action_name (remove_ssh_key k) = "remove-ssh-key"
action_name (save_custom_nix c) = "save-custom-nix"
action_name (add_binary_cache h k) = "add-binary-cache"
action_name (remove_binary_cache id) = "remove-binary-cache"
action_name (update_timezone t) = "update-timezone"
action_name (update_keymap k) = "update-keymap"
action_name (system_update p v) = "system-update"
action_name (unknown_action n) = n
