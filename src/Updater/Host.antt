-- ===== src/Updater/Host.antt =====
-- What the system updater stands on (pkg/system/updater.go and pkg/system/state.go): the pup manager, the
-- state of the Dogebox, and the host, whose commands, downloads and files are the record `Host`.
use dogeboxd.Base.{String, Bool, Option, none, some, List, [], ◌∷◌, Map}
use dogeboxd.Base.Steps.{Result, ok, err, Step}
use dogeboxd.Nix.Patch.{NixPatch, NixHost, Operation, PatchResult, new_nix_patch, add, apply}
use dogeboxd.Pups.State.{PupState, PupManifest, UpdateFn}
use dogeboxd.Pups.Manager.{Managed, Machine, on_machine, update_pup}

pub record BinaryCache : Type 0 where
  pub id : String
  pub host : String
  pub key : String

pub record SshKey : Type 0 where
  pub id : String
  pub key : String

-- The fields of the Dogebox state that the updater reads or writes; a nil list of sidebar pups is `none`.
pub record DogeboxState : Type 0 where
  pub key_map : String
  pub timezone : String
  pub ssh_enabled : Bool
  pub ssh_keys : List SshKey
  pub binary_caches : List BinaryCache
  pub sidebar_pups : Option (List String)

pub record DelegateKey : Type 0 where
  pub priv : String
  pub wif : String

pub record Host (H : Type 0) : Type 0 where
  pub machine : Machine H
  pub nix : NixHost H
  -- the operations that the nix manager adds to a patch, with what they read when they are added
  pub write_pup_file : PupState → DogeboxState → Operation H
  pub update_includes_file : Map PupState → Operation H
  pub remove_pup_file : String → Operation H
  pub update_system : DogeboxState → Operation H
  pub update_firewall_rules : Map PupState → DogeboxState → Operation H
  -- dbxStore.Set
  pub save_dogebox : DogeboxState → Step H (Unit {0})
  -- DownloadPup: the pup's directory, the source, the name and the version
  pub download_pup : String → String → String → String → Step H PupManifest
  -- GetSourceManifest
  pub get_source_manifest : String → String → String → Step H PupManifest
  -- ClearCacheEntry of the update checker
  pub clear_cache_entry : String → H → H
  -- the SHA-256 of the nix file in the pup's directory, in hexadecimal
  pub nix_file_hash : String → PupManifest → Step H String
  -- MakeDelegate, with the session token
  pub make_delegate : String → String → Step H DelegateKey
  -- the commands of _dbxroot and systemctl, by the pup
  pub create_storage : String → Step H (Unit {0})
  pub delete_storage : String → Step H (Unit {0})
  pub stop_container : String → Step H (Unit {0})
  pub start_container : String → Step H (Unit {0})
  -- the pup, the file and its data
  pub write_key : String → String → String → Step H (Unit {0})
  -- WritePupConfigToStorage
  pub write_pup_config : String → Map String → Step H (Unit {0})
  -- waitForContainerRunning
  pub wait_for_container_running : String → Step H (Unit {0})
  -- removals of files and directories of the pup
  pub remove_pup_gob : String → Step H (Unit {0})
  pub remove_pup_source : String → Step H (Unit {0})
  pub remove_container_dir : String → Step H (Unit {0})
  pub import_blockchain : Step H (Unit {0})
  -- eight random bytes as a text
  pub random_id : Step H String
  -- GetConfigValueContext
  pub get_config_value : String → Step H (Unit {0})

pub record System (H : Type 0) : Type 0 where
  pub pups : Managed H
  pub dogebox : DogeboxState

module _ {H : Type 0} where
  abbrev pub with_pups : {A : Type 0} → System H → Result A × Managed H → Result A × System H
  with_pups t (r, m) = (r, record t { pups = m })

  -- A call on the pup manager.
  unfoldable pub on_pups : {A : Type 0} → Step (Managed H) A → Step (System H) A
  on_pups m t = with_pups t (m t.pups)

  -- A call on the host.
  unfoldable pub call : {A : Type 0} → Step H A → Step (System H) A
  unfolding on_pups
  call m = on_pups (on_machine m)

  -- The operations in the order in which they are added; the code does not read the results of Add.
  unfoldable pub add_operations : List (Operation H) → NixPatch H → NixPatch H
  add_operations [] np = np
  add_operations (op ∷ ops) np = add_operations ops (add op np).0

  abbrev pub applied : PatchResult H → Result (Unit {0}) × H
  applied (np, h, none) = (ok tt, h)
  applied (np, h, some e) = (err e, h)

module _ {H : Type 0} (host : Host H) where
  -- NewPatch, the operations, and Apply
  unfoldable pub apply_patch : List (Operation H) → Step (System H) (Unit {0})
  apply_patch ops = call (λ h. applied (apply host.nix (add_operations ops new_nix_patch) h))

  -- UpdatePup
  unfoldable pub update : String → List UpdateFn → Step (System H) PupState
  unfolding on_pups
  update id updates = on_pups (update_pup host.machine id updates)

  -- SetDogebox: the state is changed before it is stored.
  unfoldable pub set_dogebox : DogeboxState → Step (System H) (Unit {0})
  set_dogebox s t = call (host.save_dogebox s) (record t { dogebox = s })
