-- ===== src/Updater/Settings.antt =====
-- The jobs of the updater on the settings of the Dogebox (pkg/system/ssh.go and pkg/system/updater.go). An
-- error of the random source is one of `random_id`.
use dogeboxd.Base.{
  ℕ, zero, suc, ◌+◌, ◌-◌, String, Bool, true, false, Option, none, some, List, [], ◌∷◌, ◌++◌, ◌==◌,
  leb, if◌then◌else◌, length,
}
use dogeboxd.Base.Steps.{Step, raise, gets, ◌>>=◌, ◌>>◌}
use dogeboxd.Pups.Buffer.{take, drop}
use dogeboxd.Updater.Host.{
  Host, System, DogeboxState, SshKey, BinaryCache, call, apply_patch, set_dogebox,
}

-- The keys without the first of that id, if there is one.
abbrev pub without_key : String → List SshKey → Option (List SshKey)
without_key id [] = none
without_key id (k ∷ ks) =
    let rest : Option (List SshKey) = kept_key k (without_key id ks) in
    if k.id == id then some ks else rest
  where
    kept_key : SshKey → Option (List SshKey) → Option (List SshKey)
    kept_key k none = none
    kept_key k (some ks) = some (k ∷ ks)

module _ {H : Type 0} (host : Host H) where
  abbrev pub set_and_apply : DogeboxState → Step (System H) (Unit {0})
  set_and_apply s = do
    set_dogebox host s
    t ← gets (λ t. t)
    apply_patch host (host.update_firewall_rules t.pups.state s ∷ host.update_system s ∷ [])

  -- UpdateSystemConfig
  unfoldable pub update_system_config : DogeboxState → Step (System H) (Unit {0})
  update_system_config s = do
    t ← gets (λ t. t)
    apply_patch host (host.update_firewall_rules t.pups.state s ∷ host.update_system s ∷ [])

  -- EnableSSH
  unfoldable pub enable_ssh : Step (System H) (Unit {0})
  enable_ssh = do t ← gets (λ t. t); set_and_apply (record t.dogebox { ssh_enabled = true })

  -- DisableSSH
  unfoldable pub disable_ssh : Step (System H) (Unit {0})
  disable_ssh = do t ← gets (λ t. t); set_and_apply (record t.dogebox { ssh_enabled = false })

  -- AddSSHKey
  unfoldable pub add_ssh_key : String → Step (System H) (Unit {0})
  add_ssh_key key = do
    t ← gets (λ t. t)
    id ← call host.random_id
    set_and_apply
        (record t.dogebox { ssh_keys = t.dogebox.ssh_keys ++ record { id = id; key = key } ∷ [] })

  abbrev pub removed_key : Option (List SshKey) → Step (System H) (Unit {0})
  removed_key none = raise "SSH key not found"
  removed_key (some ks) = do t ← gets (λ t. t); set_and_apply (record t.dogebox { ssh_keys = ks })

  -- RemoveSSHKey
  unfoldable pub remove_ssh_key : String → Step (System H) (Unit {0})
  remove_ssh_key id = do t ← gets (λ t. t); removed_key (without_key id t.dogebox.ssh_keys)

  -- updateTimezone
  unfoldable pub update_timezone : String → Step (System H) (Unit {0})
  update_timezone timezone = do
    t ← gets (λ t. t)
    set_and_apply (record t.dogebox { timezone = timezone })

  -- updateKeymap
  unfoldable pub update_keymap : String → Step (System H) (Unit {0})
  update_keymap key_map = do
    t ← gets (λ t. t)
    set_and_apply (record t.dogebox { key_map = key_map })

  -- AddBinaryCache
  unfoldable pub add_binary_cache : String → String → Step (System H) (Unit {0})
  add_binary_cache cache_host key = do
    t ← gets (λ t. t)
    id ← call host.random_id
    let s = record t.dogebox {
      binary_caches =
          t.dogebox.binary_caches ++ record { id = id; host = cache_host; key = key } ∷ [];
    }
    set_dogebox host s
    apply_patch host (host.update_system s ∷ [])

  -- updateNixCache
  unfoldable pub update_nix_cache : Step (System H) (Unit {0})
  update_nix_cache = do call (host.get_config_value "console"); call (host.get_config_value "time")

-- append(s[:i], s[i+1:]...), where `s` is the first `m` items of the array.
abbrev pub shift : ℕ → ℕ → List BinaryCache → List BinaryCache
shift i m a = take i a ++ (take (m - (i + 1)) (drop (i + 1) a) ++ drop (m - 1) a)

-- One turn of the loop, given what the rest of the loop does without and with a removal here.
abbrev pub cache_turn :
    String
    → ℕ
    → ℕ
    → List BinaryCache
    → Option (List BinaryCache × Bool)
    → Option (List BinaryCache × Bool)
    → Option (List BinaryCache × Bool)
cache_turn id i m [] kept removed = none
cache_turn id i m (c ∷ cs) kept removed =
    if c.id == id then (if leb (i + 1) m then removed else none) else kept

-- The loop of removeBinaryCache, which ranges over the array as it is when an item is read, for as many
-- turns as the slice was long: the items that are left, and whether the id was found; `none` is the panic
-- of a slice out of range.
unfoldable pub remove_caches :
    String → ℕ → ℕ → ℕ → List BinaryCache → Bool → Option (List BinaryCache × Bool)
remove_caches id zero i m a found = some (take m a, found)
remove_caches id (suc n) i m a found =
    cache_turn id i m (drop i a) (remove_caches id n (i + 1) m a found)
      (remove_caches id n (i + 1) (m - 1) (shift i m a) true)

module _ {H : Type 0} (host : Host H) where
  -- A panic ends the program.
  abbrev pub removed_caches : Option (List BinaryCache × Bool) → Step (System H) (Unit {0})
  removed_caches none = raise "slice bounds out of range"
  removed_caches (some (cs, false)) = raise "binary cache not found"
  removed_caches (some (cs, true)) = do
    t ← gets (λ t. t)
    set_dogebox host (record t.dogebox { binary_caches = cs })

  -- removeBinaryCache
  unfoldable pub remove_binary_cache : String → Step (System H) (Unit {0})
  remove_binary_cache id = do
    t ← gets (λ t. t)
    let cs = t.dogebox.binary_caches
    removed_caches (remove_caches id (length cs) 0 (length cs) cs false)
