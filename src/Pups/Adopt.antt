-- ===== src/Pups/Adopt.antt =====
-- The adoption of a pup (pkg/pup/actions.go, lines 14 to 140): PupState and PupManifest with the fields
-- that adoption reads and writes. `Host` has the random id, the ports of the host, the disk, and the
-- other modules of the program that adoption calls.
use dogeboxd.Base.{
  ℕ, String, Bool, false, Option, none, some, List, [], ◌∷◌, ◌++◌, ◌==◌, ◌&&◌, if◌then◌else◌,
  length,
}
use dogeboxd.Pups.Address.{Ip, next_ip, is_exhausted}
use dogeboxd.Pups.Ports.{next_available_ports}

pub record Expose : Type 0 where
  pub name : String
  pub port : ℕ
  pub web_ui : Bool
  pub listen_on_host : Bool

pub record Manifest : Type 0 where
  pub name : String
  pub version : String
  pub exposes : List Expose

pub record Source : Type 0 where
  pub id : String
  pub is_disk : Bool

pub record WebUi : Type 0 where
  pub name : String
  pub internal : ℕ
  pub port : ℕ

pub record PupState (C : Type 0) : Type 0 where
  pub id : String
  pub source : Source
  pub manifest : Manifest
  pub config : C
  pub needs_conf : Bool
  pub needs_deps : Bool
  pub enabled : Bool
  pub ip : Ip
  pub version : String
  pub web_uis : List WebUi
  pub is_dev_mode_enabled : Bool
  pub dev_mode_services : List String

-- The pups in the order of a walk over the map, the last address, the announced adoptions, the disk.
pub record PupManager (C D : Type 0) : Type 0 where
  pub state : List (PupState C)
  pub last_ip : Ip
  pub adopted : List (PupState C)
  pub disk : D

pub record Host (C D : Type 0) : Type 0 where
  pub is_port_available : ℕ → Bool
  -- GetPupNixDevelopmentModeServices; `none` is an error
  pub dev_mode_services : Source → String → Manifest → Option (List String)
  -- ExtractManifestConfigDefaults and ManifestConfigNeedsValues
  pub config_defaults : Manifest → Option C
  pub needs_values : Manifest → C → Bool
  -- savePup
  pub save_pup : PupState C → D → Option D
  -- GetPupHealthState: whether the pup needs values and needs dependencies
  pub health : List (PupState C) → PupState C → Bool × Bool

pub data AdoptError : Type 0 where
  pup_already_exists : String → AdoptError
  no_random exhausted no_ports dev_mode_failed dev_mode_unavailable defaults_failed save_failed :
      AdoptError

abbrev pub ports_of : List WebUi → List ℕ
ports_of [] = []
ports_of (w ∷ ws) = w.port ∷ ports_of ws

abbrev pub host_ports : List Expose → List ℕ
host_ports [] = []
host_ports (e ∷ es) = let rest = host_ports es in if e.listen_on_host then e.port ∷ rest else rest

-- The exposed web interfaces, without ports yet.
abbrev pub exposed_uis : List Expose → List WebUi
exposed_uis [] = []
exposed_uis (e ∷ es) =
    let rest = exposed_uis es in
    if e.web_ui then record { name = e.name; internal = e.port; port = 0 } ∷ rest else rest

-- Gives the interfaces the ports in turn.
abbrev pub with_ports : List WebUi → List ℕ → List WebUi
with_ports (w ∷ ws) (p ∷ ps) = record w { port = p } ∷ with_ports ws ps
with_ports ws _ = ws

module _ {C D : Type 0} (host : Host C D) where
  abbrev pub is_installed : Manifest → Source → PupState C → Bool
  is_installed m source p =
      m.name == p.manifest.name && m.version == p.manifest.version && p.source.id == source.id

  abbrev pub find_installed : Manifest → Source → List (PupState C) → Option String
  find_installed m source [] = none
  find_installed m source (p ∷ ps) =
      let rest = find_installed m source ps in if is_installed m source p then some p.id else rest

  -- The consumed ports of nextAvailablePorts.
  unfoldable pub consumed_ports : List (PupState C) → List ℕ
  consumed_ports [] = []
  consumed_ports (p ∷ ps) =
      ports_of p.web_uis ++ (host_ports p.manifest.exposes ++ consumed_ports ps)

  abbrev Result : Type 0
  Result = PupManager C D × (Option AdoptError) × String

  abbrev fail : PupManager C D → String → AdoptError → Result
  fail t id e = (t, some e, id)

  -- Saved, the pup is indexed, its health is set and it is announced.
  abbrev pub saved : PupManager C D → PupState C → Option D → Result
  saved t p none = fail t p.id save_failed
  saved t p (some disk) =
      let (conf, deps) = host.health (p ∷ t.state) p in
      let p' = record p { needs_conf = conf; needs_deps = deps } in
      (record t { state = p' ∷ t.state; adopted = t.adopted ++ p' ∷ []; disk = disk }, none, p.id)

  abbrev pub with_config :
      PupManager C D
      → String
      → Manifest
      → Source
      → Bool
      → List WebUi
      → List String
      → Option C
      → Result
  with_config t id m source dev uis services none = fail t id defaults_failed
  with_config t id m source dev uis services (some config) =
      let p : PupState C = record {
        id = id;
        source = source;
        manifest = m;
        config = config;
        needs_conf = host.needs_values m config;
        needs_deps = false;
        enabled = false;
        ip = t.last_ip;
        version = m.version;
        web_uis = uis;
        is_dev_mode_enabled = dev;
        dev_mode_services = services;
      } in
      saved t p (host.save_pup p t.disk)

  abbrev pub with_services :
      PupManager C D
      → String
      → Manifest
      → Source
      → Bool
      → List WebUi
      → Option (List String)
      → Result
  with_services t id m source dev uis none = fail t id dev_mode_failed
  with_services t id m source dev uis (some []) =
      if dev
      then fail t id dev_mode_unavailable
      else with_config t id m source dev uis [] (host.config_defaults m)
  with_services t id m source dev uis (some (s ∷ ss)) =
      with_config t id m source dev uis (s ∷ ss) (host.config_defaults m)

  abbrev pub with_uis :
      PupManager C D → String → Manifest → Source → Bool → Option (List ℕ) → Result
  with_uis t id m source dev none = fail t id no_ports
  with_uis t id m source dev (some ports) =
      with_services t id m source dev (with_ports (exposed_uis m.exposes) ports)
        (if source.is_disk then host.dev_mode_services source id m else some [])

  -- The steps after the test for an installed pup. The claimed address stays claimed if a later step
  -- fails. `fuel` bounds the search for each port; without it the search need not end.
  abbrev pub claimed : ℕ → Option String → Manifest → Source → Bool → PupManager C D → Result
  claimed fuel none m source dev t = fail t "" no_random
  claimed fuel (some id) m source dev t =
      let t' = record t { last_ip = next_ip t.last_ip } in
      let rest = with_uis t' id m source dev (
        next_available_ports host.is_port_available fuel (length (exposed_uis m.exposes))
          (consumed_ports t.state)) in
      if is_exhausted t'.last_ip then fail t' id exhausted else rest

  abbrev pub unless_installed :
      ℕ → Option String → Manifest → Source → Bool → PupManager C D → Option String → Result
  unless_installed fuel random m source dev t (some id) = fail t id (pup_already_exists id)
  unless_installed fuel random m source dev t none = claimed fuel random m source dev t

  -- AdoptPup; `random` is the random id, if the random source gives one.
  unfoldable pub adopt_pup : ℕ → Option String → Manifest → Source → Bool → PupManager C D → Result
  adopt_pup fuel random m source dev t =
      unless_installed fuel random m source dev t (find_installed m source t.state)
