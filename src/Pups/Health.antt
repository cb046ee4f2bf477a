-- ===== src/Pups/Health.antt =====
-- When a pup may start (pkg/pup/health.go, and ManifestConfigNeedsValues of pkg/config_fields.go). Of a
-- dependency report only the interface and whether it is optional are read; calculateDeps takes them
-- from the manifest.
use dogeboxd.Base.{
  String, ◌≡◌, Bool, true, false, Option, none, some, List, [], ◌∷◌, ◌++◌, ◌==◌, ◌&&◌, ◌||◌, not,
  if◌then◌else◌, Map, Memᴰ, any, is_some,
}
use dogeboxd.Base.Text.{trim_space}

pub record Field : Type 0 where
  pub name : String
  pub required : Bool

pub record Dependency : Type 0 where
  pub interface_name : String
  pub optional : Bool

pub data RunStatus : Type 0 where
  stopped starting running stopping : RunStatus

-- The parts of a pup's state and manifest that its health reads; `sections` are those of the config.
pub record Pup : Type 0 where
  pub enabled : Bool
  pub sections : List (List Field)
  pub show_on_install : Bool
  pub config : Map String
  pub config_saved : Bool
  pub dependencies : List Dependency
  pub providers : Map String

pub record Report : Type 0 where
  pub deps_not_running : List String
  pub needs_conf : Bool
  pub needs_deps : Bool

abbrev pub is_unset : Option String → Bool
is_unset none = true
is_unset (some v) = trim_space v == ""

abbrev pub is_missing : Map String → Field → Bool
is_missing values f = f.required && is_unset (values f.name)

-- ManifestConfigNeedsValues
unfoldable pub manifest_config_needs_values : List (List Field) → Map String → Bool
manifest_config_needs_values [] values = false
manifest_config_needs_values (fields ∷ sections) values =
    any (is_missing values) fields || manifest_config_needs_values sections values

module _ (stats : Map RunStatus) where
  abbrev pub has_stats : Option String → Bool
  has_stats none = false
  has_stats (some id) = is_some (stats id)

  -- depMet, of the provider that is set for the interface
  unfoldable pub is_met : Pup → Dependency → Bool
  is_met p d = has_stats (p.providers d.interface_name)

  abbrev pub idle : String → Option RunStatus → List String
  idle iface none = []
  idle iface (some running) = []
  idle iface (some _) = iface ∷ []

  abbrev pub idle_provider : String → Option String → List String
  idle_provider iface none = []
  idle_provider iface (some id) = idle iface (stats id)

  abbrev pub not_running : Pup → List Dependency → List String
  not_running p [] = []
  not_running p (d ∷ ds) =
      idle_provider d.interface_name (p.providers d.interface_name) ++ not_running p ds

  abbrev pub is_unmet : Pup → Dependency → Bool
  is_unmet p d = not (is_met p d) && not d.optional

  unfoldable pub get_pup_health_state : Pup → Report
  get_pup_health_state p = record {
    deps_not_running = not_running p p.dependencies;
    needs_conf =
        manifest_config_needs_values p.sections p.config
        || (p.show_on_install && not p.config_saved);
    needs_deps = any (is_unmet p) p.dependencies;
  }

  abbrev pub can_start : Option Pup → Option Bool
  can_start none = none
  can_start (some p) =
      let report = get_pup_health_state p in
      some (if p.enabled then not (report.needs_conf || report.needs_deps) else false)

  -- CanPupStart, on the map of pups; `none` is ErrPupNotFound.
  unfoldable pub can_pup_start : Map Pup → String → Option Bool
  can_pup_start state id = can_start (state id)

  -- The pup is enabled, each required field has a value that is not blank, the config was saved if it is
  -- to be shown at the installation, and each dependency that is not optional has a known provider.
  pub record IsReady (p : Pup) : Type 0 where
    pub is_enabled : p.enabled ≡ true
    pub configured :
        (fields : List Field) (f : Field)
        → Memᴰ fields p.sections
        → Memᴰ f fields
        → f.required ≡ true
        → (v : String) × (p.config f.name ≡ some v) × ((trim_space v == "") ≡ false)
    pub shown : p.show_on_install ≡ true → p.config_saved ≡ true
    pub provided :
        (d : Dependency)
        → Memᴰ d p.dependencies
        → d.optional ≡ false
        → (id : String) × (p.providers d.interface_name ≡ some id) × (is_some (stats id) ≡ true)
