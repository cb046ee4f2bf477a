-- ===== src/Pups/State.antt =====
-- The state of a pup and the functions that update it (pkg/pups.go, lines 11 to 104 and 291 to 391), with
-- the fields that the lifecycle of a pup reads or writes.
use dogeboxd.Base.{
  String, Bool, true, false, Option, none, some, List, [], ◌∷◌, ◌++◌, ◌==◌, any, if◌then◌else◌, Map,
}
use dogeboxd.Pups.Health.{Field, Dependency, manifest_config_needs_values}

pub data InstallationState : Type 0 where
  installing upgrading ready unready uninstalling uninstalled purging broken : InstallationState

pub record PupManifest : Type 0 where
  pub name : String
  pub version : String
  pub sections : List (List Field)
  pub show_on_install : Bool
  pub dependencies : List Dependency
  pub nix_file_sha256 : String

pub record PupHook : Type 0 where
  pub path : String
  pub id : String

pub record PupState : Type 0 where
  pub id : String
  pub source_id : String
  pub manifest : PupManifest
  pub config : Map String
  pub config_saved : Bool
  pub providers : Map String
  pub hooks : List PupHook
  pub installation : InstallationState
  pub broken_reason : String
  pub enabled : Bool
  pub needs_conf : Bool
  pub needs_deps : Bool
  pub version : String
  pub is_dev_mode_enabled : Bool
  pub skipped_version : String

-- The changes announced to subscribers, each with the pup's state at the time.
pub data Pupdate : Type 0 where
  changed_installation purged : PupState → Pupdate

-- An update function appends the changes that it announces.
abbrev pub UpdateFn : Type 0
UpdateFn = PupState × List Pupdate → PupState × List Pupdate

abbrev pub announced : PupState → List Pupdate → PupState × List Pupdate
announced p sent = (p, sent ++ changed_installation p ∷ [])

unfoldable pub set_pup_installation : InstallationState → UpdateFn
set_pup_installation state (p, sent) = announced (record p { installation = state }) sent

unfoldable pub set_pup_broken_reason : String → UpdateFn
set_pup_broken_reason reason (p, sent) = (record p { broken_reason = reason }, sent)

-- A key of ManifestConfigFieldIndex
abbrev pub has_field : List (List Field) → String → Bool
has_field [] k = false
has_field (fields ∷ sections) k =
    if any (λ (f : Field). f.name == k) fields then true else has_field sections k

abbrev pub or_old : Option String → Option String → Option String
or_old (some v) old = some v
or_old none old = old

-- The known fields of the new values over the old ones.
abbrev pub merged_config : List (List Field) → Map String → Map String → Map String
merged_config sections new old k = if has_field sections k then or_old (new k) (old k) else old k

unfoldable pub set_pup_config : Map String → UpdateFn
set_pup_config new (p, sent) =
    let config = merged_config p.manifest.sections new p.config in
    (
      record p {
        config = config;
        config_saved = true;
        needs_conf = manifest_config_needs_values p.manifest.sections config;
      },
      sent,
    )

unfoldable pub set_pup_providers : Map String → UpdateFn
set_pup_providers new (p, sent) =
    (record p { providers = λ k. or_old (new k) (p.providers k) }, sent)

unfoldable pub set_pup_version : String → UpdateFn
set_pup_version version (p, sent) = (record p { version = version }, sent)

unfoldable pub set_pup_skipped_version : String → UpdateFn
set_pup_skipped_version version (p, sent) = (record p { skipped_version = version }, sent)

unfoldable pub set_pup_manifest : PupManifest → UpdateFn
set_pup_manifest m (p, sent) =
    (record p { manifest = m; needs_conf = manifest_config_needs_values m.sections p.config }, sent)

unfoldable pub pup_enabled : Bool → UpdateFn
pup_enabled b (p, sent) = announced (record p { enabled = b }) sent

-- The hooks with their new random ids; `none` is a failure of the random source, which skips the hook.
abbrev pub with_ids : List (PupHook × Option String) → List PupHook
with_ids [] = []
with_ids ((h, none) ∷ hs) = with_ids hs
with_ids ((h, some id) ∷ hs) = record h { id = id } ∷ with_ids hs

unfoldable pub set_pup_hooks : List (PupHook × Option String) → UpdateFn
set_pup_hooks new (p, sent) = (record p { hooks = p.hooks ++ with_ids new }, sent)

-- The loop over the update functions.
abbrev pub apply_updates : List UpdateFn → PupState × List Pupdate → PupState × List Pupdate
apply_updates [] r = r
apply_updates (f ∷ fs) r = apply_updates fs (f r)
