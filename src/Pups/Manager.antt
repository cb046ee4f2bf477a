-- ===== src/Pups/Manager.antt =====
-- The changes of a stored pup (pkg/pup/actions.go, lines 142 to 195, pkg/pup/manager.go and
-- pkg/pup/health.go), with the snapshots of a pup. Saving a pup, rebuilding the system and the calls on
-- the snapshot files are the record `Machine`.
use dogeboxd.Base.{
  String, Bool, true, false, Option, none, some, List, [], ◌∷◌, ◌++◌, not, if◌then◌else◌, Map, put,
  delete,
}
use dogeboxd.Base.Steps.{Result, ok, err, Step, pure, raise, ◌>>=◌, ◌>>◌}
use dogeboxd.Pups.Health.{Pup, RunStatus, get_pup_health_state}
use dogeboxd.Pups.State.{
  PupState, PupManifest, Pupdate, purged, UpdateFn, apply_updates, pup_enabled,
}

-- PupVersionSnapshot, without the date and the location of the source. A snapshot stands for its file, whose
-- JSON is taken to keep these fields; a file that cannot be read or parsed is a failed read.
pub record Snapshot : Type 0 where
  pub version : String
  pub manifest : PupManifest
  pub config : Map String
  pub providers : Map String
  pub enabled : Bool
  pub source_id : String

-- The state of the manager, with the machine `H` that it stands on. The run status of a pup is what its
-- stats hold; `snapshots` are the snapshot files, by pup.
pub record Managed (H : Type 0) : Type 0 where
  pub state : Map PupState
  pub stats : Map RunStatus
  pub sent : List Pupdate
  pub snapshots : Map Snapshot
  pub machine : H

pub record Machine (H : Type 0) : Type 0 where
  -- savePup
  pub save_pup : PupState → Step H (Unit {0})
  -- NixManager.Rebuild
  pub rebuild : Step H (Unit {0})
  -- the calls on the snapshot file of a pup, and on the temporary file that becomes it
  pub write_tmp : String → Snapshot → Step H (Unit {0})
  pub rename_tmp : String → Step H (Unit {0})
  pub remove_tmp : String → Step H (Unit {0})
  pub read_file : String → Step H (Unit {0})
  pub remove_file : String → Step H (Unit {0})

-- The part of a pup's state that its health reads.
abbrev pub health_view : PupState → Pup
health_view p = record {
  enabled = p.enabled;
  sections = p.manifest.sections;
  show_on_install = p.manifest.show_on_install;
  config = p.config;
  config_saved = p.config_saved;
  dependencies = p.manifest.dependencies;
  providers = p.providers;
}

-- healthCheckPupState
unfoldable pub health_check_pup_state : Map RunStatus → PupState → PupState
health_check_pup_state stats p =
    let report = get_pup_health_state stats (health_view p) in
    record p { needs_conf = report.needs_conf; needs_deps = report.needs_deps }

abbrev pub pup_not_found : String
pup_not_found = "pup not found"

-- A pup and its stats; of a pup that has none the code would fail.
abbrev pub found : Option PupState → Option RunStatus → Result (PupState × Option RunStatus)
found none status = err pup_not_found
found (some p) status = ok (p, status)

abbrev pub purge_found : Option PupState → List Pupdate
purge_found none = []
purge_found (some p) = purged p ∷ []

abbrev pub snapshot_of : PupState → Snapshot
snapshot_of p = record {
  version = p.version;
  manifest = p.manifest;
  config = p.config;
  providers = p.providers;
  enabled = p.enabled;
  source_id = p.source_id;
}

module _ {H : Type 0} where
  abbrev pub with_machine : {A : Type 0} → Managed H → Result A × H → Result A × Managed H
  with_machine t (r, h) = (r, record t { machine = h })

  abbrev pub on_machine : {A : Type 0} → Step H A → Step (Managed H) A
  on_machine m t = with_machine t (m t.machine)

  abbrev pub change : (Managed H → Managed H) → Step (Managed H) (Unit {0})
  change f t = (ok tt, f t)

  -- GetPup
  unfoldable pub get_pup : String → Step (Managed H) (PupState × Option RunStatus)
  get_pup id t = (found (t.state id) (t.stats id), t)

module _ {H : Type 0} (os : Machine H) where
  -- The updated pup is put in place and announced before it is saved.
  abbrev pub updated_pup : String → PupState × List Pupdate → Step (Managed H) PupState
  updated_pup id (p, changes) t =
      let p' = health_check_pup_state t.stats p in
      (on_machine (os.save_pup p') >> pure p')
        (record t { state = put id p' t.state; sent = t.sent ++ changes })

  abbrev pub update_found : String → List UpdateFn → Option PupState → Step (Managed H) PupState
  update_found id updates none = raise pup_not_found
  update_found id updates (some p) = updated_pup id (apply_updates updates (p, []))

  -- UpdatePup
  unfoldable pub update_pup : String → List UpdateFn → Step (Managed H) PupState
  update_pup id updates t = update_found id updates (t.state id) t

  -- PurgePup
  unfoldable pub purge_pup : String → Step (Managed H) (Unit {0})
  purge_pup id = change (λ t. record t {
    state = delete id t.state;
    stats = delete id t.stats;
    sent = t.sent ++ purge_found (t.state id);
  })

  -- StopPup
  unfoldable pub stop_pup : String → Step (Managed H) (Unit {0})
  unfolding update_pup
  stop_pup id = do
    (p, _) ← get_pup id
    if not p.enabled
        then pure tt
        else (update_pup id (pup_enabled false ∷ []) >> on_machine os.rebuild)

  -- StartPup
  unfoldable pub start_pup : String → Step (Managed H) (Unit {0})
  start_pup id = do
    (p, _) ← get_pup id
    if p.enabled then pure tt else (update_pup id (pup_enabled true ∷ []) >> on_machine os.rebuild)

  abbrev pub renamed :
      String → Snapshot → Result (Unit {0}) × Managed H → Result (Unit {0}) × Managed H
  renamed id snapshot (ok _, t) = (ok tt, record t { snapshots = put id snapshot t.snapshots })
  renamed id snapshot (err e, t) = (err e, (on_machine (os.remove_tmp id) t).1)

  -- CreateSnapshot: a temporary file, which is renamed.
  unfoldable pub create_snapshot : PupState → Step (Managed H) (Unit {0})
  create_snapshot p = do
    on_machine (os.write_tmp p.id (snapshot_of p))
    λ t. renamed p.id (snapshot_of p) (on_machine (os.rename_tmp p.id) t)

  abbrev pub read_snapshot : String → Option Snapshot → Step (Managed H) (Option Snapshot)
  read_snapshot id none = pure none
  read_snapshot id (some snapshot) = on_machine (os.read_file id) >> pure (some snapshot)

  -- GetSnapshot
  unfoldable pub get_snapshot : String → Step (Managed H) (Option Snapshot)
  get_snapshot id t = read_snapshot id (t.snapshots id) t

  abbrev pub remove_snapshot : String → Option Snapshot → Step (Managed H) (Unit {0})
  remove_snapshot id none = pure tt
  remove_snapshot id (some snapshot) = do
    on_machine (os.remove_file id)
    change (λ t. record t { snapshots = delete id t.snapshots })

  -- DeleteSnapshot
  unfoldable pub delete_snapshot : String → Step (Managed H) (Unit {0})
  delete_snapshot id t = remove_snapshot id (t.snapshots id) t
