-- ===== src/Jobs/Tests.antt =====
-- Runs of the job manager on a small table, and the theorems at these inputs.
use Prim.Native.Nat.{Ordering}
use dogeboxd.Base.{
  ℕ, String, ◌≡◌, refl, Bool, true, false, Option, none, some, List, [], ◌∷◌, ltb, ◌≢◌,
  if◌then◌else◌, ◌==◌, arith,
}
use dogeboxd.Semver.{Semver}
use dogeboxd.Store.{Table}
use dogeboxd.Store.Assoc.{assoc_table}
use dogeboxd.Action.{Job, system_update, enable_pup}
use dogeboxd.Jobs.Record.{JobRecord, ActionProgress, done, ok, completed, failed}
use dogeboxd.Jobs.Display.{Lookup}
use dogeboxd.Jobs.Manager.{
  Manager, new_manager, new_record, create_job_record, complete_job, is_job_active, get_job,
  update_job_progress,
}
use dogeboxd.Jobs.Sweeps.{
  Runtime, reconcile_completed_system_update_jobs, clear_interrupted_system_jobs,
}
use dogeboxd.Jobs.Coherence.{IsCoherent, create_job_record-IsCoherent}
use dogeboxd.Jobs.Effects.{get_job-complete_job}
use dogeboxd.Jobs.Restart.Interrupted.{Settles, clear_interrupted_system_jobs-Settles}
use dogeboxd.Jobs.Restart.Reconciled.{Reconciles, reconcile_completed-Reconciles}
use dogeboxd.Jobs.Ops.{
  Op, create, report_progress, complete, sync, clear_completed, clear_orphaned, AreOrderly, run,
  run-IsCoherent,
}
use dogeboxd.Jobs.Swept.{IsLive}

abbrev table : Table JobRecord
table = assoc_table

abbrev lookup : Lookup
lookup = record { name_of = λ id. some "Core"; decimal = λ n. "1" }

abbrev update_job : Job
update_job = record {
  action = system_update "os" "v0.9.1";
  id = "a1";
  err = "";
  start = 5;
  state = none;
}

abbrev pup_job : Job
pup_job = record update_job { action = enable_pup "p1"; id = "b2" }

abbrev started : Manager table
started = (create_job_record table lookup update_job (new_manager table [])).0

new_manager-IsCoherent : IsCoherent table (new_manager table [])
unfolding new_manager
new_manager-IsCoherent = record { keyed = λ k r h. cc; cached = λ k r h. cc }

started-IsCoherent : IsCoherent table started
unfolding create_job_record new_manager
started-IsCoherent =
    create_job_record-IsCoherent table lookup update_job (new_manager table [])
      (new_record table lookup update_job) new_manager-IsCoherent refl

abbrev disk_full : String
disk_full = "disk full"

-- A failed job, as a client reads it.
get_job-complete_job_example :
    let m' = (complete_job table 9 "a1" disk_full started).0 in
    (is_job_active table "a1" m' ≡ false)
    × ((r₀ r : JobRecord) × (table.get started.store "a1" ≡ some r₀)
        × (get_job table "a1" m' ≡ ok r)
        × (r.id ≡ r₀.id)
        × (r.finished ≡ some 9)
        × (r.status ≡ (if disk_full == "" then completed else failed))
        × (r.progress ≡ (if disk_full == "" then 100 else r₀.progress))
        × (r.error_message ≡ (if disk_full == "" then r₀.error_message else disk_full)))
unfolding complete_job create_job_record new_manager dogeboxd.Jobs.Manager.find_record
    dogeboxd.Jobs.Manager.retire
get_job-complete_job_example =
    get_job-complete_job table 9 "a1" disk_full started started-IsCoherent refl

abbrev started_record : JobRecord
started_record = new_record table lookup update_job

never_invalid : true ≡ false → Ordering.eq ≡ Ordering.lt
never_invalid h = cc

-- A comparison of texts as an example of a version order.
abbrev same_version : Semver
same_version = record {
  valid = λ v. true;
  compare = λ v w. Ordering.eq;
  prerelease = λ v. "";
  compare_refl = λ v. refl;
  compare-flip = λ v w. refl;
  compare_le_trans = λ u v w h k. refl;
  compare_invalid = λ v w h k. never_invalid h;
}

abbrev runtime : Runtime
runtime = record {
  current_release = "v0.9.1";
  installed_flake_version = some "v0.9.1";
  logged_target = λ id. "";
}

clear_interrupted_system_jobs-Settles_example :
    Settles table ltb started
      (clear_interrupted_system_jobs table ltb same_version runtime 9 started).0
unfolding clear_interrupted_system_jobs create_job_record new_manager
    dogeboxd.Jobs.Sweeps.get_active_jobs dogeboxd.Jobs.Sweeps.mark_all_interrupted new_record
    dogeboxd.Jobs.Record.is_interrupted_system_job dogeboxd.Action.action_name
    dogeboxd.Jobs.Sweeps.mark_interrupted
clear_interrupted_system_jobs-Settles_example =
    clear_interrupted_system_jobs-Settles table ltb same_version runtime 9 1 started
      started-IsCoherent refl

reconcile_completed-Reconciles_example :
    Reconciles table ltb runtime "v0.9.1" started
      (reconcile_completed_system_update_jobs table ltb runtime 9 started).0
unfolding reconcile_completed_system_update_jobs create_job_record new_manager
    dogeboxd.Jobs.Sweeps.get_active_jobs dogeboxd.Jobs.Sweeps.reconcile_jobs new_record
    dogeboxd.Jobs.Sweeps.reached_target dogeboxd.Jobs.Record.is_interrupted_system_job
    dogeboxd.Action.action_name dogeboxd.Base.Text.trim_space complete_job
    dogeboxd.Jobs.Manager.find_record dogeboxd.Jobs.Manager.retire
reconcile_completed-Reconciles_example =
    reconcile_completed-Reconciles table ltb runtime "v0.9.1" 9 1 started started-IsCoherent refl
      refl

abbrev ops : List Op
ops =
    clear_completed 9 2
    ∷ create lookup pup_job
    ∷ complete 9 "a1" "no space"
    ∷ clear_orphaned 9 2
    ∷ sync
    ∷ []

started-IsLive : IsLive table ltb started
unfolding create_job_record new_manager new_record
started-IsLive = record { running = λ k r h. ground (arith, h) }

orderly : AreOrderly table ltb ops started
unfolding create_job_record new_manager dogeboxd.Jobs.Ops.apply complete_job
    dogeboxd.Jobs.Manager.find_record dogeboxd.Jobs.Manager.retire
    dogeboxd.Jobs.Sweeps.sync_with_active_jobs dogeboxd.Jobs.Sweeps.get_active_jobs
    dogeboxd.Jobs.Sweeps.clear_completed_jobs dogeboxd.Jobs.Sweeps.clear_orphaned_jobs
orderly = (started-IsLive, (tt, (tt, ((λ k r h. refl), (tt, tt)))))

abbrev or_new : Option (Manager table) → Manager table
or_new none = new_manager table []
or_new (some m) = m

run-IsCoherent_example : IsCoherent table (or_new (run table ltb ops started))
unfolding run create_job_record new_manager dogeboxd.Jobs.Ops.apply complete_job
    dogeboxd.Jobs.Manager.find_record dogeboxd.Jobs.Manager.retire
    dogeboxd.Jobs.Sweeps.sync_with_active_jobs dogeboxd.Jobs.Sweeps.get_active_jobs
    dogeboxd.Jobs.Sweeps.clear_completed_jobs dogeboxd.Jobs.Sweeps.clear_orphaned_jobs
run-IsCoherent_example =
    run-IsCoherent table ltb ops started (or_new (run table ltb ops started)) orderly
      started-IsCoherent refl
