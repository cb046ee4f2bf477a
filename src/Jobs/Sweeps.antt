-- ===== src/Jobs/Sweeps.antt =====
-- JobManager: the operations on many jobs (pkg/jobs.go, lines 298 to 588 and 737 to 753).
-- `stamp_before` compares two times as the database does, by their RFC 3339 texts.
use Prim.Native.Nat.{Ordering}
use Prim.Native.String
use dogeboxd.Base.{
  ℕ, ◌-◌, String, Bool, true, false, Option, none, some, List, [], ◌∷◌, ◌++◌, ◌==◌, ◌&&◌, filter,
  if◌then◌else◌, Map, put, keep, not, ltb, suc,
}
use dogeboxd.Base.Text.{trim_space}
use dogeboxd.Semver.{Semver}
use dogeboxd.Store.{Table, Query}
use dogeboxd.Jobs.Record.{
  JobRecord, failed, Outcome, ok, err, store_failed, flake_unreadable, is_active_status,
  is_final_status, is_interrupted_system_job, interrupt_record,
}
use dogeboxd.Jobs.Manager.{Manager, complete_job}

abbrev finished_before : (ℕ → ℕ → Bool) → Option ℕ → Option ℕ → Bool
finished_before before (some a) (some b) = before a b
finished_before before none (some b) = true
finished_before before _ none = false

abbrev finished_by : (ℕ → ℕ → Bool) → ℕ → Option ℕ → Bool
finished_by before cutoff none = false
finished_by before cutoff (some f) = before f cutoff

abbrev pub is_expired : (ℕ → ℕ → Bool) → ℕ → JobRecord → Bool
is_expired before cutoff r = is_final_status r.status && finished_by before cutoff r.finished

abbrev pub is_stuck : (ℕ → ℕ → Bool) → ℕ → JobRecord → Bool
is_stuck before cutoff r = is_active_status r.status && before r.started cutoff

-- What the operations read of the machine: the release that runs, the release that the installed OS
-- flake names (`none` if it cannot be read or names none), and the version that a job's log says it
-- was started for, or "".
pub record Runtime : Type 0 where
  pub current_release : String
  pub installed_flake_version : Option String
  pub logged_target : String → String

unfoldable pub resolve_target_version : Runtime → JobRecord → String
resolve_target_version e r =
    let target = trim_space r.target_version in
    if target == "" then trim_space (e.logged_target r.id) else target

unfoldable pub is_expected_manual_restart : Semver → String → Bool
is_expected_manual_restart v target =
    let trimmed = trim_space target in
    if trimmed == ""
    then false
    else v.valid trimmed
      && elim (v.compare trimmed "v0.9.0-rc.1") [ Ordering.lt ↦ false | _ ↦ true ]

abbrev pub restart_note : String
restart_note =
    "System update was interrupted by dogeboxd restart. This is expected when performing a 0.8.x to 0.9.x update; restart dogeboxd to continue phase 2."

unfoldable pub interrupted_log_note : Semver → String → String
unfolding is_expected_manual_restart
interrupted_log_note v target = if is_expected_manual_restart v target then restart_note else ""

-- The target of a system job that both the running release and the installed flake have reached.
unfoldable pub reached_target : Runtime → String → JobRecord → Bool
unfolding resolve_target_version
reached_target e flake job =
    let target = trim_space (resolve_target_version e job) in
    is_interrupted_system_job job
    && not (target == "")
    && trim_space e.current_release == target
    && flake == target

abbrev pub reconcile_note : Runtime → JobRecord → String
reconcile_note e job =
    String.◌++◌ "System update to "
      (String.◌++◌ (trim_space (resolve_target_version e job)) " completed after dogeboxd restart")

module _ (t : Table JobRecord) (stamp_before : ℕ → ℕ → Bool) where
  unfoldable pub get_all_jobs : Manager t → Option (List JobRecord)
  get_all_jobs m = t.select m.store (record {
    matches = λ r. true;
    before = λ a b. stamp_before b.started a.started;
    limit = none;
  })

  abbrev pub active_query : Query JobRecord
  active_query = record {
    matches = λ r. is_active_status r.status;
    before = λ a b. stamp_before a.started b.started;
    limit = none;
  }

  unfoldable pub get_active_jobs : Manager t → Option (List JobRecord)
  get_active_jobs m = t.select m.store active_query

  unfoldable pub get_recent_jobs : ℕ → Manager t → Option (List JobRecord)
  get_recent_jobs limit m = t.select m.store (record {
    matches = λ r. is_final_status r.status;
    before = λ a b. finished_before stamp_before b.finished a.finished;
    limit = some limit;
  })

  abbrev pub swept : Manager t → Map JobRecord → Option (t.Db × ℕ) → Manager t × Outcome ℕ
  swept m kept none = (m, err store_failed)
  swept m kept (some (db, n)) = (record m { store = db; active = kept }, ok n)

  unfoldable pub clear_completed_jobs : ℕ → ℕ → Manager t → Manager t × Outcome ℕ
  clear_completed_jobs now older_than m =
      swept m m.active (t.remove m.store (is_expired stamp_before (now - older_than)))

  unfoldable pub clear_all_jobs : Manager t → Manager t × Outcome ℕ
  clear_all_jobs m = swept m (λ k. none) (t.remove m.store (λ r. true))

  abbrev pub fail_stuck : ℕ → JobRecord → JobRecord
  fail_stuck now r = record r {
    status = failed;
    error_message = "Job was orphaned (stuck in queue)";
    finished = some now;
  }

  -- ClearOrphanedJobs and markOrphanedJobsAsFailed. The cache is swept with `time.Before`.
  unfoldable pub clear_orphaned_jobs : ℕ → ℕ → Manager t → Manager t × Outcome ℕ
  clear_orphaned_jobs now older_than m =
      let cutoff = now - older_than in
      swept m (keep (λ r. not (is_stuck ltb cutoff r)) m.active)
        (t.update m.store (is_stuck stamp_before cutoff) (fail_stuck now))

  -- SyncWithActiveJobs: the cache becomes the active rows.
  abbrev pub index_jobs : Map JobRecord → List JobRecord → Map JobRecord
  index_jobs acc [] = acc
  index_jobs acc (r ∷ rs) = index_jobs (put r.id r acc) rs

  abbrev pub synced : Manager t → Option (List JobRecord) → Manager t × Outcome (Unit {0})
  synced m none = (m, err store_failed)
  synced m (some rows) = (record m { active = index_jobs (λ k. none) rows }, ok tt)

  unfoldable pub sync_with_active_jobs : Manager t → Manager t × Outcome (Unit {0})
  sync_with_active_jobs m = synced m (get_active_jobs m)

  -- appendJobRecoveryLog; the file name is the one that it builds.
  unfoldable pub append_job_recovery_log : String → String → Manager t → Manager t
  append_job_recovery_log id msg m = record m {
    recovery_log =
        if m.attached && m.log_dir
        then m.recovery_log ++ (String.◌++◌ "pup-" id, msg) ∷ []
        else m.recovery_log;
  }

  abbrev pub append_nonempty : String → String → Manager t → Manager t
  append_nonempty id msg m = if msg == "" then m else append_job_recovery_log id msg m

  abbrev pub interrupted_written :
      Semver → Runtime → JobRecord → Manager t → Option t.Db → Manager t × Outcome (Unit {0})
  interrupted_written v e job m none = (m, err store_failed)
  interrupted_written v e job m (some db) =
      let note = interrupted_log_note v (trim_space (resolve_target_version e job)) in
      (append_nonempty job.id note (record m { store = db }), ok tt)

  unfoldable pub mark_interrupted :
      Semver → Runtime → ℕ → JobRecord → Manager t → Manager t × Outcome (Unit {0})
  mark_interrupted v e now job m =
      interrupted_written v e job m (t.set m.store job.id (interrupt_record now job))

  -- `if err != nil { return count, err }` before the rest of a loop.
  abbrev pub and_then :
      Manager t × Outcome (Unit {0}) → Manager t × Outcome ℕ → Manager t × Outcome ℕ
  and_then (m, err x) rest = (m, err x)
  and_then (m, ok _) rest = rest

  -- The loop over the active system jobs, with the number of jobs marked so far.
  unfoldable pub mark_all_interrupted :
      Semver → Runtime → ℕ → ℕ → List JobRecord → Manager t → Manager t × Outcome ℕ
  mark_all_interrupted v e now n [] m = (m, ok n)
  mark_all_interrupted v e now n (job ∷ jobs) m =
      let marked = mark_interrupted v e now job m in
      and_then marked (mark_all_interrupted v e now (suc n) jobs marked.0)

  abbrev pub forget_system_jobs : Manager t × Outcome ℕ → Manager t × Outcome ℕ
  forget_system_jobs (m, err x) = (m, err x)
  forget_system_jobs (m, ok n) = (
    record m {
      active = keep (λ r. not (is_active_status r.status && is_interrupted_system_job r)) m.active;
    },
    ok n,
  )

  abbrev pub clear_found :
      Semver → Runtime → ℕ → Manager t → Option (List JobRecord) → Manager t × Outcome ℕ
  clear_found v e now m none = (m, err store_failed)
  clear_found v e now m (some rows) =
      forget_system_jobs (mark_all_interrupted v e now 0 (filter is_interrupted_system_job rows) m)

  unfoldable pub clear_interrupted_system_jobs :
      Semver → Runtime → ℕ → Manager t → Manager t × Outcome ℕ
  clear_interrupted_system_jobs v e now m = clear_found v e now m (get_active_jobs m)

  unfoldable pub reconcile_jobs :
      Runtime → String → ℕ → ℕ → List JobRecord → Manager t → Manager t × Outcome ℕ
  reconcile_jobs e flake now n [] m = (m, ok n)
  reconcile_jobs e flake now n (job ∷ jobs) m =
      let completed = complete_job t now job.id "" m in
      let skipped = reconcile_jobs e flake now n jobs m in
      let rest =
        reconcile_jobs e flake now (suc n) jobs
          (append_job_recovery_log job.id (reconcile_note e job) completed.0) in
      if reached_target e flake job then and_then completed rest else skipped

  abbrev pub reconcile_found :
      Runtime → ℕ → Manager t → Option String → Option (List JobRecord) → Manager t × Outcome ℕ
  reconcile_found e now m none rows = (m, err flake_unreadable)
  reconcile_found e now m (some flake) none = (m, err store_failed)
  reconcile_found e now m (some flake) (some rows) =
      reconcile_jobs e (trim_space flake) now 0 rows m

  -- ReconcileCompletedSystemUpdateJobs
  unfoldable pub reconcile_completed_system_update_jobs :
      Runtime → ℕ → Manager t → Manager t × Outcome ℕ
  reconcile_completed_system_update_jobs e now m =
      reconcile_found e now m e.installed_flake_version (get_active_jobs m)
