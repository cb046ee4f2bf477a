-- ===== src/Jobs/Record.antt =====
-- JobStatus, JobRecord, the changes sent to clients, and the tests on a record (pkg/jobs.go,
-- pkg/events.go).
use dogeboxd.Base.{ℕ, zero, suc, String, Bool, true, false, Option, some, ◌==◌, ◌&&◌, if◌then◌else◌}
use dogeboxd.Base.Text.{lower_equals}

pub data JobStatus : Type 0 where
  queued in_progress completed failed cancelled orphaned : JobStatus

-- Times are nanoseconds. `progress` is 0 to 100; a negative one is never stored.
pub record JobRecord : Type 0 where
  pub id : String
  pub started : ℕ
  pub finished : Option ℕ
  pub display_name : String
  pub action : String
  pub target_version : String
  pub progress : ℕ
  pub status : JobStatus
  pub summary_message : String
  pub error_message : String
  pub pup_id : String

-- What a logger reports of a running job. A negative progress is 0 here: both are not stored.
pub record ActionProgress : Type 0 where
  pub action_id : String
  pub pup_id : String
  pub progress : ℕ
  pub msg : String
  pub error : Bool

-- What is sent to the websocket clients. `action` reports a finished job by id and error.
pub data Change : Type 0 where
  job_created job_updated job_completed job_failed job_orphaned : JobRecord → Change
  job_completed_legacy : JobRecord → Change
  progress : ActionProgress → Change
  action : String → String → Change

pub data JobError : Type 0 where
  not_found : String → JobError
  store_failed flake_unreadable : JobError

pub data Outcome {ℓ} (A : Type ℓ) : Type ℓ where
  ok : A → Outcome A
  err : JobError → Outcome A

abbrev pub done : Outcome (Unit {0})
done = ok tt

-- status IN ('queued', 'in_progress')
abbrev pub is_active_status : JobStatus → Bool
is_active_status queued = true
is_active_status in_progress = true
is_active_status _ = false

-- status IN ('completed', 'failed', 'cancelled', 'orphaned')
abbrev pub is_final_status : JobStatus → Bool
is_final_status completed = true
is_final_status failed = true
is_final_status cancelled = true
is_final_status orphaned = true
is_final_status _ = false

unfoldable pub is_interrupted_system_job : JobRecord → Bool
is_interrupted_system_job job =
    if job.action == "system-update" then true else lower_equals job.display_name "system update"

abbrev pub nonempty : String → Bool
nonempty s = if s == "" then false else true

-- `if ap.Progress > 0 { record.Progress = ap.Progress }`
abbrev raised : ℕ → ℕ → ℕ
raised zero old = old
raised (suc n) old = suc n

abbrev started_status : JobStatus → JobStatus
started_status queued = in_progress
started_status s = s

-- The change of a record by one progress report.
unfoldable pub apply_progress : ActionProgress → JobRecord → JobRecord
apply_progress ap r = record r {
  progress = raised ap.progress r.progress;
  status = started_status r.status;
  pup_id = if r.pup_id == "" && nonempty ap.pup_id then ap.pup_id else r.pup_id;
  summary_message = ap.msg;
  error_message = if ap.error then ap.msg else r.error_message;
}

-- The change of a record by `CompleteJob` at time `now`; an empty error is success.
unfoldable pub finish_record : ℕ → String → JobRecord → JobRecord
finish_record now error r =
    if error == ""
    then record r {
      finished = some now;
      status = completed;
      progress = 100;
      summary_message = "Job completed successfully";
    }
    else record r {
      finished = some now;
      status = failed;
      error_message = error;
      summary_message = "Job failed";
    }

unfoldable pub orphan_record : ℕ → JobRecord → JobRecord
orphan_record now r = record r {
  finished = some now;
  status = orphaned;
  summary_message = "Job marked as orphaned";
  error_message = "Job is no longer being processed";
}

unfoldable pub interrupt_record : ℕ → JobRecord → JobRecord
interrupt_record now r = record r {
  status = failed;
  finished = some now;
  error_message = "Job was interrupted by dogeboxd restart";
  summary_message = "Job failed";
}
