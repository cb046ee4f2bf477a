-- ===== src/Queue/Orphans.antt =====
-- DetectAndMarkOrphanedJobs (pkg/dogeboxd.go, lines 411 to 441).
pub mod Scan
pub mod Marked
use dogeboxd.Base.{ℕ, String, Bool, Option, none, some, List, [], ◌∷◌, contains, if◌then◌else◌}
use dogeboxd.Store.{Table}
use dogeboxd.Jobs.Record.{JobRecord, JobError, Outcome, ok, err, store_failed}
use dogeboxd.Jobs.Manager.{Manager, mark_job_orphaned}
use dogeboxd.Jobs.Sweeps.{get_active_jobs}
use dogeboxd.Queue.State.{SyncQueue, get_runtime_job_ids}

-- The ids marked so far, and the error that ended the scan, if any.
abbrev pub Scan : Type 0
Scan = List String × Option JobError

module _ (t : Table JobRecord) (stamp_before : ℕ → ℕ → Bool) where
  abbrev pub next_scan :
      String → Manager t × Outcome (Unit {0}) → Manager t × Scan → Manager t × Scan
  next_scan id (m, err e) rest = (m, ([], some e))
  next_scan id (m, ok _) (m', (ids, e)) = (m', (id ∷ ids, e))

  -- The loop over the active rows.
  unfoldable pub mark_missing : ℕ → List String → List JobRecord → Manager t → Manager t × Scan
  mark_missing now runtime [] m = (m, ([], none))
  mark_missing now runtime (job ∷ jobs) m =
      let marked = mark_job_orphaned t now job.id m in
      let skipped = mark_missing now runtime jobs m in
      let rest = next_scan job.id marked (mark_missing now runtime jobs marked.0) in
      if contains runtime job.id then skipped else rest

  abbrev pub scan_rows : ℕ → List String → Option (List JobRecord) → Manager t → Manager t × Scan
  scan_rows now runtime none m = (m, ([], some store_failed))
  scan_rows now runtime (some rows) m = mark_missing now runtime rows m

  unfoldable pub detect_and_mark_orphaned_jobs : ℕ → SyncQueue → Manager t → Manager t × Scan
  detect_and_mark_orphaned_jobs now q m =
      scan_rows now (get_runtime_job_ids q) (get_active_jobs t stamp_before m) m
