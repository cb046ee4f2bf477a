-- ===== src/Queue/Loop.antt =====
-- The run loop of Dogeboxd (pkg/dogeboxd.go, lines 137 to 322): one step for each message or tick
-- that concerns jobs. The channels of the pup manager and the update checker only relay changes.
use Prim.Native.String
use dogeboxd.Base.{ℕ, String, Bool, false, List, [], ◌∷◌, if◌then◌else◌, length}
use dogeboxd.Store.{Table}
use dogeboxd.Action.{Job}
use dogeboxd.Jobs.Record.{JobRecord, Outcome, ok, err, job_completed_legacy}
use dogeboxd.Jobs.Display.{Lookup}
use dogeboxd.Jobs.Manager.{Manager, complete_job, get_job}
use dogeboxd.Queue.State.{SyncQueue, should_skip_job, pump_queue, clear_current_system_job_id}
use dogeboxd.Queue.Dispatch.{
  Pups, Dogeboxd, send_change, queue_log, create_tracked_job_record, job_dispatcher,
  send_finished_job,
}
use dogeboxd.Queue.Orphans.{detect_and_mark_orphaned_jobs}

pub data Event : Type 0 where
  -- a job from the jobs channel
  incoming : Job → Event
  -- the updater reports its oldest running job: the job's error, and the line that is logged
  updater_done : String → String → Event
  queue_tick orphan_tick : Event

module _ (t : Table JobRecord) (stamp_before : ℕ → ℕ → Bool) (P : Type 0) (api : Pups P)
    (names : Lookup) where
  abbrev pub legacy : Outcome JobRecord → Manager t → Manager t
  legacy (err e) m = m
  legacy (ok r) m = send_change t P api names (job_completed_legacy r) m

  abbrev pub completed_by_updater : String → Manager t × Outcome (Unit {0}) → Manager t
  completed_by_updater id (m, err e) = m
  completed_by_updater id (m, ok _) = legacy (get_job t id m) m

  abbrev pub release : String → List Job → SyncQueue → SyncQueue
  release id running q = record (clear_current_system_job_id id q) {
    in_progress = false;
    running = running;
  }

  -- A job that comes back from the updater. `j.Success`, a copy of the pup's state for the client, is left
  -- out.
  unfoldable pub finish_system_job :
      ℕ → String → Job → List Job → Dogeboxd t P api names → Dogeboxd t P api names
  finish_system_job now note j others s =
      let logged = queue_log t P api names 100 note false j s.manager in
      let m = completed_by_updater j.id (complete_job t now j.id j.err logged) in
      let reported =
        send_finished_job t P api names now 100 j
          (record s { manager = m; pups = api.after_system_job j s.pups }) in
      record reported { queue = release j.id others reported.queue }

  abbrev pub updater_reports :
      ℕ → String → String → List Job → Dogeboxd t P api names → Dogeboxd t P api names
  updater_reports now error note [] s = s
  updater_reports now error note (j ∷ others) s =
      finish_system_job now note (record j { err = error }) others s

  abbrev position_note : ℕ → String
  position_note n = String.◌++◌ "Queued, position " (String.◌++◌ (names.decimal n) "\n")

  -- The job that `pumpQueue` hands over is logged with the length of the queue behind it.
  abbrev pub pump_log : List Job → SyncQueue → Manager t → Manager t
  pump_log [] q m = m
  pump_log (j ∷ js) q m =
      if q.in_progress then m else queue_log t P api names 0 (position_note (length js)) false j m

  unfoldable pub step : ℕ → Event → Dogeboxd t P api names → Dogeboxd t P api names
  step now (incoming j) s =
      let j' = record j { start = now } in
      if should_skip_job j s.queue
      then s
      else job_dispatcher t P api names now j' (create_tracked_job_record t P api names j' s)
  step now (updater_done error note) s = updater_reports now error note s.queue.running s
  step now queue_tick s = record s {
    queue = pump_queue s.queue;
    manager = pump_log s.queue.job_queue s.queue s.manager;
  }
  step now orphan_tick s = record s {
    manager = (detect_and_mark_orphaned_jobs t stamp_before now s.queue s.manager).0;
  }

  -- A run of the loop; the times are those of the events.
  unfoldable pub run : List (ℕ × Event) → Dogeboxd t P api names → Dogeboxd t P api names
  run [] s = s
  run ((now, e) ∷ es) s = run es (step now e s)
