-- ===== src/Queue/Reports.antt =====
-- What is reported of a finished job (sendFinishedJob of pkg/dogeboxd.go).
use dogeboxd.Base.{
  ℕ, String, ◌≡◌, refl, List, [], ◌∷◌, ◌++◌, ap, true, false, Option, none, some, arith, eq_refl,
  put, is_some,
}
use dogeboxd.Store.{Table}
use dogeboxd.Action.{Job}
use dogeboxd.Jobs.Record.{
  JobRecord, ActionProgress, Change, action, job_completed, failed, Outcome, ok, err, done,
  apply_progress,
}
use dogeboxd.Jobs.Display.{Lookup}
use dogeboxd.Jobs.Manager.{
  Manager, find_record, change_found, change_cached, persist, written, update_job_progress, get_job,
  is_job_active,
}
use dogeboxd.Queue.State.{should_track_job}
use dogeboxd.Queue.Dispatch.{
  Pups, Dogeboxd, announce_progress, updated, send_progress, send_finished_job, pup_id_of,
}

-- The progress report by which the error of a finished job is logged.
abbrev pub error_report : ℕ → Job → ActionProgress
error_report at_progress j = record {
  action_id = j.id;
  pup_id = pup_id_of j.state;
  progress = at_progress;
  msg = j.err;
  error = true;
}

module _ (t : Table JobRecord) (P : Type 0) (api : Pups P) (names : Lookup) where
  written-active :
      (k : String) (m : Manager t) (o : Option t.Db)
      → (written {0} t m tt o).1 ≡ done
      → (written {0} t m tt o).0.active k ≡ m.active k
  written-active k m none h = cc
  written-active k m (some db) h = refl

  change_found-active :
      (k : String) (f : JobRecord → JobRecord) (m : Manager t) (o : Option JobRecord)
      → (change_found t k f m o).1 ≡ done
      → is_some ((change_found t k f m o).0.active k) ≡ true
  unfolding persist
  change_found-active k f m none h = cc
  change_found-active k f m (some r) h =
      let m' = record m { active = put k (f r) m.active } in
      let e = written-active k m' (t.set m.store (f r).id (f r)) h in ground (arith, e, eq_refl k)

  announced-active :
      (ap : ActionProgress) (p : Manager t × Outcome (Unit {0})) (k : String)
      → (announce_progress t P api names ap p).active k ≡ p.0.active k
  announced-active ap (m, err e) k = refl
  announced-active ap (m, ok a) k = go (get_job t ap.action_id m)
    where
      go : (o : Outcome JobRecord) → (updated t P api names o m).active k ≡ m.active k
      go (err e) = refl
      go (ok r) = refl

  -- A progress report that is recorded puts its job into the cache of active jobs.
  pub send_progress-active :
      (ap : ActionProgress) (m : Manager t)
      → (update_job_progress t ap m).1 ≡ done
      → is_job_active t ap.action_id (send_progress t P api names ap m) ≡ true
  unfolding send_progress is_job_active update_job_progress change_cached
  send_progress-active ap m h =
      ap_some (announced-active ap (update_job_progress t ap m) ap.action_id)
        (change_found-active ap.action_id (apply_progress ap) m (find_record t ap.action_id m) h)
    where
      ap_some : {a b : Option JobRecord} → a ≡ b → is_some b ≡ true → is_some a ≡ true
      ap_some e s = cc

  -- Of a tracked job without an error that is not in the cache of active jobs, nothing is sent or
  -- recorded.
  pub send_finished_job-quiet :
      (now n : ℕ) (j : Job) (s : Dogeboxd t P api names)
      → should_track_job j ≡ true
      → is_job_active t j.id s.manager ≡ false
      → j.err ≡ ""
      → (send_finished_job t P api names now n j s).manager ≡ s.manager
  unfolding send_finished_job
  send_finished_job-quiet now n j s tracked idle e = simp (e, tracked, idle)

  -- The manager has the job as failed at `now` with this error and not as active, and the last two changes
  -- that it sent report the completion of the job and the action.
  pub record HasFailed (id error : String) (now : ℕ) (m : Manager t) : Type 0 where
    pub job : JobRecord
    pub earlier : List Change
    pub stored : get_job t id m ≡ ok job
    pub status : job.status ≡ failed
    pub finished : job.finished ≡ some now
    pub error_message : job.error_message ≡ error
    pub inactive : is_job_active t id m ≡ false
    pub reported : m.sent ≡ (earlier ++ job_completed job ∷ []) ++ action id error ∷ []
