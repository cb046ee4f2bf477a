-- ===== src/Queue/Dispatch.antt =====
-- The job dispatcher and the reports of finished jobs (pkg/dogeboxd.go, lines 352 to 366, 476 to 626
-- and 837 to 922). The job manager is set. The pup manager, the source manager and the handlers that
-- change a pup at once are the fields of `Pups`; a failed call returns its message.
use Prim.Native.String
use dogeboxd.Base.{
  ℕ, suc, String, Bool, true, false, Option, none, some, List, [], ◌∷◌, ◌++◌, ◌==◌, if◌then◌else◌,
  ◌&&◌,
}
use dogeboxd.Store.{Table}
use dogeboxd.Action.{
  Action, Job, PupRef, InstallPup, install_pup, install_pups, uninstall_pup, purge_pup, enable_pup,
  disable_pup, rollback_pup_upgrade, upgrade_pup, update_pup_config, update_pup_providers,
  update_pup_hooks, update_metrics, check_pup_updates, unknown_action,
}
use dogeboxd.Jobs.Record.{
  JobRecord, Change, action, job_created, job_updated, job_completed, progress, ActionProgress,
  Outcome, ok, err,
}
use dogeboxd.Jobs.Display.{Lookup}
use dogeboxd.Jobs.Manager.{
  Manager, create_job_record, update_job_pup_id, update_job_progress, complete_job, get_job,
  is_job_active,
}
use dogeboxd.Queue.State.{
  SyncQueue, enqueue, mark_non_queued_active_job, clear_non_queued_active_job, should_track_job,
}

pub record Pups (P : Type 0) : Type 0 where
  -- GetPup
  pub get_pup : String → P → Option PupRef
  -- GetSourceManifest and then AdoptPup: the new pup's id, or a message
  pub create_pup : InstallPup → P → P × (Option String) × String
  -- UpdatePup with PupEnabled: the message is "" on success
  pub set_enabled : String → Bool → P → P × String
  -- updatePupConfig, updatePupProviders, updatePupHooks and checkPupUpdates, up to their report
  pub handle_now : Action → P → P × String
  -- what the run loop asks of the pup manager and the update checker after a system job: FastPollPup,
  -- CheckForUpdates and ClearCacheEntry, by the action
  pub after_system_job : Job → P → P
  -- UpdateMetrics
  pub update_metrics_of : String → P → P

pub record World (P Db : Type 0) : Type 0 where
  pub queue : SyncQueue
  pub manager : Db
  pub pups : P

-- The text of ErrPupNotFound
abbrev pub pup_not_found : String
pup_not_found = "pup not found"

-- The logger's pup, which is set together with the job's state.
abbrev pub pup_id_of : Option PupRef → String
pup_id_of none = ""
pup_id_of (some p) = p.id

module _ (t : Table JobRecord) (P : Type 0) (api : Pups P) (names : Lookup) where
  abbrev pub Dogeboxd : Type 0
  Dogeboxd = World P (Manager t)

  -- SendChange, offered to the channel
  abbrev pub send_change : Change → Manager t → Manager t
  send_change c m = record m { sent = m.sent ++ c ∷ [] }

  abbrev pub tracked : String → SyncQueue → P → Manager t × Outcome JobRecord → Dogeboxd
  tracked id q p (m, err e) = record {
    queue = clear_non_queued_active_job id q;
    manager = m;
    pups = p;
  }
  tracked id q p (m, ok r) = record { queue = q; manager = send_change (job_created r) m; pups = p }

  -- createTrackedJobRecord and the `job:created` change that its callers send. The id is visible to
  -- the orphan scan before the record exists.
  unfoldable pub create_tracked_job_record : Job → Dogeboxd → Dogeboxd
  create_tracked_job_record j s =
      if should_track_job j
      then tracked j.id (mark_non_queued_active_job j.id s.queue) s.pups
          (create_job_record t names j s.manager)
      else s

  abbrev pub updated : Outcome JobRecord → Manager t → Manager t
  updated (err e) m = m
  updated (ok r) m = send_change (job_updated r) m

  abbrev pub announce : Outcome JobRecord → Manager t → Manager t
  announce (err e) m = m
  announce (ok r) m = send_change (job_completed r) m

  abbrev pub after_complete : String → Manager t × Outcome (Unit {0}) → Manager t
  after_complete id (m, err e) = m
  after_complete id (m, ok _) = announce (get_job t id m) m

  -- The job record is completed only while it is in the cache of active jobs.
  unfoldable pub finish_active : ℕ → Job → Manager t → Manager t
  finish_active now j m = after_complete j.id (complete_job t now j.id j.err m)

  abbrev pub announce_progress : ActionProgress → Manager t × Outcome (Unit {0}) → Manager t
  announce_progress ap (m, err e) = m
  announce_progress ap (m, ok _) = updated (get_job t ap.action_id m) m

  -- sendProgress
  unfoldable pub send_progress : ActionProgress → Manager t → Manager t
  send_progress ap m = send_change (progress ap) (announce_progress ap (update_job_progress t ap m))

  -- `j.Logger.Step("queue")` logging a message, at the progress that the step has.
  unfoldable pub queue_log : ℕ → String → Bool → Job → Manager t → Manager t
  unfolding send_progress
  queue_log at_progress msg is_error j m =
      send_progress
        (record {
          action_id = j.id;
          pup_id = pup_id_of j.state;
          progress = at_progress;
          msg = msg;
          error = is_error;
        })
        m

  -- sendFinishedJob; an error is logged first.
  unfoldable pub send_finished_job : ℕ → ℕ → Job → Dogeboxd → Dogeboxd
  send_finished_job now at_progress j s =
      let m₀ = if j.err == "" then s.manager else queue_log at_progress j.err true j s.manager in
      let tracked_job = should_track_job j in
      let was_active = tracked_job && is_job_active t j.id m₀ in
      let m = if was_active then finish_active now j m₀ else m₀ in
      let report = send_change (action j.id j.err) m in
      record s {
        queue = clear_non_queued_active_job j.id s.queue;
        manager = if tracked_job then (if was_active then report else m) else report;
      }

  abbrev pub system_job : ℕ → Job → String → Option PupRef → Dogeboxd → Dogeboxd
  system_job now j pup none s = send_finished_job now 0 (record j { err = pup_not_found }) s
  system_job now j pup (some p) s = record s {
    manager = (update_job_pup_id t j.id pup s.manager).0;
    queue = enqueue (record j { state = some p }) s.queue;
  }

  -- sendSystemJobWithPupDetails
  unfoldable pub send_system_job_with_pup_details : ℕ → Job → String → Dogeboxd → Dogeboxd
  send_system_job_with_pup_details now j pup s = system_job now j pup (api.get_pup pup s.pups) s

  abbrev pub created_pup : ℕ → Job → Dogeboxd → P × (Option String) × String → Dogeboxd
  created_pup now j s (p, none, message) =
      send_finished_job now 0 (record j { err = message }) (record s { pups = p })
  created_pup now j s (p, some pup, message) =
      send_system_job_with_pup_details now j pup (record s { pups = p })

  -- createPupFromManifest
  unfoldable pub create_pup_from_manifest : ℕ → Job → InstallPup → Dogeboxd → Dogeboxd
  create_pup_from_manifest now j i s = created_pup now j s (api.create_pup i s.pups)

  -- fmt.Sprintf("%s-%d", j.ID, i+1)
  abbrev pub batch_id : String → ℕ → String
  batch_id id i = String.◌++◌ id (String.◌++◌ "-" (names.decimal (suc i)))

  -- The loop of the `InstallPups` case, from index `i`.
  unfoldable pub install_batch : ℕ → Job → ℕ → List InstallPup → Dogeboxd → Dogeboxd
  install_batch now j i [] s = s
  install_batch now j i (p ∷ ps) s =
      let pup_job = record j { id = batch_id j.id i; action = install_pup p } in
      install_batch now j (suc i) ps
        (create_pup_from_manifest now pup_job p (create_tracked_job_record pup_job s))

  abbrev pub toggled : ℕ → Job → String → Dogeboxd → P × String → Dogeboxd
  toggled now j pup s (p, message) =
      let s' = record s { pups = p } in
      if message == ""
      then send_system_job_with_pup_details now j pup s'
      else send_finished_job now 0 (record j { err = message }) s'

  abbrev pub handled : ℕ → Job → Dogeboxd → P × String → Dogeboxd
  handled now j s (p, message) =
      send_finished_job now 0 (record j { err = message }) (record s { pups = p })

  unfoldable pub dispatch : ℕ → Job → Action → Dogeboxd → Dogeboxd
  unfolding install_batch
  dispatch now j (install_pup i) s = create_pup_from_manifest now j i s
  dispatch now j (install_pups ps) s = install_batch now j 0 ps s
  dispatch now j (uninstall_pup id) s = send_system_job_with_pup_details now j id s
  dispatch now j (purge_pup id) s = send_system_job_with_pup_details now j id s
  dispatch now j (enable_pup id) s = toggled now j id s (api.set_enabled id true s.pups)
  dispatch now j (disable_pup id) s = toggled now j id s (api.set_enabled id false s.pups)
  dispatch now j (update_pup_config id c) s =
      handled now j s (api.handle_now (update_pup_config id c) s.pups)
  dispatch now j (update_pup_providers id c) s =
      handled now j s (api.handle_now (update_pup_providers id c) s.pups)
  dispatch now j (update_pup_hooks id) s =
      handled now j s (api.handle_now (update_pup_hooks id) s.pups)
  dispatch now j (check_pup_updates id) s =
      handled now j s (api.handle_now (check_pup_updates id) s.pups)
  dispatch now j (upgrade_pup id v) s = send_system_job_with_pup_details now j id s
  dispatch now j (rollback_pup_upgrade id) s = send_system_job_with_pup_details now j id s
  dispatch now j (update_metrics id) s = record s { pups = api.update_metrics_of id s.pups }
  dispatch now j (unknown_action n) s = s
  dispatch now j _ s = record s { queue = enqueue j s.queue }

  -- jobDispatcher
  unfoldable pub job_dispatcher : ℕ → Job → Dogeboxd → Dogeboxd
  unfolding dispatch
  job_dispatcher now j s = dispatch now j j.action s
