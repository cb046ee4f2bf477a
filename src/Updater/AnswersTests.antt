-- ===== src/Updater/AnswersTests.antt =====
-- A system update that the run loop queues, and the updater's answer to it.
use dogeboxd.Base.{◌≡◌, refl, ltb, none, some, false, Memᴰ}
use dogeboxd.Action.{Job}
use dogeboxd.Queue.Order.{history}
use dogeboxd.Queue.Loop.{run}
use dogeboxd.Queue.Tests.{table, names, update_job, one_pup, start_state, events}
use dogeboxd.Updater.Run.{UpdaterJob, Elsewhere, serve}
use dogeboxd.Updater.Answers.{run-answers}
use dogeboxd.Updater.Tests.{H, host, core, system}
use dogeboxd.Base.Steps.{ok}

abbrev elsewhere : Elsewhere H
elsewhere = record {
  set_pending_network = λ t. (ok tt, t);
  bootstrap = λ t. (ok tt, t);
  save_nix = λ c t. (ok tt, t);
  do_system_update = λ p v t. (ok tt, t);
}

abbrev queued_job : Job
queued_job = record update_job { start = 1 }

abbrev update : UpdaterJob
update = record {
  action = queued_job.action;
  err = "";
  state = core;
  session_token = "";
  source_id = "";
  dogecoin_core = none;
}

queued : Memᴰ queued_job (history (run table ltb (Unit {0}) one_pup names events start_state).queue)
unfolding run dogeboxd.Queue.Loop.step dogeboxd.Queue.State.pump_queue
    dogeboxd.Queue.State.should_skip_job dogeboxd.Queue.Dispatch.job_dispatcher
    dogeboxd.Queue.Dispatch.send_system_job_with_pup_details
    dogeboxd.Queue.Dispatch.send_finished_job dogeboxd.Queue.State.clear_non_queued_active_job
    dogeboxd.Queue.Dispatch.create_tracked_job_record dogeboxd.Queue.State.should_track_job
    dogeboxd.Jobs.Manager.create_job_record dogeboxd.Queue.State.mark_non_queued_active_job
    dogeboxd.Queue.State.enqueue dogeboxd.Queue.Loop.finish_system_job
    dogeboxd.Queue.State.clear_current_system_job_id
queued = Memᴰ.head refl

run-answers_example :
    (u : UpdaterJob) × ((serve host elsewhere queued_job.action update (system core false)).0
      ≡ some u)
run-answers_example =
    run-answers host elsewhere table ltb (Unit {0}) one_pup names events start_state queued_job
      update (system core false) refl queued
