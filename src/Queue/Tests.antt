-- ===== src/Queue/Tests.antt =====
-- Runs of the queue and the loop on a small state, and the theorems at these inputs.
use dogeboxd.Base.{ℕ, ◌≡◌, refl, none, some, List, [], ◌∷◌, ◌++◌, ltb}
use dogeboxd.Store.{Table}
use dogeboxd.Store.Assoc.{assoc_table}
use dogeboxd.Action.{Job, system_update, enable_pup}
use dogeboxd.Jobs.Record.{JobRecord, Change, action, done}
use dogeboxd.Jobs.Display.{Lookup}
use dogeboxd.Jobs.Manager.{Manager, new_manager, new_record, create_job_record, complete_job}
use dogeboxd.Jobs.Coherence.{IsCoherent, create_job_record-IsCoherent}
use dogeboxd.Queue.State.{new_queue, get_runtime_job_ids}
use dogeboxd.Queue.Dispatch.{Pups, Dogeboxd}
use dogeboxd.Queue.Orphans.{detect_and_mark_orphaned_jobs}
use dogeboxd.Queue.Orphans.Marked.{Orphans, detect_and_mark-Orphans}
use dogeboxd.Queue.Loop.{Event, incoming, updater_done, queue_tick, run}
use dogeboxd.Queue.Order.{IsExclusive, run-IsExclusive, run-history, history}

abbrev pub table : Table JobRecord
table = assoc_table

abbrev pub names : Lookup
names = record { name_of = λ id. some "Core"; decimal = λ n. "1" }

abbrev pub update_job : Job
update_job = record {
  action = system_update "os" "v0.9.1";
  id = "a1";
  err = "";
  start = 5;
  state = none;
}

abbrev pup_job : Job
pup_job = record update_job { action = enable_pup "p1"; id = "b2" }

abbrev pub one_pup : Pups (Unit {0})
one_pup = record {
  get_pup = λ id p. none;
  create_pup = λ i p. (p, none, "no source");
  set_enabled = λ id b p. (p, "");
  handle_now = λ a p. (p, "");
  after_system_job = λ j p. p;
  update_metrics_of = λ id p. p;
}

abbrev empty_store : Manager table
empty_store = new_manager table []

abbrev started : Manager table
started = (create_job_record table names update_job empty_store).0

abbrev pub start_state : Dogeboxd table (Unit {0}) one_pup names
start_state = record { queue = new_queue; manager = empty_store; pups = tt }

abbrev pub events : List (ℕ × Event)
events =
    (1, incoming update_job)
    ∷ (2, queue_tick)
    ∷ (3, incoming pup_job)
    ∷ (4, queue_tick)
    ∷ (5, updater_done "no space" "failed")
    ∷ []

new_queue-IsExclusive : IsExclusive new_queue
new_queue-IsExclusive = record { busy = λ h. cc; idle = λ h. (refl, refl) }

run-IsExclusive_example :
    IsExclusive (run table ltb (Unit {0}) one_pup names events start_state).queue
run-IsExclusive_example =
    run-IsExclusive table ltb (Unit {0}) one_pup names events start_state new_queue-IsExclusive

run-history_example :
    (added : List Job) × (history (run table ltb (Unit {0}) one_pup names events start_state).queue
      ≡ history new_queue ++ added)
run-history_example = run-history table ltb (Unit {0}) one_pup names events start_state

empty_store-IsCoherent : IsCoherent table empty_store
unfolding new_manager
empty_store-IsCoherent = record { keyed = λ k r h. cc; cached = λ k r h. cc }

started-IsCoherent : IsCoherent table started
unfolding create_job_record new_manager
started-IsCoherent =
    create_job_record-IsCoherent table names update_job empty_store
      (new_record table names update_job) empty_store-IsCoherent refl

-- The record of a job that the queue does not know.
detect_and_mark-Orphans_example :
    Orphans table ltb
      (get_runtime_job_ids new_queue)
      started
      (detect_and_mark_orphaned_jobs table ltb 9 new_queue started).0
unfolding detect_and_mark_orphaned_jobs dogeboxd.Jobs.Sweeps.get_active_jobs
    dogeboxd.Queue.Orphans.mark_missing create_job_record new_record get_runtime_job_ids
    dogeboxd.Jobs.Manager.mark_job_orphaned dogeboxd.Jobs.Manager.find_record
    dogeboxd.Jobs.Manager.retire new_manager
detect_and_mark-Orphans_example =
    detect_and_mark-Orphans table ltb 9 new_queue started started-IsCoherent refl

abbrev failed_job : Job
failed_job = record update_job { err = "no space" }

-- The state after the updater path has completed the job.
abbrev completed_state : Dogeboxd table (Unit {0}) one_pup names
completed_state = record start_state { manager = (complete_job table 8 "a1" "no space" started).0 }
