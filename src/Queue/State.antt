-- ===== src/Queue/State.antt =====
-- syncQueue and the operations on it (pkg/dogeboxd.go, lines 55 to 62 and 301 to 459).
-- `job_q_lock` makes each operation one step.
use dogeboxd.Base.{
  String, Bool, true, false, Option, none, some, List, [], ◌∷◌, ◌++◌, ◌==◌, not, filter, contains,
  if◌then◌else◌,
}
use dogeboxd.Action.{
  Action, Job, update_nix_cache, update_metrics, update_pup_config, update_pup_hooks, install_pups,
}

-- `non_queued_active_jobs` is a set. `in_progress` is the mutex `jobInProgress`, and `handed` are
-- the jobs given to the system updater by `AddJob`, oldest first; those that it has not yet reported
-- back are `running`.
pub record SyncQueue : Type 0 where
  pub job_queue : List Job
  pub non_queued_active_jobs : List String
  pub current_system_job_id : String
  pub in_progress : Bool
  pub running : List Job
  pub handed : List Job

-- NewDogeboxd's queue
abbrev pub new_queue : SyncQueue
new_queue = record {
  job_queue = [];
  non_queued_active_jobs = [];
  current_system_job_id = "";
  in_progress = false;
  running = [];
  handed = [];
}

abbrev pub set_remove : String → List String → List String
set_remove id = filter (λ x. not (x == id))

abbrev pub set_add : String → List String → List String
set_add id s = if contains s id then s else id ∷ s

unfoldable pub enqueue : Job → SyncQueue → SyncQueue
enqueue j q = record q {
  non_queued_active_jobs = set_remove j.id q.non_queued_active_jobs;
  job_queue = q.job_queue ++ j ∷ [];
}

unfoldable pub mark_non_queued_active_job : String → SyncQueue → SyncQueue
mark_non_queued_active_job id q = record q {
  non_queued_active_jobs = set_add id q.non_queued_active_jobs;
}

unfoldable pub clear_non_queued_active_job : String → SyncQueue → SyncQueue
clear_non_queued_active_job id q = record q {
  non_queued_active_jobs = set_remove id q.non_queued_active_jobs;
}

unfoldable pub clear_current_system_job_id : String → SyncQueue → SyncQueue
clear_current_system_job_id id q = record q {
  current_system_job_id = if q.current_system_job_id == id then "" else q.current_system_job_id;
}

abbrev pub ids_of : List Job → List String
ids_of [] = []
ids_of (j ∷ js) = j.id ∷ ids_of js

abbrev pub current_id : String → List String
current_id id = if id == "" then [] else id ∷ []

unfoldable pub get_runtime_job_ids : SyncQueue → List String
get_runtime_job_ids q =
    current_id q.current_system_job_id ++ (ids_of q.job_queue ++ q.non_queued_active_jobs)

abbrev pub kept_first : Job → Option (List Job) → Option (List Job)
kept_first j none = none
kept_first j (some js) = some (j ∷ js)

-- The jobs without the first of that id, if there is one.
abbrev pub without_first : String → List Job → Option (List Job)
without_first id [] = none
without_first id (j ∷ js) =
    let rest : Option (List Job) = kept_first j (without_first id js) in
    if j.id == id then some js else rest

unfoldable pub remove_from_queue : String → SyncQueue → SyncQueue × Bool
remove_from_queue id q = elim (without_first id q.job_queue) [
  | none ↦ (q, false)
  | some rest ↦ (
    record q { job_queue = rest; non_queued_active_jobs = set_remove id q.non_queued_active_jobs },
    true,
  )
]

abbrev pub is_nix_cache_job : Action → Bool
is_nix_cache_job update_nix_cache = true
is_nix_cache_job _ = false

abbrev pub last_is_nix_cache : List Job → Bool
last_is_nix_cache [] = false
last_is_nix_cache (j ∷ []) = is_nix_cache_job j.action
last_is_nix_cache (j ∷ k ∷ js) = last_is_nix_cache (k ∷ js)

-- shouldSkipQueuedNixCacheJob
unfoldable pub should_skip_queued_nix_cache_job : SyncQueue → Bool
should_skip_queued_nix_cache_job q = last_is_nix_cache q.job_queue

unfoldable pub should_skip_job : Job → SyncQueue → Bool
unfolding should_skip_queued_nix_cache_job
should_skip_job j q =
    if is_nix_cache_job j.action then should_skip_queued_nix_cache_job q else false

unfoldable pub should_track : Action → Bool
should_track (update_metrics id) = false
should_track (update_pup_config id c) = false
should_track (update_pup_hooks id) = false
should_track (install_pups ps) = false
should_track _ = true

-- shouldTrackJob
unfoldable pub should_track_job : Job → Bool
unfolding should_track
should_track_job j = should_track j.action

abbrev pub pump_idle : List Job → SyncQueue → SyncQueue
pump_idle [] q = q
pump_idle (j ∷ js) q = record q {
  job_queue = js;
  current_system_job_id = j.id;
  in_progress = true;
  running = q.running ++ j ∷ [];
  handed = q.handed ++ j ∷ [];
}

-- pumpQueue: `TryLock` fails while a system job is in progress.
unfoldable pub pump_queue : SyncQueue → SyncQueue
pump_queue q = if q.in_progress then q else pump_idle q.job_queue q
