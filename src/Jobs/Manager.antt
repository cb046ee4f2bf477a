-- ===== src/Jobs/Manager.antt =====
-- JobManager: the operations on one job (pkg/jobs.go, lines 54 to 296).
-- The mutex makes each operation one step. A record in the cache is shared by pointer: an operation
-- that changes it changes the cache, whether or not the write to the table succeeds.
use dogeboxd.Base.{
  ℕ, String, Bool, false, Option, none, some, List, [], ◌∷◌, ◌++◌, ◌==◌, if◌then◌else◌, Map, put,
  delete, is_some,
}
use dogeboxd.Store.{Table}
use dogeboxd.Action.{Action, Job, system_update, action_name}
use dogeboxd.Jobs.Record.{
  JobRecord, queued, ActionProgress, Change, Outcome, ok, err, not_found, store_failed,
  is_active_status, apply_progress, finish_record, orphan_record, job_completed, job_failed,
  job_orphaned,
}
use dogeboxd.Jobs.Display.{Lookup, get_display_name, get_pup_id_from_action}

-- `sent` is what was offered to the clients and `recovery_log` the lines that were appended to job
-- logs, both oldest first. `attached` says that a `Dogeboxd` was set, and `log_dir` that it has a
-- container log directory.
pub record State (Db : Type 0) : Type 0 where
  pub store : Db
  pub active : Map JobRecord
  pub attached : Bool
  pub log_dir : Bool
  pub sent : List Change
  pub recovery_log : List (String × String)

module _ (t : Table JobRecord) where
  abbrev pub Manager : Type 0
  Manager = State t.Db

  abbrev pub written {ℓ} : {A : Type ℓ} → Manager → A → Option t.Db → Manager × Outcome A
  written m a none = (m, err store_failed)
  written m a (some db) = (record m { store = db }, ok a)

  -- `jm.store.Set(r.ID, *r)` as the last step of an operation.
  unfoldable pub persist : JobRecord → Manager → Manager × Outcome (Unit {0})
  persist r m = written m tt (t.set m.store r.id r)

  abbrev or_else : Option JobRecord → Option JobRecord → Option JobRecord
  or_else none o = o
  or_else (some r) o = some r

  -- The cached record, or else the stored one.
  unfoldable pub find_record : String → Manager → Option JobRecord
  find_record id m = or_else (m.active id) (t.get m.store id)

  abbrev pub change_found :
      String → (JobRecord → JobRecord) → Manager → Option JobRecord → Manager × Outcome (Unit {0})
  change_found id f m none = (m, err (not_found id))
  change_found id f m (some r) = persist (f r) (record m { active = put id (f r) m.active })

  -- Each change of a found record that stays in the cache.
  unfoldable pub change_cached :
      String → (JobRecord → JobRecord) → Manager → Manager × Outcome (Unit {0})
  change_cached id f m = change_found id f m (find_record id m)

  abbrev target_version_of : Action → String
  target_version_of (system_update p v) = v
  target_version_of _ = ""

  -- NewJobManager, over a table
  unfoldable pub new_manager : t.Db → Manager
  new_manager db = record {
    store = db;
    active = λ k. none;
    attached = false;
    log_dir = false;
    sent = [];
    recovery_log = [];
  }

  unfoldable pub new_record : Lookup → Job → JobRecord
  unfolding get_display_name get_pup_id_from_action
  new_record l j = record {
    id = j.id;
    started = j.start;
    finished = none;
    display_name = get_display_name l j;
    action = action_name j.action;
    target_version = target_version_of j.action;
    progress = 0;
    status = queued;
    summary_message = "Job queued";
    error_message = "";
    pup_id = elim j.state [ none ↦ get_pup_id_from_action j.action | some p ↦ p.id ];
  }

  abbrev pub created : String → JobRecord → Manager → Option t.Db → Manager × Outcome JobRecord
  created id r m none = (m, err store_failed)
  created id r m (some db) = (record m { store = db; active = put id r m.active }, ok r)

  unfoldable pub create_job_record : Lookup → Job → Manager → Manager × Outcome JobRecord
  create_job_record l j m = let r = new_record l j in created j.id r m (t.set m.store j.id r)

  unfoldable pub update_job_pup_id : String → String → Manager → Manager × Outcome (Unit {0})
  update_job_pup_id id pup m = change_cached id (λ r. record r { pup_id = pup }) m

  unfoldable pub update_job_progress : ActionProgress → Manager → Manager × Outcome (Unit {0})
  update_job_progress ap m = change_cached ap.action_id (apply_progress ap) m

  abbrev pub send : Change → Manager → Manager
  send c m = record m { sent = if m.attached then m.sent ++ c ∷ [] else m.sent }

  abbrev pub retired : Change → Manager → Option t.Db → Manager × Outcome (Unit {0})
  retired c m none = (m, err store_failed)
  retired c m (some db) = (send c (record m { store = db }), ok tt)

  -- Takes the job out of the cache, writes the record and, if that worked, sends the change.
  unfoldable pub retire : String → JobRecord → Change → Manager → Manager × Outcome (Unit {0})
  retire id r c m = retired c (record m { active = delete id m.active }) (t.set m.store r.id r)

  abbrev pub completion : String → JobRecord → Change
  completion error r = if error == "" then job_completed r else job_failed r

  abbrev pub complete_found :
      ℕ → String → String → Manager → Option JobRecord → Manager × Outcome (Unit {0})
  complete_found now id error m none = (m, err (not_found id))
  complete_found now id error m (some r) =
      retire id (finish_record now error r) (completion error (finish_record now error r)) m

  unfoldable pub complete_job : ℕ → String → String → Manager → Manager × Outcome (Unit {0})
  complete_job now id error m = complete_found now id error m (find_record id m)

  abbrev pub orphan_found : ℕ → String → Manager → Option JobRecord → Manager × Outcome (Unit {0})
  orphan_found now id m none = (m, err (not_found id))
  orphan_found now id m (some r) =
      if is_active_status r.status
      then retire id (orphan_record now r) (job_orphaned (orphan_record now r)) m
      else (m, ok tt)

  unfoldable pub mark_job_orphaned : ℕ → String → Manager → Manager × Outcome (Unit {0})
  mark_job_orphaned now id m = orphan_found now id m (find_record id m)

  unfoldable pub get_job : String → Manager → Outcome JobRecord
  get_job id m = elim (find_record id m) [ none ↦ err (not_found id) | some r ↦ ok r ]

  unfoldable pub is_job_active : String → Manager → Bool
  is_job_active id m = is_some (m.active id)

  -- DeleteJob: the cache entry goes first, then the row.
  unfoldable pub delete_job : String → Manager → Manager × Outcome (Unit {0})
  delete_job id m = written (record m { active = delete id m.active }) tt (t.del m.store id)
