-- ===== src/Migrations/Runner.antt =====
-- The run of the migrations at start (pkg/system/migrations/core/runner.go). A migration's requirements
-- and its action are functions on a world that holds the file and the queue of jobs.
use dogeboxd.Base.{String, Option, none, some, List, [], ◌∷◌, if◌then◌else◌}
use dogeboxd.Migrations.State.{MigrationRecord, MigrationState, Files, load_state, record_of}

pub data SkipReason : Type 0 where
  already_run do_not_run_set : SkipReason

pub data RunDecision : Type 0 where
  should_run : MigrationRecord → RunDecision
  skip : MigrationRecord → SkipReason → RunDecision

-- The answer of `Requirements`: an error, or whether the migration applies.
pub data Requirement : Type 0 where
  check_failed : String → Requirement
  applies : Requirement
  does_not_apply : String → Requirement

-- The answer of `Run`: an error, nothing queued, or the id of the queued job.
pub data RunAnswer : Type 0 where
  run_failed : String → RunAnswer
  not_queued : RunAnswer
  queued : String → RunAnswer

pub record Migration (W : Type 0) : Type 0 where
  pub name : String
  pub requirements : Option (MigrationRecord → W → Requirement)
  pub run : MigrationRecord → W → W × RunAnswer

-- What RunMigrations returns: an error of the state file, no job, or the queued job.
pub data RunResult : Type 0 where
  state_failed nothing_queued : RunResult
  job_queued : String → RunResult

abbrev pub decide : MigrationRecord → RunDecision
decide r =
    if r.ran_successfully
    then skip r already_run
    else (if r.do_not_run then skip r do_not_run_set else should_run r)

module _ {W : Type 0} (files : Files W) where
  abbrev pub decided : String → Option MigrationState → Option RunDecision
  decided name none = none
  decided name (some state) = some (decide (record_of name state))

  unfoldable pub evaluate_run_decision : String → W → Option RunDecision
  evaluate_run_decision name w = decided name (load_state files w)

  abbrev pub required :
      Option (MigrationRecord → W → Requirement) → MigrationRecord → W → Requirement
  required none r w = applies
  required (some f) r w = f r w

  abbrev pub after_run : (W → W × RunResult) → W × RunAnswer → W × RunResult
  after_run rest (w, run_failed e) = rest w
  after_run rest (w, not_queued) = rest w
  after_run rest (w, queued id) = (w, job_queued id)

  abbrev pub after_check :
      Migration W → MigrationRecord → (W → W × RunResult) → W → Requirement → W × RunResult
  after_check m r rest w (check_failed e) = rest w
  after_check m r rest w (does_not_apply reason) = rest w
  after_check m r rest w applies = after_run rest (m.run r w)

  abbrev pub after_decision :
      Migration W → (W → W × RunResult) → W → Option RunDecision → W × RunResult
  after_decision m rest w none = (w, state_failed)
  after_decision m rest w (some (skip r reason)) = rest w
  after_decision m rest w (some (should_run r)) =
      after_check m r rest w (required m.requirements r w)

  unfoldable pub run_migrations : List (Migration W) → W → W × RunResult
  run_migrations [] w = (w, nothing_queued)
  run_migrations (m ∷ ms) w =
      after_decision m (run_migrations ms) w (evaluate_run_decision m.name w)
