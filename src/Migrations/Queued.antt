-- ===== src/Migrations/Queued.antt =====
-- Which migration a run queues (RunMigrations of pkg/system/migrations/core/runner.go).
use dogeboxd.Base.{String, ◌≡◌, false, some, List, ◌∷◌, ◌++◌}
use dogeboxd.Migrations.State.{MigrationRecord, MigrationState, Files, load_state, record_of}
use dogeboxd.Migrations.Runner.{
  Migration, applies, queued, nothing_queued, required, run_migrations,
}

module _ {W : Type 0} (files : Files W) where
  -- Some migration of the list queued the job and left the world `w'`: those before it were passed, from
  -- `w` on, without a queued job, its record, in the state file as they left it, says neither that it has
  -- run nor that it must not, and its requirements apply.
  pub record IsQueuedBy (ms : List (Migration W)) (id : String) (w w' : W) : Type 0 where
    pub before : List (Migration W)
    pub migration : Migration W
    pub after : List (Migration W)
    pub split : ms ≡ before ++ migration ∷ after
    pub world : W
    pub passed : run_migrations files before w ≡ (world, nothing_queued)
    pub state : MigrationState
    pub loaded : load_state files world ≡ some state
    pub has_not_run : (record_of migration.name state).ran_successfully ≡ false
    pub may_run : (record_of migration.name state).do_not_run ≡ false
    pub met : required files migration.requirements (record_of migration.name state) world ≡ applies
    pub ran : migration.run (record_of migration.name state) world ≡ (w', queued id)

  -- The state and the record that a decision to run comes from.
  abbrev Decided : String → MigrationRecord → W → Type 0
  Decided name r w =
      (state : MigrationState) × (load_state files w ≡ some state)
      × (record_of name state ≡ r)
      × (r.ran_successfully ≡ false)
      × (r.do_not_run ≡ false)
