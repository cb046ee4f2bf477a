-- ===== src/Migrations/Tests.antt =====
-- Migrations over a file whose text is one of two, and the theorems at these inputs.
use dogeboxd.Base.{
  String, ◌≡◌, refl, ap, sym, false, Option, none, some, ◌==◌, if◌then◌else◌, put, not, is_some,
  some_inj,
}
use dogeboxd.Migrations.State.{
  MigrationRecord, MigrationState, Files, FileRead, contents, mark_completed, zero_record,
}
use dogeboxd.Migrations.Runner.{Migration, skip, already_run, queued, evaluate_run_decision}
use dogeboxd.Migrations.Decisions.{completed, evaluate_run_decision-mark_completed}

-- A file that keeps the state itself; `none` is the empty file.
abbrev World : Type 0
World = Option MigrationState

abbrev present : World → World
present none = some (λ k. none)
present (some state) = some state

present_nonempty : (b : World) → not (is_some (present b)) ≡ false
present_nonempty none = refl
present_nonempty (some state) = refl

abbrev kept_file : Files World
kept_file = record {
  Bytes = World;
  is_empty = λ b. not (is_some b);
  with_newline = present;
  read_file = λ w. contents w;
  replace_file = λ b w. some b;
  marshal = λ state. some (some state);
  unmarshal = λ b. b;
  is_empty-with_newline = present_nonempty;
  read-replace = λ b w w' h. ap contents (sym (some_inj h));
  unmarshal-marshal = λ state b h. ap present (sym (some_inj h));
}

abbrev no_state : MigrationState
no_state = λ k. none

evaluate_run_decision-mark_completed_example :
    (r : MigrationRecord) × ((j : String)
      → evaluate_run_decision kept_file j (some (put "os" (completed zero_record) no_state))
        ≡ (if "os" == j then some (skip r already_run) else evaluate_run_decision kept_file j none))
unfolding mark_completed dogeboxd.Migrations.State.load_state dogeboxd.Migrations.State.save_state
evaluate_run_decision-mark_completed_example =
    evaluate_run_decision-mark_completed kept_file "os" none
      (some (put "os" (completed zero_record) no_state)) refl

abbrev os_migration : Migration World
os_migration = record { name = "os"; requirements = none; run = λ r w. (w, queued "j1") }
