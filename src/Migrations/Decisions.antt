-- ===== src/Migrations/Decisions.antt =====
-- What the record on disk decides (pkg/system/migrations/core).
use dogeboxd.Base.{
  String, ◌≡◌, refl, ap, sym, ◌∙◌, true, Option, none, some, ◌==◌, if◌then◌else◌, put, Bool-cases,
  inl, inr,
}
use dogeboxd.Migrations.State.{
  MigrationRecord, MigrationState, Files, load_state, save_state, replaced, record_of, save_changed,
  mark_completed,
}
use dogeboxd.Migrations.Runner.{skip, already_run, decided, evaluate_run_decision}

-- The record that `MarkCompleted` writes.
abbrev pub completed : MigrationRecord → MigrationRecord
completed r = record r { ran_successfully = true; do_not_run = true }

module _ {W : Type 0} (files : Files W) where
  replaced-load :
      (state : MigrationState) (w w' : W) (o : Option files.Bytes)
      → files.marshal state ≡ o
      → replaced files w o ≡ some w'
      → load_state files w' ≡ some state
  unfolding load_state
  replaced-load state w w' none e h = cc
  replaced-load state w w' (some s) e h =
      let read = files.read-replace (files.with_newline s) w w' h in
      let full = files.is_empty-with_newline s in
      let back = files.unmarshal-marshal state s e in rw (read, full, back) refl

  -- A saved state is the one that is loaded next.
  pub load_state-save_state :
      (state : MigrationState) (w w' : W)
      → save_state files state w ≡ some w'
      → load_state files w' ≡ some state
  unfolding save_state
  load_state-save_state state w w' h = replaced-load state w w' (files.marshal state) refl h

  changed-loads :
      (name : String) (f : MigrationRecord → MigrationRecord) (w w' : W)
      → (o : Option MigrationState) → load_state files w ≡ o
      → save_changed files name f w o ≡ some w'
      → (state : MigrationState) × (load_state files w ≡ some state)
        × (load_state files w' ≡ some (put name (f (record_of name state)) state))
  changed-loads name f w w' none e h = cc
  changed-loads name f w w' (some state) e h =
      (state, e, load_state-save_state (put name (f (record_of name state)) state) w w' h)

  decided-put :
      (name j : String) (state : MigrationState)
      → decided files j (some (put name (completed (record_of name state)) state)) ≡ (
          if name == j
          then some (skip (completed (record_of name state)) already_run)
          else decided files j (some state))
  decided-put name j state = elim (Bool-cases (name == j)) [ inl e ↦ rw e refl | inr e ↦ rw e refl ]

  -- After a `MarkCompleted` that reports no error, its migration is skipped as one that has run, and the
  -- decision on every other migration is as before.
  pub evaluate_run_decision-mark_completed :
      (name : String) (w w' : W)
      → mark_completed files name w ≡ some w'
      → (r : MigrationRecord) × ((j : String)
          → evaluate_run_decision files j w'
            ≡ (if name == j then some (skip r already_run) else evaluate_run_decision files j w))
  unfolding mark_completed evaluate_run_decision
  evaluate_run_decision-mark_completed name w w' h =
      let (state, before, after) = changed-loads name completed w w' (load_state files w) refl h in
      (
        completed (record_of name state),
        λ j.
            ap (decided files j) after
            ∙ decided-put name j state
            ∙ ap
                (λ o.
                  if name == j
                  then some (skip (completed (record_of name state)) already_run)
                  else decided files j o)
                (sym before),
      )
