-- ===== src/Jobs/Ops.antt =====
-- Any sequence of operations on the job manager that report no error keeps it coherent.
use dogeboxd.Base.{
  ℕ, ◌-◌, String, ◌≡◌, refl, Bool, Option, none, some, List, [], ◌∷◌, subst, Option-cases, some_inj,
  inl, inr,
}
use dogeboxd.Semver.{Semver}
use dogeboxd.Store.{Table}
use dogeboxd.Action.{Job}
use dogeboxd.Jobs.Record.{JobRecord, ActionProgress, Outcome, ok, err}
use dogeboxd.Jobs.Display.{Lookup}
use dogeboxd.Jobs.Manager.{
  Manager, create_job_record, update_job_pup_id, update_job_progress, complete_job,
  mark_job_orphaned, delete_job,
}
use dogeboxd.Jobs.Sweeps.{
  Runtime, clear_all_jobs, clear_orphaned_jobs, clear_completed_jobs, sync_with_active_jobs,
  clear_interrupted_system_jobs, reconcile_completed_system_update_jobs,
}
use dogeboxd.Jobs.Coherence.{
  IsCoherent, create_job_record-IsCoherent, update_job_pup_id-IsCoherent,
  update_job_progress-IsCoherent, complete_job-IsCoherent, mark_job_orphaned-IsCoherent,
  delete_job-IsCoherent,
}
use dogeboxd.Jobs.Swept.{
  StampsAgree, IsLive, clear_completed_jobs-IsCoherent, clear_all_jobs-IsCoherent,
  clear_orphaned_jobs-IsCoherent, sync_with_active_jobs-IsCoherent,
}
use dogeboxd.Jobs.Restart.Interrupted.{clear_interrupted_system_jobs-Settles}
use dogeboxd.Jobs.Restart.Reconciled.{reconcile_completed-IsCoherent}

-- The calls of the program on its job manager that change it, with the time of each.
pub data Op : Type 0 where
  create : Lookup → Job → Op
  set_pup_id : String → String → Op
  report_progress : ActionProgress → Op
  complete : ℕ → String → String → Op
  orphan : ℕ → String → Op
  delete : String → Op
  clear_all sync : Op
  clear_orphaned clear_completed : ℕ → ℕ → Op
  clear_interrupted : Semver → Runtime → ℕ → Op
  reconcile : Runtime → ℕ → Op

module _ (t : Table JobRecord) (stamp_before : ℕ → ℕ → Bool) where
  -- The state after the call, and whether it reported no error.
  abbrev outcome {ℓ} : {A : Type ℓ} → Manager t × Outcome A → Option (Manager t)
  outcome (m, ok a) = some m
  outcome (m, err e) = none

  -- One call; `none` if it reports an error.
  unfoldable pub apply : Op → Manager t → Option (Manager t)
  apply (create l j) m = outcome (create_job_record t l j m)
  apply (set_pup_id id pup) m = outcome (update_job_pup_id t id pup m)
  apply (report_progress ap) m = outcome (update_job_progress t ap m)
  apply (complete now id e) m = outcome (complete_job t now id e m)
  apply (orphan now id) m = outcome (mark_job_orphaned t now id m)
  apply (delete id) m = outcome (delete_job t id m)
  apply clear_all m = outcome (clear_all_jobs t stamp_before m)
  apply sync m = outcome (sync_with_active_jobs t stamp_before m)
  apply (clear_orphaned now d) m = outcome (clear_orphaned_jobs t stamp_before now d m)
  apply (clear_completed now d) m = outcome (clear_completed_jobs t stamp_before now d m)
  apply (clear_interrupted v e now) m =
      outcome (clear_interrupted_system_jobs t stamp_before v e now m)
  apply (reconcile e now) m =
      outcome (reconcile_completed_system_update_jobs t stamp_before e now m)

  -- Two calls delete or change rows by a condition of their own, and leave the cache as it is or change it
  -- by another: for the deletion of finished jobs, all
  -- cached jobs are queued or in progress, and for the jobs that are stuck, the
  -- texts of the times compare as the times.
  abbrev pub IsOrderly : Op → Manager t → Type 0
  IsOrderly (clear_orphaned now d) m = StampsAgree t stamp_before (now - d) m
  IsOrderly (clear_completed now d) m = IsLive t stamp_before m
  IsOrderly _ m = Unit

  abbrev pub After : Option (Manager t) → (Manager t → Type 0) → Type 0
  After none Q = Unit
  After (some m) Q = Q m

  -- Each call of a sequence is made in such a state.
  abbrev pub AreOrderly : List Op → Manager t → Type 0
  AreOrderly [] m = Unit
  AreOrderly (op ∷ ops) m = IsOrderly op m × After (apply op m) (AreOrderly ops)

  abbrev and_run : Option (Manager t) → (Manager t → Option (Manager t)) → Option (Manager t)
  and_run none rest = none
  and_run (some m) rest = rest m

  unfoldable pub run : List Op → Manager t → Option (Manager t)
  run [] m = some m
  run (op ∷ ops) m = and_run (apply op m) (run ops)

  outcome-ok {ℓ} :
      {A : Type ℓ} (p : Manager t × Outcome A) (m' : Manager t)
      → outcome p ≡ some m'
      → ((a : A) → p.1 ≡ ok a → IsCoherent t p.0)
      → IsCoherent t m'
  outcome-ok (m, ok a) m' h c = subst (λ x. IsCoherent t x) (some_inj h) (c a refl)
  outcome-ok (m, err e) m' h c = cc

  apply-IsCoherent :
      (op : Op) (m m' : Manager t)
      → IsOrderly op m
      → IsCoherent t m
      → apply op m ≡ some m'
      → IsCoherent t m'
  unfolding apply
  apply-IsCoherent (create l j) m m' s c h =
      outcome-ok _ m' h (λ r. create_job_record-IsCoherent t l j m r c)
  apply-IsCoherent (set_pup_id id pup) m m' s c h =
      outcome-ok _ m' h (λ a. update_job_pup_id-IsCoherent t id pup m c)
  apply-IsCoherent (report_progress ap) m m' s c h =
      outcome-ok _ m' h (λ a. update_job_progress-IsCoherent t ap m c)
  apply-IsCoherent (complete now id e) m m' s c h =
      outcome-ok _ m' h (λ a. complete_job-IsCoherent t now id e m c)
  apply-IsCoherent (orphan now id) m m' s c h =
      outcome-ok _ m' h (λ a. mark_job_orphaned-IsCoherent t now id m c)
  apply-IsCoherent (delete id) m m' s c h = outcome-ok _ m' h (λ a. delete_job-IsCoherent t id m c)
  apply-IsCoherent clear_all m m' s c h =
      outcome-ok _ m' h (λ n. clear_all_jobs-IsCoherent t stamp_before n m c)
  apply-IsCoherent sync m m' s c h =
      outcome-ok _ m' h (λ a. sync_with_active_jobs-IsCoherent t stamp_before m c)
  apply-IsCoherent (clear_orphaned now d) m m' s c h =
      outcome-ok _ m' h (λ n. clear_orphaned_jobs-IsCoherent t stamp_before now d n m s c)
  apply-IsCoherent (clear_completed now d) m m' s c h =
      outcome-ok _ m' h (λ n. clear_completed_jobs-IsCoherent t stamp_before now d n m c s)
  apply-IsCoherent (clear_interrupted v e now) m m' s c h =
      outcome-ok _ m' h
        (λ n k. (clear_interrupted_system_jobs-Settles t stamp_before v e now n m c k).coherent)
  apply-IsCoherent (reconcile e now) m m' s c h =
      outcome-ok _ m' h (λ n. reconcile_completed-IsCoherent t stamp_before e now n m c)

  -- After any sequence of calls that all report no error, from a coherent manager, every row is stored under
  -- its id and every cached job equals its row, if at each `ClearCompletedJobs` all cached jobs are queued
  -- or in progress and at each `ClearOrphanedJobs` the database compares the text of the start of each cached job to that
  -- of the cutoff as the times compare.
  pub run-IsCoherent :
      (ops : List Op) (m m' : Manager t)
      → AreOrderly ops m
      → IsCoherent t m
      → run ops m ≡ some m'
      → IsCoherent t m'
  unfolding run
  run-IsCoherent [] m m' s c h = subst (λ x. IsCoherent t x) (some_inj h) c
  run-IsCoherent (op ∷ ops) m m' s c h = elim (Option-cases (apply op m)) [
    | inl e ↦ cc (rw e at h)
    | inr (m₁, e) ↦
        run-IsCoherent ops m₁ m' (subst (λ o. After o (AreOrderly ops)) e s.1)
          (apply-IsCoherent op m m₁ s.0 c e) (rw e at h)
  ]
