-- ===== src/Jobs/Effects.antt =====
-- What the operations on one job do to the table, the cache and the clients (pkg/jobs.go).
use dogeboxd.Base.{
  ℕ, String, ◌≡◌, refl, subst, true, false, Option, none, some, ◌==◌, if◌then◌else◌, delete, arith,
  eq_refl, ◌∙◌, some_inj, sym,
}
use dogeboxd.Store.{Table}
use dogeboxd.Jobs.Record.{
  JobRecord, completed, failed, Change, ok, done, job_orphaned, finish_record, orphan_record,
  is_active_status,
}
use dogeboxd.Jobs.Manager.{
  Manager, find_record, retire, retired, complete_job, complete_found, completion,
  mark_job_orphaned, orphan_found, get_job, is_job_active,
}
use dogeboxd.Jobs.Coherence.{IsCoherent, find-id, finish-id}

module _ (t : Table JobRecord) where
  -- From `m` to `m'` the row of `k` became `r`, `k` left the cache, and nothing else changed in the
  -- table and the cache.
  abbrev pub Retires : String → JobRecord → Manager t → Manager t → Type 0
  Retires k r m m' =
      (j : String)
      → (t.get m'.store j ≡ (if k == j then some r else t.get m.store j))
        × (m'.active j ≡ (if k == j then none else m.active j))

  retired-Retires :
      (ch : Change) (k : String) (r : JobRecord) (m : Manager t) (o : Option t.Db)
      → r.id ≡ k
      → t.set m.store r.id r ≡ o
      → (retired t ch (record m { active = delete k m.active }) o).1 ≡ done
      → Retires k r m (retired t ch (record m { active = delete k m.active }) o).0
  retired-Retires ch k r m none i s h = cc
  retired-Retires ch k r m (some db) i s h = λ j. (
    subst (λ x. t.get db j ≡ (if x == j then some r else t.get m.store j)) i
        (t.get-set m.store r.id r db s j),
    refl,
  )

  complete_found-Retires :
      (now : ℕ) (k error : String) (m : Manager t)
      → IsCoherent t m
      → (o : Option JobRecord) → find_record t k m ≡ o
      → (complete_found t now k error m o).1 ≡ done
      → (r : JobRecord) × (t.get m.store k ≡ some r)
        × Retires k (finish_record now error r) m (complete_found t now k error m o).0
  unfolding retire
  complete_found-Retires now k error m c none f h = cc
  complete_found-Retires now k error m c (some r) f h =
      let r' = finish_record now error r in
      (
        r,
        (find-id t m k r c f).0,
        retired-Retires (completion t error r') k r' m (t.set m.store r'.id r')
            (finish-id t now error r ∙ (find-id t m k r c f).1) refl h,
      )

  -- A `CompleteJob` that reports no error found the stored record of the job, wrote its finished
  -- record, took the job out of the cache, and changed no other row or cache entry.
  pub complete_job-Retires :
      (now : ℕ) (k error : String) (m : Manager t)
      → IsCoherent t m
      → (complete_job t now k error m).1 ≡ done
      → (r : JobRecord) × (t.get m.store k ≡ some r)
        × Retires k (finish_record now error r) m (complete_job t now k error m).0
  unfolding complete_job
  complete_job-Retires now k error m c h =
      complete_found-Retires now k error m c (find_record t k m) refl h

  -- From a coherent manager, a `CompleteJob` that reports no error leaves the job out of the cache of
  -- active jobs, and `GetJob` then returns the stored record of the job, finished at `now`: completed at
  -- progress 100 if the error is empty, else failed with that error.
  pub get_job-complete_job :
      (now : ℕ) (k error : String) (m : Manager t)
      → IsCoherent t m
      → (complete_job t now k error m).1 ≡ done
      → let m' = (complete_job t now k error m).0 in
        (is_job_active t k m' ≡ false)
        × ((r₀ r : JobRecord) × (t.get m.store k ≡ some r₀)
            × (get_job t k m' ≡ ok r)
            × (r.id ≡ r₀.id)
            × (r.finished ≡ some now)
            × (r.status ≡ (if error == "" then completed else failed))
            × (r.progress ≡ (if error == "" then 100 else r₀.progress))
            × (r.error_message ≡ (if error == "" then r₀.error_message else error)))
  unfolding is_job_active get_job find_record finish_record
  get_job-complete_job now k error m c h =
      let (r, g, f) = complete_job-Retires now k error m c h in
      (
        ground (arith, f k, eq_refl k),
        (
          r,
          finish_record now error r,
          g,
          ground (arith, f k, eq_refl k),
          ground arith,
          ground arith,
          ground arith,
          ground arith,
          ground arith,
        ),
      )

  orphan_found-Retires :
      (now : ℕ) (k : String) (m : Manager t)
      → IsCoherent t m
      → (o : Option JobRecord) → find_record t k m ≡ o
      → (orphan_found t now k m o).1 ≡ done
      → (r : JobRecord) × (t.get m.store k ≡ some r)
        × (is_active_status r.status ≡ true
            → Retires k (orphan_record now r) m (orphan_found t now k m o).0)
        × (is_active_status r.status ≡ false → (orphan_found t now k m o).0 ≡ m)
  unfolding retire orphan_record
  orphan_found-Retires now k m c none f h = cc
  orphan_found-Retires now k m c (some r) f h = (
    r,
    (find-id t m k r c f).0,
    (λ a.
        let r' = orphan_record now r in
        rw a (
          retired-Retires (job_orphaned r') k r' m (t.set m.store r'.id r') (find-id t m k r c f).1
            refl (rw a at h))),
    (λ a. rw a refl),
  )

  -- Both branches of a `MarkJobOrphaned` that reports no error.
  pub mark_job_orphaned-cases :
      (now : ℕ) (k : String) (m : Manager t)
      → IsCoherent t m
      → (mark_job_orphaned t now k m).1 ≡ done
      → (r : JobRecord) × (t.get m.store k ≡ some r)
        × (is_active_status r.status ≡ true
            → Retires k (orphan_record now r) m (mark_job_orphaned t now k m).0)
        × (is_active_status r.status ≡ false → (mark_job_orphaned t now k m).0 ≡ m)
  unfolding mark_job_orphaned
  mark_job_orphaned-cases now k m c h = orphan_found-Retires now k m c (find_record t k m) refl h

  -- A `MarkJobOrphaned` of a job that is stored as finished changes nothing.
  pub mark_job_orphaned-finished :
      (now : ℕ) (k : String) (r : JobRecord) (m : Manager t)
      → IsCoherent t m
      → t.get m.store k ≡ some r
      → is_active_status r.status ≡ false
      → (mark_job_orphaned t now k m).1 ≡ done
      → (mark_job_orphaned t now k m).0 ≡ m
  mark_job_orphaned-finished now k r m c g a h =
      let (r₁, g₁, on, off) = mark_job_orphaned-cases now k m c h in
      let e : r₁ ≡ r = some_inj (sym g₁ ∙ g) in
      off (subst (λ (x : JobRecord). is_active_status x.status ≡ false) (sym e) a)
