-- ===== src/Jobs/Restart/Marking.antt =====
-- What happens to system jobs when dogeboxd starts again: ClearInterruptedSystemJobs and
-- ReconcileCompletedSystemUpdateJobs (pkg/jobs.go).
use dogeboxd.Base.{
  ℕ, suc, String, ◌≡◌, ◌≢◌, refl, sym, ap, subst, Bool, false, Option, none, some, List, [], ◌∷◌,
  ◌==◌, if◌then◌else◌, arith, eq_iff, ◌⊎◌, inl, inr, ◌∙◌, Memᴰ, text_cases, ne→==_false,
}
use dogeboxd.Semver.{Semver}
use dogeboxd.Store.{Table}
use dogeboxd.Jobs.Record.{JobRecord, failed, Outcome, ok, err, done, interrupt_record}
use dogeboxd.Jobs.Manager.{Manager}
use dogeboxd.Jobs.Sweeps.{
  Runtime, append_job_recovery_log, append_nonempty, interrupted_written, mark_interrupted,
  mark_all_interrupted, and_then, resolve_target_version, interrupted_log_note,
}
use dogeboxd.Base.Text.{trim_space}

module _ (t : Table JobRecord) (stamp_before : ℕ → ℕ → Bool) where
  append_nonempty-same :
      (id msg : String) (m : Manager t)
      → ((append_nonempty t stamp_before id msg m).store ≡ m.store)
        × ((append_nonempty t stamp_before id msg m).active ≡ m.active)
  unfolding append_job_recovery_log
  append_nonempty-same id msg m = (ground arith, ground arith)

  -- What one marked job changes: its own row, and nothing in the cache.
  mark_interrupted-get :
      (v : Semver) (e : Runtime) (now : ℕ) (job : JobRecord) (m : Manager t)
      → (o : Option t.Db) → t.set m.store job.id (interrupt_record now job) ≡ o
      → (interrupted_written t stamp_before v e job m o).1 ≡ done
      → let m' = (interrupted_written t stamp_before v e job m o).0 in
        (m'.active ≡ m.active)
        × ((k : String)
            → t.get m'.store k
              ≡ (if job.id == k then some (interrupt_record now job) else t.get m.store k))
  mark_interrupted-get v e now job m none s h = cc
  mark_interrupted-get v e now job m (some db) s h =
      let note = interrupted_log_note v (trim_space (resolve_target_version e job)) in
      let (same_store, same_active) = append_nonempty-same job.id note (record m { store = db }) in
      (
        same_active,
        λ k.
            subst
              (λ d.
                t.get d k
                ≡ (if job.id == k then some (interrupt_record now job) else t.get m.store k))
              (sym same_store) (t.get-set m.store job.id (interrupt_record now job) db s k),
      )

  -- The rows after the loop: each is marked as failed, or is as before and of no listed job.
  abbrev pub MarkedOrSame : List JobRecord → Manager t → Manager t → Type 0
  MarkedOrSame jobs m m' =
      (k : String) (r : JobRecord)
      → t.get m'.store k ≡ some r
      → ((r.status ≡ failed) × (r.id ≡ k))
        ⊎ ((t.get m.store k ≡ some r) × ((j : JobRecord) → Memᴰ j jobs → j.id ≢ k))

  and_then-ok :
      (p : Manager t × Outcome (Unit {0})) (q : Manager t × Outcome ℕ) (n : ℕ)
      → (and_then t stamp_before p q).1 ≡ ok n
      → (p.1 ≡ done) × (and_then t stamp_before p q ≡ q)
  and_then-ok (m, err x) q n h = cc
  and_then-ok (m, ok a) q n h = (refl, refl)

  -- The frame of the loop: rows of other jobs stay.
  abbrev pub OthersStay : List JobRecord → Manager t → Manager t → Type 0
  OthersStay jobs m m' =
      (k : String) → ((j : JobRecord) → Memᴰ j jobs → j.id ≢ k) → t.get m'.store k ≡ t.get m.store k

  ==_false→ne : (s u : String) → (s == u) ≡ false → s ≢ u
  ==_false→ne s u h e = cc (h, (eq_iff s u).1 e)

  marked_cons :
      (now : ℕ) (job : JobRecord) (jobs : List JobRecord) (m m₁ m' : Manager t)
      → ((k : String)
          → t.get m₁.store k
            ≡ (if job.id == k then some (interrupt_record now job) else t.get m.store k))
      → MarkedOrSame jobs m₁ m'
      → MarkedOrSame (job ∷ jobs) m m'
  unfolding interrupt_record
  marked_cons now job jobs m m₁ m' step rest k r g = elim (rest k r g) [
    | inl marked ↦ inl marked
    | inr (g₁, others) ↦ elim (text_cases job.id k) [
      | inl e ↦ inl (
        ground (arith, step k, g₁, e, eq_iff job.id k),
        ground (arith, step k, g₁, e, eq_iff job.id k),
      )
      | inr ne ↦ inr (ground (arith, step k, g₁, ne), λ j i. all_ne ne others j i)
    ]
  ]
    where
      all_ne :
          (job.id == k) ≡ false
          → ((j : JobRecord) → Memᴰ j jobs → j.id ≢ k)
          → (j : JobRecord) → Memᴰ j (job ∷ jobs)
          → j.id ≢ k
      all_ne ne others j (Memᴰ.head e) =
          subst (λ (x : JobRecord). x.id ≢ k) (sym e) (==_false→ne job.id k ne)
      all_ne ne others j (Memᴰ.tail i) = others j i

  pub mark_all-rows :
      (v : Semver) (e : Runtime) (now n count : ℕ) (jobs : List JobRecord) (m : Manager t)
      → (mark_all_interrupted t stamp_before v e now n jobs m).1 ≡ ok count
      → let m' = (mark_all_interrupted t stamp_before v e now n jobs m).0 in
        (m'.active ≡ m.active) × MarkedOrSame jobs m m' × OthersStay jobs m m'
  unfolding mark_all_interrupted mark_interrupted
  mark_all-rows v e now n count [] m h =
      (refl, (λ k r g. inr (g, λ j i. elim i [ ])), λ k others. refl)
  mark_all-rows v e now n count (job ∷ jobs) m h =
      let marked = mark_interrupted t stamp_before v e now job m in
      let rest = mark_all_interrupted t stamp_before v e now (suc n) jobs marked.0 in
      let (worked, same) = and_then-ok marked rest count h in
      let (active₁, step) =
        mark_interrupted-get v e now job m (t.set m.store job.id (interrupt_record now job)) refl
          worked in
      let (active₂, rows, frame) =
        mark_all-rows v e now (suc n) count jobs marked.0
          (ap (λ (p : Manager t × Outcome ℕ). p.1) (sym same) ∙ h) in
      subst
        (λ (p : Manager t × Outcome ℕ).
          (p.0.active ≡ m.active) × MarkedOrSame (job ∷ jobs) m p.0 × OthersStay (job ∷ jobs) m p.0)
        (sym same)
        (
          active₂ ∙ active₁,
          marked_cons now job jobs m marked.0 rest.0 step rows,
          λ k others.
              frame k (λ j i. others j (Memᴰ.tail i))
              ∙ ground (arith, step k, ne→==_false job.id k (others job (Memᴰ.head refl))),
        )
