-- ===== src/Jobs/Restart/Completing.antt =====
-- The loop of ReconcileCompletedSystemUpdateJobs (pkg/jobs.go): what each completion keeps and does.
use dogeboxd.Base.{
  ℕ, suc, String, ◌≡◌, refl, sym, ap, subst, Bool, true, some, List, [], ◌∷◌, ◌==◌, if◌then◌else◌,
  arith, eq_iff, inl, inr, Bool-cases, Memᴰ, text_cases, ◌⊎◌,
}
use dogeboxd.Store.{Table}
use dogeboxd.Jobs.Record.{JobRecord, completed, Outcome, ok, err, done, finish_record}
use dogeboxd.Jobs.Manager.{Manager, complete_job}
use dogeboxd.Jobs.Sweeps.{
  Runtime, append_job_recovery_log, and_then, reached_target, reconcile_note, reconcile_jobs,
}
use dogeboxd.Jobs.Coherence.{IsCoherent, IsCoherent-same, complete_job-IsCoherent}
use dogeboxd.Jobs.Effects.{complete_job-Retires}

module _ (t : Table JobRecord) (stamp_before : ℕ → ℕ → Bool) where
  pub and_then-ok :
      (p : Manager t × Outcome (Unit {0})) (q : Manager t × Outcome ℕ) (n : ℕ)
      → (and_then t stamp_before p q).1 ≡ ok n
      → (p.1 ≡ done) × (and_then t stamp_before p q ≡ q)
  and_then-ok (m, err x) q n h = cc
  and_then-ok (m, ok a) q n h = (refl, refl)

  -- A property that each completion of a reached job keeps is kept by the loop.
  pub reconcile_jobs-keeps :
      (P : Manager t → Type 0) (e : Runtime) (flake : String) (now count n : ℕ)
      (jobs : List JobRecord) (m : Manager t)
      → ((job : JobRecord) (m₁ : Manager t) (note : String)
          → Memᴰ job jobs
          → reached_target e flake job ≡ true
          → P m₁
          → (complete_job t now job.id "" m₁).1 ≡ done
          → P (
              append_job_recovery_log t stamp_before job.id note
                (complete_job t now job.id "" m₁).0))
      → P m
      → (reconcile_jobs t stamp_before e flake now n jobs m).1 ≡ ok count
      → P (reconcile_jobs t stamp_before e flake now n jobs m).0
  unfolding reconcile_jobs
  reconcile_jobs-keeps P e flake now count n [] m step p h = p
  reconcile_jobs-keeps P e flake now count n (job ∷ jobs) m step p h =
      elim (Bool-cases (reached_target e flake job)) [
        | inl reached ↦ rw reached (
            let p₁ = complete_job t now job.id "" m in
            let m₁ = append_job_recovery_log t stamp_before job.id (reconcile_note e job) p₁.0 in
            let rest = reconcile_jobs t stamp_before e flake now (suc n) jobs m₁ in
            let (worked, same) = and_then-ok p₁ rest count (rw reached at h) in
            rw same (
              reconcile_jobs-keeps P e flake now count (suc n) jobs m₁
                (λ j m₂ note i. step j m₂ note (Memᴰ.tail i))
                (step job m (reconcile_note e job) (Memᴰ.head refl) reached p worked)
                (rw same at (rw reached at h))))
        | inr not_yet ↦ rw not_yet (
            reconcile_jobs-keeps P e flake now count n jobs m
              (λ j m₁ note i. step j m₁ note (Memᴰ.tail i)) p (rw not_yet at h))
      ]

  pub complete_logged-IsCoherent :
      (now : ℕ) (k note : String) (m : Manager t)
      → IsCoherent t m
      → (complete_job t now k "" m).1 ≡ done
      → IsCoherent t (append_job_recovery_log t stamp_before k note (complete_job t now k "" m).0)
  unfolding append_job_recovery_log
  complete_logged-IsCoherent now k note m c h =
      let m₁ = (complete_job t now k "" m).0 in
      IsCoherent-same t m₁ (append_job_recovery_log t stamp_before k note m₁) refl refl
        (complete_job-IsCoherent t now k "" m c h)

  pub complete_logged-get :
      (now : ℕ) (k note : String) (m : Manager t)
      → IsCoherent t m
      → (complete_job t now k "" m).1 ≡ done
      → (r : JobRecord) × (t.get m.store k ≡ some r)
        × ((j : String)
            → t.get
                (append_job_recovery_log t stamp_before k note (complete_job t now k "" m).0).store
                j
              ≡ (if k == j then some (finish_record now "" r) else t.get m.store j))
  unfolding append_job_recovery_log
  complete_logged-get now k note m c h =
      let (r, g, f) = complete_job-Retires t now k "" m c h in (r, g, λ j. (f j).0)

  abbrev pub IsDone : String → Manager t → Type 0
  IsDone k m =
      IsCoherent t m × ((r : JobRecord) × (t.get m.store k ≡ some r) × (r.status ≡ completed))

  -- Completing any job keeps a completed job completed, and completes its own.
  pub complete_logged-IsDone :
      (now : ℕ) (k j note : String) (m : Manager t)
      → IsCoherent t m
      → ((j ≡ k) ⊎ IsDone k m)
      → (complete_job t now j "" m).1 ≡ done
      → IsDone k (append_job_recovery_log t stamp_before j note (complete_job t now j "" m).0)
  unfolding finish_record
  complete_logged-IsDone now k j note m c before h =
      let (r, g, f) = complete_logged-get now j note m c h in
      (
        complete_logged-IsCoherent now j note m c h,
        elim (text_cases j k) [
          | inl e ↦ (finish_record now "" r, ground (arith, f k, e, eq_iff j k), refl)
          | inr ne ↦ elim before [
            | inl e ↦ (finish_record now "" r, ground (arith, f k, e, eq_iff j k), refl)
            | inr (_, (r', g', d)) ↦ (r', ground (arith, f k, ne, g'), d)
          ]
        ],
      )

  pub reconcile_jobs-IsDone :
      (e : Runtime) (flake : String) (now count n : ℕ) (job : JobRecord) (jobs : List JobRecord)
      (m : Manager t)
      → IsCoherent t m
      → Memᴰ job jobs
      → reached_target e flake job ≡ true
      → (reconcile_jobs t stamp_before e flake now n jobs m).1 ≡ ok count
      → IsDone job.id (reconcile_jobs t stamp_before e flake now n jobs m).0
  unfolding reconcile_jobs
  reconcile_jobs-IsDone e flake now count n job [] m c i on h = elim i [ ]
  reconcile_jobs-IsDone e flake now count n job (x ∷ xs) m c (Memᴰ.head q) on h =
      let p₁ = complete_job t now x.id "" m in
      let note = reconcile_note e x in
      let m₁ = append_job_recovery_log t stamp_before x.id note p₁.0 in
      let rest = reconcile_jobs t stamp_before e flake now (suc n) xs m₁ in
      let reached = subst (λ (y : JobRecord). reached_target e flake y ≡ true) q on in
      let (worked, same) = and_then-ok p₁ rest count (rw reached at h) in
      let here =
        complete_logged-IsDone now job.id x.id note m c (inl (ap (λ (y : JobRecord). y.id) (sym q)))
          worked in
      rw (reached, same)
        (reconcile_jobs-keeps (IsDone job.id) e flake now count (suc n) xs m₁
          (λ j m₂ msg _ _ d. complete_logged-IsDone now job.id j.id msg m₂ d.0 (inr d)) here
          (rw same at (rw reached at h)))
  reconcile_jobs-IsDone e flake now count n job (x ∷ xs) m c (Memᴰ.tail i) on h =
      elim (Bool-cases (reached_target e flake x)) [
        | inl reached ↦
            let p₁ = complete_job t now x.id "" m in
            let note = reconcile_note e x in
            let m₁ = append_job_recovery_log t stamp_before x.id note p₁.0 in
            let rest = reconcile_jobs t stamp_before e flake now (suc n) xs m₁ in
            let (worked, same) = and_then-ok p₁ rest count (rw reached at h) in
            rw (reached, same)
              (reconcile_jobs-IsDone e flake now count (suc n) job xs m₁
                (complete_logged-IsCoherent now x.id note m c worked) i on
                (rw same at (rw reached at h)))
        | inr not_yet ↦
            rw not_yet (reconcile_jobs-IsDone e flake now count n job xs m c i on (rw not_yet at h))
      ]
