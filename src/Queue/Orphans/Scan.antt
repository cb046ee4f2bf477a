-- ===== src/Queue/Orphans/Scan.antt =====
-- What the orphan scan marks and what it leaves (DetectAndMarkOrphanedJobs of pkg/dogeboxd.go).
use dogeboxd.Base.{
  ℕ, String, ◌≡◌, ◌≢◌, refl, sym, subst, Bool, true, false, none, some, List, [], ◌∷◌, arith,
  eq_iff, eq_refl, inl, inr, Bool-cases, ◌∙◌, Memᴰ, text_cases, contains, some_inj,
}
use dogeboxd.Store.{Table}
use dogeboxd.Jobs.Record.{
  JobRecord, Outcome, ok, err, done, orphaned, is_active_status, orphan_record,
}
use dogeboxd.Jobs.Manager.{Manager, mark_job_orphaned}
use dogeboxd.Jobs.Coherence.{IsCoherent, mark_job_orphaned-IsCoherent}
use dogeboxd.Jobs.Effects.{mark_job_orphaned-cases}
use dogeboxd.Queue.Orphans.{Scan, next_scan, mark_missing}

module _ (t : Table JobRecord) (stamp_before : ℕ → ℕ → Bool) where
  pub next_scan-ok :
      (id : String) (p : Manager t × Outcome (Unit {0})) (rest : Manager t × Scan)
      → (next_scan t stamp_before id p rest).1.1 ≡ none
      → (p.1 ≡ done) × (rest.1.1 ≡ none) × ((next_scan t stamp_before id p rest).0 ≡ rest.0)
  next_scan-ok id (m, err e) rest h = cc
  next_scan-ok id (m, ok a) (m', (ids, e)) h = (refl, h, refl)

  -- A property that each marking keeps is kept by the loop.
  pub mark_missing-keeps :
      (Q : Manager t → Type 0) (now : ℕ) (runtime : List String) (jobs : List JobRecord)
      (m : Manager t)
      → ((job : JobRecord) (m₁ : Manager t)
          → Memᴰ job jobs
          → contains runtime job.id ≡ false
          → Q m₁
          → (mark_job_orphaned t now job.id m₁).1 ≡ done
          → Q (mark_job_orphaned t now job.id m₁).0)
      → Q m
      → (mark_missing t stamp_before now runtime jobs m).1.1 ≡ none
      → Q (mark_missing t stamp_before now runtime jobs m).0
  unfolding mark_missing
  mark_missing-keeps Q now runtime [] m step q h = q
  mark_missing-keeps Q now runtime (job ∷ jobs) m step q h =
      elim (Bool-cases (contains runtime job.id)) [
        | inl known ↦ rw known (
            mark_missing-keeps Q now runtime jobs m (λ j m₁ i. step j m₁ (Memᴰ.tail i)) q
              (rw known at h))
        | inr missing ↦
            let p₁ = mark_job_orphaned t now job.id m in
            let rest = mark_missing t stamp_before now runtime jobs p₁.0 in
            let (worked, fine, same) = next_scan-ok job.id p₁ rest (rw missing at h) in
            rw (missing, same)
              (mark_missing-keeps Q now runtime jobs p₁.0 (λ j m₁ i. step j m₁ (Memᴰ.tail i))
                (step job m (Memᴰ.head refl) missing q worked) fine)
      ]

  abbrev pub IsOrphan : String → Manager t → Type 0
  IsOrphan k m =
      IsCoherent t m × ((r : JobRecord) × (t.get m.store k ≡ some r) × (r.status ≡ orphaned))

  -- Marking keeps an orphan an orphan.
  pub marked-IsOrphan :
      (now : ℕ) (k j : String) (m : Manager t)
      → IsOrphan k m
      → (mark_job_orphaned t now j m).1 ≡ done
      → IsOrphan k (mark_job_orphaned t now j m).0
  unfolding orphan_record
  marked-IsOrphan now k j m (c, (r, g, o)) h =
      let (x, gx, on, off) = mark_job_orphaned-cases t now j m c h in
      (
        mark_job_orphaned-IsCoherent t now j m c h,
        elim (Bool-cases (is_active_status x.status)) [
          | inl a ↦ elim (text_cases j k) [
            | inl e ↦ (orphan_record now x, ground (arith, on a k, e, eq_iff j k), refl)
            | inr ne ↦ (r, ground (arith, on a k, ne, g), o)
          ]
          | inr a ↦ (r, subst (λ (y : Manager t). t.get y.store k ≡ some r) (sym (off a)) g, o)
        ],
      )

  -- Marking an active job makes it an orphan.
  pub marks-IsOrphan :
      (now : ℕ) (k : String) (m : Manager t) (r : JobRecord)
      → IsCoherent t m
      → t.get m.store k ≡ some r
      → is_active_status r.status ≡ true
      → (mark_job_orphaned t now k m).1 ≡ done
      → IsOrphan k (mark_job_orphaned t now k m).0
  unfolding orphan_record
  marks-IsOrphan now k m r c g a h =
      let (x, gx, on, off) = mark_job_orphaned-cases t now k m c h in
      let a' : is_active_status x.status ≡ true =
        subst (λ (y : JobRecord). is_active_status y.status ≡ true) (some_inj (sym g ∙ gx)) a in
      (
        mark_job_orphaned-IsCoherent t now k m c h,
        (orphan_record now x, ground (arith, on a' k, eq_refl k), refl),
      )

  -- A row that is known at run time, or not active, is untouched by a marking of another job.
  pub untouched :
      (now : ℕ) (k j : String) (m : Manager t) (r : JobRecord)
      → IsCoherent t m × (t.get m.store k ≡ some r)
      → j ≢ k
      → (mark_job_orphaned t now j m).1 ≡ done
      → IsCoherent t (mark_job_orphaned t now j m).0
        × (t.get (mark_job_orphaned t now j m).0.store k ≡ some r)
  untouched now k j m r (c, g) ne h =
      let (x, gx, on, off) = mark_job_orphaned-cases t now j m c h in
      (
        mark_job_orphaned-IsCoherent t now j m c h,
        elim (Bool-cases (is_active_status x.status)) [
          | inl a ↦ ground (arith, on a k, eq_iff j k, g)
          | inr a ↦ subst (λ (y : Manager t). t.get y.store k ≡ some r) (sym (off a)) g
        ],
      )
