-- ===== src/Jobs/Restart/Interrupted.antt =====
-- ClearInterruptedSystemJobs as a whole (pkg/jobs.go).
use dogeboxd.Base.{
  ℕ, String, ◌≡◌, ◌≢◌, refl, sym, subst, Bool, true, false, Option, none, some, List, ◌&&◌, not,
  arith, inl, inr, Option-cases, Bool-cases, Map, ◌∙◌, Memᴰ, filter, Mem-filter, filter-Mem, keep,
}
use dogeboxd.Semver.{Semver}
use dogeboxd.Store.{Table}
use dogeboxd.Jobs.Record.{JobRecord, Outcome, ok, err, is_active_status, is_interrupted_system_job}
use dogeboxd.Jobs.Manager.{Manager}
use dogeboxd.Jobs.Sweeps.{
  Runtime, get_active_jobs, active_query, mark_all_interrupted, forget_system_jobs, clear_found,
  clear_interrupted_system_jobs,
}
use dogeboxd.Jobs.Coherence.{IsCoherent}
use dogeboxd.Jobs.Restart.Marking.{mark_all-rows, MarkedOrSame, OthersStay}

abbrev pub is_running_system_job : JobRecord → Bool
is_running_system_job r = is_active_status r.status && is_interrupted_system_job r

module _ (t : Table JobRecord) (stamp_before : ℕ → ℕ → Bool) where
  -- What the sweep promises of the state that it leaves.
  pub record Settles (m m' : Manager t) : Type 0 where
    pub coherent : IsCoherent t m'
    pub settled :
        (k : String) (r : JobRecord) → t.get m'.store k ≡ some r → is_running_system_job r ≡ false
    pub kept :
        (k : String) (r : JobRecord)
        → t.get m.store k ≡ some r
        → is_running_system_job r ≡ false
        → t.get m'.store k ≡ some r

  -- The listed rows are the running system jobs that are stored.
  abbrev IsListing : Manager t → List JobRecord → Type 0
  IsListing m jobs =
      ((j : JobRecord)
        → Memᴰ j jobs
        → (t.get m.store j.id ≡ some j) × (is_running_system_job j ≡ true))
      × ((k : String) (r : JobRecord)
          → t.get m.store k ≡ some r
          → is_running_system_job r ≡ true
          → Memᴰ r jobs)

  -- No running system job but a listed one has a listed id.
  unlisted :
      (m : Manager t) (jobs : List JobRecord)
      → IsListing m jobs
      → (k : String) (r : JobRecord) → t.get m.store k ≡ some r
      → is_running_system_job r ≡ false
      → (j : JobRecord) → Memᴰ j jobs
      → j.id ≢ k
  unlisted m jobs (sound, complete) k r g off j i e =
      let (gj, on) = sound j i in cc (e, g, gj, on, off)

  keep-some :
      (p : JobRecord → Bool) (f : Map JobRecord) (k : String) (r : JobRecord)
      → keep p f k ≡ some r
      → (f k ≡ some r) × (p r ≡ true)
  keep-some p f k r h = elim (Option-cases (f k)) [
    | inl e ↦ cc (rw e at h)
    | inr (a, e) ↦ ground (arith, e)
  ]

  marked-Settles :
      (m m' : Manager t) (jobs : List JobRecord)
      → IsCoherent t m
      → IsListing m jobs
      → m'.active ≡ m.active
      → MarkedOrSame t stamp_before jobs m m'
      → OthersStay t stamp_before jobs m m'
      → Settles m (record m' { active = keep (λ r. not (is_running_system_job r)) m'.active })
  marked-Settles m m' jobs c listing same rows frame = record {
    coherent = record {
      keyed = λ k r g. elim (rows k r g) [ inl marked ↦ marked.1 | inr (g₀, _) ↦ c.keyed k r g₀ ];
      cached = λ k r g.
          let (a, off) = keep-some (λ r. not (is_running_system_job r)) m'.active k r g in
          let g₀ = c.cached k r (subst (λ (f : Map JobRecord). f k ≡ some r) same a) in
          frame k (unlisted m jobs listing k r g₀ (ground arith)) ∙ g₀;
    };
    settled = λ k r g. elim (rows k r g) [
      | inl marked ↦ ground arith
      | inr (g₀, others) ↦ elim (Bool-cases (is_running_system_job r)) [
        | inl on ↦ absurd (others r (listing.1 k r g₀ on) (c.keyed k r g₀))
        | inr off ↦ off
      ]
    ];
    kept = λ k r g off. frame k (unlisted m jobs listing k r g off) ∙ g;
  }

  filter-IsListing :
      (m : Manager t) (rows : List JobRecord)
      → IsCoherent t m
      → t.select m.store (active_query t stamp_before) ≡ some rows
      → IsListing m (filter is_interrupted_system_job rows)
  filter-IsListing m rows c e = (
    (λ j i.
        let (i', sys) = Mem-filter is_interrupted_system_job j rows i in
        let (k, g, on) = t.select_sound m.store _ rows e j i' in
        (subst (λ x. t.get m.store x ≡ some j) (sym (c.keyed k j g)) g, ground arith)),
    λ k r g on.
        filter-Mem is_interrupted_system_job r rows
          (t.select_complete m.store _ rows e refl k r g (ground arith)) (ground arith),
  )

  forgotten-Settles :
      (m : Manager t) (jobs : List JobRecord) (n : ℕ)
      → IsCoherent t m
      → IsListing m jobs
      → (p : Manager t × Outcome ℕ) → p.0.active ≡ m.active
      → MarkedOrSame t stamp_before jobs m p.0
      → OthersStay t stamp_before jobs m p.0
      → (forget_system_jobs t stamp_before p).1 ≡ ok n
      → Settles m (forget_system_jobs t stamp_before p).0
  forgotten-Settles m jobs n c listing (m', err x) same rows frame h = cc
  forgotten-Settles m jobs n c listing (m', ok x) same rows frame h =
      marked-Settles m m' jobs c listing same rows frame

  forgotten-ok :
      (p : Manager t × Outcome ℕ) (n : ℕ)
      → (forget_system_jobs t stamp_before p).1 ≡ ok n
      → p.1 ≡ ok n
  forgotten-ok (m, err x) n h = cc
  forgotten-ok (m, ok x) n h = h

  cleared-Settles :
      (v : Semver) (e : Runtime) (now n : ℕ) (m : Manager t)
      → IsCoherent t m
      → (o : Option (List JobRecord)) → t.select m.store (active_query t stamp_before) ≡ o
      → (clear_found t stamp_before v e now m o).1 ≡ ok n
      → Settles m (clear_found t stamp_before v e now m o).0
  cleared-Settles v e now n m c none s h = cc
  cleared-Settles v e now n m c (some rows) s h =
      let jobs = filter is_interrupted_system_job rows in
      let p = mark_all_interrupted t stamp_before v e now 0 jobs m in
      let (same, marked, frame) =
        mark_all-rows t stamp_before v e now 0 n jobs m (forgotten-ok p n h) in
      forgotten-Settles m jobs n c (filter-IsListing m rows c s) p same marked frame h

  -- From a coherent manager, a `ClearInterruptedSystemJobs` that reports no error leaves it coherent,
  -- leaves no stored system job queued or in progress, and keeps the row of every job that is not a
  -- system job or is not queued or in progress.
  pub clear_interrupted_system_jobs-Settles :
      (v : Semver) (e : Runtime) (now n : ℕ) (m : Manager t)
      → IsCoherent t m
      → (clear_interrupted_system_jobs t stamp_before v e now m).1 ≡ ok n
      → Settles m (clear_interrupted_system_jobs t stamp_before v e now m).0
  unfolding clear_interrupted_system_jobs get_active_jobs
  clear_interrupted_system_jobs-Settles v e now n m c h =
      cleared-Settles v e now n m c (t.select m.store (active_query t stamp_before)) refl h
