-- ===== src/Jobs/Restart/Reconciled.antt =====
-- ReconcileCompletedSystemUpdateJobs (pkg/jobs.go): which jobs it completes.
use dogeboxd.Base.{
  ℕ, String, ◌≡◌, ◌≢◌, refl, sym, subst, Bool, true, Option, none, some, List, arith, inl, inr,
  Option-cases, some_inj, ◌&&◌, ◌∙◌, ◌↔◌, text_cases, eq_iff, both_of, ne→==_false, not, ◌==◌,
}
use dogeboxd.Base.Text.{trim_space}
use dogeboxd.Store.{Table}
use dogeboxd.Jobs.Record.{JobRecord, completed, ok, is_active_status, is_interrupted_system_job}
use dogeboxd.Jobs.Manager.{Manager}
use dogeboxd.Jobs.Sweeps.{
  Runtime, resolve_target_version, get_active_jobs, active_query, reached_target, reconcile_jobs,
  reconcile_found, reconcile_completed_system_update_jobs,
}
use dogeboxd.Jobs.Coherence.{IsCoherent}
use dogeboxd.Jobs.Restart.Completing.{
  complete_logged-IsCoherent, complete_logged-get, reconcile_jobs-IsDone, reconcile_jobs-keeps,
}

module _ (t : Table JobRecord) (stamp_before : ℕ → ℕ → Bool) where
  -- The target of a system job is known, and is the running release and the installed version.
  abbrev pub IsReached : Runtime → String → JobRecord → Type 0
  IsReached e flake r =
      (is_interrupted_system_job r ≡ true)
      × (trim_space (resolve_target_version e r) ≢ "")
      × (trim_space e.current_release ≡ trim_space (resolve_target_version e r))
      × (flake ≡ trim_space (resolve_target_version e r))

  -- A job is due if it is queued or in progress and has reached its target.
  abbrev pub IsDue : Runtime → String → JobRecord → Type 0
  IsDue e flake r = (is_active_status r.status ≡ true) × IsReached e flake r

  reached_target-IsReached :
      (e : Runtime) (flake : String) (r : JobRecord)
      → (reached_target e flake r ≡ true) ↔ IsReached e flake r
  unfolding reached_target resolve_target_version
  reached_target-IsReached e flake r =
      let target = trim_space (resolve_target_version e r) in
      let release = trim_space e.current_release in
      (
        λ h.
            let sys_job = is_interrupted_system_job r in
            let (rest, installed) =
              both_of (sys_job && not (target == "") && release == target) (flake == target) h in
            let (known, running) =
              both_of (sys_job && not (target == "")) (release == target) rest in
            let (sys, set) = both_of sys_job (not (target == "")) known in
            (
              sys,
              (λ q. cc (set, (eq_iff target "").1 q)),
              (eq_iff release target).0 running,
              (eq_iff flake target).0 installed,
            ),
        λ (sys, set, running, installed).
            rw
              (
                sys,
                ne→==_false target "" set,
                (eq_iff release target).1 running,
                (eq_iff flake target).1 installed,
              )
              refl,
      )

  -- What the reconciliation promises of the state that it leaves.
  pub record Reconciles (e : Runtime) (flake : String) (m m' : Manager t) : Type 0 where
    pub coherent : IsCoherent t m'
    pub completes :
        (k : String) (r : JobRecord)
        → t.get m.store k ≡ some r
        → IsDue e flake r
        → (r' : JobRecord) × (t.get m'.store k ≡ some r') × (r'.status ≡ completed)
    pub keeps :
        (k : String) (r : JobRecord)
        → t.get m.store k ≡ some r
        → (IsDue e flake r → ⊥)
        → t.get m'.store k ≡ some r

  rows-Reconciles :
      (e : Runtime) (flake : String) (now n : ℕ) (rows : List JobRecord) (m : Manager t)
      → IsCoherent t m
      → t.select m.store (active_query t stamp_before) ≡ some rows
      → (reconcile_jobs t stamp_before e flake now 0 rows m).1 ≡ ok n
      → Reconciles e flake m (reconcile_jobs t stamp_before e flake now 0 rows m).0
  rows-Reconciles e flake now n rows m c sel h = record {
    coherent =
        reconcile_jobs-keeps t stamp_before (IsCoherent t) e flake now n 0 rows m
          (λ j m₁ msg _ _ c₁. complete_logged-IsCoherent t stamp_before now j.id msg m₁ c₁) c h;
    completes = λ k r g due.
        let i = t.select_complete m.store _ rows sel refl k r g due.0 in
        subst
          (λ x.
            (r' : JobRecord) × (t.get (reconcile_jobs t stamp_before e flake now 0 rows m).0.store x
              ≡ some r')
            × (r'.status ≡ completed))
          (c.keyed k r g)
          (reconcile_jobs-IsDone t stamp_before e flake now n 0 r rows m c i
            ((reached_target-IsReached e flake r).1 due.1) h).1;
    keeps = λ k r g off.
        (reconcile_jobs-keeps t stamp_before (λ m₁. IsCoherent t m₁ × (t.get m₁.store k ≡ some r)) e
          flake now n 0 rows m
          (λ j m₁ msg i on s w.
            let (x, _, f) = complete_logged-get t stamp_before now j.id msg m₁ s.0 w in
            let (kx, gx, act) = t.select_sound m.store _ rows sel j i in
            (
              complete_logged-IsCoherent t stamp_before now j.id msg m₁ s.0 w,
              elim (text_cases j.id k) [
                | inl same ↦
                    let at_k =
                      subst (λ y. t.get m.store y ≡ some j) (sym (c.keyed kx j gx) ∙ same) gx in
                    absurd (
                      off (
                        subst (IsDue e flake) (some_inj (sym at_k ∙ g))
                          (act, (reached_target-IsReached e flake j).0 on)))
                | inr ne ↦ ground (arith, f k, ne, s.1)
              ],
            ))
          (c, g) h).1;
  }

  found-Reconciles :
      (e : Runtime) (flake : String) (now n : ℕ) (m : Manager t)
      → IsCoherent t m
      → (o : Option String) → o ≡ some flake
      → (rows : Option (List JobRecord)) → t.select m.store (active_query t stamp_before) ≡ rows
      → (reconcile_found t stamp_before e now m o rows).1 ≡ ok n
      → Reconciles e (trim_space flake) m (reconcile_found t stamp_before e now m o rows).0
  found-Reconciles e flake now n m c none f rows sel h = cc
  found-Reconciles e flake now n m c (some x) f none sel h = cc
  found-Reconciles e flake now n m c (some x) f (some rows) sel h =
      subst
        (λ y.
          Reconciles e (trim_space y) m
            (reconcile_jobs t stamp_before e (trim_space x) now 0 rows m).0)
        (some_inj f) (rows-Reconciles e (trim_space x) now n rows m c sel h)

  -- From a coherent manager, with the installed flake's version known, a reconciliation that reports no
  -- error leaves a coherent manager in which every queued or running system job whose target is both
  -- the running release and the installed version is completed, and every other row is as before.
  pub reconcile_completed-Reconciles :
      (e : Runtime) (flake : String) (now n : ℕ) (m : Manager t)
      → IsCoherent t m
      → e.installed_flake_version ≡ some flake
      → (reconcile_completed_system_update_jobs t stamp_before e now m).1 ≡ ok n
      → Reconciles e
          (trim_space flake)
          m
          (reconcile_completed_system_update_jobs t stamp_before e now m).0
  unfolding reconcile_completed_system_update_jobs get_active_jobs
  reconcile_completed-Reconciles e flake now n m c f h =
      found-Reconciles e flake now n m c e.installed_flake_version f
        (t.select m.store (active_query t stamp_before)) refl h

  pub reconcile_completed-IsCoherent :
      (e : Runtime) (now n : ℕ) (m : Manager t)
      → IsCoherent t m
      → (reconcile_completed_system_update_jobs t stamp_before e now m).1 ≡ ok n
      → IsCoherent t (reconcile_completed_system_update_jobs t stamp_before e now m).0
  unfolding reconcile_completed_system_update_jobs
  reconcile_completed-IsCoherent e now n m c h = elim (Option-cases e.installed_flake_version) [
    | inl none_there ↦ cc (rw none_there at h)
    | inr (flake, f) ↦ (reconcile_completed-Reconciles e flake now n m c f h).coherent
  ]
