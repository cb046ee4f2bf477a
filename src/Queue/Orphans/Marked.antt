-- ===== src/Queue/Orphans/Marked.antt =====
-- The orphan scan as a whole (DetectAndMarkOrphanedJobs of pkg/dogeboxd.go).
use dogeboxd.Base.{
  ℕ, String, ◌≡◌, ◌≢◌, refl, sym, subst, Bool, true, false, Option, none, some, List, [], ◌∷◌, ◌&&◌,
  not, arith, eq_iff, ◌⊎◌, inl, inr, Bool-cases, ◌∙◌, Memᴰ, text_cases, contains, some_inj,
}
use dogeboxd.Store.{Table}
use dogeboxd.Jobs.Record.{JobRecord, done, orphaned, is_active_status}
use dogeboxd.Jobs.Manager.{Manager, mark_job_orphaned}
use dogeboxd.Jobs.Sweeps.{get_active_jobs, active_query}
use dogeboxd.Jobs.Coherence.{IsCoherent, mark_job_orphaned-IsCoherent}
use dogeboxd.Queue.State.{SyncQueue, get_runtime_job_ids}
use dogeboxd.Queue.Orphans.{mark_missing, scan_rows, detect_and_mark_orphaned_jobs}
use dogeboxd.Queue.Orphans.Scan.{
  next_scan-ok, mark_missing-keeps, IsOrphan, marked-IsOrphan, marks-IsOrphan, untouched,
}

module _ (t : Table JobRecord) (stamp_before : ℕ → ℕ → Bool) where
  -- The row of `k` is still `r`, or is an orphan.
  abbrev IsPending : String → JobRecord → Manager t → Type 0
  IsPending k r m = (IsCoherent t m × (t.get m.store k ≡ some r)) ⊎ IsOrphan t stamp_before k m

  marked-IsPending :
      (now : ℕ) (k j : String) (r : JobRecord) (m : Manager t)
      → is_active_status r.status ≡ true
      → IsPending k r m
      → (mark_job_orphaned t now j m).1 ≡ done
      → IsPending k r (mark_job_orphaned t now j m).0
  marked-IsPending now k j r m a (inr o) h = inr (marked-IsOrphan t stamp_before now k j m o h)
  marked-IsPending now k j r m a (inl p) h = elim (text_cases j k) [
    | inl e ↦ inr (
        subst (λ x. IsOrphan t stamp_before x (mark_job_orphaned t now j m).0) e
          (marks-IsOrphan t stamp_before now j m r p.0
            (subst (λ x. t.get m.store x ≡ some r) (sym e) p.1) a h))
    | inr ne ↦ inl (untouched t stamp_before now k j m r p (λ e. cc (ne, (eq_iff j k).1 e)) h)
  ]

  marks_now :
      (now : ℕ) (r : JobRecord) (m : Manager t)
      → is_active_status r.status ≡ true
      → IsPending r.id r m
      → (mark_job_orphaned t now r.id m).1 ≡ done
      → IsOrphan t stamp_before r.id (mark_job_orphaned t now r.id m).0
  marks_now now r m a (inr o) h = marked-IsOrphan t stamp_before now r.id r.id m o h
  marks_now now r m a (inl (c, g)) h = marks-IsOrphan t stamp_before now r.id m r c g a h

  mark_missing-IsOrphan :
      (now : ℕ) (runtime : List String) (r : JobRecord) (jobs : List JobRecord) (m : Manager t)
      → Memᴰ r jobs
      → is_active_status r.status ≡ true
      → contains runtime r.id ≡ false
      → IsPending r.id r m
      → (mark_missing t stamp_before now runtime jobs m).1.1 ≡ none
      → IsOrphan t stamp_before r.id (mark_missing t stamp_before now runtime jobs m).0
  unfolding mark_missing
  mark_missing-IsOrphan now runtime r [] m i a away p h = elim i [ ]
  mark_missing-IsOrphan now runtime r (job ∷ jobs) m (Memᴰ.head q) a away p h =
      let missing = subst (λ (x : JobRecord). contains runtime x.id ≡ false) q away in
      let p₁ = mark_job_orphaned t now job.id m in
      let rest = mark_missing t stamp_before now runtime jobs p₁.0 in
      let (worked, fine, same) = next_scan-ok t stamp_before job.id p₁ rest (rw missing at h) in
      rw (missing, same)
        (mark_missing-keeps t stamp_before (IsOrphan t stamp_before r.id) now runtime jobs p₁.0
          (λ j m₁ _ _ o w. marked-IsOrphan t stamp_before now r.id j.id m₁ o w)
          (subst
            (λ (x : JobRecord). IsOrphan t stamp_before r.id (mark_job_orphaned t now x.id m).0) q
            (marks_now now r m a p (
              subst (λ (x : JobRecord). (mark_job_orphaned t now x.id m).1 ≡ done) (sym q) worked)))
          fine)
  mark_missing-IsOrphan now runtime r (job ∷ jobs) m (Memᴰ.tail i) a away p h =
      elim (Bool-cases (contains runtime job.id)) [
        | inl known ↦
            rw known (mark_missing-IsOrphan now runtime r jobs m i a away p (rw known at h))
        | inr missing ↦
            let p₁ = mark_job_orphaned t now job.id m in
            let rest = mark_missing t stamp_before now runtime jobs p₁.0 in
            let (worked, fine, same) =
              next_scan-ok t stamp_before job.id p₁ rest (rw missing at h) in
            rw (missing, same)
              (mark_missing-IsOrphan now runtime r jobs p₁.0 i a away
                (marked-IsPending now r.id job.id r m a p worked) fine)
      ]

  -- A job is missing if it is stored as queued or in progress and no part of the queue knows its id.
  abbrev pub is_missing : List String → JobRecord → Bool
  is_missing runtime r = is_active_status r.status && not (contains runtime r.id)

  -- What the scan promises of the state that it leaves.
  pub record Orphans (runtime : List String) (m m' : Manager t) : Type 0 where
    pub coherent : IsCoherent t m'
    pub marks :
        (k : String) (r : JobRecord)
        → t.get m.store k ≡ some r
        → is_missing runtime r ≡ true
        → (r' : JobRecord) × (t.get m'.store k ≡ some r') × (r'.status ≡ orphaned)
    pub keeps :
        (k : String) (r : JobRecord)
        → t.get m.store k ≡ some r
        → is_missing runtime r ≡ false
        → t.get m'.store k ≡ some r

  kept_apart :
      (runtime : List String) (m : Manager t) (rows : List JobRecord) (k : String) (r j : JobRecord)
      → IsCoherent t m
      → t.select m.store (active_query t stamp_before) ≡ some rows
      → t.get m.store k ≡ some r
      → is_missing runtime r ≡ false
      → Memᴰ j rows
      → contains runtime j.id ≡ false
      → j.id ≢ k
  kept_apart runtime m rows k r j c sel g off i away e =
      let (kj, gj, act) = t.select_sound m.store _ rows sel j i in
      let at_k = subst (λ x. t.get m.store x ≡ some j) (sym (c.keyed kj j gj) ∙ e) gj in
      let off' : is_missing runtime j ≡ false =
        subst (λ (x : JobRecord). is_missing runtime x ≡ false) (some_inj (sym g ∙ at_k)) off in
      ground (arith, act, away, off')

  rows-Orphans :
      (now : ℕ) (runtime : List String) (rows : List JobRecord) (m : Manager t)
      → IsCoherent t m
      → t.select m.store (active_query t stamp_before) ≡ some rows
      → (mark_missing t stamp_before now runtime rows m).1.1 ≡ none
      → Orphans runtime m (mark_missing t stamp_before now runtime rows m).0
  rows-Orphans now runtime rows m c sel h = record {
    coherent =
        mark_missing-keeps t stamp_before (IsCoherent t) now runtime rows m
          (λ j m₁ _ _ c₁. mark_job_orphaned-IsCoherent t now j.id m₁ c₁) c h;
    marks = λ k r g on.
        let i = t.select_complete m.store _ rows sel refl k r g (ground arith) in
        let e = c.keyed k r g in
        subst
          (λ x.
            (r' : JobRecord) × (t.get (mark_missing t stamp_before now runtime rows m).0.store x
              ≡ some r')
            × (r'.status ≡ orphaned))
          e
          (mark_missing-IsOrphan now runtime r rows m i (ground arith) (ground arith)
            (inl (c, subst (λ x. t.get m.store x ≡ some r) (sym e) g)) h).1;
    keeps = λ k r g off.
        (mark_missing-keeps t stamp_before (λ m₁. IsCoherent t m₁ × (t.get m₁.store k ≡ some r)) now
          runtime rows m
          (λ j m₁ i away s.
            untouched t stamp_before now k j.id m₁ r s
              (kept_apart runtime m rows k r j c sel g off i away))
          (c, g) h).1;
  }

  scanned-Orphans :
      (now : ℕ) (runtime : List String) (m : Manager t)
      → IsCoherent t m
      → (rows : Option (List JobRecord)) → t.select m.store (active_query t stamp_before) ≡ rows
      → (scan_rows t stamp_before now runtime rows m).1.1 ≡ none
      → Orphans runtime m (scan_rows t stamp_before now runtime rows m).0
  scanned-Orphans now runtime m c none sel h = cc
  scanned-Orphans now runtime m c (some rows) sel h = rows-Orphans now runtime rows m c sel h

  -- From a coherent manager, an orphan scan that reports no error leaves a coherent manager in which
  -- every queued or running job whose id is not the current system job's, not queued and not marked as
  -- active is orphaned, and every other row is as before.
  pub detect_and_mark-Orphans :
      (now : ℕ) (q : SyncQueue) (m : Manager t)
      → IsCoherent t m
      → (detect_and_mark_orphaned_jobs t stamp_before now q m).1.1 ≡ none
      → Orphans (get_runtime_job_ids q) m (detect_and_mark_orphaned_jobs t stamp_before now q m).0
  unfolding detect_and_mark_orphaned_jobs get_active_jobs
  detect_and_mark-Orphans now q m c h =
      scanned-Orphans now (get_runtime_job_ids q) m c
        (t.select m.store (active_query t stamp_before)) refl h
