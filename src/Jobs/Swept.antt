-- ===== src/Jobs/Swept.antt =====
-- The sweeps over the table (ClearCompletedJobs, ClearAllJobs, ClearOrphanedJobs and
-- SyncWithActiveJobs of pkg/jobs.go) keep the coherence of the cache and the table.
use dogeboxd.Base.{
  ℕ, ◌-◌, String, ◌≡◌, refl, Bool, true, Option, none, some, List, [], ◌∷◌, ltb, arith, eq_iff, Map,
  Memᴰ, not, keep, inl, inr, put, Option-cases, sym, subst,
}
use dogeboxd.Store.{Table}
use dogeboxd.Jobs.Record.{JobRecord, ok, done, is_active_status}
use dogeboxd.Jobs.Manager.{Manager}
use dogeboxd.Jobs.Sweeps.{
  get_active_jobs, active_query, clear_completed_jobs, clear_all_jobs, clear_orphaned_jobs,
  sync_with_active_jobs, index_jobs, is_stuck, is_expired, swept, synced, fail_stuck,
}
use dogeboxd.Jobs.Coherence.{IsCoherent}

module _ (t : Table JobRecord) (stamp_before : ℕ → ℕ → Bool) where
  -- Every cached job is queued or in progress.
  pub record IsLive (m : Manager t) : Type 0 where
    pub running :
        (k : String) (r : JobRecord) → m.active k ≡ some r → is_active_status r.status ≡ true

  removed-IsCoherent :
      (cutoff n : ℕ) (m : Manager t)
      → IsCoherent t m
      → IsLive m
      → (o : Option (t.Db × ℕ)) → t.remove m.store (is_expired stamp_before cutoff) ≡ o
      → (swept t stamp_before m m.active o).1 ≡ ok n
      → IsCoherent t (swept t stamp_before m m.active o).0
  removed-IsCoherent cutoff n m c l none e h = cc
  removed-IsCoherent cutoff n m c l (some (db, x)) e h = record {
    keyed = λ k r g. ground (arith, t.get-remove m.store _ db x e k, c.keyed k r);
    cached =
        λ k r g. ground (arith, t.get-remove m.store _ db x e k, c.cached k r g, l.running k r g);
  }

  pub clear_completed_jobs-IsCoherent :
      (now older_than n : ℕ) (m : Manager t)
      → IsCoherent t m
      → IsLive m
      → (clear_completed_jobs t stamp_before now older_than m).1 ≡ ok n
      → IsCoherent t (clear_completed_jobs t stamp_before now older_than m).0
  unfolding clear_completed_jobs
  clear_completed_jobs-IsCoherent now older_than n m c l h =
      removed-IsCoherent (now - older_than) n m c l _ refl h

  all_removed-IsCoherent :
      (n : ℕ) (m : Manager t)
      → IsCoherent t m
      → (o : Option (t.Db × ℕ)) → t.remove m.store (λ r. true) ≡ o
      → (swept t stamp_before m (λ k. none) o).1 ≡ ok n
      → IsCoherent t (swept t stamp_before m (λ k. none) o).0
  all_removed-IsCoherent n m c none e h = cc
  all_removed-IsCoherent n m c (some (db, x)) e h = record {
    keyed = λ k r g. ground (arith, t.get-remove m.store _ db x e k, c.keyed k r);
    cached = λ k r g. cc;
  }

  pub clear_all_jobs-IsCoherent :
      (n : ℕ) (m : Manager t)
      → IsCoherent t m
      → (clear_all_jobs t stamp_before m).1 ≡ ok n
      → IsCoherent t (clear_all_jobs t stamp_before m).0
  unfolding clear_all_jobs
  clear_all_jobs-IsCoherent n m c h = all_removed-IsCoherent n m c _ refl h

  -- The texts of the starts of the cached jobs compare to that of a time as the times do.
  abbrev pub StampsAgree : ℕ → Manager t → Type 0
  StampsAgree cutoff m =
      (k : String) (r : JobRecord)
      → m.active k ≡ some r
      → stamp_before r.started cutoff ≡ ltb r.started cutoff

  failed-IsCoherent :
      (now cutoff n : ℕ) (m : Manager t)
      → StampsAgree cutoff m
      → IsCoherent t m
      → (o : Option (t.Db × ℕ))
      → t.update m.store (is_stuck stamp_before cutoff) (fail_stuck t stamp_before now) ≡ o
      → let kept = keep (λ r. not (is_stuck ltb cutoff r)) m.active in
        (swept t stamp_before m kept o).1 ≡ ok n → IsCoherent t (swept t stamp_before m kept o).0
  failed-IsCoherent now cutoff n m agree c none e h = cc
  failed-IsCoherent now cutoff n m agree c (some (db, x)) e h = record {
    keyed = λ k r g. elim (Option-cases (t.get m.store k)) [
      | inl q ↦ ground (arith, t.get-update m.store _ _ db x e k)
      | inr (a, q) ↦ ground (arith, t.get-update m.store _ _ db x e k, c.keyed k a)
    ];
    cached = λ k r g. ground (arith, t.get-update m.store _ _ db x e k, c.cached k r, agree k r);
  }

  pub clear_orphaned_jobs-IsCoherent :
      (now older_than n : ℕ) (m : Manager t)
      → StampsAgree (now - older_than) m
      → IsCoherent t m
      → (clear_orphaned_jobs t stamp_before now older_than m).1 ≡ ok n
      → IsCoherent t (clear_orphaned_jobs t stamp_before now older_than m).0
  unfolding clear_orphaned_jobs
  clear_orphaned_jobs-IsCoherent now older_than n m agree c h =
      failed-IsCoherent now (now - older_than) n m agree c _ refl h

  -- The index of rows that are stored under their ids reads only stored rows.
  index_jobs-stored :
      (d : t.Db) (acc : Map JobRecord) (rows : List JobRecord)
      → ((a : JobRecord) → Memᴰ a rows → t.get d a.id ≡ some a)
      → ((k : String) (r : JobRecord) → acc k ≡ some r → t.get d k ≡ some r)
      → (k : String) (r : JobRecord) → index_jobs t stamp_before acc rows k ≡ some r
      → t.get d k ≡ some r
  index_jobs-stored d acc [] rows_ok acc_ok k r h = acc_ok k r h
  index_jobs-stored d acc (x ∷ xs) rows_ok acc_ok k r h =
      index_jobs-stored d (put x.id x acc) xs (λ a i. rows_ok a (Memᴰ.tail i))
        (λ j a g. ground (arith, eq_iff x.id j, rows_ok x (Memᴰ.head refl), acc_ok j a)) k r h

  synced-IsCoherent :
      (m : Manager t)
      → IsCoherent t m
      → (o : Option (List JobRecord)) → t.select m.store (active_query t stamp_before) ≡ o
      → (synced t stamp_before m o).1 ≡ done
      → IsCoherent t (synced t stamp_before m o).0
  synced-IsCoherent m c none e h = cc
  synced-IsCoherent m c (some rows) e h = record {
    keyed = c.keyed;
    cached = index_jobs-stored m.store (λ k. none) rows stored (λ k r g. cc);
  }
    where
      stored : (a : JobRecord) → Memᴰ a rows → t.get m.store a.id ≡ some a
      stored a i =
          let (k, g, _) = t.select_sound m.store _ rows e a i in
          subst (λ j. t.get m.store j ≡ some a) (sym (c.keyed k a g)) g

  pub sync_with_active_jobs-IsCoherent :
      (m : Manager t)
      → IsCoherent t m
      → (sync_with_active_jobs t stamp_before m).1 ≡ done
      → IsCoherent t (sync_with_active_jobs t stamp_before m).0
  unfolding sync_with_active_jobs get_active_jobs
  sync_with_active_jobs-IsCoherent m c h = synced-IsCoherent m c _ refl h
