-- ===== src/Jobs/Coherence.antt =====
-- The invariant of the job manager: the table is keyed by job id, and the cache of active jobs
-- agrees with the table. An operation that reports no error keeps it.
use dogeboxd.Base.{
  ℕ, String, ◌≡◌, refl, sym, Bool, true, false, Option, none, some, if◌then◌else◌, put, delete,
  arith, eq_iff, subst, Map, ◌∙◌,
}
use dogeboxd.Store.{Table}
use dogeboxd.Action.{Job}
use dogeboxd.Jobs.Record.{
  JobRecord, ActionProgress, Change, Outcome, ok, done, job_orphaned, apply_progress, finish_record,
  orphan_record, is_active_status,
}
use dogeboxd.Jobs.Display.{Lookup}
use dogeboxd.Jobs.Manager.{
  Manager, created, persist, written, change_found, retired, send, completion, complete_found,
  orphan_found, find_record, change_cached, create_job_record, update_job_pup_id,
  update_job_progress, retire, complete_job, mark_job_orphaned, delete_job, new_record,
}

module _ (t : Table JobRecord) where
  pub record IsCoherent (m : Manager t) : Type 0 where
    pub keyed : (k : String) (r : JobRecord) → t.get m.store k ≡ some r → r.id ≡ k
    pub cached : (k : String) (r : JobRecord) → m.active k ≡ some r → t.get m.store k ≡ some r

  pub finish-id : (now : ℕ) (error : String) (r : JobRecord) → (finish_record now error r).id ≡ r.id
  unfolding finish_record
  finish-id now error r = ground arith

  -- A found record is the stored one, so it carries the id that it was looked up by.
  pub find-id :
      (m : Manager t) (k : String) (r : JobRecord)
      → IsCoherent m
      → find_record t k m ≡ some r
      → (t.get m.store k ≡ some r) × (r.id ≡ k)
  unfolding find_record
  find-id m k r c h = ground (arith, c.cached k r, c.keyed k r)

  -- The write of a record that is also put in the cache.
  put_both-IsCoherent :
      (m : Manager t) (k : String) (r : JobRecord) (db : t.Db)
      → IsCoherent m
      → r.id ≡ k
      → t.set m.store r.id r ≡ some db
      → IsCoherent (record m { store = db; active = put k r m.active })
  put_both-IsCoherent m k r db c i s = record {
    keyed = λ j a h. ground (arith, t.get-set m.store r.id r db s j, c.keyed j a, eq_iff r.id j);
    cached = λ j a h. ground (arith, i, t.get-set m.store r.id r db s j, c.cached j a);
  }

  delete_both-IsCoherent :
      (m : Manager t) (k : String) (r : JobRecord) (db : t.Db)
      → IsCoherent m
      → r.id ≡ k
      → t.set m.store r.id r ≡ some db
      → IsCoherent (record m { store = db; active = delete k m.active })
  delete_both-IsCoherent m k r db c i s = record {
    keyed = λ j a h. ground (arith, t.get-set m.store r.id r db s j, c.keyed j a, eq_iff r.id j);
    cached = λ j a h. ground (arith, i, t.get-set m.store r.id r db s j, c.cached j a);
  }

  -- The invariant reads only the table and the cache.
  pub IsCoherent-same :
      (m n : Manager t) → n.store ≡ m.store → n.active ≡ m.active → IsCoherent m → IsCoherent n
  IsCoherent-same m n s a c = record {
    keyed = λ j r h. c.keyed j r (subst (λ d. t.get d j ≡ some r) s h);
    cached = λ j r h.
        subst (λ d. t.get d j ≡ some r) (sym s)
          (c.cached j r (subst (λ (f : Map JobRecord). f j ≡ some r) a h));
  }

  persist-IsCoherent :
      (k : String) (r : JobRecord) (m : Manager t)
      → IsCoherent m
      → r.id ≡ k
      → (o : Option t.Db) → t.set m.store r.id r ≡ o
      → let m' = record m { active = put k r m.active } in
        (written {0} t m' tt o).1 ≡ done → IsCoherent (written {0} t m' tt o).0
  persist-IsCoherent k r m c i none s h = cc
  persist-IsCoherent k r m c i (some db) s h = put_both-IsCoherent m k r db c i s

  change_found-IsCoherent :
      (k : String) (f : JobRecord → JobRecord) (m : Manager t)
      → ((r : JobRecord) → (f r).id ≡ r.id)
      → IsCoherent m
      → (o : Option JobRecord) → find_record t k m ≡ o
      → (change_found t k f m o).1 ≡ done
      → IsCoherent (change_found t k f m o).0
  unfolding persist
  change_found-IsCoherent k f m same c none e h = cc
  change_found-IsCoherent k f m same c (some r) e h =
      persist-IsCoherent k (f r) m c (same r ∙ (find-id m k r c e).1) (t.set m.store (f r).id (f r))
        refl h

  pub update_job_pup_id-IsCoherent :
      (k pup : String) (m : Manager t)
      → IsCoherent m
      → (update_job_pup_id t k pup m).1 ≡ done
      → IsCoherent (update_job_pup_id t k pup m).0
  unfolding update_job_pup_id change_cached
  update_job_pup_id-IsCoherent k pup m c h =
      change_found-IsCoherent k (λ r. record r { pup_id = pup }) m (λ r. refl) c (find_record t k m)
        refl h

  pub update_job_progress-IsCoherent :
      (ap : ActionProgress) (m : Manager t)
      → IsCoherent m
      → (update_job_progress t ap m).1 ≡ done
      → IsCoherent (update_job_progress t ap m).0
  unfolding update_job_progress change_cached apply_progress
  update_job_progress-IsCoherent ap m c h =
      change_found-IsCoherent ap.action_id (apply_progress ap) m (λ r. refl) c
        (find_record t ap.action_id m) refl h

  send-IsCoherent : (ch : Change) (m : Manager t) → IsCoherent m → IsCoherent (send t ch m)
  send-IsCoherent ch m c = IsCoherent-same m (send t ch m) refl refl c

  retired-IsCoherent :
      (ch : Change) (k : String) (r : JobRecord) (m : Manager t)
      → IsCoherent m
      → r.id ≡ k
      → (o : Option t.Db) → t.set m.store r.id r ≡ o
      → let m' = record m { active = delete k m.active } in
        (retired t ch m' o).1 ≡ done → IsCoherent (retired t ch m' o).0
  retired-IsCoherent ch k r m c i none s h = cc
  retired-IsCoherent ch k r m c i (some db) s h =
      send-IsCoherent ch (record m { store = db; active = delete k m.active })
        (delete_both-IsCoherent m k r db c i s)

  complete_found-IsCoherent :
      (now : ℕ) (k error : String) (m : Manager t)
      → IsCoherent m
      → (o : Option JobRecord) → find_record t k m ≡ o
      → (complete_found t now k error m o).1 ≡ done
      → IsCoherent (complete_found t now k error m o).0
  unfolding retire
  complete_found-IsCoherent now k error m c none e h = cc
  complete_found-IsCoherent now k error m c (some r) e h =
      let r' = finish_record now error r in
      retired-IsCoherent (completion t error r') k r' m c
        (finish-id now error r ∙ (find-id m k r c e).1) (t.set m.store r'.id r') refl h

  pub complete_job-IsCoherent :
      (now : ℕ) (k error : String) (m : Manager t)
      → IsCoherent m
      → (complete_job t now k error m).1 ≡ done
      → IsCoherent (complete_job t now k error m).0
  unfolding complete_job
  complete_job-IsCoherent now k error m c h =
      complete_found-IsCoherent now k error m c (find_record t k m) refl h

  if-IsCoherent :
      (b : Bool) (p q : Manager t × Outcome (Unit {0}))
      → (p.1 ≡ done → IsCoherent p.0)
      → (q.1 ≡ done → IsCoherent q.0)
      → (if b then p else q).1 ≡ done
      → IsCoherent (if b then p else q).0
  if-IsCoherent true p q f g h = f h
  if-IsCoherent false p q f g h = g h

  orphan_found-IsCoherent :
      (now : ℕ) (k : String) (m : Manager t)
      → IsCoherent m
      → (o : Option JobRecord) → find_record t k m ≡ o
      → (orphan_found t now k m o).1 ≡ done
      → IsCoherent (orphan_found t now k m o).0
  unfolding retire orphan_record
  orphan_found-IsCoherent now k m c none e h = cc
  orphan_found-IsCoherent now k m c (some r) e h =
      let r' = orphan_record now r in
      if-IsCoherent (is_active_status r.status) (retire t k r' (job_orphaned r') m) (m, ok tt)
        (retired-IsCoherent (job_orphaned r') k r' m c (find-id m k r c e).1
          (t.set m.store r'.id r') refl)
        (λ _. c) h

  pub mark_job_orphaned-IsCoherent :
      (now : ℕ) (k : String) (m : Manager t)
      → IsCoherent m
      → (mark_job_orphaned t now k m).1 ≡ done
      → IsCoherent (mark_job_orphaned t now k m).0
  unfolding mark_job_orphaned
  mark_job_orphaned-IsCoherent now k m c h =
      orphan_found-IsCoherent now k m c (find_record t k m) refl h

  deleted-IsCoherent :
      (k : String) (m : Manager t)
      → IsCoherent m
      → (o : Option t.Db) → t.del m.store k ≡ o
      → let m' = record m { active = delete k m.active } in
        (written {0} t m' tt o).1 ≡ done → IsCoherent (written {0} t m' tt o).0
  deleted-IsCoherent k m c none s h = cc
  deleted-IsCoherent k m c (some db) s h = record {
    keyed = λ j a x. ground (arith, t.get-del m.store k db s j, c.keyed j a);
    cached = λ j a x. ground (arith, t.get-del m.store k db s j, c.cached j a);
  }

  pub delete_job-IsCoherent :
      (k : String) (m : Manager t)
      → IsCoherent m
      → (delete_job t k m).1 ≡ done
      → IsCoherent (delete_job t k m).0
  unfolding delete_job
  delete_job-IsCoherent k m c h = deleted-IsCoherent k m c (t.del m.store k) refl h

  created-IsCoherent :
      (id : String) (r a : JobRecord) (m : Manager t)
      → IsCoherent m
      → r.id ≡ id
      → (o : Option t.Db) → t.set m.store r.id r ≡ o
      → (created t id r m o).1 ≡ ok a
      → IsCoherent (created t id r m o).0
  created-IsCoherent id r a m c i none s h = cc
  created-IsCoherent id r a m c i (some db) s h = put_both-IsCoherent m id r db c i s

  pub create_job_record-IsCoherent :
      (l : Lookup) (j : Job) (m : Manager t) (r : JobRecord)
      → IsCoherent m
      → (create_job_record t l j m).1 ≡ ok r
      → IsCoherent (create_job_record t l j m).0
  unfolding create_job_record new_record
  create_job_record-IsCoherent l j m r c h =
      created-IsCoherent j.id (new_record t l j) r m c refl (t.set m.store j.id (new_record t l j))
        refl h
