-- ===== src/Queue/Appends.antt =====
-- The dispatcher touches the queue only at its end, and nothing of what the updater holds
-- (pkg/dogeboxd.go); what it adds has a case in the updater (pkg/system/updater.go).
use mathlib.Core.List.{append_assoc, append-nil}
use dogeboxd.Base.{
  ℕ, suc, String, ◌≡◌, refl, sym, ap, Bool, true, false, List, [], ◌∷◌, ◌++◌, Option, none, some,
  if◌then◌else◌, ◌∙◌, ◌==◌, Bool-cases, inl, inr,
}
use dogeboxd.Store.{Table}
use dogeboxd.Action.{
  Job, Action, InstallPup, install_pup, install_pups, uninstall_pup, purge_pup, enable_pup,
  disable_pup, rollback_pup_upgrade, upgrade_pup, update_pup_config, update_pup_providers,
  update_pup_hooks, update_metrics, check_pup_updates, unknown_action,
}
use dogeboxd.Jobs.Record.{JobRecord, Outcome, ok, err}
use dogeboxd.Jobs.Display.{Lookup}
use dogeboxd.Jobs.Manager.{Manager, create_job_record}
use dogeboxd.Updater.Cases.{has_case, HaveCases}
use dogeboxd.Queue.State.{
  SyncQueue, enqueue, should_track_job, clear_non_queued_active_job, mark_non_queued_active_job,
}
use dogeboxd.Queue.Dispatch.{
  Pups, Dogeboxd, create_tracked_job_record, tracked, send_finished_job, dispatch, system_job,
  send_system_job_with_pup_details, create_pup_from_manifest, created_pup, install_batch, batch_id,
  toggled, handled, pup_not_found,
}

-- What a dispatch may do to the queue: append jobs. What is with the updater stays.
pub record Appends (q q' : SyncQueue) : Type 0 where
  pub added : List Job
  pub queue : q'.job_queue ≡ q.job_queue ++ added
  pub current : q'.current_system_job_id ≡ q.current_system_job_id
  pub busy : q'.in_progress ≡ q.in_progress
  pub running : q'.running ≡ q.running
  pub handed : q'.handed ≡ q.handed
  pub served : HaveCases added

pub HaveCases-append : (js ks : List Job) → HaveCases js → HaveCases ks → HaveCases (js ++ ks)
HaveCases-append [] ks h k = k
HaveCases-append (j ∷ js) ks h k = elim (Bool-cases (has_case j.action)) [
  | inl e ↦ rw e (HaveCases-append js ks (rw e at h) k)
  | inr e ↦ cc (rw e at h)
]

pub Appends-refl : (q : SyncQueue) → Appends q q
Appends-refl q = record {
  added = [];
  queue = sym (append-nil q.job_queue);
  current = refl;
  busy = refl;
  running = refl;
  handed = refl;
  served = refl;
}

pub Appends-trans : {q r s : SyncQueue} → Appends q r → Appends r s → Appends q s
Appends-trans {q} {r} {s} a b = record {
  added = a.added ++ b.added;
  queue = b.queue ∙ ap (λ l. l ++ b.added) a.queue ∙ append_assoc q.job_queue a.added b.added;
  current = b.current ∙ a.current;
  busy = b.busy ∙ a.busy;
  running = b.running ∙ a.running;
  handed = b.handed ∙ a.handed;
  served = HaveCases-append a.added b.added a.served b.served;
}

Appends-enqueue : (j : Job) (q : SyncQueue) → has_case j.action ≡ true → Appends q (enqueue j q)
unfolding enqueue
Appends-enqueue j q h = record {
  added = j ∷ [];
  queue = refl;
  current = refl;
  busy = refl;
  running = refl;
  handed = refl;
  served = rw h refl;
}

Appends-mark : (id : String) (q : SyncQueue) → Appends q (mark_non_queued_active_job id q)
unfolding mark_non_queued_active_job
Appends-mark id q = record {
  added = [];
  queue = sym (append-nil q.job_queue);
  current = refl;
  busy = refl;
  running = refl;
  handed = refl;
  served = refl;
}

Appends-clear : (id : String) (q : SyncQueue) → Appends q (clear_non_queued_active_job id q)
unfolding clear_non_queued_active_job
Appends-clear id q = record {
  added = [];
  queue = sym (append-nil q.job_queue);
  current = refl;
  busy = refl;
  running = refl;
  handed = refl;
  served = refl;
}

module _ (t : Table JobRecord) (stamp_before : ℕ → ℕ → Bool) (P : Type 0) (api : Pups P)
    (names : Lookup) where
  abbrev pub App : Dogeboxd t P api names → Dogeboxd t P api names → Type 0
  App s s' = Appends s.queue s'.queue

  pub finished-Appends :
      (now n : ℕ) (j : Job) (s : Dogeboxd t P api names)
      → App s (send_finished_job t P api names now n j s)
  unfolding send_finished_job
  finished-Appends now n j s = Appends-clear j.id s.queue

  created_record-Appends :
      (id : String) (q : SyncQueue) (p : P) (r : Manager t × Outcome JobRecord)
      → Appends q (tracked t P api names id q p r).queue
  created_record-Appends id q p (m, err e) = Appends-clear id q
  created_record-Appends id q p (m, ok r) = Appends-refl q

  if-Appends :
      (b : Bool) (s x y : Dogeboxd t P api names) → App s x → App s y → App s (if b then x else y)
  if-Appends true s x y a c = a
  if-Appends false s x y a c = c

  pub tracked-Appends :
      (j : Job) (s : Dogeboxd t P api names) → App s (create_tracked_job_record t P api names j s)
  unfolding create_tracked_job_record
  tracked-Appends j s =
      let q = mark_non_queued_active_job j.id s.queue in
      let r = create_job_record t names j s.manager in
      if-Appends (should_track_job j) s (tracked t P api names j.id q s.pups r) s
        (Appends-trans (Appends-mark j.id s.queue) (created_record-Appends j.id q s.pups r))
        (Appends-refl s.queue)

  send_system-Appends :
      (now : ℕ) (j : Job) (pup : String) (s : Dogeboxd t P api names)
      → has_case j.action ≡ true
      → App s (send_system_job_with_pup_details t P api names now j pup s)
  unfolding send_system_job_with_pup_details
  send_system-Appends now j pup s h =
      elim (api.get_pup pup s.pups) as (λ o. App s (system_job t P api names now j pup o s)) [
        | none ↦ finished-Appends now 0 (record j { err = pup_not_found }) s
        | some p ↦ Appends-enqueue (record j { state = some p }) s.queue h
      ]

  create_pup-Appends :
      (now : ℕ) (j : Job) (i : InstallPup) (s : Dogeboxd t P api names)
      → has_case j.action ≡ true
      → App s (create_pup_from_manifest t P api names now j i s)
  unfolding create_pup_from_manifest
  create_pup-Appends now j i s h = go (api.create_pup i s.pups)
    where
      go : (r : P × (Option String) × String) → App s (created_pup t P api names now j s r)
      go (p, none, message) =
          finished-Appends now 0 (record j { err = message }) (record s { pups = p })
      go (p, some pup, message) = send_system-Appends now j pup (record s { pups = p }) h

  case_install : (i : InstallPup) → has_case (install_pup i) ≡ true
  unfolding has_case
  case_install i = refl

  batch-Appends :
      (now : ℕ) (j : Job) (i : ℕ) (ps : List InstallPup) (s : Dogeboxd t P api names)
      → App s (install_batch t P api names now j i ps s)
  unfolding install_batch
  batch-Appends now j i [] s = Appends-refl s.queue
  batch-Appends now j i (p ∷ ps) s =
      let pup_job = record j { id = batch_id t P api names j.id i; action = install_pup p } in
      let s₁ = create_tracked_job_record t P api names pup_job s in
      let s₂ = create_pup_from_manifest t P api names now pup_job p s₁ in
      Appends-trans (tracked-Appends pup_job s) (
        Appends-trans (create_pup-Appends now pup_job p s₁ (case_install p))
          (batch-Appends now j (suc i) ps s₂))

  toggled-Appends :
      (now : ℕ) (j : Job) (pup : String) (s : Dogeboxd t P api names) (r : P × String)
      → has_case j.action ≡ true
      → App s (toggled t P api names now j pup s r)
  toggled-Appends now j pup s (p, message) h =
      let s' = record s { pups = p } in
      if-Appends (message == "") s (send_system_job_with_pup_details t P api names now j pup s')
        (send_finished_job t P api names now 0 (record j { err = message }) s')
        (send_system-Appends now j pup s' h)
        (finished-Appends now 0 (record j { err = message }) s')

  handled-Appends :
      (now : ℕ) (j : Job) (s : Dogeboxd t P api names) (r : P × String)
      → App s (handled t P api names now j s r)
  handled-Appends now j s (p, message) =
      finished-Appends now 0 (record j { err = message }) (record s { pups = p })

  pub dispatch-Appends :
      (now : ℕ) (j : Job) (a : Action) (s : Dogeboxd t P api names)
      → j.action ≡ a
      → App s (dispatch t P api names now j a s)
  unfolding dispatch has_case
  dispatch-Appends now j (install_pup i) s h = create_pup-Appends now j i s (rw h refl)
  dispatch-Appends now j (install_pups ps) s h = batch-Appends now j 0 ps s
  dispatch-Appends now j (uninstall_pup id) s h = send_system-Appends now j id s (rw h refl)
  dispatch-Appends now j (purge_pup id) s h = send_system-Appends now j id s (rw h refl)
  dispatch-Appends now j (enable_pup id) s h =
      toggled-Appends now j id s (api.set_enabled id true s.pups) (rw h refl)
  dispatch-Appends now j (disable_pup id) s h =
      toggled-Appends now j id s (api.set_enabled id false s.pups) (rw h refl)
  dispatch-Appends now j (update_pup_config id c) s h =
      handled-Appends now j s (api.handle_now (update_pup_config id c) s.pups)
  dispatch-Appends now j (update_pup_providers id c) s h =
      handled-Appends now j s (api.handle_now (update_pup_providers id c) s.pups)
  dispatch-Appends now j (update_pup_hooks id) s h =
      handled-Appends now j s (api.handle_now (update_pup_hooks id) s.pups)
  dispatch-Appends now j (check_pup_updates id) s h =
      handled-Appends now j s (api.handle_now (check_pup_updates id) s.pups)
  dispatch-Appends now j (upgrade_pup id v) s h = send_system-Appends now j id s (rw h refl)
  dispatch-Appends now j (rollback_pup_upgrade id) s h = send_system-Appends now j id s (rw h refl)
  dispatch-Appends now j (update_metrics id) s h = Appends-refl s.queue
  dispatch-Appends now j (unknown_action n) s h = Appends-refl s.queue
  dispatch-Appends now j _ s h = Appends-enqueue j s.queue (rw h refl)
