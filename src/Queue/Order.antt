-- ===== src/Queue/Order.antt =====
-- The run loop hands system jobs to the updater one at a time and in the order in which they were
-- queued (pkg/dogeboxd.go).
use mathlib.Core.List.{append_assoc, append-nil}
use dogeboxd.Base.{
  ℕ, String, ◌≡◌, refl, sym, ap, Bool, true, false, List, [], ◌∷◌, ◌++◌, arith, ◌∙◌, Bool-cases,
  inl, inr, eq_refl,
}
use dogeboxd.Store.{Table}
use dogeboxd.Action.{Job}
use dogeboxd.Jobs.Record.{JobRecord}
use dogeboxd.Jobs.Display.{Lookup}
use dogeboxd.Queue.State.{
  SyncQueue, should_skip_job, pump_queue, pump_idle, clear_current_system_job_id,
  clear_non_queued_active_job,
}
use dogeboxd.Queue.Dispatch.{
  Pups, Dogeboxd, create_tracked_job_record, job_dispatcher, send_finished_job,
}
use dogeboxd.Queue.Loop.{
  Event, incoming, updater_done, queue_tick, orphan_tick, step, run, finish_system_job,
  updater_reports, release,
}
use dogeboxd.Updater.Cases.{HaveCases}
use dogeboxd.Queue.Appends.{
  HaveCases-append, Appends, Appends-refl, Appends-trans, dispatch-Appends, tracked-Appends,
}

-- The invariant of the loop: at most one job is with the updater, it is the current system job, and
-- the mutex is held exactly then.
pub record IsExclusive (q : SyncQueue) : Type 0 where
  pub busy :
      q.in_progress ≡ true → (j : Job) × (q.running ≡ j ∷ []) × (q.current_system_job_id ≡ j.id)
  pub idle : q.in_progress ≡ false → (q.running ≡ []) × (q.current_system_job_id ≡ "")

-- The system jobs in the order of their queueing: those handed over, then those that wait.
abbrev pub history : SyncQueue → List Job
history q = q.handed ++ q.job_queue

module _ (t : Table JobRecord) (stamp_before : ℕ → ℕ → Bool) (P : Type 0) (api : Pups P)
    (names : Lookup) where
  IsExclusive-Appends : (q q' : SyncQueue) → Appends q q' → IsExclusive q → IsExclusive q'
  IsExclusive-Appends q q' a x = record {
    busy = λ h. let (j, r, c) = x.busy (sym a.busy ∙ h) in (j, a.running ∙ r, a.current ∙ c);
    idle = λ h. let (r, c) = x.idle (sym a.busy ∙ h) in (a.running ∙ r, a.current ∙ c);
  }

  incoming-Appends :
      (now : ℕ) (j : Job) (s : Dogeboxd t P api names)
      → Appends s.queue (step t stamp_before P api names now (incoming j) s).queue
  unfolding step job_dispatcher should_skip_job
  incoming-Appends now j s =
      elim (Bool-cases (should_skip_job (record j { start = now }) s.queue)) [
        | inl skip ↦ rw skip (Appends-refl s.queue)
        | inr go ↦
            let j' = record j { start = now } in
            let s₁ = create_tracked_job_record t P api names j' s in
            rw go (
              Appends-trans (tracked-Appends t stamp_before P api names j' s)
                (dispatch-Appends t stamp_before P api names now j' j.action s₁ refl))
      ]

  pump-IsExclusive :
      (js : List Job) (q : SyncQueue)
      → q.in_progress ≡ false
      → IsExclusive q
      → IsExclusive (pump_idle js q)
  pump-IsExclusive [] q h x = x
  pump-IsExclusive (j ∷ js) q h x = record {
    busy = λ _. (j, ap (λ l. l ++ j ∷ []) (x.idle h).0, refl);
    idle = λ e. cc;
  }

  release-IsExclusive :
      (j : Job) (others : List Job) (q : SyncQueue)
      → IsExclusive q
      → q.running ≡ j ∷ others
      → IsExclusive (release t stamp_before P api names j.id others q)
  unfolding clear_current_system_job_id
  release-IsExclusive j others q x r = record {
    busy = λ e. cc;
    idle = λ _. elim (Bool-cases q.in_progress) [
      | inl b ↦
          let (k, r', c) = x.busy b in
          (ground (arith, r, r'), ground (arith, r, r', c, eq_refl j.id))
      | inr b ↦ cc (r, (x.idle b).0)
    ];
  }

  finish-IsExclusive :
      (now : ℕ) (note error : String) (running : List Job) (s : Dogeboxd t P api names)
      → s.queue.running ≡ running
      → IsExclusive s.queue
      → IsExclusive (updater_reports t stamp_before P api names now error note running s).queue
  unfolding finish_system_job send_finished_job clear_non_queued_active_job
  finish-IsExclusive now note error [] s r x = x
  finish-IsExclusive now note error (j ∷ others) s r x =
      release-IsExclusive j others (clear_non_queued_active_job j.id s.queue)
        (record { busy = x.busy; idle = x.idle }) r

  step-IsExclusive :
      (now : ℕ) (e : Event) (s : Dogeboxd t P api names)
      → IsExclusive s.queue
      → IsExclusive (step t stamp_before P api names now e s).queue
  step-IsExclusive now (incoming j) s x =
      IsExclusive-Appends s.queue (step t stamp_before P api names now (incoming j) s).queue
        (incoming-Appends now j s) x
  step-IsExclusive now (updater_done error note) s x =
      unfold step in finish-IsExclusive now note error s.queue.running s refl x
  step-IsExclusive now queue_tick s x = elim (Bool-cases s.queue.in_progress) [
    | inl b ↦ unfold step pump_queue in simp b x
    | inr b ↦ unfold step pump_queue in simp b (pump-IsExclusive s.queue.job_queue s.queue b x)
  ]
  step-IsExclusive now orphan_tick s x = unfold step in x

  -- Whatever messages and ticks arrive, from a state with no more than one job at the updater: the
  -- updater has at most one job, it is the current system job, and the mutex is held exactly while it
  -- has one.
  pub run-IsExclusive :
      (es : List (ℕ × Event)) (s : Dogeboxd t P api names)
      → IsExclusive s.queue
      → IsExclusive (run t stamp_before P api names es s).queue
  unfolding run
  run-IsExclusive [] s x = x
  run-IsExclusive ((now, e) ∷ es) s x =
      run-IsExclusive es (step t stamp_before P api names now e s) (step-IsExclusive now e s x)

  abbrev pub Grows : SyncQueue → SyncQueue → Type 0
  Grows q q' = (added : List Job) × (history q' ≡ history q ++ added) × HaveCases added

  Grows-refl : (q q' : SyncQueue) → history q' ≡ history q → Grows q q'
  Grows-refl q q' e = ([], e ∙ sym (append-nil (history q)), refl)

  Grows-Appends : (q q' : SyncQueue) → Appends q q' → Grows q q'
  Grows-Appends q q' a =
      (a.added, cc (a.handed, a.queue, append_assoc q.handed q.job_queue a.added), a.served)

  Grows-pump : (js : List Job) (q : SyncQueue) → q.job_queue ≡ js → Grows q (pump_idle js q)
  Grows-pump [] q e = Grows-refl q q refl
  Grows-pump (j ∷ js) q e =
      Grows-refl q (pump_idle (j ∷ js) q)
        (append_assoc q.handed (j ∷ []) js ∙ ap (λ l. q.handed ++ l) (sym e))

  Grows-reports :
      (now : ℕ) (note error : String) (running : List Job) (s : Dogeboxd t P api names)
      → Grows s.queue (updater_reports t stamp_before P api names now error note running s).queue
  unfolding finish_system_job send_finished_job clear_non_queued_active_job
      clear_current_system_job_id
  Grows-reports now note error [] s = Grows-refl s.queue s.queue refl
  Grows-reports now note error (j ∷ others) s = ([], sym (append-nil (history s.queue)), refl)

  step-Grows :
      (now : ℕ) (e : Event) (s : Dogeboxd t P api names)
      → Grows s.queue (step t stamp_before P api names now e s).queue
  step-Grows now (incoming j) s =
      Grows-Appends s.queue (step t stamp_before P api names now (incoming j) s).queue
        (incoming-Appends now j s)
  step-Grows now (updater_done error note) s =
      unfold step in Grows-reports now note error s.queue.running s
  step-Grows now queue_tick s = elim (Bool-cases s.queue.in_progress) [
    | inl b ↦ unfold step pump_queue in simp b (Grows-refl s.queue s.queue refl)
    | inr b ↦ unfold step pump_queue in simp b (Grows-pump s.queue.job_queue s.queue refl)
  ]
  step-Grows now orphan_tick s = unfold step in Grows-refl s.queue s.queue refl

  pub run-Grows :
      (es : List (ℕ × Event)) (s : Dogeboxd t P api names)
      → Grows s.queue (run t stamp_before P api names es s).queue
  unfolding run
  run-Grows [] s = Grows-refl s.queue s.queue refl
  run-Grows ((now, e) ∷ es) s =
      let s₁ = step t stamp_before P api names now e s in
      let (a, p, c) = step-Grows now e s in
      let (b, q, d) = run-Grows es s₁ in
      (
        a ++ b,
        q ∙ ap (λ l. l ++ b) p ∙ append_assoc (history s.queue) a b,
        HaveCases-append a b c d,
      )

  -- Over any run of the loop, the system jobs in the order of their queueing, those handed to the
  -- updater first, only grow at the end: no queued job is lost, handed over twice or overtaken.
  pub run-history :
      (es : List (ℕ × Event)) (s : Dogeboxd t P api names)
      → (added : List Job) × (history (run t stamp_before P api names es s).queue
          ≡ history s.queue ++ added)
  run-history es s = let (added, e, _) = run-Grows es s in (added, e)
