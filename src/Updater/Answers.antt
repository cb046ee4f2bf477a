-- ===== src/Updater/Answers.antt =====
-- The updater answers every job that the run loop queues (pkg/dogeboxd.go and pkg/system/updater.go).
use dogeboxd.Base.{ℕ, ◌≡◌, refl, Bool, true, false, some, List, [], ◌∷◌, Memᴰ, ◌&&◌}
use dogeboxd.Store.{Table}
use dogeboxd.Action.{
  Action, Job, install_pups, update_pup_config, update_pup_providers, update_pup_hooks,
  update_metrics, check_pup_updates, unknown_action,
}
use dogeboxd.Jobs.Record.{JobRecord}
use dogeboxd.Jobs.Display.{Lookup}
use dogeboxd.Queue.Dispatch.{Pups, Dogeboxd}
use dogeboxd.Queue.Loop.{Event, run}
use dogeboxd.Queue.Appends.{HaveCases-append}
use dogeboxd.Queue.Order.{history, run-Grows}
use dogeboxd.Updater.Cases.{has_case, HaveCases}
use dogeboxd.Updater.Host.{Host, System}
use dogeboxd.Updater.Run.{UpdaterJob, Elsewhere, serve}

module _ {H : Type 0} (host : Host H) (elsewhere : Elsewhere H) where
  serve_answers :
      (a : Action) (u : UpdaterJob) (w : System H)
      → has_case a ≡ true
      → (u' : UpdaterJob) × ((serve host elsewhere a u w).0 ≡ some u')
  unfolding serve has_case
  serve_answers (install_pups ps) u w h = cc
  serve_answers (update_pup_config id c) u w h = cc
  serve_answers (update_pup_providers id c) u w h = cc
  serve_answers (update_pup_hooks id) u w h = cc
  serve_answers (update_metrics id) u w h = cc
  serve_answers (check_pup_updates id) u w h = cc
  serve_answers (unknown_action n) u w h = cc
  serve_answers _ u w h = (_, refl)

both : (b c : Bool) → (b && c) ≡ true → (b ≡ true) × (c ≡ true)
both true c h = (refl, h)
both false c h = cc

Mem-HaveCases : (j : Job) (js : List Job) → HaveCases js → Memᴰ j js → has_case j.action ≡ true
Mem-HaveCases j [] h m = elim m [ ]
Mem-HaveCases j (k ∷ js) h (Memᴰ.head e) = rw e ((both _ _ h).0)
Mem-HaveCases j (k ∷ js) h (Memᴰ.tail m) = Mem-HaveCases j js (both _ _ h).1 m

module _ {H : Type 0} (host : Host H) (elsewhere : Elsewhere H) (t : Table JobRecord)
    (stamp_before : ℕ → ℕ → Bool) (P : Type 0) (api : Pups P) (names : Lookup) where
  -- If each job that waits or was handed over has an action that the updater's switch lists, then this is
  -- so after any run of the loop: whatever was submitted, each job that is queued or has been handed over is
  -- one that the updater, in any state and with any error of its calls, sends back to `done`, which
  -- releases the queue.
  pub run-answers :
      (es : List (ℕ × Event)) (s : Dogeboxd t P api names) (j : Job) (u : UpdaterJob) (w : System H)
      → HaveCases (history s.queue)
      → Memᴰ j (history (run t stamp_before P api names es s).queue)
      → (u' : UpdaterJob) × ((serve host elsewhere j.action u w).0 ≡ some u')
  run-answers es s j u w h m =
      let (added, e, c) = run-Grows t stamp_before P api names es s in
      serve_answers host elsewhere j.action u w
        (Mem-HaveCases j _ (rw e (HaveCases-append (history s.queue) added h c)) m)
