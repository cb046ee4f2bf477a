-- ===== src/Updater/Cases.antt =====
-- The action types that the updater's switch lists (Run of pkg/system/updater.go).
use dogeboxd.Base.{◌≡◌, Bool, true, false, List, all}
use dogeboxd.Action.{
  Action, Job, install_pups, update_pup_config, update_pup_providers, update_pup_hooks,
  update_metrics, check_pup_updates, unknown_action,
}

unfoldable pub has_case : Action → Bool
has_case (install_pups ps) = false
has_case (update_pup_config id c) = false
has_case (update_pup_providers id p) = false
has_case (update_pup_hooks id) = false
has_case (update_metrics id) = false
has_case (check_pup_updates id) = false
has_case (unknown_action n) = false
has_case _ = true

-- Each job of the list has a case.
abbrev pub HaveCases : List Job → Type 0
HaveCases js = all (λ (j : Job). has_case j.action) js ≡ true
