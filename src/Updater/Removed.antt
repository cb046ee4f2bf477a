-- ===== src/Updater/Removed.antt =====
-- How the removal and the purge of a pup end (uninstallPup and purgePup of pkg/system/updater.go).
use dogeboxd.Base.{
  String, ◌≡◌, refl, sym, subst, true, false, Option, none, some, List, [], ◌∷◌, ◌==◌, eq_refl,
  delete, Bool-cases, inl, inr, ◌⊎◌,
}
use dogeboxd.Base.Steps.{Ends, returned, failed, Ends-map, and_then-Ends, attempted-Ends}
use dogeboxd.Pups.State.{PupState, uninstalled, set_pup_installation, pup_enabled}
use dogeboxd.Pups.Manager.{health_check_pup_state, purge_pup}
use dogeboxd.Updater.Host.{Host, System, on_pups, set_dogebox}
use dogeboxd.Updater.Install.{
  uninstall_pup, purge, cleanup_sidebar, cleanup_sidebar_preferences, without_pup, is_uninstalled,
}
use dogeboxd.Updater.View.{View, At, stored-At}
use dogeboxd.Updater.Logic.{view, call-Ends, broken_patch-Ends, broken_update-Ends, call_keeps}
use dogeboxd.Updater.Installed.{contents, Kept, IsBrokenKept, IsOneOf, breaks}

abbrev pub removal_reasons : List String
removal_reasons = "state_update_failed" ∷ "nix_apply_failed" ∷ []

-- The pup is not among the pups of the sidebar.
abbrev pub cleaned : String → View → View
cleaned id v = record v {
  dogebox = record v.dogebox { sidebar_pups = without_pup id v.dogebox.sidebar_pups };
}

cleaned-At :
    (id : String) (v v' : View) (Q : PupState → Type 0)
    → At id v Q v'
    → At id (cleaned id v) Q (cleaned id v')
cleaned-At id v v' Q a = record {
  pup = a.pup;
  is_stored = a.is_stored;
  is_in = a.is_in;
  others = a.others;
  snapshots_kept = a.snapshots_kept;
  dogebox_kept = rw a.dogebox_kept refl;
}

-- The pup is gone, with no other pup changed.
pub record IsGone (id : String) (v v' : View) : Type 0 where
  pub is_gone : v'.state id ≡ none
  pub others : (j : String) → (id == j) ≡ false → v'.state j ≡ v.state j
  pub snapshots_kept : v'.snapshots ≡ v.snapshots
  pub dogebox_kept : v'.dogebox ≡ v.dogebox

module _ {H : Type 0} (host : Host H) where
  abbrev with_sidebar : System H → Option (List String) → View
  with_sidebar t o = record (view t) { dogebox = record t.dogebox { sidebar_pups = o } }

  cleanup_sidebar-Ends :
      (id : String) (t : System H) (P : View → Type 0) {E : String → System H → Type 0}
      (o : Option (List String))
      → t.dogebox.sidebar_pups ≡ o
      → P (cleaned id (view t))
      → Ends (λ _ t'. P (view t')) E (cleanup_sidebar host id o t)
  unfolding set_dogebox
  cleanup_sidebar-Ends id t P none h p = returned (
      subst (λ o. P (with_sidebar t o)) (sym h)
        (subst (λ o. P (with_sidebar t (without_pup id o))) h p))
  cleanup_sidebar-Ends id t P (some ids) h p =
      attempted-Ends
        (call-Ends _
          (record t { dogebox = record t.dogebox { sidebar_pups = without_pup id (some ids) } }) P
          (subst (λ o. P (with_sidebar t (without_pup id o))) h p))
        (λ _ t q. q) (λ _ t q. q)

  pub cleanup-Ends :
      (id : String) (t : System H) (P : View → Type 0) {E : String → System H → Type 0}
      → P (cleaned id (view t))
      → Ends (λ _ t'. P (view t')) E (cleanup_sidebar_preferences host id t)
  unfolding cleanup_sidebar_preferences
  cleanup-Ends id t P p = cleanup_sidebar-Ends id t P t.dogebox.sidebar_pups refl p

  -- If the pup is stored, then a removal that reports no error leaves it uninstalled and disabled and takes
  -- it off the sidebar, and one that reports an error leaves it broken for one of the reasons of the
  -- removal. Either way its version, manifest, config and providers, every other pup, the snapshots and the
  -- rest of the state of the Dogebox are as before.
  pub uninstall_pup-Removes :
      (s p : PupState) (t : System H)
      → t.pups.state s.id ≡ some p
      → Ends
          (λ _ t'.
            At s.id
              (cleaned s.id (view t))
              (λ p'.
                (p'.installation ≡ uninstalled) × (p'.enabled ≡ false) × (contents p' ≡ contents p))
              (view t'))
          (λ _ t'. At s.id (view t) (IsBrokenKept removal_reasons p) (view t'))
          (uninstall_pup host s t)
  unfolding uninstall_pup set_pup_installation pup_enabled health_check_pup_state
  uninstall_pup-Removes s p t h =
      let v = view t in
      let Q = λ (p' : PupState). (p'.enabled ≡ false) × Kept p p' in
      let R =
        λ (p' : PupState). (p'.installation ≡ uninstalled) × (p'.enabled ≡ false) × Kept p p' in
      let bq = λ (r : String) (m : IsOneOf r removal_reasons).
        breaks removal_reasons p Q r m (λ p' q. q.1) in
      let br = λ (r : String) (m : IsOneOf r removal_reasons).
        breaks removal_reasons p R r m (λ p' q. q.2) in
      and_then-Ends
        (broken_update-Ends host s "state_update_failed" v {Q = Q} _ t
          (stored-At s.id v (Kept p) p h refl) (λ stats p' k. (refl, k)) (bq _ refl))
        (λ _ t a.
          and_then-Ends (broken_patch-Ends host s "nix_apply_failed" v {Q = Q} _ t a.1 (bq _ refl))
            (λ _ t a.
              and_then-Ends
                (broken_update-Ends host s "state_update_failed" v {Q = R} _ t a
                  (λ stats p' q. (refl, q.0, q.1)) (br _ refl))
                (λ _ t a.
                  cleanup-Ends s.id t (At s.id (cleaned s.id v) R)
                    (cleaned-At s.id v (view t) R a.1))))

purged-IsGone :
    (id : String) (v v' : View) (Q : PupState → Type 0)
    → At id v Q v'
    → IsGone id (cleaned id v) (cleaned id (record v' { state = delete id v'.state }))
purged-IsGone id v v' Q a = record {
  is_gone = rw (eq_refl id) refl;
  others = λ j n. rw n (a.others j n);
  snapshots_kept = a.snapshots_kept;
  dogebox_kept = rw a.dogebox_kept refl;
}

module _ {H : Type 0} (host : Host H) where
  -- If the pup is stored, then a purge that reports no error began with the job's copy of the pup
  -- uninstalled, takes the pup out of the manager and off the sidebar, and changes no other pup and no
  -- snapshot, whichever of its removals fail. A purge that reports an error was refused since the job's copy is not
  -- uninstalled, and changed nothing at all, or could not save the pup, which is then broken.
  pub purge-Purges :
      (s p : PupState) (t : System H)
      → t.pups.state s.id ≡ some p
      → Ends
          (λ _ t'.
            (is_uninstalled s.installation ≡ true) × IsGone s.id (cleaned s.id (view t)) (view t'))
          (λ _ t'.
            ((is_uninstalled s.installation ≡ false) × (t' ≡ t))
            ⊎ At s.id (view t) (IsBrokenKept ("state_update_failed" ∷ []) p) (view t'))
          (purge host s t)
  unfolding purge set_pup_installation pup_enabled health_check_pup_state on_pups purge_pup
  purge-Purges s p t h =
      let v = view t in
      elim (Bool-cases (is_uninstalled s.installation)) [
        | inr e ↦ rw e (failed (inl (refl, refl)))
        | inl e ↦ rw e (
            and_then-Ends
              (Ends-map
                (broken_update-Ends host s "state_update_failed" v {Q = Kept p} _ t
                  (stored-At s.id v (Kept p) p h refl) (λ stats p' k. k)
                  (breaks ("state_update_failed" ∷ []) p (Kept p) _ refl (λ p' q. q)))
                (λ _ t q. q.1) (λ _ t q. inr q))
              (λ _ t a.
                let P = At s.id v (Kept p) in
                Ends-map
                  (cleanup-Ends host s.id _ (IsGone s.id (cleaned s.id v)) {E = λ _ _. ⊥} (
                    purged-IsGone s.id v _ (Kept p)
                      (call_keeps _ _ P (call_keeps _ _ P (call_keeps _ t P a)))))
                  (λ _ t q. (refl, q)) (λ e t q. absurd q)))
      ]
