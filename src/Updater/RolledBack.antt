-- ===== src/Updater/RolledBack.antt =====
-- How the rollback of a pup ends (rollbackPupUpgrade of pkg/system/updater.go), and that it undoes an
-- upgrade.
use dogeboxd.Base.{String, ◌≡◌, refl, ap, ◌∙◌, some, List, [], ◌∷◌, Map, delete, ◌⊎◌, inl, inr}
use dogeboxd.Base.Steps.{Ends, Ends-map, and_then-Ends, ignore_error}
use dogeboxd.Pups.Health.{RunStatus}
use dogeboxd.Pups.State.{
  PupState, ready, set_pup_installation, set_pup_version, set_pup_manifest, set_pup_config,
  set_pup_providers, set_pup_broken_reason, merged_config, or_old,
}
use dogeboxd.Pups.Manager.{Snapshot, health_check_pup_state, get_snapshot, delete_snapshot, get_pup}
use dogeboxd.Updater.Host.{Host, System, call}
use dogeboxd.Updater.Upgrade.{rollback_pup_upgrade, roll_back, ready_and}
use dogeboxd.Updater.View.{
  View, At, IsBrokenBy, Breaks, changed, At-map, stored-At, get_snapshot-Ends, delete_snapshot-Ends,
  get_pup-Ends,
}
use dogeboxd.Updater.Logic.{
  view, on_pups-Ends, broken_call-Ends, broken_patch-Ends, broken_update-Ends, call-Ends,
  call_keeps, when-Ends, ignored-Ends,
}
use dogeboxd.Updater.Installed.{Contents, contents, IsOneOf}
use dogeboxd.Updater.Upgraded.{IsAsEnabled, changed-ready_and}

abbrev pub rollback_reasons : List String
rollback_reasons =
    "state_update_failed" ∷ "download_failed" ∷ "storage_creation_failed" ∷ "nix_apply_failed" ∷ []

-- What a rollback makes of the contents of a pup: those of the snapshot, with the config and the providers
-- laid over what the pup has.
abbrev pub restored : Snapshot → PupState → Contents
restored snap p = record {
  version = snap.version;
  manifest = snap.manifest;
  config = merged_config snap.manifest.sections snap.config p.config;
  providers = λ k. or_old (snap.providers k) (p.providers k);
}

abbrev pub without_snapshot : String → View → View
without_snapshot id v = record v { snapshots = delete id v.snapshots }

module _ {H : Type 0} (host : Host H) (s p : PupState) (snap : Snapshot) (v : View) where
  abbrev Going : PupState → Type 0
  Going p' = IsAsEnabled snap.enabled p' × (p'.config ≡ p.config) × (p'.providers ≡ p.providers)

  abbrev Restored : PupState → Type 0
  Restored p' = IsAsEnabled snap.enabled p' × (contents p' ≡ restored snap p)

  abbrev RolledBack : PupState → Type 0
  RolledBack p' =
      (p'.installation ≡ ready) × (p'.enabled ≡ snap.enabled) × (contents p' ≡ restored snap p)

  breaks_rollback :
      (Q : PupState → Type 0) (reason : String)
      → IsOneOf reason rollback_reasons
      → Breaks reason Q (IsBrokenBy rollback_reasons)
  unfolding set_pup_broken_reason set_pup_installation health_check_pup_state
  breaks_rollback Q reason m stats p' q = (refl, m)

  restoring :
      (stats : Map RunStatus) (p' : PupState)
      → Going p'
      → Restored (
          changed
            (set_pup_version snap.version
              ∷ set_pup_manifest snap.manifest
              ∷ set_pup_config snap.config
              ∷ set_pup_providers snap.providers
              ∷ [])
            stats
            p')
  unfolding health_check_pup_state set_pup_version set_pup_manifest set_pup_config set_pup_providers
  restoring stats p' q = (q.0, rw (q.1, q.2) refl)

  ready_again :
      (stats : Map RunStatus) (p' : PupState)
      → Restored p'
      → RolledBack (changed (ready_and snap.enabled) stats p')
  ready_again stats p' q =
      let r = changed-ready_and snap.enabled stats p' q.0 in (r.0, r.2, r.3 ∙ q.1)

  deleted-At :
      (v w : View) (Q : PupState → Type 0)
      → At s.id v Q w
      → At s.id (without_snapshot s.id v) Q (without_snapshot s.id w)
  deleted-At v w Q a = record {
    pup = a.pup;
    is_stored = a.is_stored;
    is_in = a.is_in;
    others = a.others;
    snapshots_kept = ap (delete s.id) a.snapshots_kept;
    dogebox_kept = a.dogebox_kept;
  }

  -- The pup is rolled back, with its snapshot, or without.
  abbrev Left : View → Type 0
  Left w = At s.id v RolledBack w ⊎ At s.id (without_snapshot s.id v) RolledBack w

  after_found-Ends :
      (t : System H)
      → At s.id v Going (view t)
      → Ends
          (λ _ t'. Left (view t'))
          (λ _ t'. At s.id v (IsBrokenBy rollback_reasons) (view t'))
          (roll_back host s snap t)
  unfolding roll_back health_check_pup_state set_pup_installation
  after_found-Ends t a =
      and_then-Ends
        (broken_update-Ends host s "state_update_failed" v {Q = Going} _ _
          (call_keeps (host.stop_container s.id) t (At s.id v Going) a) (λ stats p' q. q)
          (breaks_rollback Going _ refl))
        (λ _ t a.
          and_then-Ends
            (broken_call-Ends host s "download_failed" v {Q = Going} _ t a.1
              (breaks_rollback Going _ refl))
            (λ _ t a.
              and_then-Ends
                (broken_update-Ends host s "state_update_failed" v {Q = Restored} _ t a restoring
                  (breaks_rollback Restored _ refl))
                (λ _ t a.
                  and_then-Ends
                    (broken_call-Ends host s "storage_creation_failed" v {Q = Restored} _ t a.1
                      (breaks_rollback Restored _ refl))
                    (λ _ t a.
                      and_then-Ends
                        (broken_update-Ends host s "state_update_failed" v {Q = RolledBack}
                          (ready_and snap.enabled) t a ready_again
                          (breaks_rollback RolledBack _ refl))
                        (λ _ t a.
                          and_then-Ends
                            (on_pups-Ends (get_pup s.id) t (λ _. At s.id v RolledBack)
                              (At s.id v (IsBrokenBy rollback_reasons))
                              (Ends-map (get_pup-Ends host.machine t.dogebox s.id v t.pups a.1)
                                (λ _ _ q. q.1) (λ _ _ q. q)))
                            (λ _ t a.
                              and_then-Ends
                                (broken_patch-Ends host s "nix_apply_failed" v {Q = RolledBack} _ t
                                  a (breaks_rollback RolledBack _ refl))
                                (λ _ t a.
                                  and_then-Ends
                                    (when-Ends snap.enabled
                                      (ignore_error (call (host.start_container s.id)))
                                      (ignored-Ends (
                                        call-Ends (host.start_container s.id) t
                                          (At s.id v RolledBack) a))
                                      a)
                                    (λ _ t a. ignored-Ends (
                                      on_pups-Ends (delete_snapshot host.machine s.id) t (λ _. Left)
                                        Left
                                        (delete_snapshot-Ends host.machine t.dogebox s.id v t.pups
                                          Left (inl a)
                                          (inr (deleted-At v (view t) RolledBack a))))))))))))

same-At :
    (s p : PupState) (snap : Snapshot) (v w : View)
    → IsAsEnabled snap.enabled p
    → At s.id v (λ p'. p' ≡ p) w
    → At s.id v
        (λ p'. IsAsEnabled snap.enabled p' × (p'.config ≡ p.config) × (p'.providers ≡ p.providers))
        w
same-At s p snap v w e a = At-map s.id v w a (λ p' q. rw q (e, refl, refl))

module _ {H : Type 0} (host : Host H) where
  -- If the pup and its snapshot are stored, and the pup is as enabled as the snapshot unless that is
  -- enabled, then a rollback that reports no error leaves the pup ready, with the version and the manifest of
  -- the snapshot, its config and its providers laid over those of the pup, and enabled as the
  -- snapshot says; of the snapshots at most this one is removed. A rollback that reports an error changed
  -- nothing of the pup, since it could not read the snapshot, or left it broken for one of the reasons
  -- of the rollback, with the snapshot kept. Either way every other pup and the state of the Dogebox are as
  -- before.
  pub rollback_pup_upgrade-RollsBack :
      (s p : PupState) (snap : Snapshot) (t : System H)
      → t.pups.state s.id ≡ some p
      → t.pups.snapshots s.id ≡ some snap
      → IsAsEnabled snap.enabled p
      → let IsRolledBack = λ (p' : PupState).
        (p'.installation ≡ ready) × (p'.enabled ≡ snap.enabled) × (contents p' ≡ restored snap p) in
        Ends
          (λ _ t'.
            At s.id (view t) IsRolledBack (view t')
            ⊎ At s.id (without_snapshot s.id (view t)) IsRolledBack (view t'))
          (λ _ t'.
            At s.id (view t) (λ p'. p' ≡ p) (view t')
            ⊎ At s.id (view t) (IsBrokenBy rollback_reasons) (view t'))
          (rollback_pup_upgrade host s t)
  unfolding rollback_pup_upgrade
  rollback_pup_upgrade-RollsBack s p snap t h k e =
      let v = view t in
      let Same = λ (p' : PupState). p' ≡ p in
      and_then-Ends
        (Ends-map
          (on_pups-Ends (get_snapshot host.machine s.id) t
            (λ o w. (o ≡ t.pups.snapshots s.id) × At s.id v Same w) (At s.id v Same)
            (get_snapshot-Ends host.machine t.dogebox s.id v t.pups (At s.id v Same)
              (stored-At s.id v Same p h refl)))
          (λ _ _ q. q) (λ _ _ q. inl q))
        (λ o t₁ q.
          rw (q.0, k)
            (Ends-map (after_found-Ends host s p snap v t₁ (same-At s p snap v (view t₁) e q.1))
              (λ _ _ r. r) (λ _ _ r. inr r)))
