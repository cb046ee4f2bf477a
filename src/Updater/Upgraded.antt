-- ===== src/Updater/Upgraded.antt =====
-- How the upgrade of a pup ends (upgradePup of pkg/system/updater.go).
use dogeboxd.Base.{
  String, ◌≡◌, refl, ap, ◌∙◌, Bool, true, false, some, List, [], ◌∷◌, Map, put, ◌⊎◌, inl, inr,
}
use dogeboxd.Base.Steps.{Ends, Ends-map, returned, and_then-Ends, when, ignore_error}
use dogeboxd.Pups.Health.{RunStatus}
use dogeboxd.Pups.State.{
  PupState, ready, set_pup_installation, set_pup_version, set_pup_manifest, set_pup_broken_reason,
  pup_enabled,
}
use dogeboxd.Pups.Manager.{health_check_pup_state, snapshot_of, stop_pup, create_snapshot, get_pup}
use dogeboxd.Updater.Host.{Host, System, on_pups, DogeboxState}
use dogeboxd.Updater.Install.{handled}
use dogeboxd.Updater.Upgrade.{
  upgrade_pup, after_snapshot, remove_container, add_container, ready_and,
}
use dogeboxd.Updater.View.{
  View, At, IsBrokenBy, Breaks, changed, stored-At, stop_pup-Ends, create_snapshot-Ends,
  get_pup-Ends,
}
use dogeboxd.Updater.Logic.{
  view, on_pups-Ends, broken_call-Ends, broken_patch-Ends, broken_hash-Ends, broken_update-Ends,
  handled-Ends, call-Ends, when-Ends, ignored-Ends, total_call-Ends,
}
use dogeboxd.Updater.Installed.{Contents, contents, Kept, IsOneOf}

abbrev pub upgrade_reasons : List String
upgrade_reasons =
    "manifest_fetch_failed" ∷ "state_update_failed" ∷ "download_failed" ∷ "nix_hash_mismatch"
    ∷ "storage_creation_failed" ∷ "nix_apply_failed" ∷ []

-- What the user has set is kept.
abbrev pub KeepsData : PupState → PupState → Type 0
KeepsData p p' = (p'.config ≡ p.config) × (p'.providers ≡ p.providers)

-- The view with the snapshot of the pup.
abbrev pub snapshotted : PupState → View → View
snapshotted s v = record v { snapshots = put s.id (snapshot_of s) v.snapshots }

snapshot-At :
    (s : PupState) (v w : View) (Q : PupState → Type 0)
    → At s.id v Q w
    → At s.id (snapshotted s v) Q (snapshotted s w)
snapshot-At s v w Q a = record {
  pup = a.pup;
  is_stored = a.is_stored;
  is_in = a.is_in;
  others = a.others;
  snapshots_kept = ap (put s.id (snapshot_of s)) a.snapshots_kept;
  dogebox_kept = a.dogebox_kept;
}

-- The pup is as enabled as before, unless it is going to be enabled again.
abbrev pub IsAsEnabled : Bool → PupState → Type 0
IsAsEnabled b p = (b ≡ true) ⊎ (p.enabled ≡ b)

-- The last update of an upgrade.
pub changed-ready_and :
    (b : Bool) (stats : Map RunStatus) (p : PupState)
    → IsAsEnabled b p
    → let p' = changed (ready_and b) stats p in
      (p'.installation ≡ ready)
      × (p'.version ≡ p.version)
      × (p'.enabled ≡ b)
      × (contents p' ≡ contents p)
unfolding health_check_pup_state pup_enabled set_pup_installation
changed-ready_and true stats p h = (refl, refl, refl, refl)
changed-ready_and false stats p (inl e) = cc
changed-ready_and false stats p (inr e) = (refl, refl, e, refl)

module _ {H : Type 0} (host : Host H) (s p : PupState) (v : View) where
  abbrev pub Keeps : PupState → Type 0
  Keeps p' = IsAsEnabled s.enabled p' × KeepsData p p'

  abbrev pub IsBrokenUpgrade : PupState → Type 0
  IsBrokenUpgrade p' = IsBrokenBy upgrade_reasons p' × Keeps p'

  abbrev pub Stopped : PupState → Type 0
  Stopped p' = IsAsEnabled s.enabled p' × Kept p p'

  abbrev pub Moved : String → PupState → Type 0
  Moved target p' = (p'.version ≡ target) × IsAsEnabled s.enabled p' × KeepsData p p'

  abbrev pub Upgraded : String → PupState → Type 0
  Upgraded target p' =
      (p'.installation ≡ ready) × (p'.version ≡ target) × (p'.enabled ≡ s.enabled) × KeepsData p p'

  breaks_upgrade :
      (Q : PupState → Type 0) (reason : String)
      → IsOneOf reason upgrade_reasons
      → ((p' : PupState) → Q p' → Keeps p')
      → Breaks reason Q IsBrokenUpgrade
  unfolding set_pup_broken_reason set_pup_installation health_check_pup_state
  breaks_upgrade Q reason m k stats p' q = ((refl, m), k p' q)

  pub Stopped-Keeps : (p' : PupState) → Stopped p' → Keeps p'
  Stopped-Keeps p' q =
      (q.0, (ap (λ (c : Contents). c.config) q.1, ap (λ (c : Contents). c.providers) q.1))

  ready_again :
      (target : String) (stats : Map RunStatus) (p' : PupState)
      → Moved target p'
      → Upgraded target (changed (ready_and s.enabled) stats p')
  ready_again target stats p' q =
      let r = changed-ready_and s.enabled stats p' q.1 in
      (
        r.0,
        r.1 ∙ q.0,
        r.2,
        (
          ap (λ (c : Contents). c.config) r.3 ∙ q.2.0,
          ap (λ (c : Contents). c.providers) r.3 ∙ q.2.1,
        ),
      )

  stop_first-Ends :
      {E : String → System H → Type 0} (b : Bool) (t : System H)
      → (b ≡ true → s.enabled ≡ true)
      → At s.id v Stopped (view t)
      → Ends
          (λ _ t'. At s.id v Stopped (view t'))
          E
          (when b (ignore_error (on_pups (stop_pup host.machine s.id))) t)
  unfolding health_check_pup_state pup_enabled
  stop_first-Ends false t e a = returned a
  stop_first-Ends true t e a = ignored-Ends (
      on_pups-Ends (stop_pup host.machine s.id) t (λ _. At s.id v Stopped) (At s.id v Stopped)
        (stop_pup-Ends host.machine t.dogebox s.id v t.pups a (λ stats p' q. (inl (e refl), q.1))))

  module _ (w : View) (Q : PupState → Type 0) (m : (p' : PupState) → Q p' → Keeps p') where
    removed-Ends :
        (t : System H)
        → At s.id w Q (view t)
        → Ends
            (λ _ t'. At s.id w Q (view t'))
            (λ _ t'. At s.id w IsBrokenUpgrade (view t'))
            (remove_container host s t)
    unfolding remove_container
    removed-Ends t a =
        and_then-Ends
          (broken_patch-Ends host s "nix_apply_failed" w _ t a (breaks_upgrade Q _ refl m))
          (λ _ t a. ignored-Ends (call-Ends _ t (At s.id w Q) a))

    added-Ends :
        (new_state : PupState) (d : DogeboxState) (t : System H)
        → At s.id w Q (view t)
        → Ends
            (λ _ t'. At s.id w Q (view t'))
            (λ _ t'. At s.id w IsBrokenUpgrade (view t'))
            (add_container host s new_state d t)
    unfolding add_container
    added-Ends new_state d t a =
        and_then-Ends
          (broken_patch-Ends host s "nix_apply_failed" w _ t a (breaks_upgrade Q _ refl m))
          (λ _ t a. ignored-Ends (call-Ends _ t (At s.id w Q) a))

    got-Ends :
        (t : System H)
        → At s.id w Q (view t)
        → Ends
            (λ r t'. Q r.0 × At s.id w Q (view t'))
            (λ _ t'. At s.id w IsBrokenUpgrade (view t'))
            (handled host s "state_update_failed" (on_pups (get_pup s.id) t))
    got-Ends t a =
        handled-Ends host s _ w Q IsBrokenUpgrade
          (on_pups-Ends (get_pup s.id) t (λ r w'. Q r.0 × At s.id w Q w') (At s.id w Q)
            (get_pup-Ends host.machine t.dogebox s.id w t.pups a))
          (breaks_upgrade Q _ refl m)

  -- The rest of the upgrade, once the snapshot is there.
  pub after_snapshot-Ends :
      (source target : String) (w : View) (t : System H)
      → At s.id w Stopped (view t)
      → Ends
          (λ _ t'. At s.id w (Upgraded target) (view t'))
          (λ _ t'. At s.id w IsBrokenUpgrade (view t'))
          (after_snapshot host source target s t)
  unfolding after_snapshot health_check_pup_state set_pup_installation set_pup_version
      set_pup_manifest
  after_snapshot-Ends source target w t a =
      and_then-Ends
        (broken_call-Ends host s "manifest_fetch_failed" w {Q = Stopped} _ t a
          (breaks_upgrade Stopped _ refl Stopped-Keeps))
        (λ manifest t a.
          and_then-Ends
            (broken_update-Ends host s "state_update_failed" w {Q = (Moved target)} _ t a
              (λ stats p' q. (refl, q.0, (Stopped-Keeps p' q).1))
              (breaks_upgrade (Moved target) _ refl (λ p' q. (q.1, q.2))))
            (λ _ t a.
              and_then-Ends
                (total_call-Ends (host.clear_cache_entry s.id) t (At s.id w (Moved target)) a.1)
                (λ _ t a.
                  and_then-Ends
                    (broken_call-Ends host s "download_failed" w {Q = (Moved target)} _ t a
                      (breaks_upgrade (Moved target) _ refl (λ p' q. (q.1, q.2))))
                    (λ _ t a.
                      and_then-Ends
                        (broken_hash-Ends host s "nix_hash_mismatch" w {Q = (Moved target)} _ _ _ t
                          a (breaks_upgrade (Moved target) _ refl (λ p' q. (q.1, q.2))))
                        (λ _ t a.
                          and_then-Ends (got-Ends w (Moved target) (λ p' q. (q.1, q.2)) t a)
                            (λ updated t a.
                              and_then-Ends
                                (broken_call-Ends host s "storage_creation_failed" w
                                  {Q = (Moved target)} _ t a.1
                                  (breaks_upgrade (Moved target) _ refl (λ p' q. (q.1, q.2))))
                                (λ _ t a.
                                  and_then-Ends
                                    (broken_patch-Ends host s "nix_apply_failed" w
                                      {Q = (Moved target)} _ t a
                                      (breaks_upgrade (Moved target) _ refl (λ p' q. (q.1, q.2))))
                                    (λ _ t' a.
                                      and_then-Ends
                                        (when-Ends s.enabled (remove_container host s)
                                          (removed-Ends w (Moved target) (λ p' q. (q.1, q.2)) t' a)
                                          a)
                                        (λ _ t' a.
                                          and_then-Ends
                                            (broken_update-Ends host s "state_update_failed" w
                                              {Q = (Upgraded target)} (ready_and s.enabled) t' a
                                              (ready_again target)
                                              (breaks_upgrade (Upgraded target) _ refl
                                                (λ p' q. (inr q.2, q.3))))
                                            (λ new_state t' a.
                                              when-Ends s.enabled
                                                (add_container host s new_state t.dogebox)
                                                (added-Ends w (Upgraded target)
                                                  (λ p' q. (inr q.2, q.3)) new_state t.dogebox t'
                                                  a.1)
                                                a.1))))))))))

module _ {H : Type 0} (host : Host H) where
  -- If the pup is stored, and is as enabled as in the job's copy, then an upgrade that reports no error
  -- leaves it ready, at the target version and enabled as before, with a snapshot of the job's copy. An upgrade
  -- that reports an error could not write the snapshot, and then the pup keeps its version and manifest, or
  -- wrote it, and then the pup is broken for one of the reasons of the upgrade. In every case the pup's config
  -- and providers, every other pup and the state of the Dogebox are as before.
  pub upgrade_pup-Upgrades :
      (source target : String) (s p : PupState) (t : System H)
      → t.pups.state s.id ≡ some p
      → p.enabled ≡ s.enabled
      → Ends
          (λ _ t'.
            At s.id
              (snapshotted s (view t))
              (λ p'.
                (p'.installation ≡ ready)
                × (p'.version ≡ target)
                × (p'.enabled ≡ s.enabled)
                × KeepsData p p')
              (view t'))
          (λ _ t'.
            At s.id (view t) (λ p'. IsAsEnabled s.enabled p' × (contents p' ≡ contents p)) (view t')
            ⊎ At s.id
                (snapshotted s (view t))
                (λ p'. IsBrokenBy upgrade_reasons p' × (IsAsEnabled s.enabled p' × KeepsData p p'))
                (view t'))
          (upgrade_pup host source target s t)
  unfolding upgrade_pup
  upgrade_pup-Upgrades source target s p t h e =
      let v = view t in
      let Before = At s.id v (Stopped host s p v) in
      let After = At s.id (snapshotted s v) (Stopped host s p v) in
      and_then-Ends
        (stop_first-Ends host s p v s.enabled t (λ b. b)
          (stored-At s.id v (Stopped host s p v) p h (inr e, refl)))
        (λ _ t₁ a.
          and_then-Ends
            (Ends-map
              (on_pups-Ends (create_snapshot host.machine s) t₁ (λ _. After) Before
                (create_snapshot-Ends host.machine t₁.dogebox s.id v s t₁.pups Before After a
                  (snapshot-At s v (view t₁) (Stopped host s p v) a)))
              (λ _ _ q. q) (λ _ _ q. inl q))
            (λ _ t₂ a.
              Ends-map (after_snapshot-Ends host s p v source target (snapshotted s v) t₂ a)
                (λ _ _ q. q) (λ _ _ q. inr q)))
