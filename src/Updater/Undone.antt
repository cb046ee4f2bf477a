-- ===== src/Updater/Undone.antt =====
-- A rollback undoes an upgrade (upgradePup and rollbackPupUpgrade of pkg/system/updater.go).
use dogeboxd.Base.{
  String, ◌≡◌, refl, ap, ◌∙◌, false, Option, none, some, List, ◌==◌, Map, inl, inr, Bool-cases,
}
use dogeboxd.Base.Steps.{Ends, Ends-map, Ends_state}
use dogeboxd.Pups.Health.{Field}
use dogeboxd.Pups.State.{PupState, ready, merged_config, or_old, has_field}
use dogeboxd.Pups.Manager.{snapshot_of}
use dogeboxd.Updater.Host.{Host, System}
use dogeboxd.Updater.Upgrade.{upgrade_pup, rollback_pup_upgrade}
use dogeboxd.Updater.View.{View, At, At-map}
use dogeboxd.Updater.Logic.{view}
use dogeboxd.Updater.Installed.{contents}
use dogeboxd.Updater.Upgraded.{IsAsEnabled, KeepsData, upgrade_pup-Upgrades, Stopped-Keeps}
use dogeboxd.Updater.RolledBack.{restored, rollback_pup_upgrade-RollsBack}

or_old_self : (o : Option String) → or_old o o ≡ o
or_old_self none = refl
or_old_self (some v) = refl

merged_config_at :
    (sections : List (List Field)) (c : Map String) (k : String)
    → merged_config sections c c k ≡ c k
merged_config_at sections c k = elim (Bool-cases (has_field sections k)) [
  | inl e ↦ rw e (or_old_self (c k))
  | inr e ↦ rw e refl
]

-- The snapshot of a pup, laid over a pup with the same config and providers, is the pup.
restored-snapshot_of : (s p : PupState) → KeepsData s p → restored (snapshot_of s) p ≡ contents s
restored-snapshot_of s p h =
    rw (h.0, h.1)
      (λ i. record {
        version = s.version;
        manifest = s.manifest;
        config = λ k. merged_config_at s.manifest.sections s.config k i;
        providers = λ k. or_old_self (s.providers k) i;
      })

-- No pup but `id` differs.
abbrev pub SameOthers : {H : Type 0} → String → System H → System H → Type 0
SameOthers id t t' = (j : String) → (id == j) ≡ false → t'.pups.state j ≡ t.pups.state j

-- The pup is stored, ready, and enabled and with contents as `s`.
pub record IsBack {H : Type 0} (s : PupState) (t t' : System H) : Type 0 where
  pub pup : PupState
  pub is_stored : t'.pups.state s.id ≡ some pup
  pub is_ready : pup.installation ≡ ready
  pub is_as_enabled : pup.enabled ≡ s.enabled
  pub same_contents : contents pup ≡ contents s
  pub others : SameOthers s.id t t'

module _ {H : Type 0} (host : Host H) where
  -- What an upgrade leaves, however it ends.
  pub record IsLeft (s : PupState) (t t' : System H) : Type 0 where
    pub pup : PupState
    pub is_stored : t'.pups.state s.id ≡ some pup
    pub is_as_enabled : IsAsEnabled s.enabled pup
    pub same_data : KeepsData s pup
    pub others : SameOthers s.id t t'

  IsLeft-At :
      (s : PupState) (t t' : System H) (v : View)
      → v.state ≡ t.pups.state
      → At s.id v (λ p'. IsAsEnabled s.enabled p' × KeepsData s p') (view t')
      → IsLeft s t t'
  IsLeft-At s t t' v e a = record {
    pup = a.pup;
    is_stored = a.is_stored;
    is_as_enabled = a.is_in.0;
    same_data = a.is_in.1;
    others = λ j n. a.others j n ∙ ap (λ (f : Map PupState). f j) e;
  }

  upgrade_pup-IsLeft :
      (source target : String) (s : PupState) (t : System H)
      → t.pups.state s.id ≡ some s
      → IsLeft s t (upgrade_pup host source target s t).1
  upgrade_pup-IsLeft source target s t h =
      Ends_state (upgrade_pup-Upgrades host source target s s t h refl)
        (λ _ t' a. IsLeft-At s t t' _ refl (At-map s.id _ _ a (λ p' q. (inr q.2, q.3))))
        (λ _ t' q. elim q [
          | inl a ↦ IsLeft-At s t t' _ refl (At-map s.id _ _ a (Stopped-Keeps host s s (view t)))
          | inr a ↦ IsLeft-At s t t' _ refl (At-map s.id _ _ a (λ p' q. q.1))
        ])

  others-At :
      (s : PupState) (t t₁ t' : System H) (Q : PupState → Type 0)
      → IsLeft s t t₁
      → At s.id (view t₁) Q (view t')
      → SameOthers s.id t t'
  others-At s t t₁ t' Q l a j n = a.others j n ∙ l.others j n

  IsBack-At :
      (s : PupState) (t t₁ t' : System H) (v : View) (l : IsLeft s t t₁)
      → v.state ≡ t₁.pups.state
      → At s.id v
          (λ p'.
            (p'.installation ≡ ready)
            × (p'.enabled ≡ s.enabled)
            × (contents p' ≡ restored (snapshot_of s) l.pup))
          (view t')
      → IsBack s t t'
  IsBack-At s t t₁ t' v l e a = record {
    pup = a.pup;
    is_stored = a.is_stored;
    is_ready = a.is_in.0;
    is_as_enabled = a.is_in.1;
    same_contents = a.is_in.2 ∙ restored-snapshot_of s l.pup l.same_data;
    others = λ j n. a.others j n ∙ ap (λ (f : Map PupState). f j) e ∙ l.others j n;
  }

  -- If the job's copy of a pup is what is stored, and an upgrade of the pup, however it ended, has left
  -- a snapshot of that copy, then a rollback of the pup that reports no error brings back the pup's
  -- version, manifest, config, providers and enabled flag, and leaves it ready. However the rollback ends,
  -- every other pup is as before the upgrade.
  pub rollback-upgrade :
      (source target : String) (s : PupState) (t : System H)
      → t.pups.state s.id ≡ some s
      → (upgrade_pup host source target s t).1.pups.snapshots s.id ≡ some (snapshot_of s)
      → Ends
          (λ _ t'. IsBack s t t')
          (λ _ t'. SameOthers s.id t t')
          (rollback_pup_upgrade host s (upgrade_pup host source target s t).1)
  rollback-upgrade source target s t h k =
      let t₁ = (upgrade_pup host source target s t).1 in
      let l = upgrade_pup-IsLeft source target s t h in
      Ends-map
        (rollback_pup_upgrade-RollsBack host s l.pup (snapshot_of s) t₁ l.is_stored k
          l.is_as_enabled)
        (λ _ t' q. elim q [
          | inl a ↦ IsBack-At s t t₁ t' _ l refl a
          | inr a ↦ IsBack-At s t t₁ t' _ l refl a
        ])
        (λ _ t' q. elim q [ inl a ↦ others-At s t t₁ t' _ l a | inr a ↦ others-At s t t₁ t' _ l a ])
