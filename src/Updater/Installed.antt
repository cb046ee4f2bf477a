-- ===== src/Updater/Installed.antt =====
-- How the installation of a pup ends (installPup of pkg/system/updater.go).
use dogeboxd.Base.{String, ◌≡◌, refl, true, some, List, [], ◌∷◌, ◌==◌, Map, any}
use dogeboxd.Base.Steps.{Ends, returned, and_then-Ends}
use dogeboxd.Action.{InstallPup}
use dogeboxd.Pups.State.{
  PupState, PupManifest, installing, ready, set_pup_broken_reason, set_pup_installation,
  pup_enabled,
}
use dogeboxd.Pups.Manager.{health_check_pup_state}
use dogeboxd.Updater.Host.{Host, System}
use dogeboxd.Updater.Install.{install_pup}
use dogeboxd.Updater.View.{At, IsBrokenBy, Breaks, stored-At}
use dogeboxd.Updater.Logic.{
  view, broken_call-Ends, broken_patch-Ends, broken_hash-Ends, broken_update-Ends,
}

-- What the upgrade of a pup changes and its installation does not.
pub record Contents : Type 0 where
  pub version : String
  pub manifest : PupManifest
  pub config : Map String
  pub providers : Map String

abbrev pub contents : PupState → Contents
contents p = record {
  version = p.version;
  manifest = p.manifest;
  config = p.config;
  providers = p.providers;
}

abbrev pub install_reasons : List String
install_reasons =
    "state_update_failed" ∷ "download_failed" ∷ "nix_hash_mismatch" ∷ "storage_creation_failed"
    ∷ "delegate_key_creation_failed" ∷ "delegate_key_write_failed" ∷ "enable_failed"
    ∷ "nix_apply_failed" ∷ []

abbrev pub Kept : PupState → PupState → Type 0
Kept p p' = contents p' ≡ contents p

abbrev pub IsBrokenKept : List String → PupState → PupState → Type 0
IsBrokenKept reasons p p' = IsBrokenBy reasons p' × Kept p p'

abbrev pub IsOneOf : String → List String → Type 0
IsOneOf reason reasons = any (λ r. r == reason) reasons ≡ true

pub breaks :
    (reasons : List String) (p : PupState) (Q : PupState → Type 0) (reason : String)
    → IsOneOf reason reasons
    → ((p' : PupState) → Q p' → Kept p p')
    → Breaks reason Q (IsBrokenKept reasons p)
unfolding set_pup_broken_reason set_pup_installation health_check_pup_state
breaks reasons p Q reason m k stats p' q = ((refl, m), k p' q)

module _ {H : Type 0} (host : Host H) where
  -- If the pup is stored, then an installation that reports no error leaves it ready and enabled, and one
  -- that reports an error leaves it broken for one of the reasons of the installation, also when saving the
  -- pup fails. Either way its version, manifest, config and providers, every other pup, the snapshots and
  -- the state of the Dogebox are as before.
  pub install_pup-Installs :
      (selection : InstallPup) (token : String) (s p : PupState) (t : System H)
      → t.pups.state s.id ≡ some p
      → Ends
          (λ _ t'.
            At s.id
              (view t)
              (λ p'. (p'.installation ≡ ready) × (p'.enabled ≡ true) × (contents p' ≡ contents p))
              (view t'))
          (λ _ t'. At s.id (view t) (IsBrokenKept install_reasons p) (view t'))
          (install_pup host selection token s t)
  unfolding install_pup set_pup_installation pup_enabled health_check_pup_state
  install_pup-Installs selection token s p t h =
      let v = view t in
      let Q = λ (p' : PupState). (p'.installation ≡ installing) × Kept p p' in
      let R = λ (p' : PupState). (p'.installation ≡ installing) × (p'.enabled ≡ true) × Kept p p' in
      let S = λ (p' : PupState). (p'.installation ≡ ready) × (p'.enabled ≡ true) × Kept p p' in
      let bq = λ (r : String) (m : IsOneOf r install_reasons).
        breaks install_reasons p Q r m (λ p' q. q.1) in
      let br = λ (r : String) (m : IsOneOf r install_reasons).
        breaks install_reasons p R r m (λ p' q. q.2) in
      let bs = λ (r : String) (m : IsOneOf r install_reasons).
        breaks install_reasons p S r m (λ p' q. q.2) in
      and_then-Ends
        (broken_update-Ends host s "state_update_failed" v {Q = Q} _ t
          (stored-At s.id v (Kept p) p h refl) (λ stats p' k. (refl, k)) (bq _ refl))
        (λ _ t a.
          and_then-Ends (broken_call-Ends host s "download_failed" v {Q = Q} _ t a.1 (bq _ refl))
            (λ _ t a.
              and_then-Ends
                (broken_hash-Ends host s "nix_hash_mismatch" v {Q = Q} _ _ _ t a (bq _ refl))
                (λ _ t a.
                  and_then-Ends
                    (broken_call-Ends host s "storage_creation_failed" v {Q = Q} _ t a (bq _ refl))
                    (λ _ t a.
                      and_then-Ends
                        (broken_call-Ends host s "delegate_key_creation_failed" v {Q = Q} _ t a
                          (bq _ refl))
                        (λ _ t a.
                          and_then-Ends
                            (broken_call-Ends host s "delegate_key_write_failed" v {Q = Q} _ t a
                              (bq _ refl))
                            (λ _ t a.
                              and_then-Ends
                                (broken_call-Ends host s "delegate_key_write_failed" v {Q = Q} _ t a
                                  (bq _ refl))
                                (λ _ t a.
                                  and_then-Ends
                                    (broken_call-Ends host s "storage_creation_failed" v {Q = Q} _ t
                                      a (bq _ refl))
                                    (λ _ t a.
                                      and_then-Ends
                                        (broken_update-Ends host s "enable_failed" v {Q = R} _ t a
                                          (λ stats p' q. (q.0, refl, q.1)) (br _ refl))
                                        (λ _ t a.
                                          and_then-Ends
                                            (broken_patch-Ends host s "nix_apply_failed" v {Q = R} _
                                              t a.1 (br _ refl))
                                            (λ _ t a.
                                              and_then-Ends
                                                (broken_update-Ends host s "state_update_failed" v
                                                  {Q = S} _ t a (λ stats p' q. (refl, q.1, q.2))
                                                  (bs _ refl))
                                                (λ _ t a. returned a.1)))))))))))
