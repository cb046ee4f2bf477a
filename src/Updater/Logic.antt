-- ===== src/Updater/Logic.antt =====
-- How the calls of the updater change what the manager holds: the rules by which its jobs
-- (pkg/system/updater.go) are taken apart.
use dogeboxd.Base.{String, Bool, true, false, List, ◌==◌, Map, if◌then◌else◌, Bool-cases, inl, inr}
use dogeboxd.Base.Steps.{
  Result, ok, err, Step, Ends, returned, failed, raise, pure, and_then-Ends, attempted,
  attempted-Ends, when,
}
use dogeboxd.Nix.Patch.{Operation}
use dogeboxd.Pups.Health.{RunStatus}
use dogeboxd.Pups.State.{PupState, PupManifest, UpdateFn}
use dogeboxd.Pups.Manager.{Managed, update_pup}
use dogeboxd.Updater.Host.{Host, System, with_pups, on_pups, call, apply_patch, update}
use dogeboxd.Updater.View.{View, view_of, At, changed, Breaks, update_pup-Ends}
use dogeboxd.Updater.Install.{mark_pup_broken, handled, verify_nix_file_hash}

abbrev pub view : {H : Type 0} → System H → View
view t = view_of t.dogebox t.pups

module _ {H : Type 0} {A : Type 0} where
  with_pups-Ends :
      (t : System H) (Q : A → View → Type 0) (E : View → Type 0) {r : Result A × Managed H}
      → Ends (λ a m'. Q a (view_of t.dogebox m')) (λ _ m'. E (view_of t.dogebox m')) r
      → Ends (λ a t'. Q a (view t')) (λ _ t'. E (view t')) (with_pups t r)
  with_pups-Ends t Q E (returned q) = returned q
  with_pups-Ends t Q E (failed q) = failed q

  call_result :
      (t : System H) (P : View → Type 0) (r : Result A × H)
      → P (view t)
      → Ends
          (λ _ t'. P (view t'))
          (λ _ t'. P (view t'))
          (with_pups t (r.0, record t.pups { machine = r.1 }))
  call_result t P (ok a, h) p = returned p
  call_result t P (err e, h) p = failed p

  pub call-Ends :
      (m : Step H A) (t : System H) (P : View → Type 0)
      → P (view t)
      → Ends (λ _ t'. P (view t')) (λ _ t'. P (view t')) (call m t)
  unfolding call on_pups
  call-Ends m t P p = call_result t P (m t.pups.machine) p

  -- A call on the manager ends as it does on the manager alone.
  pub on_pups-Ends :
      (m : Step (Managed H) A) (t : System H) (Q : A → View → Type 0) (E : View → Type 0)
      → Ends (λ a m'. Q a (view_of t.dogebox m')) (λ _ m'. E (view_of t.dogebox m')) (m t.pups)
      → Ends (λ a t'. Q a (view t')) (λ _ t'. E (view t')) (on_pups m t)
  unfolding on_pups
  on_pups-Ends m t Q E h = with_pups-Ends t Q E h

  -- A call whose result is dropped.
  pub call_keeps :
      (m : Step H A) (t : System H) (P : View → Type 0) → P (view t) → P (view (call m t).1)
  unfolding call on_pups
  call_keeps m t P p = p

module _ {H : Type 0} (host : Host H) where
  pub update-Ends :
      (id : String) (us : List UpdateFn) (t : System H) (v : View) (Q R : PupState → Type 0)
      → At id v Q (view t)
      → ((stats : Map RunStatus) (p : PupState) → Q p → R (changed us stats p))
      → Ends
          (λ p' t'. R p' × At id v R (view t'))
          (λ _ t'. At id v R (view t'))
          (update host id us t)
  unfolding update
  update-Ends id us t v Q R a step =
      on_pups-Ends (update_pup host.machine id us) t (λ p w. R p × At id v R w) (At id v R)
        (update_pup-Ends host.machine t.dogebox id v us t.pups a step)

  pub apply_patch-Ends :
      (ops : List (Operation H)) (t : System H) (P : View → Type 0)
      → P (view t)
      → Ends (λ _ t'. P (view t')) (λ _ t'. P (view t')) (apply_patch host ops t)
  unfolding apply_patch
  apply_patch-Ends ops t P p = call-Ends _ t P p

  -- The pup that a failed step leaves is marked as broken.
  pub handled-Ends :
      {A : Type 0} (s : PupState) (reason : String) (v : View) (Q R : PupState → Type 0)
      {Q' : A → System H → Type 0} {r : Result A × System H}
      → Ends Q' (λ _ t'. At s.id v Q (view t')) r
      → Breaks reason Q R
      → Ends Q' (λ _ t'. At s.id v R (view t')) (handled host s reason r)
  unfolding mark_pup_broken
  handled-Ends s reason v Q R (returned q) step = returned q
  handled-Ends s reason v Q R (failed {e = e} {s = t} a) step =
      and_then-Ends (update-Ends s.id _ t v Q R a step) (λ p t' q. failed q.1)

module _ {H : Type 0} where
  verified-Ends :
      (P : View → Type 0) (id : String) (m : PupManifest) (dev : Bool) (actual : String)
      (t : System H)
      → P (view t)
      → Ends
          (λ _ t'. P (view t'))
          (λ _ t'. P (view t'))
          ((if actual == m.nix_file_sha256
              then pure tt
              else (if dev then pure tt else raise "nix file hash mismatch"))
            t)
  verified-Ends P id m dev actual t p = elim (Bool-cases (actual == m.nix_file_sha256)) [
    | inl e ↦ rw e (returned p)
    | inr e ↦ rw e (elim (Bool-cases dev) [ inl d ↦ rw d (returned p) | inr d ↦ rw d (failed p) ])
  ]

module _ {H : Type 0} (host : Host H) (s : PupState) (reason : String) (v : View)
    {Q R : PupState → Type 0} where
  -- A step that does not touch the pups and whose error marks the pup as broken.
  pub broken_call-Ends :
      {A : Type 0} (m : Step H A) (t : System H)
      → At s.id v Q (view t)
      → Breaks reason Q R
      → Ends
          (λ _ t'. At s.id v Q (view t'))
          (λ _ t'. At s.id v R (view t'))
          (handled host s reason (call m t))
  broken_call-Ends m t a = handled-Ends host s reason v Q R (call-Ends m t (At s.id v Q) a)

  pub broken_patch-Ends :
      (ops : List (Operation H)) (t : System H)
      → At s.id v Q (view t)
      → Breaks reason Q R
      → Ends
          (λ _ t'. At s.id v Q (view t'))
          (λ _ t'. At s.id v R (view t'))
          (handled host s reason (apply_patch host ops t))
  broken_patch-Ends ops t a =
      handled-Ends host s reason v Q R (apply_patch-Ends host ops t (At s.id v Q) a)

  pub broken_hash-Ends :
      (id : String) (m : PupManifest) (dev : Bool) (t : System H)
      → At s.id v Q (view t)
      → Breaks reason Q R
      → Ends
          (λ _ t'. At s.id v Q (view t'))
          (λ _ t'. At s.id v R (view t'))
          (handled host s reason (verify_nix_file_hash host id m dev t))
  unfolding verify_nix_file_hash
  broken_hash-Ends id m dev t a = handled-Ends host s reason v Q R (
      and_then-Ends (call-Ends (host.nix_file_hash id m) t (At s.id v Q) a)
        (λ actual t'. verified-Ends (At s.id v Q) id m dev actual t'))

  -- An update whose error marks the pup as broken.
  pub broken_update-Ends :
      {Q' : PupState → Type 0} (us : List UpdateFn) (t : System H)
      → At s.id v Q' (view t)
      → ((stats : Map RunStatus) (p : PupState) → Q' p → Q (changed us stats p))
      → Breaks reason Q R
      → Ends
          (λ p' t'. Q p' × At s.id v Q (view t'))
          (λ _ t'. At s.id v R (view t'))
          (handled host s reason (update host s.id us t))
  broken_update-Ends us t a step =
      handled-Ends host s reason v Q R (update-Ends host s.id us t v _ Q a step)

module _ {S : Type 0} where
  -- A step that is run on a condition.
  pub when-Ends :
      {Q : S → Type 0} {E : String → S → Type 0} (b : Bool) (m : Step S (Unit {0})) {s : S}
      → Ends (λ _ s. Q s) E (m s)
      → Q s
      → Ends (λ _ s. Q s) E (when b m s)
  when-Ends true m h q = h
  when-Ends false m h q = returned q

  pub ignored-Ends :
      {A : Type 0} {Q : S → Type 0} {E : String → S → Type 0} {r : Result A × S}
      → Ends (λ _ s. Q s) (λ _ s. Q s) r
      → Ends (λ (_ : Unit {0}) s. Q s) E (attempted r)
  ignored-Ends h = attempted-Ends h (λ _ _ q. q) (λ _ _ q. q)

-- A call that cannot fail.
pub total_call-Ends :
    {H : Type 0} {E : String → System H → Type 0} (g : H → H) (t : System H) (P : View → Type 0)
    → P (view t)
    → Ends (λ _ t'. P (view t')) E (call (λ h. (ok tt, g h)) t)
unfolding call on_pups
total_call-Ends g t P p = returned p
