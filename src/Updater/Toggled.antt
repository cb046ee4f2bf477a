-- ===== src/Updater/Toggled.antt =====
-- The enabled flag of a pup after enablePup, disablePup and importBlockchainData (pkg/system/updater.go).
use dogeboxd.Base.{
  String, ◌≡◌, refl, sym, ◌∙◌, Bool, true, false, Option, none, some, Map, [], ◌∷◌, if◌then◌else◌,
}
use dogeboxd.Base.Steps.{
  Result, ok, err, Ends, Ends-map, Ends_state, returned, failed, and_then-Ends, ◌>>◌,
}
use dogeboxd.Pups.Health.{RunStatus}
use dogeboxd.Pups.State.{PupState, pup_enabled}
use dogeboxd.Pups.Manager.{health_check_pup_state, update_pup}
use dogeboxd.Updater.Host.{Host, System, call, update, on_pups}
use dogeboxd.Updater.Install.{enable_pup, disable_pup}
use dogeboxd.Updater.Import.{import_blockchain_data, imported, resumed, write_again, pause, stopped}
use dogeboxd.Updater.View.{View, At, At-map, changed, stored-At, put-At}
use dogeboxd.Updater.Logic.{view, update-Ends, call-Ends, apply_patch-Ends}
use dogeboxd.Updater.Installed.{contents}

-- As `p`, but enabled or not.
abbrev pub HasFlag : Bool → PupState → PupState → Type 0
HasFlag b p p' = (p'.enabled ≡ b) × (p'.installation ≡ p.installation) × (contents p' ≡ contents p)

setting :
    (b c : Bool) (p : PupState) (stats : Map RunStatus) (p' : PupState)
    → HasFlag c p p'
    → HasFlag b p (changed (pup_enabled b ∷ []) stats p')
unfolding health_check_pup_state pup_enabled
setting b c p stats p' q = (refl, q.1, q.2)

module _ {H : Type 0} (host : Host H) where
  -- If the pup is stored, then however enabling it ends, also with an error, it is enabled, and however
  -- disabling it ends, it is not; its installation state, version, manifest, config and providers, every
  -- other pup, the snapshots and the state of the Dogebox are as before.
  pub enable_pup-HasFlag :
      (s p : PupState) (t : System H)
      → t.pups.state s.id ≡ some p
      → Ends
          (λ _ t'. At s.id (view t) (HasFlag true p) (view t'))
          (λ _ t'. At s.id (view t) (HasFlag true p) (view t'))
          (enable_pup host s t)
        × Ends
            (λ _ t'. At s.id (view t) (HasFlag false p) (view t'))
            (λ _ t'. At s.id (view t) (HasFlag false p) (view t'))
            (disable_pup host s t)
  unfolding enable_pup disable_pup
  enable_pup-HasFlag s p t h =
      let v = view t in
      let a = stored-At s.id v (HasFlag p.enabled p) p h (refl, refl, refl) in
      (
        and_then-Ends
            (update-Ends host s.id (pup_enabled true ∷ []) t v _ (HasFlag true p) a
              (setting true p.enabled p))
            (λ _ t q. apply_patch-Ends host _ t (At s.id v (HasFlag true p)) q.1),
        and_then-Ends
            (update-Ends host s.id (pup_enabled false ∷ []) t v _ (HasFlag false p) a
              (setting false p.enabled p))
            (λ _ t q.
              and_then-Ends
                (call-Ends (host.stop_container s.id) t (At s.id v (HasFlag false p)) q.1)
                (λ _ t q. apply_patch-Ends host _ t (At s.id v (HasFlag false p)) q)),
      )

  -- Saving a pup always succeeds.
  abbrev pub CanSave : Type 0
  CanSave = (p : PupState) (h : H) → (h' : H) × (host.machine.save_pup p h ≡ (ok tt, h'))

  update_saves-Ends :
      (id : String) (b c : Bool) (p : PupState) (v : View) (t : System H)
      → CanSave
      → At id v (HasFlag c p) (view t)
      → Ends
          (λ _ t'. At id v (HasFlag b p) (view t'))
          (λ _ _. ⊥)
          (update host id (pup_enabled b ∷ []) t)
  unfolding update on_pups update_pup
  update_saves-Ends id b c p v t can a =
      let p' = changed (pup_enabled b ∷ []) t.pups.stats a.pup in
      let (h', e) = can p' t.pups.machine in
      rw (a.is_stored, e)
        (returned (
          put-At id v (view t) (HasFlag c p) (HasFlag b p) p' a
            (setting b c p t.pups.stats a.pup a.is_in)))

  module _ (id : String) (p : PupState) (v : View) (can : CanSave) where
    abbrev As : Bool → System H → Type 0
    As b t = At id v (HasFlag b p) (view t)

    again : (o : Option PupState) (t : System H) → As true t → As true (write_again host o t).1
    again none t a = a
    again (some q) t a =
        Ends_state
          (apply_patch-Ends host (host.write_pup_file q t.dogebox ∷ []) t (At id v (HasFlag true p))
            a)
          (λ _ _ x. x) (λ _ _ x. x)

    resumed-Ends :
        (r : Result (Unit {0})) {u : Result PupState × System H}
        → Ends (λ _ t'. As true t') (λ _ _. ⊥) u
        → Ends (λ _ t'. As true t') (λ _ t'. As true t') (resumed host id r u)
    resumed-Ends (ok tt) (returned {s = t} a) = returned (again (t.pups.state id) t a)
    resumed-Ends (err e) (returned {s = t} a) = failed (again (t.pups.state id) t a)
    resumed-Ends r (failed a) = absurd a

    imported-Ends :
        {u : Result (Unit {0}) × System H}
        → Ends (λ _ t'. As false t') (λ _ t'. As false t') u
        → Ends (λ _ t'. As true t') (λ _ t'. As true t') (imported host id u)
    imported-Ends (returned {a = a} {s = t} q) =
        resumed-Ends (ok a) (update_saves-Ends id true false p v t can q)
    imported-Ends (failed {e = e} {s = t} q) =
        resumed-Ends (err e) (update_saves-Ends id true false p v t can q)

    stopped-Ends :
        {u : Result (Unit {0}) × System H}
        → Ends (λ _ t'. As false t') (λ _ t'. As false t') u
        → Ends (λ _ t'. As false t') (λ _ t'. As true t') (stopped host id u)
    stopped-Ends (returned q) = returned q
    stopped-Ends (failed {s = t} q) =
        failed (
          Ends_state (update_saves-Ends id true false p v t can q) (λ _ _ x. x) (λ _ _ x. absurd x))

  as_before :
      (p : PupState) (v w : View)
      → p.enabled ≡ true
      → At p.id v (HasFlag true p) w
      → At p.id v (HasFlag p.enabled p) w
  as_before p v w e a = At-map p.id v w a (λ p' q. (q.0 ∙ sym e, q.1, q.2))

  imported_if :
      (b : Bool) (p : PupState) (v : View) (t : System H)
      → CanSave
      → p.enabled ≡ b
      → At p.id v (HasFlag p.enabled p) (view t)
      → Ends
          (λ _ t'. At p.id v (HasFlag p.enabled p) (view t'))
          (λ _ t'. At p.id v (HasFlag p.enabled p) (view t'))
          ((if b
              then (pause host p.id >> λ t. imported host p.id (call host.import_blockchain t))
              else call host.import_blockchain)
            t)
  unfolding pause
  imported_if false p v t can e a = call-Ends _ t (At p.id v (HasFlag p.enabled p)) a
  imported_if true p v t can e a =
      Ends-map
        (and_then-Ends
          (and_then-Ends
            (Ends-map (update_saves-Ends p.id false p.enabled p v t can a) (λ _ _ x. x)
              (λ _ _ x. absurd x))
            (λ _ t x.
              stopped-Ends p.id p v can
                (call-Ends (host.stop_container p.id) t (At p.id v (HasFlag false p)) x)))
          (λ _ t x.
            imported-Ends p.id p v can
              (call-Ends host.import_blockchain t (At p.id v (HasFlag false p)) x)))
        (λ _ t x. as_before p v (view t) e x) (λ _ t x. as_before p v (view t) e x)

  -- If saving a pup always succeeds and the pup that is found is stored, then however the import of the
  -- blockchain data ends, the pup is as enabled as before, with the same installation state and contents,
  -- and every other pup, the snapshots and the state of the Dogebox are as before.
  pub import_blockchain_data-HasFlag :
      (p : PupState) (t : System H)
      → CanSave
      → t.pups.state p.id ≡ some p
      → Ends
          (λ _ t'. At p.id (view t) (HasFlag p.enabled p) (view t'))
          (λ _ t'. At p.id (view t) (HasFlag p.enabled p) (view t'))
          (import_blockchain_data host (some p) t)
  unfolding import_blockchain_data
  import_blockchain_data-HasFlag p t can h =
      let v = view t in
      let a = stored-At p.id v (HasFlag p.enabled p) p h (refl, refl, refl) in
      imported_if p.enabled p v t can refl a
