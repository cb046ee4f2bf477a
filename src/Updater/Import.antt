-- ===== src/Updater/Import.antt =====
-- The import of the blockchain data (importBlockchainData of pkg/system/updater.go).
use dogeboxd.Base.{String, true, false, Option, none, some, [], ◌∷◌, if◌then◌else◌}
use dogeboxd.Base.Steps.{Result, ok, err, Step, pure, raise, gets, ignore_error, ◌>>=◌, ◌>>◌}
use dogeboxd.Pups.State.{PupState, pup_enabled}
use dogeboxd.Updater.Host.{Host, System, call, apply_patch, update}

module _ {H : Type 0} (host : Host H) where
  abbrev pub stopped : String → Result (Unit {0}) × System H → Result (Unit {0}) × System H
  stopped id (ok _, t) = (ok tt, t)
  stopped id (err e, t) = (ignore_error (update host id (pup_enabled true ∷ [])) >> raise e) t

  -- The pup is disabled and stopped; if it cannot be stopped, it is enabled again.
  unfoldable pub pause : String → Step (System H) (Unit {0})
  pause id = do
    update host id (pup_enabled false ∷ [])
    λ t. stopped id (call (host.stop_container id) t)

  -- The pup file of the pup that is now stored; errors are only logged.
  abbrev pub write_again : Option PupState → Step (System H) (Unit {0})
  write_again none = pure tt
  write_again (some p) = do
    t ← gets (λ t. t)
    ignore_error (apply_patch host (host.write_pup_file p t.dogebox ∷ []))

  -- The first error of the import and of the second update is the job's error.
  abbrev pub resumed :
      String → Result (Unit {0}) → Result PupState × System H → Result (Unit {0}) × System H
  resumed id (err e) (err e', t) = (err e, t)
  resumed id (ok _) (err e', t) = (err e', t)
  resumed id r (ok _, t) = (r, (write_again (t.pups.state id) t).1)

  abbrev pub imported : String → Result (Unit {0}) × System H → Result (Unit {0}) × System H
  imported id (r, t) = resumed id r (update host id (pup_enabled true ∷ []) t)

  abbrev pub import_with : Option PupState → Step (System H) (Unit {0})
  import_with none = call host.import_blockchain
  import_with (some p) =
      if p.enabled
      then (do pause p.id; λ t. imported p.id (call host.import_blockchain t))
      else call host.import_blockchain

  -- importBlockchainData, with the pup named Dogecoin Core that the loop over the map of pups stops at, if
  -- there is one
  unfoldable pub import_blockchain_data : Option PupState → Step (System H) (Unit {0})
  import_blockchain_data pup = import_with pup
