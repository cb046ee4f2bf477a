-- ===== src/Nix/Patch.antt =====
-- A patch of the nix configuration (pkg/system/nix/nix-patch.go): pending operations on the files of the
-- nix directory, which are applied together, after a copy of the directory and before a rebuild of the
-- system. The files, the copy and the rebuild are the record `NixHost`; a failed call returns its
-- message.
use Prim.Native.String
use dogeboxd.Base.{
  String, Bool, true, false, Option, none, some, List, [], ◌∷◌, ◌++◌, if◌then◌else◌,
}

pub data PatchState : Type 0 where
  pending cancelled applying applied rolling_back errored : PatchState

-- An operation changes the nix directory, and may fail.
abbrev pub Operation : Type 0 → Type 0
Operation W = W → W × Option String

pub record NixPatch (W : Type 0) : Type 0 where
  pub state : PatchState
  pub operations : List (Operation W)
  pub error : Option String

pub record NixHost (W : Type 0) : Type 0 where
  -- snapshot: makes a directory and copies the nix directory there
  pub snapshot : Operation W
  -- the two steps of doRollback: the removal of the nix directory, and the copy back
  pub remove_nix_dir : Operation W
  pub copy_back : Operation W
  -- the removal of the snapshot, whose failure is only logged
  pub remove_snapshot : W → W
  -- RebuildBoot, if the flag is set, or Rebuild
  pub rebuild : Bool → Operation W
  -- postRebuild, which the code starts and does not wait for
  pub post_rebuild : W → W

pub record ApplyOptions : Type 0 where
  pub dangerous_no_rebuild : Bool
  pub rebuild_boot : Bool

abbrev pub not_pending : String
not_pending = "patch already applied or cancelled"

abbrev pub is_pending : PatchState → Bool
is_pending pending = true
is_pending _ = false

abbrev pub is_applying : PatchState → Bool
is_applying applying = true
is_applying _ = false

-- The patch, the world and the error that a call returns.
abbrev pub PatchResult : Type 0 → Type 0
PatchResult W = NixPatch W × W × Option String

module _ {W : Type 0} where
  -- NewNixPatch
  abbrev pub new_nix_patch : NixPatch W
  new_nix_patch = record { state = pending; operations = []; error = none }

  unfoldable pub add : Operation W → NixPatch W → NixPatch W × Option String
  add op np =
      if is_pending np.state
      then (record np { operations = np.operations ++ op ∷ [] }, none)
      else (np, some not_pending)

  unfoldable pub cancel : NixPatch W → NixPatch W × Option String
  cancel np =
      if is_pending np.state
      then (record np { state = cancelled }, none)
      else (np, some not_pending)

  -- One operation, and then the rest unless it fails.
  abbrev pub then_unless : W × Option String → Operation W → W × Option String
  then_unless (w, some e) rest = (w, some e)
  then_unless (w, none) rest = rest w

  unfoldable pub run_operations : List (Operation W) → Operation W
  run_operations [] w = (w, none)
  run_operations (op ∷ ops) w = then_unless (op w) (run_operations ops)

module _ {W : Type 0} (host : NixHost W) where
  abbrev pub with_patch : NixPatch W → W × Option String → PatchResult W
  with_patch np (w, e) = (np, w, e)

  unfoldable pub do_rollback : NixPatch W → W → PatchResult W
  do_rollback np w =
      if is_applying np.state
      then with_patch (record np { state = rolling_back })
          (then_unless (host.remove_nix_dir w) host.copy_back)
      else (np, w, none)

  abbrev pub rolled_back : String → PatchResult W → PatchResult W
  rolled_back e (np, w, some failure) =
      (np, w, some (String.◌++◌ "failed to actually roll back: " failure))
  rolled_back e (np, w, none) = (record np { state = errored }, w, some e)

  unfoldable pub trigger_rollback : String → NixPatch W → W → PatchResult W
  trigger_rollback e np w =
      rolled_back e (do_rollback (record np { state = rolling_back; error = some e }) w)

  abbrev pub finished : NixPatch W → W → PatchResult W
  finished np w = (record np { state = applied }, host.remove_snapshot w, none)

  abbrev pub rebuilt : NixPatch W → W × Option String → PatchResult W
  rebuilt np (w, some e) = trigger_rollback e np w
  rebuilt np (w, none) = finished np (host.post_rebuild w)

  abbrev pub operated : ApplyOptions → NixPatch W → W × Option String → PatchResult W
  operated options np (w, some e) = trigger_rollback e np w
  operated options np (w, none) =
      if options.dangerous_no_rebuild
      then finished np w
      else rebuilt np (host.rebuild options.rebuild_boot w)

  abbrev pub snapshotted : ApplyOptions → NixPatch W → W × Option String → PatchResult W
  snapshotted options np (w, some e) = (
    record np { state = errored; error = some e },
    w,
    some (String.◌++◌ "failed to snapshot: " e),
  )
  snapshotted options np (w, none) =
      operated options (record np { state = applying }) (run_operations np.operations w)

  -- ApplyCustom
  unfoldable pub apply_custom : ApplyOptions → NixPatch W → W → PatchResult W
  apply_custom options np w =
      if is_pending np.state
      then snapshotted options np (host.snapshot w)
      else (np, w, some not_pending)

  -- Apply
  unfoldable pub apply : NixPatch W → W → PatchResult W
  apply np w = apply_custom (record { dangerous_no_rebuild = false; rebuild_boot = false }) np w
