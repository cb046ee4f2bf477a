-- ===== src/Nix/Applied.antt =====
-- What an applied patch leaves (ApplyCustom of pkg/system/nix/nix-patch.go).

use dogeboxd.Base.{
  String, ◌≡◌, refl, true, false, Option, none, some, List, [], ◌∷◌, ◌++◌, if◌then◌else◌,
  Bool-cases, inl, inr,
}
use dogeboxd.Nix.Patch.{
  applying, applied, errored, NixPatch, NixHost, ApplyOptions, Operation, PatchResult, add, cancel,
  is_pending, run_operations, then_unless, do_rollback, trigger_rollback, operated, rebuilt,
  snapshotted, apply_custom, not_pending,
}

module _ {W : Type 0} (host : NixHost W) where
  abbrev pub post_rebuilt : W × Option String → W × Option String
  post_rebuilt (w, none) = (host.post_rebuild w, none)
  post_rebuilt (w, some e) = (w, some e)

  -- The work of a patch alone: the operations and the rebuild.
  abbrev pub attempt : ApplyOptions → List (Operation W) → Operation W
  attempt options ops w =
      if options.dangerous_no_rebuild
      then run_operations ops w
      else then_unless (run_operations ops w)
          (λ w₁. post_rebuilt (host.rebuild options.rebuild_boot w₁))

  -- How a patch stands after its work: applied, without the snapshot, or with the error, in the world
  -- as the failing step left it.
  abbrev pub concluded : NixPatch W → W × Option String → PatchResult W
  concluded np (w, none) = (record np { state = applied }, host.remove_snapshot w, none)
  concluded np (w, some e) = (record np { state = errored; error = some e }, w, some e)

  trigger_rollback-eq :
      (e : String) (np : NixPatch W) (w : W)
      → trigger_rollback host e np w ≡ (record np { state = errored; error = some e }, w, some e)
  unfolding trigger_rollback do_rollback
  trigger_rollback-eq e np w = refl

  rebuilt-eq :
      (np : NixPatch W) (p : W × Option String) → rebuilt host np p ≡ concluded np (post_rebuilt p)
  rebuilt-eq np (w, none) = refl
  rebuilt-eq np (w, some e) = trigger_rollback-eq e np w

  operated-eq :
      (options : ApplyOptions) (np : NixPatch W) (p : W × Option String)
      → operated host options np p
        ≡ concluded np (
            if options.dangerous_no_rebuild
            then p
            else then_unless p (λ w₁. post_rebuilt (host.rebuild options.rebuild_boot w₁)))
  operated-eq options np (w, some e) = elim (Bool-cases options.dangerous_no_rebuild) [
    | inl b ↦ rw b (trigger_rollback-eq e np w)
    | inr b ↦ rw b (trigger_rollback-eq e np w)
  ]
  operated-eq options np (w, none) = elim (Bool-cases options.dangerous_no_rebuild) [
    | inl b ↦ rw b refl
    | inr b ↦ rw b (rebuilt-eq np (host.rebuild options.rebuild_boot w))
  ]

  -- Each operation, in order, takes the world further without an error.
  abbrev pub Succeed : List (Operation W) → W → W → Type 0
  Succeed [] w w' = w ≡ w'
  Succeed (op ∷ ops) w w' = (w₁ : W) × (op w ≡ (w₁, none)) × Succeed ops w₁ w'

  -- An operation fails with the error, after those before it succeeded.
  pub record FailWith (ops : List (Operation W)) (w w' : W) (e : String) : Type 0 where
    pub before : List (Operation W)
    pub after : List (Operation W)
    pub operation : Operation W
    pub reached : W
    pub split : ops ≡ before ++ operation ∷ after
    pub succeeded : Succeed before w reached
    pub fails : operation reached ≡ (w', some e)

  -- How the work of a patch ended.
  pub data Worked (options : ApplyOptions) (ops : List (Operation W)) (w : W)
      : W × Option String → Type 0 where
    operation_failed :
        {w₁ : W} {e : String} → FailWith ops w w₁ e → Worked options ops w (w₁, some e)
    not_rebuilt :
        {w₁ : W}
        → Succeed ops w w₁
        → options.dangerous_no_rebuild ≡ true
        → Worked options ops w (w₁, none)
    rebuild_failed :
        {w₁ w₂ : W} {e : String}
        → Succeed ops w w₁
        → options.dangerous_no_rebuild ≡ false
        → host.rebuild options.rebuild_boot w₁ ≡ (w₂, some e)
        → Worked options ops w (w₂, some e)
    was_rebuilt :
        {w₁ w₂ : W}
        → Succeed ops w w₁
        → options.dangerous_no_rebuild ≡ false
        → host.rebuild options.rebuild_boot w₁ ≡ (w₂, none)
        → Worked options ops w (host.post_rebuild w₂, none)

  -- What the loop over the operations did.
  abbrev Ran : List (Operation W) → W → W × Option String → Type 0
  Ran ops w (w', none) = Succeed ops w w'
  Ran ops w (w', some e) = FailWith ops w w' e

  -- The calls on a patch.
  pub data Call : Type 0 where
    add_operation : Operation W → Call
    apply_with : ApplyOptions → Call
    cancel_patch : Call

  abbrev beside : W → NixPatch W × Option String → PatchResult W
  beside w (np, e) = (np, w, e)

  unfoldable pub call : Call → NixPatch W → W → PatchResult W
  call (add_operation op) np w = beside w (add op np)
  call (apply_with options) np w = apply_custom host options np w
  call cancel_patch np w = beside w (cancel np)

  unfoldable pub call_all : List Call → NixPatch W → W → NixPatch W × W
  call_all [] np w = (np, w)
  call_all (c ∷ cs) np w = let (np', w', _) = call c np w in call_all cs np' w'

  call_settled :
      (c : Call) (np : NixPatch W) (w : W)
      → is_pending np.state ≡ false
      → call c np w ≡ (np, w, some not_pending)
  unfolding call add cancel apply_custom
  call_settled (add_operation op) np w h = rw h refl
  call_settled (apply_with options) np w h = rw h refl
  call_settled cancel_patch np w h = rw h refl

  concluded_settled :
      (np : NixPatch W) (p : W × Option String) → is_pending (concluded np p).0.state ≡ false
  concluded_settled np (w, none) = refl
  concluded_settled np (w, some e) = refl

  snapshotted_settled :
      (options : ApplyOptions) (np : NixPatch W) (p : W × Option String)
      → is_pending (snapshotted host options np p).0.state ≡ false
  snapshotted_settled options np (w, some e) = refl
  snapshotted_settled options np (w, none) =
      rw (operated-eq options (record np { state = applying }) (run_operations np.operations w))
        (concluded_settled (record np { state = applying }) _)

  apply_custom_settled :
      (options : ApplyOptions) (np : NixPatch W) (w : W)
      → is_pending (apply_custom host options np w).0.state ≡ false
  unfolding apply_custom
  apply_custom_settled options np w = elim (Bool-cases (is_pending np.state)) [
    | inl p ↦ rw p (snapshotted_settled options np (host.snapshot w))
    | inr p ↦ rw p p
  ]

  call_all_settled :
      (cs : List Call) (np : NixPatch W) (w : W)
      → is_pending np.state ≡ false
      → call_all cs np w ≡ (np, w)
  unfolding call_all
  call_all_settled [] np w h = refl
  call_all_settled (c ∷ cs) np w h = rw (call_settled c np w h) (call_all_settled cs np w h)

  -- A patch is applied at most once: after `ApplyCustom`, whether it succeeded or failed, no sequence of
  -- calls on the patch changes it or the host.
  pub call_all-apply_custom :
      (options : ApplyOptions) (cs : List Call) (np : NixPatch W) (w : W)
      → let (np', w', _) = apply_custom host options np w in call_all cs np' w' ≡ (np', w')
  call_all-apply_custom options cs np w =
      let (np', w', _) = apply_custom host options np w in
      call_all_settled cs np' w' (apply_custom_settled options np w)
