-- ===== src/Nix/Tests.antt =====
-- A patch whose rebuild fails, and the theorems at it.
use dogeboxd.Base.{String, ◌≡◌, false, none, some, List, [], ◌∷◌}
use dogeboxd.Nix.Patch.{NixPatch, NixHost, ApplyOptions, new_nix_patch, apply_custom}
use dogeboxd.Nix.Applied.{call_all-apply_custom, call_all, Call, apply_with, add_operation}

-- The names of the files in the nix directory.
abbrev Dir : Type 0
Dir = List String

abbrev failing_host : NixHost Dir
failing_host = record {
  snapshot = λ w. (w, none);
  remove_nix_dir = λ w. ([], none);
  copy_back = λ w. ("system.nix" ∷ [], none);
  remove_snapshot = λ w. w;
  rebuild = λ boot w. (w, some "no space");
  post_rebuild = λ w. w;
}

abbrev pup_patch : NixPatch Dir
pup_patch = record new_nix_patch { operations = (λ w. ("pup_1.nix" ∷ w, none)) ∷ [] }

abbrev options : ApplyOptions
options = record { dangerous_no_rebuild = false; rebuild_boot = false }

abbrev calls : List (Call failing_host)
calls = apply_with options ∷ add_operation (λ w. ([], none)) ∷ []

call_all-apply_custom_example :
    let (np, w, _) = apply_custom failing_host options pup_patch ("system.nix" ∷ []) in
    call_all failing_host calls np w ≡ (np, w)
call_all-apply_custom_example =
    call_all-apply_custom failing_host options calls pup_patch ("system.nix" ∷ [])
