-- ===== src/Sources/Tests.antt =====
-- A list of two sources, and the theorems at it.
use dogeboxd.Base.{String, ◌≡◌, refl, true, false, none, List, [], ◌∷◌, ◌⊎◌}
use dogeboxd.Base.Steps.{ok, Ends, returned}
use dogeboxd.Pups.State.{PupManifest}
use dogeboxd.Sources.{Source, Sourced, SourceHost, find_source, remove_source}
use dogeboxd.Sources.Distinct.{AreDistinct, seen}
use dogeboxd.Sources.Changes.{
  remove_source-Removes, change_all-AreDistinct, IsRemoved, change_all, ListChange, add_at,
  remove_id,
}

abbrev source_at : String → String → Source
source_at id location = record {
  id = id;
  name = id;
  description = "";
  location = location;
  type_of = "git";
}

abbrev manifest : PupManifest
manifest = record {
  name = "Core";
  version = "1";
  sections = [];
  show_on_install = false;
  dependencies = [];
  nix_file_sha256 = "ab";
}

-- The host is the stored list.
abbrev host : SourceHost (List Source)
host = record {
  path_exists = λ p h. true;
  validate_disk = λ l h. (ok (source_at "disk" l), h);
  validate_git = λ l h. (ok (source_at "main" l), h);
  list = λ s h. (ok [], h);
  saved = λ h. h;
  save_sources = λ ss h. (ok tt, ss);
  save_sources-Ends = λ ss h. returned refl;
  remove_dir = λ p h. (ok tt, h);
  make_parent_dir = λ p h. (ok tt, h);
  download = λ s p l h. (ok tt, h);
  read_manifest = λ p h. (ok manifest, h);
  has_nix_file = λ p m h. true;
  has_logo = λ p m h. true;
}

abbrev two : Sourced (List Source)
two = record {
  sources = source_at "main" "https://a/b.git" ∷ source_at "dev" "/dev" ∷ [];
  config = [];
  pup_sources = source_at "main" "https://a/b.git" ∷ [];
  host = [];
}

two-AreDistinct : AreDistinct two.sources
two-AreDistinct = (refl, (refl, tt))

remove_source-Removes_example :
    Ends
      (λ _ t'.
        (find_source "dev" t'.sources ≡ none)
        × (host.saved t'.host ≡ t'.sources)
        × IsRemoved host "dev" (seen two) (seen t'))
      (λ _ t'.
        (host.saved t'.host ≡ host.saved two.host)
        × ((seen t' ≡ seen two) ⊎ IsRemoved host "dev" (seen two) (seen t')))
      (remove_source host "dev" two)
remove_source-Removes_example = remove_source-Removes host "dev" two two-AreDistinct

abbrev changes : List (ListChange host)
changes = remove_id "dev" ∷ add_at "/dev" ∷ add_at "git@a" ∷ remove_id "main" ∷ []

change_all-AreDistinct_example : AreDistinct (change_all host changes two).sources
change_all-AreDistinct_example = change_all-AreDistinct host changes two two-AreDistinct
