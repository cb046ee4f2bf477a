-- ===== src/Migrations/ConstraintTests.antt =====
-- A constraint of two comparators, over versions that are ordered by their lengths.
use Prim.Native.Nat.{Ordering, compare}
use dogeboxd.Base.{
  ℕ, zero, suc, String, ◌≡◌, refl, Bool, true, false, Option, some, List, ◌↔◌, arith,
}
use dogeboxd.Base.Text.{fields, trim_space}
use dogeboxd.Semver.{Semver, is_le, flip}
use dogeboxd.Migrations.Constraints.{version_constraint_check, VersionComparator}
use dogeboxd.Migrations.Satisfied.{version_constraint_check-AllSatisfied, AreWritten, AllSatisfied}

abbrev pub size : String → ℕ
size String.[] = 0
size (String.◌∷◌ c s) = suc (size s)

pub size_refl : (m : ℕ) → compare m m ≡ Ordering.eq
size_refl m = ground arith

pub size_flip : (m n : ℕ) → compare n m ≡ flip (compare m n)
size_flip m n = ground arith

pub size_trans :
    (l m n : ℕ)
    → is_le (compare l m) ≡ true
    → is_le (compare m n) ≡ true
    → is_le (compare l n) ≡ true
size_trans l m n h k = ground arith

pub never_invalid : (o : Ordering) → true ≡ false → o ≡ Ordering.lt
never_invalid o h = cc

abbrev pub by_size : Semver
by_size = record {
  valid = λ v. true;
  compare = λ v w. compare (size v) (size w);
  prerelease = λ v. "";
  compare_refl = λ v. size_refl (size v);
  compare-flip = λ v w. size_flip (size v) (size w);
  compare_le_trans = λ u v w. size_trans (size u) (size v) (size w);
  compare_invalid = λ v w h k. never_invalid (compare (size v) (size w)) h;
}

-- A version that the constraint does not accept.
version_constraint_check-AllSatisfied_example :
    (cs : List VersionComparator) × AreWritten by_size (fields (trim_space ">=v1 <v1.0")) cs
    × (by_size.valid "v1.0" ≡ true)
    × ((false ≡ true) ↔ AllSatisfied by_size "v1.0" cs)
unfolding version_constraint_check dogeboxd.Migrations.Constraints.parse_version_constraint
    dogeboxd.Base.Text.trim_space dogeboxd.Base.Text.fields
    dogeboxd.Migrations.Constraints.parse_version_comparator dogeboxd.Base.Text.trim_prefix
    dogeboxd.Migrations.Constraints.version_comparator_matches
    dogeboxd.Migrations.Constraints.allows
version_constraint_check-AllSatisfied_example =
    version_constraint_check-AllSatisfied by_size "v1.0" ">=v1 <v1.0" false refl
