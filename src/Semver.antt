-- ===== src/Semver.antt =====
-- golang.org/x/mod/semver is not part of the repository: its two functions are the fields of
-- `Semver`, and the laws are what its documentation says of them.
use Prim.Native.Nat.{Ordering}
use dogeboxd.Base.{String, ◌≡◌, Bool, true, false}

abbrev pub flip : Ordering → Ordering
flip Ordering.lt = Ordering.gt
flip Ordering.eq = Ordering.eq
flip Ordering.gt = Ordering.lt

-- A result that is not positive.
abbrev pub is_le : Ordering → Bool
is_le Ordering.gt = false
is_le _ = true

pub record Semver : Type 0 where
  -- semver.IsValid
  pub valid : String → Bool
  -- semver.Compare; `lt` is a negative result and `gt` a positive one
  pub compare : String → String → Ordering
  -- semver.Prerelease
  pub prerelease : String → String
  pub compare_refl : (v : String) → compare v v ≡ Ordering.eq
  pub compare-flip : (v w : String) → compare w v ≡ flip (compare v w)
  pub compare_le_trans :
      (u v w : String)
      → is_le (compare u v) ≡ true
      → is_le (compare v w) ≡ true
      → is_le (compare u w) ≡ true
  -- An invalid version is less than every valid one.
  pub compare_invalid :
      (v w : String) → valid v ≡ false → valid w ≡ true → compare v w ≡ Ordering.lt
