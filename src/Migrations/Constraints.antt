-- ===== src/Migrations/Constraints.antt =====
-- Version constraints (pkg/system/migrations/core/constraints.go): a comparator is an operator and a
-- version, and a constraint is comparators that all have to hold.
use Prim.Native.Nat.{Ordering}
use dogeboxd.Base.{
  String, Bool, true, false, Option, none, some, List, [], ◌∷◌, ◌==◌, if◌then◌else◌, all,
}
use dogeboxd.Base.Text.{trim_space, fields, trim_prefix}
use dogeboxd.Semver.{Semver}

pub data Operator : Type 0 where
  at_least at_most above below exactly : Operator

pub record VersionComparator : Type 0 where
  pub operator : Operator
  pub version : String

-- The comparator's test of the result of semver.Compare.
unfoldable pub allows : Operator → Ordering → Bool
allows at_least Ordering.lt = false
allows at_least _ = true
allows at_most Ordering.gt = false
allows at_most _ = true
allows above Ordering.gt = true
allows above _ = false
allows below Ordering.lt = true
allows below _ = false
allows exactly Ordering.eq = true
allows exactly _ = false

module _ (v : Semver) where
  abbrev pub with_version : Operator → String → Option VersionComparator
  with_version op version =
      if v.valid version then some (record { operator = op; version = version }) else none

  -- The operators in the order in which they are tried; `none` is an invalid comparator.
  abbrev pub first_operator : List (String × Operator) → String → Option VersionComparator
  first_operator [] token = none
  first_operator ((prefix, op) ∷ ops) token = elim (trim_prefix token prefix) [
    | some version ↦ with_version op (trim_space version)
    | none ↦ first_operator ops token
  ]

  abbrev pub operators : List (String × Operator)
  operators = (">=", at_least) ∷ ("<=", at_most) ∷ (">", above) ∷ ("<", below) ∷ ("=", exactly) ∷ []

  unfoldable pub parse_version_comparator : String → Option VersionComparator
  parse_version_comparator token = first_operator operators token

  abbrev pub cons_comparator :
      Option VersionComparator → Option (List VersionComparator) → Option (List VersionComparator)
  cons_comparator none cs = none
  cons_comparator (some c) none = none
  cons_comparator (some c) (some cs) = some (c ∷ cs)

  abbrev pub parse_all : List String → Option (List VersionComparator)
  parse_all [] = some []
  parse_all (t ∷ ts) = cons_comparator (parse_version_comparator t) (parse_all ts)

  unfoldable pub parse_version_constraint : String → Option (List VersionComparator)
  parse_version_constraint constraint =
      let trimmed = trim_space constraint in
      if trimmed == "" then none else parse_all (fields trimmed)

  unfoldable pub version_comparator_matches : String → VersionComparator → Bool
  version_comparator_matches current c = allows c.operator (v.compare current c.version)

  abbrev pub check_all : String → Option (List VersionComparator) → Option Bool
  check_all current none = none
  check_all current (some cs) = some (all (version_comparator_matches current) cs)

  -- VersionConstraintCheck; `none` is an error.
  unfoldable pub version_constraint_check : String → String → Option Bool
  version_constraint_check current constraint =
      if v.valid current then check_all current (parse_version_constraint constraint) else none
