-- ===== src/Migrations/Satisfied.antt =====
-- The versions that a constraint accepts (pkg/system/migrations/core/constraints.go).
use dogeboxd.Base.{
  String, ◌≡◌, refl, subst, Bool, true, false, Option, none, some, List, [], ◌∷◌, ◌==◌, all, arith,
  some_inj, ◌↔◌, Bool-cases, Option-cases, inl, inr,
}
use dogeboxd.Base.Text.{trim_space, trim_prefix, fields}
use dogeboxd.Semver.{Semver, is_le}
use dogeboxd.Migrations.Constraints.{
  Operator, at_least, at_most, above, below, exactly, VersionComparator, allows,
  version_comparator_matches, check_all, parse_version_constraint, version_constraint_check,
  parse_version_comparator, first_operator, operators, with_version, parse_all,
}

abbrev pub symbol : Operator → String
symbol at_least = ">="
symbol at_most = "<="
symbol above = ">"
symbol below = "<"
symbol exactly = "="

module _ (v : Semver) where
  -- What an operator means, by the order of versions alone.
  abbrev pub Satisfies : Operator → String → String → Type 0
  Satisfies at_least x c = is_le (v.compare c x) ≡ true
  Satisfies at_most x c = is_le (v.compare x c) ≡ true
  Satisfies above x c = is_le (v.compare x c) ≡ false
  Satisfies below x c = is_le (v.compare c x) ≡ false
  Satisfies exactly x c = (is_le (v.compare x c) ≡ true) × (is_le (v.compare c x) ≡ true)

  abbrev pub AllSatisfied : String → List VersionComparator → Type 0
  AllSatisfied x [] = Unit
  AllSatisfied x (c ∷ cs) = Satisfies c.operator x c.version × AllSatisfied x cs

  -- A part of the constraint is an operator, followed by a valid version.
  abbrev pub IsWritten : String → VersionComparator → Type 0
  IsWritten token c =
      (rest : String) × (trim_prefix token (symbol c.operator) ≡ some rest)
      × (trim_space rest ≡ c.version)
      × (v.valid c.version ≡ true)

  abbrev pub AreWritten : List String → List VersionComparator → Type 0
  AreWritten [] [] = Unit
  AreWritten (t ∷ ts) (c ∷ cs) = IsWritten t c × AreWritten ts cs
  AreWritten _ _ = ⊥

  allows-Satisfies :
      (op : Operator) (x c : String) → (allows op (v.compare x c) ≡ true) ↔ Satisfies op x c
  unfolding allows
  allows-Satisfies at_least x c =
      (λ h. ground (arith, v.compare-flip x c), λ h. ground (arith, v.compare-flip x c))
  allows-Satisfies at_most x c = (λ h. ground arith, λ h. ground arith)
  allows-Satisfies above x c = (λ h. ground arith, λ h. ground arith)
  allows-Satisfies below x c =
      (λ h. ground (arith, v.compare-flip x c), λ h. ground (arith, v.compare-flip x c))
  allows-Satisfies exactly x c =
      (λ h. ground (arith, v.compare-flip x c), λ h. ground (arith, v.compare-flip x c))

  all-AllSatisfied :
      (x : String) (cs : List VersionComparator)
      → (all (version_comparator_matches v x) cs ≡ true) ↔ AllSatisfied x cs
  unfolding version_comparator_matches
  all-AllSatisfied x [] = (λ _. tt, λ _. refl)
  all-AllSatisfied x (c ∷ cs) =
      let here = allows-Satisfies c.operator x c.version in
      let later = all-AllSatisfied x cs in
      (
        λ h. elim (Bool-cases (allows c.operator (v.compare x c.version))) [
          | inl e ↦ (here.0 e, later.0 (rw e at h))
          | inr e ↦ cc (rw e at h)
        ],
        λ (a, b). rw (here.1 a) (later.1 b),
      )

  -- The prefixes are the symbols of their operators.
  abbrev AreSymbols : List (String × Operator) → Type 0
  AreSymbols [] = Unit
  AreSymbols ((prefix, op) ∷ ops) = (prefix ≡ symbol op) × AreSymbols ops

  with_version-IsWritten :
      (op : Operator) (token rest : String) (c : VersionComparator)
      → trim_prefix token (symbol op) ≡ some rest
      → with_version v op (trim_space rest) ≡ some c
      → IsWritten token c
  with_version-IsWritten op token rest c t h = elim (Bool-cases (v.valid (trim_space rest))) [
    | inl e ↦
        subst (IsWritten token) {x = record { operator = op; version = trim_space rest }}
          (some_inj (rw e at h)) (rest, t, refl, e)
    | inr e ↦ cc (rw e at h)
  ]

  first_operator-IsWritten :
      (ops : List (String × Operator)) (token : String) (c : VersionComparator)
      → AreSymbols ops
      → first_operator v ops token ≡ some c
      → IsWritten token c
  first_operator-IsWritten [] token c a h = cc
  first_operator-IsWritten ((prefix, op) ∷ ops) token c a h =
      elim (Option-cases (trim_prefix token prefix)) [
        | inl e ↦ first_operator-IsWritten ops token c a.1 (rw (first_operator, e) at h)
        | inr (rest, e) ↦
            with_version-IsWritten op token rest c (rw (← a.0) e) (rw (first_operator, e) at h)
      ]

  parse_all-AreWritten :
      (ts : List String) (cs : List VersionComparator) → parse_all v ts ≡ some cs → AreWritten ts cs
  unfolding parse_version_comparator
  parse_all-AreWritten [] cs h = subst (AreWritten []) (some_inj h) tt
  parse_all-AreWritten (t ∷ ts) cs h = elim (Option-cases (parse_version_comparator v t)) [
    | inl e ↦ cc (rw e at h)
    | inr (c, e) ↦ elim (Option-cases (parse_all v ts)) [
      | inl f ↦ cc (rw (e, f) at h)
      | inr (ds, f) ↦ subst (AreWritten (t ∷ ts)) {x = c ∷ ds} (some_inj (rw (e, f) at h)) (
        first_operator-IsWritten (operators v) t c (refl, (refl, (refl, (refl, (refl, tt))))) e,
        parse_all-AreWritten ts ds f,
      )
    ]
  ]

  checked-AllSatisfied :
      (x : String) (o : Option (List VersionComparator)) (b : Bool)
      → check_all v x o ≡ some b
      → (cs : List VersionComparator) × (o ≡ some cs) × ((b ≡ true) ↔ AllSatisfied x cs)
  checked-AllSatisfied x none b h = cc
  checked-AllSatisfied x (some cs) b h =
      (cs, refl, subst (λ y. (y ≡ true) ↔ AllSatisfied x cs) (some_inj h) (all-AllSatisfied x cs))

  -- If the check of a constraint gives an answer for a version, the version is valid, the parts of the
  -- constraint are operators that are each followed by a valid version, and the answer is `true` exactly
  -- if the version stands to each of those in the order that the operator says.
  pub version_constraint_check-AllSatisfied :
      (x constraint : String) (b : Bool)
      → version_constraint_check v x constraint ≡ some b
      → (cs : List VersionComparator) × AreWritten (fields (trim_space constraint)) cs
        × (v.valid x ≡ true)
        × ((b ≡ true) ↔ AllSatisfied x cs)
  unfolding version_constraint_check parse_version_constraint
  version_constraint_check-AllSatisfied x constraint b h = elim (Bool-cases (v.valid x)) [
    | inr e ↦ cc (rw e at h)
    | inl e ↦ elim (Bool-cases (trim_space constraint == "")) [
      | inl f ↦ cc (rw (e, f) at h)
      | inr f ↦
          let (cs, p, q) =
            checked-AllSatisfied x (parse_all v (fields (trim_space constraint))) b
              (rw (e, f) at h) in
          (cs, parse_all-AreWritten (fields (trim_space constraint)) cs p, e, q)
    ]
  ]
