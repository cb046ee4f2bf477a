-- ===== src/Pups/Ready.antt =====
-- Which pups may start (CanPupStart of pkg/pup/health.go).
use dogeboxd.Base.{
  String, ◌≡◌, refl, Bool, true, false, Option, none, some, List, [], ◌∷◌, ◌==◌, ◌&&◌, not, Map,
  Memᴰ, any, arith, Bool-cases, Option-cases, inl, inr, subst, sym, is_some,
}
use dogeboxd.Base.Text.{trim_space}
use dogeboxd.Pups.Health.{
  Field, Dependency, RunStatus, Pup, is_unset, is_missing, manifest_config_needs_values, has_stats,
  is_met, is_unmet, get_pup_health_state, can_pup_start, IsReady,
}

module _ (stats : Map RunStatus) where
  any-false {ℓ} :
      {A : Type ℓ} (test : A → Bool) (a : A) (xs : List A)
      → any test xs ≡ false
      → Memᴰ a xs
      → test a ≡ false
  any-false test a [] h i = elim i [ ]
  any-false test a (x ∷ xs) h (Memᴰ.head e) = subst (λ y. test y ≡ false) (sym e) (ground arith)
  any-false test a (x ∷ xs) h (Memᴰ.tail i) = any-false test a xs (ground arith) i

  section_set :
      (values : Map String) (sections : List (List Field)) (fields : List Field)
      → manifest_config_needs_values sections values ≡ false
      → Memᴰ fields sections
      → any (is_missing values) fields ≡ false
  unfolding manifest_config_needs_values
  section_set values [] fields h i = elim i [ ]
  section_set values (x ∷ xs) fields h (Memᴰ.head e) =
      subst (λ y. any (is_missing values) y ≡ false) (sym e) (ground arith)
  section_set values (x ∷ xs) fields h (Memᴰ.tail i) = section_set values xs fields (ground arith) i

  set_value :
      (o : Option String)
      → is_unset o ≡ false
      → (v : String) × (o ≡ some v) × ((trim_space v == "") ≡ false)
  set_value none h = cc
  set_value (some v) h = (v, refl, h)

  known_provider :
      (o : Option String)
      → has_stats stats o ≡ true
      → (id : String) × (o ≡ some id) × (is_some (stats id) ≡ true)
  known_provider none h = cc
  known_provider (some id) h = (id, refl, h)

  -- A pup that may start is stored and ready.
  pub can_pup_start-IsReady :
      (state : Map Pup) (id : String)
      → can_pup_start stats state id ≡ some true
      → (p : Pup) × (state id ≡ some p) × IsReady stats p
  unfolding can_pup_start get_pup_health_state is_met
  can_pup_start-IsReady state id h = elim (Option-cases (state id)) [
    | inl e ↦ let absent = rw e at h in cc
    | inr (p, e) ↦ (
      p,
      e,
      record {
        is_enabled = ground (arith, e);
        configured = λ fields f i j r.
            let set =
              any-false (is_missing p.config) f fields
                (section_set p.config p.sections fields (ground (arith, e)) i) j in
            set_value (p.config f.name) (ground arith);
        shown = λ s. ground (arith, e);
        provided = λ d i o.
            let unmet = any-false (is_unmet stats p) d p.dependencies (ground (arith, e)) i in
            known_provider (p.providers d.interface_name) (ground arith);
      },
    )
  ]

  any-none {ℓ} :
      {A : Type ℓ} (test : A → Bool) (xs : List A)
      → ((a : A) → Memᴰ a xs → test a ≡ false)
      → any test xs ≡ false
  any-none test [] h = refl
  any-none test (x ∷ xs) h =
      let here = h x (Memᴰ.head refl) in
      let later = any-none test xs (λ a i. h a (Memᴰ.tail i)) in ground arith

  sections_set :
      (values : Map String) (sections : List (List Field))
      → ((fields : List Field) → Memᴰ fields sections → any (is_missing values) fields ≡ false)
      → manifest_config_needs_values sections values ≡ false
  unfolding manifest_config_needs_values
  sections_set values [] h = refl
  sections_set values (x ∷ xs) h =
      let here = h x (Memᴰ.head refl) in
      let later = sections_set values xs (λ fields i. h fields (Memᴰ.tail i)) in ground arith

  field_set :
      (p : Pup)
      → IsReady stats p
      → (fields : List Field) (f : Field) → Memᴰ fields p.sections
      → Memᴰ f fields
      → is_missing p.config f ≡ false
  field_set p x fields f i j = elim (Bool-cases f.required) [
    | inl r ↦ let (v, e, full) = x.configured fields f i j r in rw (r, e, full) refl
    | inr r ↦ ground arith
  ]

  dependency_met :
      (p : Pup)
      → IsReady stats p
      → (d : Dependency) → Memᴰ d p.dependencies
      → is_unmet stats p d ≡ false
  unfolding is_met
  dependency_met p x d i = elim (Bool-cases d.optional) [
    | inl o ↦ ground arith
    | inr o ↦ let (id, e, known) = x.provided d i o in rw (e, known) refl
  ]

  saved_if_shown : (p : Pup) → IsReady stats p → (p.show_on_install && not p.config_saved) ≡ false
  saved_if_shown p x = elim (Bool-cases p.show_on_install) [
    | inl s ↦ let saved = x.shown s in ground arith
    | inr s ↦ ground arith
  ]

  -- A stored pup that is ready may start.
  pub IsReady-can_pup_start :
      (state : Map Pup) (id : String) (p : Pup)
      → state id ≡ some p
      → IsReady stats p
      → can_pup_start stats state id ≡ some true
  unfolding can_pup_start get_pup_health_state
  IsReady-can_pup_start state id p e x =
      let on = x.is_enabled in
      let set =
        sections_set p.config p.sections
          (λ fields i. any-none (is_missing p.config) fields (λ f j. field_set p x fields f i j)) in
      let shown = saved_if_shown p x in
      let met = any-none (is_unmet stats p) p.dependencies (dependency_met p x) in
      rw (e, set, shown, met, on) refl
