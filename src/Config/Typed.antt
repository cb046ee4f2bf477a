-- ===== src/Config/Typed.antt =====
-- The values that CoerceConfigPayload and ExtractManifestConfigDefaults of pkg/config_fields.go store.
use dogeboxd.Base.{
  ◌≡◌, refl, sym, ap, subst, ◌∙◌, String, Bool, true, false, some, List, [], ◌∷◌, ◌==◌, ◌||◌,
  if◌then◌else◌, contains, eq_iff, some_inj, Map, put, Bool-cases, Option-cases, ◌⊎◌, inl, inr,
}
use dogeboxd.Base.Text.{trim_space}
use dogeboxd.Config.{
  Raw, Formats, ConfigField, Coerced, nil, text, boolean, number, json_number, other, ok, err,
  text_types, number_types, toggle_types, supported_types, as_number, toggle_of, as_toggle, by_type,
  stringify_config_value, manifest_config_field_index, with_value, coerce_entry,
  coerce_config_payload,
}

-- What holds of the result, if there is one.
abbrev pub Stores : {A : Type 0} → (A → Type 0) → Coerced A → Type 0
Stores P (ok v) = P v
Stores P (err e) = Unit

Stores-map :
    {A : Type 0} {P Q : A → Type 0}
    → ((a : A) → P a → Q a)
    → (c : Coerced A) → Stores P c
    → Stores Q c
Stores-map k (ok v) p = k v p
Stores-map k (err e) p = tt

or_true : (b : Bool) → (b || true) ≡ true
or_true true = refl
or_true false = refl

module _ {N O : Type 0} (formats : Formats N O) where
  -- Whether a text is a value of a type of fields.
  abbrev pub fits : String → String → Bool
  fits kind v =
      if contains text_types kind
      then true
      else (if contains number_types kind
          then (formats.parses v || v == "")
          else (if contains toggle_types kind
              then (v == "true" || v == "false")
              else contains supported_types kind))

  abbrev pub is_json_number : Raw N O → Bool
  is_json_number (json_number s) = true
  is_json_number _ = false

  abbrev pub Fits : String → String → Type 0
  Fits kind v = (v ≡ "") ⊎ (fits kind v ≡ true)

  as_number-parses :
      (raw : Raw N O)
      → is_json_number raw ≡ false
      → Stores (λ v. (formats.parses v || v == "") ≡ true) (as_number formats raw)
  as_number-parses nil p = tt
  as_number-parses (text s) p = elim (Bool-cases (s == "")) [
    | inl e ↦ rw e (or_true (formats.parses ""))
    | inr e ↦ elim (Bool-cases (formats.parses s)) [
      | inl f ↦ rw (e, f) (rw f refl)
      | inr f ↦ rw (e, f) tt
    ]
  ]
  as_number-parses (boolean b) p = tt
  as_number-parses (number n) p = (rw (formats.parses-format n) refl)
  as_number-parses (json_number s) p = absurd cc
  as_number-parses (other o) p = tt

  toggle_of-Boolean :
      (s : String) → Stores (λ v. (v == "true" || v == "false") ≡ true) (toggle_of formats s)
  toggle_of-Boolean s = elim (Bool-cases (contains ("true" ∷ "1" ∷ "yes" ∷ "on" ∷ []) s)) [
    | inl e ↦ rw e refl
    | inr e ↦ elim (Bool-cases (contains ("false" ∷ "0" ∷ "no" ∷ "off" ∷ []) s)) [
      | inl f ↦ rw (e, f) refl
      | inr f ↦ rw (e, f) tt
    ]
  ]

  as_toggle-Boolean :
      (raw : Raw N O) → Stores (λ v. (v == "true" || v == "false") ≡ true) (as_toggle formats raw)
  as_toggle-Boolean nil = tt
  as_toggle-Boolean (text s) = toggle_of-Boolean (formats.lower (trim_space s))
  as_toggle-Boolean (boolean true) = refl
  as_toggle-Boolean (boolean false) = refl
  as_toggle-Boolean (number n) = tt
  as_toggle-Boolean (json_number s) = tt
  as_toggle-Boolean (other o) = tt

  by_type-fits :
      (kind : String) (raw : Raw N O)
      → is_json_number raw ≡ false
      → Stores (λ v. fits kind v ≡ true) (by_type formats kind raw)
  by_type-fits kind raw p = elim (Bool-cases (contains text_types kind)) [
    | inl e ↦ rw e refl
    | inr e ↦ elim (Bool-cases (contains number_types kind)) [
      | inl f ↦ rw (e, f) (as_number-parses raw p)
      | inr f ↦ elim (Bool-cases (contains toggle_types kind)) [
        | inl g ↦ rw (e, f, g) (as_toggle-Boolean raw)
        | inr g ↦ elim (Bool-cases (contains supported_types kind)) [
          | inl h ↦ rw (e, f, g, h) refl
          | inr h ↦ rw (e, f, g, h) tt
        ]
      ]
    ]
  ]

  right :
      (kind : String) (raw : Raw N O)
      → is_json_number raw ≡ false
      → Stores (Fits kind) (by_type formats kind raw)
  right kind raw p = Stores-map (λ _ e. inr e) (by_type formats kind raw) (by_type-fits kind raw p)

  stringify_config_value-Fits :
      (kind : String) (raw : Raw N O)
      → is_json_number raw ≡ false
      → Stores (Fits kind) (stringify_config_value formats kind raw)
  unfolding stringify_config_value
  stringify_config_value-Fits kind nil p = inl refl
  stringify_config_value-Fits kind (text s) p = right kind (text s) p
  stringify_config_value-Fits kind (boolean b) p = right kind (boolean b) p
  stringify_config_value-Fits kind (number n) p = right kind (number n) p
  stringify_config_value-Fits kind (json_number s) p = right kind (json_number s) p
  stringify_config_value-Fits kind (other o) p = right kind (other o) p

  -- The values of a map belong to fields of the index, and fit their types.
  abbrev pub AllFit : Map (ConfigField N O) → Map String → Type 0
  AllFit index m =
      (key v : String)
      → m key ≡ some v
      → (f : ConfigField N O) × (index key ≡ some f) × Fits f.type_of v

  put-AllFit :
      (index : Map (ConfigField N O)) (key v : String) (f : ConfigField N O) (m : Map String)
      → index key ≡ some f
      → Fits f.type_of v
      → AllFit index m
      → AllFit index (put key v m)
  put-AllFit index key v f m i q all j w e =
      let at_test = λ (b : Bool). (if b then some v else m j) ≡ some w in
      elim (Bool-cases (key == j)) [
        | inl k ↦ (
          f,
          ap index (sym ((eq_iff key j).0 k)) ∙ i,
          subst (Fits f.type_of) (some_inj (subst at_test k e)) q,
        )
        | inr k ↦ all j w (subst at_test k e)
      ]

  with_value-AllFit :
      (index : Map (ConfigField N O)) (key : String) (f : ConfigField N O) (value : Coerced String)
      (rest : Coerced (Map String))
      → index key ≡ some f
      → Stores (Fits f.type_of) value
      → Stores (AllFit index) rest
      → Stores (AllFit index) (with_value formats key value rest)
  with_value-AllFit index key f (err e) rest i q all = tt
  with_value-AllFit index key f (ok v) (err e) i q all = tt
  with_value-AllFit index key f (ok v) (ok m) i q all = put-AllFit index key v f m i q all

  coerce_entry-AllFit :
      (index : Map (ConfigField N O)) (key : String) (raw : Raw N O) (rest : Coerced (Map String))
      → is_json_number raw ≡ false
      → Stores (AllFit index) rest
      → Stores (AllFit index) (coerce_entry formats key raw (index key) rest)
  coerce_entry-AllFit index key raw rest p all = elim (Option-cases (index key)) [
    | inl e ↦ rw e all
    | inr (f, e) ↦ rw e (
        with_value-AllFit index key f (stringify_config_value formats f.type_of raw) rest e
          (stringify_config_value-Fits f.type_of raw p) all)
  ]

  -- No value of the payload is a json.Number.
  abbrev pub IsPlain : List (String × Raw N O) → Type 0
  IsPlain [] = Unit
  IsPlain ((key, raw) ∷ entries) = (is_json_number raw ≡ false) × IsPlain entries

  coerced-AllFit :
      (sections : List (List (ConfigField N O))) (entries : List (String × Raw N O))
      → IsPlain entries
      → Stores
          (AllFit (manifest_config_field_index formats sections))
          (coerce_config_payload formats sections entries)
  unfolding coerce_config_payload
  coerced-AllFit sections [] p = λ _ _ e. absurd cc
  coerced-AllFit sections ((key, raw) ∷ entries) p =
      coerce_entry-AllFit (manifest_config_field_index formats sections) key raw
        (coerce_config_payload formats sections entries) p.0 (coerced-AllFit sections entries p.1)

  -- If no value of a payload is a json.Number, then every value of its coercion belongs to a field of the
  -- manifest and is empty or fits the type of the field: a number parses, a toggle is `true` or `false`,
  -- and the type is supported.
  pub coerce_config_payload-Fits :
      (sections : List (List (ConfigField N O))) (entries : List (String × Raw N O))
      (m : Map String)
      → IsPlain entries
      → coerce_config_payload formats sections entries ≡ ok m
      → (key v : String) → m key ≡ some v
      → (f : ConfigField N O) × (manifest_config_field_index formats sections key ≡ some f)
        × Fits f.type_of v
  coerce_config_payload-Fits sections entries m p e =
      subst (Stores (AllFit (manifest_config_field_index formats sections))) e
        (coerced-AllFit sections entries p)
