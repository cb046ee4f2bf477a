-- ===== src/Config.antt =====
-- The values of a pup's config (pkg/config_fields.go): the index of the fields, the defaults, and the
-- coercion of a payload. The test for missing values is in Pups.Health.
mod Typed
mod Tests
use dogeboxd.Base.{
  ◌≡◌, String, Bool, true, false, Option, none, some, List, [], ◌∷◌, ◌++◌, ◌==◌, ◌||◌,
  if◌then◌else◌, contains, any, Map, put, empty_map,
}
use dogeboxd.Base.Text.{trim_space}

-- A raw value: nil, a text, a Boolean, a number of one of Go's types, a json.Number, or any other value.
pub data Raw (N O : Type 0) : Type 0 where
  nil : Raw N O
  text : String → Raw N O
  boolean : Bool → Raw N O
  number : N → Raw N O
  json_number : String → Raw N O
  other : O → Raw N O

-- strconv, strings.ToLower and fmt
pub record Formats (N O : Type 0) : Type 0 where
  -- FormatFloat, Itoa, FormatInt and FormatUint, by the type of the number
  pub format : N → String
  -- whether ParseFloat reports no error
  pub parses : String → Bool
  pub parses-format : (n : N) → parses (format n) ≡ true
  -- strings.ToLower
  pub lower : String → String
  -- Sprintf("%v"), which may write a number otherwise
  pub show_number : N → String
  pub show_other : O → String

pub record ConfigField (N O : Type 0) : Type 0 where
  pub name : String
  pub type_of : String
  pub default_value : Raw N O

-- The errors: what was expected, and the field that an error is about.
pub data Problem : Type 0 where
  expected_number : Problem
  expected_boolean : Problem
  unsupported_type : String → Problem
  config_field : String → Problem → Problem

pub data Coerced (A : Type 0) : Type 0 where
  ok : A → Coerced A
  err : Problem → Coerced A

abbrev pub text_types : List String
text_types = "text" ∷ "password" ∷ "email" ∷ "textarea" ∷ "date" ∷ "color" ∷ "select" ∷ "radio" ∷ []

abbrev pub number_types : List String
number_types = "number" ∷ "range" ∷ []

abbrev pub toggle_types : List String
toggle_types = "toggle" ∷ "checkbox" ∷ []

-- supportedConfigTypes
abbrev pub supported_types : List String
supported_types =
    "text" ∷ "password" ∷ "number" ∷ "toggle" ∷ "email" ∷ "textarea" ∷ "select" ∷ "checkbox"
    ∷ "radio" ∷ "date" ∷ "range" ∷ "color" ∷ []

module _ {N O : Type 0} (formats : Formats N O) where
  -- Sprintf("%v")
  abbrev pub shown : Raw N O → String
  shown nil = "<nil>"
  shown (text s) = s
  shown (boolean b) = if b then "true" else "false"
  shown (number n) = formats.show_number n
  shown (json_number s) = s
  shown (other o) = formats.show_other o

  abbrev pub as_number : Raw N O → Coerced String
  as_number (number n) = ok (formats.format n)
  as_number (json_number s) = ok s
  as_number (text s) =
      if s == "" then ok "" else (if formats.parses s then ok s else err expected_number)
  as_number _ = err expected_number

  abbrev pub toggle_of : String → Coerced String
  toggle_of s =
      if contains ("true" ∷ "1" ∷ "yes" ∷ "on" ∷ []) s
      then ok "true"
      else (if contains ("false" ∷ "0" ∷ "no" ∷ "off" ∷ []) s
          then ok "false"
          else err expected_boolean)

  abbrev pub as_toggle : Raw N O → Coerced String
  as_toggle (boolean b) = ok (if b then "true" else "false")
  as_toggle (text s) = toggle_of (formats.lower (trim_space s))
  as_toggle _ = err expected_boolean

  abbrev pub by_type : String → Raw N O → Coerced String
  by_type kind raw =
      if contains text_types kind
      then ok (shown raw)
      else (if contains number_types kind
          then as_number raw
          else (if contains toggle_types kind
              then as_toggle raw
              else (if contains supported_types kind
                  then ok (shown raw)
                  else err (unsupported_type kind))))

  -- stringifyConfigValue
  unfoldable pub stringify_config_value : String → Raw N O → Coerced String
  stringify_config_value kind nil = ok ""
  stringify_config_value kind raw = by_type kind raw

  -- ManifestConfigFieldIndex: the fields of all sections in their order
  abbrev pub index_onto : List (ConfigField N O) → Map (ConfigField N O) → Map (ConfigField N O)
  index_onto [] m = m
  index_onto (f ∷ fs) m = index_onto fs (put f.name f m)

  abbrev pub all_fields : List (List (ConfigField N O)) → List (ConfigField N O)
  all_fields [] = []
  all_fields (fields ∷ sections) = fields ++ all_fields sections

  unfoldable pub manifest_config_field_index : List (List (ConfigField N O)) → Map (ConfigField N O)
  manifest_config_field_index sections = index_onto (all_fields sections) empty_map

  abbrev pub with_value : String → Coerced String → Coerced (Map String) → Coerced (Map String)
  with_value key (err e) rest = err (config_field key e)
  with_value key (ok v) (err e) = err e
  with_value key (ok v) (ok m) = ok (put key v m)

  abbrev pub coerce_entry :
      String → Raw N O → Option (ConfigField N O) → Coerced (Map String) → Coerced (Map String)
  coerce_entry key raw none rest = rest
  coerce_entry key raw (some f) rest = with_value key (stringify_config_value f.type_of raw) rest

  -- CoerceConfigPayload, on the entries of the payload, whose keys differ; which of several errors is
  -- reported depends on the order of the map.
  unfoldable pub coerce_config_payload :
      List (List (ConfigField N O)) → List (String × Raw N O) → Coerced (Map String)
  coerce_config_payload sections [] = ok empty_map
  coerce_config_payload sections ((key, raw) ∷ entries) =
      coerce_entry key raw (manifest_config_field_index sections key)
        (coerce_config_payload sections entries)

  abbrev pub is_nil : Raw N O → Bool
  is_nil nil = true
  is_nil _ = false

  -- The loop of ExtractManifestConfigDefaults over the entries of the index: of the fields of one name,
  -- the last is the entry.
  abbrev pub defaults_of : List (ConfigField N O) → Coerced (Map String)
  defaults_of [] = ok empty_map
  defaults_of (f ∷ fs) =
      let rest = defaults_of fs in
      if any (λ g. g.name == f.name) fs || is_nil f.default_value
      then rest
      else with_value f.name (stringify_config_value f.type_of f.default_value) rest

  -- ExtractManifestConfigDefaults
  unfoldable pub extract_manifest_config_defaults :
      List (List (ConfigField N O)) → Coerced (Map String)
  extract_manifest_config_defaults sections = defaults_of (all_fields sections)
