-- ===== src/Config/Tests.antt =====
-- The config of a pup at concrete values: no number but json.Number, and a parser of numbers that accepts "8080".
use dogeboxd.Base.{
  ◌≡◌, refl, String, true, some, none, Option, List, [], ◌∷◌, ◌==◌, Map, if◌then◌else◌,
}
use dogeboxd.Config.{
  Raw, nil, text, boolean, Formats, ConfigField, Coerced, ok, err, config_field, expected_number,
  coerce_config_payload, manifest_config_field_index, extract_manifest_config_defaults,
  stringify_config_value,
}
use dogeboxd.Config.Typed.{coerce_config_payload-Fits, Fits}

abbrev formats : Formats String String
formats = record {
  format = λ n. "8080";
  parses = λ s. s == "8080";
  parses-format = λ n. refl;
  lower = λ s. if s == "ON" then "on" else s;
  show_number = λ n. n;
  show_other = λ o. o;
}

abbrev field : String → String → Raw String String → ConfigField String String
field name kind default_value = record {
  name = name;
  type_of = kind;
  default_value = default_value;
}

abbrev fields : List (List (ConfigField String String))
fields =
    (field "port" "number" (text "8080") ∷ field "testnet" "toggle" (boolean true) ∷ [])
    ∷ (field "label" "text" nil ∷ [])
    ∷ []

abbrev payload : List (String × Raw String String)
payload =
    ("port", text "8080") ∷ ("testnet", text " ON ") ∷ ("unknown", nil) ∷ ("label", text "a") ∷ []

abbrev coerced : Coerced (Map String)
coerced = coerce_config_payload formats fields payload

abbrev value_of : Coerced (Map String) → String → Option String
value_of (ok m) key = m key
value_of (err e) key = none

coerced_testnet : value_of coerced "testnet" ≡ some "true"
unfolding coerce_config_payload manifest_config_field_index stringify_config_value
    dogeboxd.Base.Text.trim_space
coerced_testnet = refl

coerced_unknown : value_of coerced "unknown" ≡ none
unfolding coerce_config_payload manifest_config_field_index stringify_config_value
    dogeboxd.Base.Text.trim_space
coerced_unknown = refl

default_port : value_of (extract_manifest_config_defaults formats fields) "port" ≡ some "8080"
unfolding extract_manifest_config_defaults stringify_config_value
default_port = refl

bad_port :
    coerce_config_payload formats fields (("port", text "x") ∷ [])
    ≡ err (config_field "port" expected_number)
unfolding coerce_config_payload manifest_config_field_index stringify_config_value
    dogeboxd.Base.Text.trim_space
bad_port = refl

abbrev one : Map String
one key = if "testnet" == key then some "true" else none

one_coerced : coerce_config_payload formats fields (("testnet", text " ON ") ∷ []) ≡ ok one
unfolding coerce_config_payload manifest_config_field_index stringify_config_value
    dogeboxd.Base.Text.trim_space
one_coerced = refl

coerce_config_payload-Fits_example :
    (f : ConfigField String String) × (manifest_config_field_index formats fields "testnet"
      ≡ some f)
    × Fits formats f.type_of "true"
coerce_config_payload-Fits_example =
    coerce_config_payload-Fits formats fields (("testnet", text " ON ") ∷ []) one (refl, tt)
      one_coerced "testnet" "true" refl
