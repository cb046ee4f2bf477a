-- ===== src/Migrations/State.antt =====
-- The record of migrations on disk (pkg/system/migrations/core/state.go). The file and its encoding are
-- parameters. The file is replaced by a rename, so a write that fails leaves it as it was.
use dogeboxd.Base.{String, ◌≡◌, Bool, true, false, Option, none, some, if◌then◌else◌, Map, put}

-- A value of a migration's `config`; only Booleans are read.
pub data ConfigValue : Type 0 where
  flag : Bool → ConfigValue
  other : ConfigValue

pub record MigrationRecord : Type 0 where
  pub ran_successfully : Bool
  pub do_not_run : Bool
  pub config : Map ConfigValue

-- State; a missing record reads as the zero value.
abbrev pub MigrationState : Type 0
MigrationState = Map MigrationRecord

abbrev pub zero_record : MigrationRecord
zero_record = record { ran_successfully = false; do_not_run = false; config = λ k. none }

abbrev pub record_or_zero : Option MigrationRecord → MigrationRecord
record_or_zero none = zero_record
record_or_zero (some r) = r

-- state[name]
abbrev pub record_of : String → MigrationState → MigrationRecord
record_of name state = record_or_zero (state name)

pub data FileRead (B : Type 0) : Type 0 where
  not_exist read_failed : FileRead B
  contents : B → FileRead B

-- The file migrations.json in a world `W`, and encoding/json at `State`. `unmarshal` of `null` gives the
-- empty state. White space after a JSON value is skipped.
pub record Files (W : Type 0) : Type 1 where
  pub Bytes : Type 0
  -- len(contents) == 0
  pub is_empty : Bytes → Bool
  -- append(contents, '\n')
  pub with_newline : Bytes → Bytes
  pub read_file : W → FileRead Bytes
  pub replace_file : Bytes → W → Option W
  pub marshal : MigrationState → Option Bytes
  pub unmarshal : Bytes → Option MigrationState
  pub is_empty-with_newline : (b : Bytes) → is_empty (with_newline b) ≡ false
  pub read-replace : (b : Bytes) (w w' : W) → replace_file b w ≡ some w' → read_file w' ≡ contents b
  pub unmarshal-marshal :
      (state : MigrationState) (b : Bytes)
      → marshal state ≡ some b
      → unmarshal (with_newline b) ≡ some state

module _ {W : Type 0} (files : Files W) where
  abbrev pub decoded : FileRead files.Bytes → Option MigrationState
  decoded not_exist = some (λ k. none)
  decoded read_failed = none
  decoded (contents s) = if files.is_empty s then some (λ k. none) else files.unmarshal s

  -- LoadState
  unfoldable pub load_state : W → Option MigrationState
  load_state w = decoded (files.read_file w)

  abbrev pub replaced : W → Option files.Bytes → Option W
  replaced w none = none
  replaced w (some s) = files.replace_file (files.with_newline s) w

  -- SaveState
  unfoldable pub save_state : MigrationState → W → Option W
  save_state state w = replaced w (files.marshal state)

  abbrev pub save_changed :
      String → (MigrationRecord → MigrationRecord) → W → Option MigrationState → Option W
  save_changed name f w none = none
  save_changed name f w (some state) = save_state (put name (f (record_of name state)) state) w

  -- The change of one record, which three operations share.
  abbrev pub change_record : String → (MigrationRecord → MigrationRecord) → W → Option W
  change_record name f w = save_changed name f w (load_state w)

  unfoldable pub set_do_not_run : String → Bool → W → Option W
  set_do_not_run name value = change_record name (λ r. record r { do_not_run = value })

  unfoldable pub set_ran_successfully : String → Bool → W → Option W
  set_ran_successfully name value = change_record name (λ r. record r { ran_successfully = value })

  unfoldable pub mark_completed : String → W → Option W
  mark_completed name =
      change_record name (λ r. record r { ran_successfully = true; do_not_run = true })

-- BoolConfig
abbrev is_flag : Option ConfigValue → Bool
is_flag (some (flag b)) = b
is_flag _ = false

unfoldable pub bool_config : String → MigrationRecord → Bool
bool_config name r = is_flag (r.config name)
