-- ===== src/Cube/Repair.antt =====
-- cube/configuration.js, the driver that is used against the emulator. The driver of the semantic
-- layer's own library is a parameter.
pub mod Types
use cubeforge_api.Prelude.{
  ℕ, ◌+◌, Bool, true, false, not, ◌&&◌, Option, none, some, List, [], ◌∷◌, ◌++◌, map, Text, ◌==◌,
  if◌then◌else◌, length, filter, leb, nat_eq, lit, all,
}
use cubeforge_api.Semantic.Model.{Raw, raw_number, raw_null, raw_text}
use cubeforge_api.Prelude.Dict.{Dict, get}
use cubeforge_api.Errors.{Exec, ◌>>=◌, pure}
use cubeforge_api.Cube.Host.{is_local_emulator}

pub record ColumnType : Type 0 where
  pub name : Text
  pub column_type : Text

abbrev pub is_digit : ℕ → Bool
is_digit c = leb b'0' c && leb c b'9'

-- `(?:\.\d+)?$`
abbrev fraction : Text → Bool
fraction [] = true
fraction (c ∷ []) = false
fraction (c ∷ d ∷ t) = nat_eq c b'.' && all is_digit (d ∷ t)

-- `\d*(?:\.\d+)?$`
abbrev digits_then_fraction : Text → Bool
digits_then_fraction [] = true
digits_then_fraction (c ∷ t) =
    let rest = digits_then_fraction t in if is_digit c then rest else fraction (c ∷ t)

-- `(?:0|[1-9]\d*)(?:\.\d+)?$`
abbrev unsigned : Text → Bool
unsigned [] = false
unsigned (c ∷ t) = if nat_eq c b'0' then fraction t else is_digit c && digits_then_fraction t

-- `WRITTEN_AS_A_NUMBER.test(text)`
unfoldable pub written_as_a_number : Text → Bool
written_as_a_number [] = false
written_as_a_number (c ∷ t) = if nat_eq c b'-' then unsigned t else unsigned (c ∷ t)

-- `value !== null && value !== undefined`
abbrev pub is_present : Option Raw → Bool
is_present none = false
is_present (some raw_null) = false
is_present (some _) = true

abbrev pub is_numeric : Option Raw → Bool
is_numeric (some (raw_number n)) = true
is_numeric (some (raw_text t)) = written_as_a_number t
is_numeric _ = false

-- `everyValueIsANumber`
unfoldable pub every_value_is_a_number : Text → List (Dict Raw) → Bool
every_value_is_a_number name rows =
    let present = filter is_present (map (λ row. get row name) rows) in
    not (nat_eq (length present) 0) && all is_numeric present

abbrev pub repaired : List (Dict Raw) → ColumnType → ColumnType
repaired rows column =
    if column.column_type == lit "text" && every_value_is_a_number column.name rows
    then record { name = column.name; column_type = lit "bigint" }
    else column

-- `repairTypes`
unfoldable pub repair_types : List ColumnType → List (Dict Raw) → List ColumnType
repair_types types rows = map (repaired rows) types

-- What a download gives: `none` stands for a field that is no array.
pub record Download : Type 0 where
  pub rows : Option (List (Dict Raw))
  pub types : Option (List ColumnType)

-- What is used of `AthenaDriver`; a statement's values are texts.
pub record Driver (W : Type 0) : Type 0 where
  pub streams : Bool
  pub query_column_types : Text → List Text → Exec W (List ColumnType)
  pub query : Text → List Text → Exec W (List (Dict Raw))
  pub download_query_results : Text → List Text → Exec W Download

abbrev pub repaired_download : Download → Download
repaired_download result = elim result.rows [
  | none ↦ result
  | some rows ↦ elim result.types [
    | none ↦ result
    | some types ↦ record { rows = some rows; types = some (repair_types types rows) }
  ]
]

abbrev pub sample_of : Text → Text
sample_of sql = lit "SELECT * FROM (" ++ sql ++ lit ") AS repair_sample LIMIT 100"

module _ {W : Type 0} where
  -- `EmulatorTypeRepairingDriver`
  abbrev pub emulator_driver : Driver W → Driver W
  emulator_driver driver = record {
    streams = false;
    query_column_types = λ sql params. driver.query_column_types sql params >>= λ types.
        driver.query (sample_of sql) params >>= λ sample. pure (repair_types types sample);
    query = driver.query;
    download_query_results = λ query values.
        driver.download_query_results query values >>= λ result. pure (repaired_download result);
  }

  -- `driverFor`
  unfoldable pub driver_for : (Text → Option Text) → Text → Driver W → Driver W
  driver_for hostname endpoint driver =
      if not (is_local_emulator hostname endpoint) then driver else emulator_driver driver
