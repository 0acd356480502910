-- ===== src/Cube/Dialect.antt =====
-- cube/configuration.js, the dialect that is used against the emulator. Its templates of
-- statements are left out.
use cubeforge_api.Prelude.{
  Bool, false, not, Option, none, some, [], ◌∷◌, ◌++◌, Text, ◌==◌, if◌then◌else◌, lit,
}
use cubeforge_api.Errors.{Result, err, thrown, ok}

abbrev pub time_stamp_param : Text
time_stamp_param = lit "CAST(? AS TIMESTAMP)"

-- `timeStampCast`; `dateTimeCast` is the same function.
abbrev pub time_stamp_cast : Text → Text
time_stamp_cast value = lit "CAST(" ++ value ++ lit " AS TIMESTAMP)"

abbrev is_elsewhere : Option Text → Bool
is_elsewhere none = false
is_elsewhere (some []) = false
is_elsewhere (some (c ∷ t)) = not ((c ∷ t) == lit "UTC")

-- `convertTz`, for the zone of the question.
unfoldable pub convert_tz : Option Text → Text → Result Text
convert_tz timezone field = if is_elsewhere timezone then err thrown else ok field
