-- ===== src/Analytics/Athena.antt =====
-- src/adapters/analytics/athena-analytics.ts over the runner of questions. The engine, the clock,
-- the readers of values and `String` of a number and of a date are parameters.
pub mod Select
pub mod Confined
pub mod Keeping
pub mod Tenant
use cubeforge_api.Prelude.{
  ℕ, ◌+◌, ◌<◌, Option, none, some, List, [], ◌∷◌, ◌++◌, map, Text, Date, lit, Number, not_whole, at,
  whole, pos, invalid,
}
use cubeforge_api.Analytics.Shape.{
  ValueKind, AnswerColumn, Readers, DecodedValue, DecodedRow, day, text, moment, text_value,
  day_value, moment_value, whole_number, number_value, decode_rows,
}
use cubeforge_api.Semantic.Period.{Period}
use cubeforge_api.Errors.{Result, err, ok}
use cubeforge_api.Analytics.Runner.{Engine, Clock, QueryResult, run, poll_milliseconds}
use cubeforge_api.Analytics.Reading.{
  StockOnHandEntry, MovementsOnDayEntry, AnalyticalAnswer, answered, never_exported,
}
use cubeforge_api.Prelude.Dict.{get}
use cubeforge_api.Access.Identifiers.{require_well_formed_tenant}

-- `LONGEST_QUESTION_MILLISECONDS`
abbrev pub longest_question_milliseconds : ℕ
longest_question_milliseconds = 30_000

abbrev column : Text → ValueKind → AnswerColumn
column name kind = record { name = name; kind = kind }

-- `MOVEMENTS_BY_DAY`
abbrev pub movements_by_day_columns : List AnswerColumn
movements_by_day_columns =
    column (lit "recorded_date") day
    ∷ column (lit "kind") text
    ∷ column (lit "quantity") whole_number
    ∷ []

-- `STOCK_ON_HAND`
abbrev pub stock_on_hand_columns : List AnswerColumn
stock_on_hand_columns =
    column (lit "sku") text ∷ column (lit "name") text ∷ column (lit "on_hand") whole_number ∷ []

-- `WATERMARK`
abbrev pub watermark_columns : List AnswerColumn
watermark_columns = column (lit "complete_through") moment ∷ []

-- `tenantIs`
abbrev pub tenant_is : Text → Option Text → Text
tenant_is tenant none = lit "tenant_id = '" ++ tenant ++ lit "'"
tenant_is tenant (some of) = of ++ lit ".tenant_id = '" ++ tenant ++ lit "'"

-- The statement of `stockOnHand`.
unfoldable pub stock_statement : Text → Text
stock_statement tenant =
    lit "SELECT m.sku AS sku, p.name AS name, sum(m.quantity) AS on_hand\n"
    ++ lit "         FROM movements m\n"
    ++ lit "         JOIN products p ON p.code = m.sku\n"
    ++ lit "        WHERE "
    ++ tenant_is tenant (some (lit "m"))
    ++ lit "\n          AND "
    ++ tenant_is tenant (some (lit "p"))
    ++ lit "\n        GROUP BY m.sku, p.name\n        ORDER BY m.sku"

-- The statement of `movementsByDay`.
unfoldable pub movements_statement : Text → Period → Text
movements_statement tenant period =
    lit "SELECT recorded_date, kind, sum(quantity) AS quantity\n"
    ++ lit "         FROM movements\n"
    ++ lit "        WHERE "
    ++ tenant_is tenant none
    ++ lit "\n          AND recorded_date >= '"
    ++ period.from
    ++ lit "'\n          AND recorded_date <= '"
    ++ period.to
    ++ lit "'\n        GROUP BY recorded_date, kind\n        ORDER BY recorded_date, kind"

-- The statement of `completeThrough`.
unfoldable pub watermark_statement : Text → Text
watermark_statement tenant =
    lit "SELECT complete_through FROM watermarks WHERE " ++ tenant_is tenant none

-- `String` of a number and of a date, and the readers of values.
pub record Values : Type 0 where
  pub readers : Readers
  pub number_text : Number → Text
  pub date_text : Date → Text

-- `String(row.get(name))`
abbrev pub string_of : Values → Option (Option DecodedValue) → Text
string_of v none = lit "undefined"
string_of v (some none) = lit "null"
string_of v (some (some (text_value t))) = t
string_of v (some (some (day_value t))) = t
string_of v (some (some (number_value n))) = v.number_text n
string_of v (some (some (moment_value d))) = v.date_text d

abbrev time_of : Date → Number
time_of (at ms) = whole ms
time_of invalid = not_whole

-- `Number(row.get(name))`
abbrev pub number_of : Values → Option (Option DecodedValue) → Number
number_of v none = not_whole
number_of v (some none) = whole (pos 0)
number_of v (some (some (text_value t))) = v.readers.number_from t
number_of v (some (some (day_value t))) = v.readers.number_from t
number_of v (some (some (number_value n))) = n
number_of v (some (some (moment_value d))) = time_of d

-- `row.get(name) as Day`, of a column whose values are days or null.
abbrev pub day_of : Option (Option DecodedValue) → Option Text
day_of (some (some (day_value t))) = some t
day_of _ = none

-- `moment instanceof Date ? moment : null`
abbrev pub date_or_null : Option (Option DecodedValue) → Option Date
date_or_null (some (some (moment_value d))) = some d
date_or_null _ = none

unfoldable pub stock_entry : Values → DecodedRow → StockOnHandEntry
stock_entry v row = record {
  sku = string_of v (get row (lit "sku"));
  name = string_of v (get row (lit "name"));
  on_hand = number_of v (get row (lit "on_hand"));
}

unfoldable pub movement_entry : Values → DecodedRow → MovementsOnDayEntry
movement_entry v row = record {
  day = day_of (get row (lit "recorded_date"));
  kind = string_of v (get row (lit "kind"));
  quantity = number_of v (get row (lit "quantity"));
}

-- `rows[0]?.get('complete_through')`
abbrev pub first_moment : List DecodedRow → Option Date
first_moment [] = none
first_moment (row ∷ rows) = date_or_null (get row (lit "complete_through"))

-- An action that may also run out of fuel.
abbrev pub Run : Type 0 → Type 0 → Type 0
Run W A = W → Option (Result A × W)

abbrev pub go_on : {W A B : Type 0} → Option (Result A × W) → (A → Run W B) → Option (Result B × W)
go_on none f = none
go_on (some (err e, w)) f = some (err e, w)
go_on (some (ok a, w)) f = f a w

module _ {W : Type 0} (engine : Engine W) (clock : Clock W) (values : Values)
    (budget fuel : ℕ) where
  abbrev pub decoded : List AnswerColumn → QueryResult → Run W (List DecodedRow)
  decoded columns result w = some (decode_rows values.readers columns result.header result.rows, w)

  -- The private `ask`
  unfoldable pub ask : Text → List AnswerColumn → Run W (List DecodedRow)
  ask statement columns w =
      go_on (run engine clock poll_milliseconds fuel statement (clock.now w + budget) w)
        (decoded columns)

  abbrev pub marked : List DecodedRow → Run W (Option Date)
  marked rows w = some (ok (first_moment rows), w)

  -- `completeThrough`
  unfoldable pub complete_through : Text → Run W (Option Date)
  complete_through tenant w = go_on (ask (watermark_statement tenant) watermark_columns w) marked

  abbrev pub answered_rows :
      {Entry : Type 0}
      → Date
      → (DecodedRow → Entry)
      → List DecodedRow
      → Run W (AnalyticalAnswer Entry)
  answered_rows carried entry rows w = some (ok (answered carried (map entry rows)), w)

  abbrev pub ask_carried :
      {Entry : Type 0}
      → Text
      → List AnswerColumn
      → (DecodedRow → Entry)
      → Option Date
      → Run W (AnalyticalAnswer Entry)
  ask_carried statement columns entry none w = some (ok never_exported, w)
  ask_carried statement columns entry (some carried) w =
      go_on (ask statement columns w) (answered_rows carried entry)

  -- `stockOnHand`
  unfoldable pub stock_on_hand : Text → Run W (AnalyticalAnswer StockOnHandEntry)
  stock_on_hand tenant w =
      go_on (complete_through tenant w)
        (ask_carried (stock_statement tenant) stock_on_hand_columns (stock_entry values))

  -- `movementsByDay`
  unfoldable pub movements_by_day : Text → Period → Run W (AnalyticalAnswer MovementsOnDayEntry)
  movements_by_day tenant period w = go_on (complete_through tenant w) (
      ask_carried (movements_statement tenant period) movements_by_day_columns
        (movement_entry values))

  abbrev pub bound_to : {A : Type 0} → (Text → Run W A) → Result Text → Run W A
  bound_to question (ok tenant) w = question tenant w
  bound_to question (err e) w = some (err e, w)

  -- `askAs`, with the question that is asked of what is bound to the tenant.
  unfoldable pub ask_as : {A : Type 0} → Text → (Text → Run W A) → Run W A
  ask_as tenant question = bound_to question (require_well_formed_tenant tenant)
