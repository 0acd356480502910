-- ===== src/Analytics/Shape.antt =====
-- src/domain/analytics/answer-shape.ts. `number_from` is `Number(text)`, `date_from` is
-- `new Date(text)` and `start` is that of a day at midnight.
pub mod Places
pub mod Cells
pub mod Filling
use cubeforge_api.Prelude.{
  ℕ, suc, Bool, true, false, ◌&&◌, ◌||◌, Option, none, some, List, [], ◌∷◌, ◌++◌, Text,
  if◌then◌else◌, Date, Number, whole, not_whole, is_invalid, nat_eq, leb, any, get_elem?, lit, ◌==◌,
}
use cubeforge_api.Prelude.Dict.{Dict, put}
use cubeforge_api.Errors.{Result, ok, err, thrown}
use cubeforge_api.Semantic.Model.{with_t}
use cubeforge_api.Semantic.Period
use cubeforge_api.Semantic.Asking.{then_answer}

pub data ValueKind : Type 0 where
  text whole_number moment day : ValueKind

pub record AnswerColumn : Type 0 where
  pub name : Text
  pub kind : ValueKind

pub data DecodedValue : Type 0 where
  text_value : Text → DecodedValue
  number_value : Number → DecodedValue
  moment_value : Date → DecodedValue
  day_value : Text → DecodedValue

-- `none` is null.
abbrev pub DecodedRow : Type 0
DecodedRow = Dict (Option DecodedValue)

pub record Readers : Type 0 where
  pub number_from : Text → Number
  pub date_from : Text → Date
  pub start : Text → Date

-- `new Map(header.map((name, index) => [name, index]))`, looked up: the last of equal names counts.
abbrev pub after_one : Option ℕ → Bool → Option ℕ
after_one (some i) here = some (suc i)
after_one none here = if here then some 0 else none

unfoldable pub position : List Text → Text → Option ℕ
position [] name = none
position (h ∷ hs) name = after_one (position hs name) (h == name)

abbrev is_digit : ℕ → Bool
is_digit c = leb b'0' c && leb c b'9'

abbrev is_sign : ℕ → Bool
is_sign c = nat_eq c b'+' || nat_eq c b'-'

abbrev reversed : Text → Text → Text
reversed [] r = r
reversed (c ∷ t) r = reversed t (c ∷ r)

abbrev hours_end : Text → Bool
hours_end (c ∷ d ∷ s ∷ t) = is_digit c && is_digit d && is_sign s
hours_end _ = false

-- `/[+-]\d{2}:?\d{2}$/`, on the reversed text.
abbrev offset_end : Text → Bool
offset_end (c ∷ d ∷ x ∷ t) =
    is_digit c && is_digit d && (if nat_eq x b':' then hours_end t else hours_end (x ∷ t))
offset_end _ = false

-- `/[Zz]|[+-]\d{2}:?\d{2}$/`
unfoldable pub has_zone : Text → Bool
has_zone t = any (λ c. nat_eq c b'Z' || nat_eq c b'z') t || offset_end (reversed t [])

abbrev pub as_utc : Text → Text
as_utc raw = if any (λ c. nat_eq c b'T') raw then raw else with_t raw

abbrev pub zoned : Text → Text
zoned t = if has_zone t then t else t ++ lit "Z"

abbrev whole_or_throw : Number → Result DecodedValue
whole_or_throw (whole n) = ok (number_value (whole n))
whole_or_throw not_whole = err thrown

abbrev moment_or_throw : Date → Result DecodedValue
moment_or_throw d = if is_invalid d then err thrown else ok (moment_value d)

-- The private `decode`
unfoldable pub decode : Readers → ValueKind → Text → Result DecodedValue
decode r text raw = ok (text_value raw)
decode r whole_number raw = whole_or_throw (r.number_from raw)
decode r moment raw = moment_or_throw (r.date_from (zoned (as_utc raw)))
decode r day raw = then_answer (Period.day r.start raw) (λ d. ok (day_value d))

abbrev cell_at : List (Option Text) → Option ℕ → Option Text
cell_at row none = none
cell_at row (some i) = elim (get_elem? row i) [ none ↦ none | some c ↦ c ]

abbrev decode_cell : Readers → ValueKind → Option Text → Result (Option DecodedValue)
decode_cell r kind none = ok none
decode_cell r kind (some raw) = then_answer (decode r kind raw) (λ v. ok (some v))

-- The inner loop of `decodeRows`, from the columns that are done.
unfoldable pub decode_columns :
    Readers → List Text → List (Option Text) → List AnswerColumn → DecodedRow → Result DecodedRow
decode_columns r header row [] decoded = ok decoded
decode_columns r header row (c ∷ cs) decoded =
    then_answer (decode_cell r c.kind (cell_at row (position header c.name)))
      (λ v. decode_columns r header row cs (put decoded c.name v))

unfoldable pub decode_all :
    Readers → List AnswerColumn → List Text → List (List (Option Text)) → Result (List DecodedRow)
decode_all r columns header [] = ok []
decode_all r columns header (row ∷ rows) =
    then_answer (decode_columns r header row columns [])
      (λ d. then_answer (decode_all r columns header rows) (λ ds. ok (d ∷ ds)))

abbrev pub is_missing : List Text → AnswerColumn → Bool
is_missing header c = elim (position header c.name) [ none ↦ true | some i ↦ false ]

-- `decodeRows`
unfoldable pub decode_rows :
    Readers → List AnswerColumn → List Text → List (List (Option Text)) → Result (List DecodedRow)
decode_rows r columns header rows =
    if any (is_missing header) columns then err thrown else decode_all r columns header rows
