-- ===== src/Calendar.antt =====
-- `date.toISOString().slice(0, 10)`, the day of a moment in UTC. The days are counted from the first
-- of March of a year -280000, before every moment that a `Date` can hold.
use cubeforge_api.Prelude.{
  ℕ, zero, suc, ◌+◌, ◌-◌, [], ◌∷◌, ◌++◌, Text, if◌then◌else◌, Date, ℤ, ◌/◌, ltb, ◌%◌, pos, ◌*◌,
  negsuc, leb, at, invalid,
}
use cubeforge_api.Errors.{Result, err, thrown, ok}

-- Days from the start of the count.
unfoldable pub day_number : ℤ → ℕ
day_number (pos n) = 102_987_368 + n / 86_400_000
day_number (negsuc n) = 102_987_368 - (n / 86_400_000 + 1)

pub record Civil : Type 0 where
  pub year : ℕ
  pub month : ℕ
  pub day : ℕ

-- The Gregorian day, by eras of 400 years.
unfoldable pub civil : ℕ → Civil
civil z =
    let era = z / 146_097 in
    let doe = z % 146_097 in
    let yoe = (doe - doe / 1460 + doe / 36_524 - doe / 146_096) / 365 in
    let doy = doe - (365 * yoe + yoe / 4 - yoe / 100) in
    let mp = (5 * doy + 2) / 153 in
    let month = if ltb mp 10 then mp + 3 else mp - 9 in
    record {
      year = yoe + era * 400 + (if leb month 2 then 1 else 0);
      month = month;
      day = doy - (153 * mp + 2) / 5 + 1;
    }

-- `n` in `w` digits
abbrev padded : ℕ → ℕ → Text
padded zero n = []
padded (suc w) n = padded w (n / 10) ++ (b'0' + n % 10) ∷ []

-- Four digits from the year 0 to 9999, otherwise a sign and six. `y` counts from -280000.
abbrev year_text : ℕ → Text
year_text y =
    if ltb y 280_000
    then b'-' ∷ padded 6 (280_000 - y)
    else if ltb y 290_000
    then padded 4 (y - 280_000)
    else b'+' ∷ padded 6 (y - 280_000)

abbrev take : ℕ → Text → Text
take zero t = []
take (suc n) [] = []
take (suc n) (c ∷ t) = c ∷ take n t

-- An invalid date throws a RangeError.
unfoldable pub iso_day : Date → Result Text
unfolding day_number civil
iso_day invalid = err thrown
iso_day (at ms) =
    let c = civil (day_number ms) in
    ok (take 10 (year_text c.year ++ (b'-' ∷ padded 2 c.month ++ (b'-' ∷ padded 2 c.day))))
