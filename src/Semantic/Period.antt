-- ===== src/Semantic/Period.antt =====
-- src/domain/analytics/period.ts. `start` is what `Date.parse` answers for a day at midnight.
use cubeforge_api.Prelude.{
  at, ℕ, Bool, true, false, not, ◌&&◌, ◌||◌, List, [], ◌∷◌, Text, if◌then◌else◌, Date, lit, leb,
  nat_eq, starts_with, ltb, ℤ, pos, ltb_ℤ, ◌+ℤ◌,
}
use cubeforge_api.Errors.{Result, ok, err, thrown}
use cubeforge_api.Calendar.{iso_day}

abbrev pub longest_period_days : ℕ
longest_period_days = 366

-- `CALENDAR`
abbrev pub calendar : Text
calendar = lit "UTC"

-- `/^\d{4}-\d{2}-\d{2}$/`
abbrev is_digit : ℕ → Bool
is_digit c = leb b'0' c && leb c b'9'

abbrev is_dash : ℕ → Bool
is_dash c = nat_eq c b'-'

abbrev pub day_pattern : List (ℕ → Bool)
day_pattern =
    is_digit ∷ is_digit ∷ is_digit ∷ is_digit ∷ is_dash ∷ is_digit ∷ is_digit ∷ is_dash ∷ is_digit
    ∷ is_digit ∷ []

abbrev pub matches_all : List (ℕ → Bool) → Text → Bool
matches_all [] [] = true
matches_all (p ∷ ps) (c ∷ t) = p c && matches_all ps t
matches_all _ _ = false

abbrev pub day_shape : Text → Bool
day_shape = matches_all day_pattern

abbrev starts_with_day : Text → Result Text → Bool
starts_with_day value (ok d) = starts_with value d
starts_with_day value (err e) = false

unfoldable pub day : (Text → Date) → Text → Result Text
day start value =
    if not (day_shape value)
    then err thrown
    else if not (starts_with_day value (iso_day (start value)))
    then err thrown
    else ok value

-- `<=` on strings, by code units.
unfoldable pub leb_text : Text → Text → Bool
leb_text [] b = true
leb_text (x ∷ a) [] = false
leb_text (x ∷ a) (y ∷ b) = let rest = leb_text a b in ltb x y || nat_eq x y && rest

pub record Period : Type 0 where
  pub from : Text
  pub to : Text

unfoldable pub covers : Period → Text → Bool
covers p candidate = leb_text p.from candidate && leb_text candidate p.to

abbrev pub day_length : ℤ
day_length = pos 86_400_000

-- `daysBetween(from, to) > LONGEST_PERIOD_DAYS`, false where an end is not a number. One day more
-- than the difference is over 366 days if the difference is over 365, which is compared here in
-- milliseconds.
abbrev too_long : Date → Date → Bool
too_long (at a) (at b) = ltb_ℤ (a +ℤ pos 31_536_000_000) b
too_long _ _ = false

-- `periodFrom`
unfoldable pub period_from : (Text → Date) → Text → Text → Result Period
period_from start from to =
    if not (leb_text from to)
    then err thrown
    else if too_long (start from) (start to)
    then err thrown
    else ok (record { from = from; to = to })
