-- ===== src/Prelude/Dates.antt =====
-- JavaScript's `Date`: a number of milliseconds from the epoch, or an invalid date, whose time is
-- NaN. A comparison with NaN is false.
use mathlib.Core.Bool.{Bool, true, false}
use cubeforge_api.Prelude.Int.{ℤ, ltb_ℤ, leb_ℤ, ◌+ℤ◌, abs}
use cubeforge_api.Prelude.Tests.{ltb, if◌then◌else◌}

pub data Date : Type 0 where
  at : ℤ → Date
  invalid : Date

-- `a.getTime() < b.getTime()`
abbrev pub before : Date → Date → Bool
before (at a) (at b) = ltb_ℤ a b
before _ _ = false

-- `a.getTime() <= b.getTime()`
abbrev pub not_after : Date → Date → Bool
not_after (at a) (at b) = leb_ℤ a b
not_after _ _ = false

-- `Number.isNaN(a.getTime())`
abbrev pub is_invalid : Date → Bool
is_invalid (at a) = false
is_invalid invalid = true

-- `new Date(ms)`: beyond 8.64e15 ms from the epoch the date is invalid.
abbrev pub date_of : ℤ → Date
date_of ms = if ltb 8_640_000_000_000_000 (abs ms) then invalid else at ms

-- `new Date(a.getTime() + ms)`
abbrev pub shift : Date → ℤ → Date
shift (at a) ms = date_of (a +ℤ ms)
shift invalid ms = invalid
