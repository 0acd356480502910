-- ===== src/Export/Cursor.antt =====
-- src/domain/export/cursor.ts
pub mod Once
use cubeforge_api.Prelude.{ℕ, if◌then◌else◌, nat_eq, ltb}
use cubeforge_api.Export.Window.{ExportWindow, window_from}
use cubeforge_api.Errors.{Result, ok, err, thrown}

pub data ExportCursor : Type 0 where
  never_carried : ExportCursor
  carried : (through : ℕ) → ExportCursor
  started : ExportWindow → ExportCursor

pub data NextWindow : Type 0 where
  carry : ExportWindow → NextWindow
  up_to_date : NextWindow

-- `FIRST`
abbrev pub first : ℕ
first = 1

abbrev carrying : Result ExportWindow → Result NextWindow
carrying (ok w) = ok (carry w)
carrying (err e) = err e

-- The decision for a cursor that is not in the middle of a window.
unfoldable pub window_to : ℕ → ℕ → Result NextWindow
window_to from horizon =
    if nat_eq from horizon
    then ok up_to_date
    else if ltb horizon from
    then err thrown
    else carrying (window_from from horizon)

unfoldable pub next_window : ExportCursor → ℕ → Result NextWindow
unfolding window_to
next_window (started w) horizon = ok (carry w)
next_window (carried through) horizon = window_to through horizon
next_window never_carried horizon = window_to first horizon
