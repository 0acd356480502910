-- ===== src/Export/Window.antt =====
-- src/domain/export/window.ts. Transaction identifiers come from counters and are never negative.
use cubeforge_api.Prelude.{ℕ, Bool, ◌&&◌, if◌then◌else◌, leb, ltb}
use cubeforge_api.Errors.{Result, err, thrown, ok}

unfoldable pub transaction_id : ℕ → Result ℕ
transaction_id value = if leb value 0 then err thrown else ok value

pub record ExportWindow : Type 0 where
  pub from : ℕ
  pub to : ℕ

unfoldable pub covers : ExportWindow → ℕ → Bool
covers w identifier = leb w.from identifier && ltb identifier w.to

unfoldable pub window_from : ℕ → ℕ → Result ExportWindow
window_from from to = if leb to from then err thrown else ok (record { from = from; to = to })
