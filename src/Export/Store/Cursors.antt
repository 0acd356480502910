-- ===== src/Export/Store/Cursors.antt =====
-- What the cursor table answers after a claim and after a confirmation.
use cubeforge_api.Prelude.{ℕ, ◌<◌, Text, ◌≡◌, arith}
use cubeforge_api.Export.Store.{
  held, read, start, finish, Inventory, ok, HeldCursor, read_held, put, started_at, carried_at,
  cursor_key, ExportWindow, carried,
}
use cubeforge_api.Export.Window.{transaction_id, ExportWindow}
use cubeforge_api.Inventory.Store.{Inventory, HeldCursor}
use cubeforge_api.Errors.{ok}
use cubeforge_api.Prelude.Dict.{put, get_self}
use cubeforge_api.Export.Cursor.{carried, started}

pub held-put :
    (s : Inventory) (t : Text) (h : HeldCursor)
    → held (record s { export_cursors = put s.export_cursors (cursor_key t) h }) t ≡ h
unfolding held
held-put s t h = rw (get_self s.export_cursors (cursor_key t) h)

pub transaction_id-ok : (n : ℕ) → 0 < n → transaction_id n ≡ ok n
unfolding transaction_id
transaction_id-ok n h = ground arith

pub read-start :
    (t : Text) (w : ExportWindow) (s : Inventory)
    → 0 < w.from
    → 0 < w.to
    → read (start t w s) t ≡ ok (started w)
unfolding read start read_held started_at
read-start t w s f g = rw (held-put s t _, transaction_id-ok w.from f, transaction_id-ok w.to g)

pub read-finish :
    (t : Text) (through : ℕ) (s : Inventory)
    → 0 < through
    → read (finish t through s) t ≡ ok (carried through)
unfolding read finish read_held carried_at
read-finish t through s h = rw (held-put s t _, transaction_id-ok through h)
