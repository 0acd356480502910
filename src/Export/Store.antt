-- ===== src/Export/Store.antt =====
-- src/adapters/persistence/in-memory/in-memory-export-store.ts. A repository that is bound to a
-- tenant takes it as an argument; `DatasetName` has one member, `movements`.
pub mod Cursors
pub mod Stable
use cubeforge_api.Prelude.{
  ℕ, Bool, ◌&&◌, Option, none, some, List, map, Text, ◌==◌, if◌then◌else◌, filter, nat_eq, lit, leb,
  any,
}
use cubeforge_api.Inventory.Store.{Inventory, RecordedMovement, key, HeldCursor}
use cubeforge_api.Errors.{Result, ok, err, thrown}
use cubeforge_api.Export.Window.{ExportWindow, transaction_id, covers}
use cubeforge_api.Export.Rows.{ExportedMovementRow}
use cubeforge_api.Prelude.Dict.{get, put, values}
use cubeforge_api.Export.Cursor.{ExportCursor, started, carried, never_carried}
use cubeforge_api.Prelude.Sort.{sort}

-- `horizon()`
unfoldable pub horizon : Inventory → Result ℕ
horizon s = transaction_id s.next_transaction

row_of : RecordedMovement → ExportedMovementRow
row_of m = record {
  external_id = m.external_id;
  sku = m.sku;
  location_code = m.location;
  kind = m.kind;
  quantity = m.quantity;
  occurred_at = m.occurred_at;
  recorded_at = m.recorded_at;
}

-- The comparator: by transaction, and within one by `localeCompare`, which `le` stands for.
abbrev pub row_order : (Text → Text → Bool) → RecordedMovement → RecordedMovement → Bool
row_order le l r =
    if nat_eq l.recorded_xid r.recorded_xid
    then le l.external_id r.external_id
    else leb l.recorded_xid r.recorded_xid

-- The filter of `inWindow`, whose `transactionId` throws at an identifier that is not positive.
unfoldable pub window_movements : Inventory → Text → ExportWindow → List RecordedMovement
window_movements s tenant w =
    filter (λ m. m.tenant == tenant && covers w m.recorded_xid) (values s.movements)

unfoldable pub in_window :
    (Text → Text → Bool) → Inventory → Text → ExportWindow → Result (List ExportedMovementRow)
unfolding row_of
in_window le s tenant w =
    if any (λ m. m.tenant == tenant && leb m.recorded_xid 0) (values s.movements)
    then err thrown
    else ok (map row_of (sort (row_order le) (window_movements s tenant w)))

-- `${tenantId}:${dataset}`
abbrev pub cursor_key : Text → Text
cursor_key tenant = key tenant (lit "movements")

abbrev fresh_cursor : HeldCursor
fresh_cursor = record { carried_through = none; started_window = none }

abbrev pub held_or_fresh : Option HeldCursor → HeldCursor
held_or_fresh none = fresh_cursor
held_or_fresh (some h) = h

-- `held()`
unfoldable pub held : Inventory → Text → HeldCursor
held s tenant = held_or_fresh (get s.export_cursors (cursor_key tenant))

started_at : Result ℕ → Result ℕ → Result ExportCursor
started_at (ok from) (ok to) = ok (started (record { from = from; to = to }))
started_at (ok from) (err e) = err e
started_at (err e) r = err e

carried_at : Result ℕ → Result ExportCursor
carried_at (ok through) = ok (carried through)
carried_at (err e) = err e

read_held : Option (ℕ × ℕ) → Option ℕ → Result ExportCursor
read_held (some (from, to)) through = started_at (transaction_id from) (transaction_id to)
read_held none (some through) = carried_at (transaction_id through)
read_held none none = ok never_carried

-- `read()`; a missing row reads as one with nothing in it.
unfoldable pub read : Inventory → Text → Result ExportCursor
unfolding read_held started_at carried_at held
read s tenant = let h = held s tenant in read_held h.started_window h.carried_through

unfoldable pub start : Text → ExportWindow → Inventory → Inventory
unfolding held
start tenant w s = record s {
  export_cursors =
      put s.export_cursors (cursor_key tenant)
        (record (held s tenant) { started_window = some (w.from, w.to) });
}

unfoldable pub finish : Text → ℕ → Inventory → Inventory
finish tenant through s = record s {
  export_cursors =
      put s.export_cursors (cursor_key tenant)
        (record { carried_through = some through; started_window = none });
}
