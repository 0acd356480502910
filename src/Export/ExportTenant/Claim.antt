-- ===== src/Export/ExportTenant/Claim.antt =====
-- `claimWindow` of src/application/export/export-tenant.use-case.ts after a run that died.
use cubeforge_api.Export.Store.Cursors.{read-start, transaction_id-ok}
use cubeforge_api.Prelude.{◌<◌, some, Text, ◌≡◌, ◌∙◌}
use cubeforge_api.Export.Store.{read, held, start, horizon}
use cubeforge_api.Export.ExportTenant.{
  claim_work, claim_next, Inventory, next_window, start, horizon, ok,
}
use cubeforge_api.Export.Window.{ExportWindow}
use cubeforge_api.Inventory.Store.{Inventory}
use cubeforge_api.Export.Cursor.{next_window, started}
use cubeforge_api.Errors.{ok, ◌>>=◌}

read-of_cursors :
    (t : Text) (s s' : Inventory) → s'.export_cursors ≡ s.export_cursors → read s' t ≡ read s t
unfolding read held
read-of_cursors t s s' e = rw e

claim_read :
    (t : Text) (w : ExportWindow) (s : Inventory)
    → 0 < s.next_transaction
    → read s t ≡ ok (started w)
    → claim_work t s ≡ (ok (some w), start t w s)
unfolding claim_work claim_next next_window horizon ◌>>=◌
claim_read t w s later h = rw (h, transaction_id-ok s.next_transaction later)

-- Once a window between positive transactions is claimed, whatever else happens to the tables and
-- wherever the horizon is, as long as it is positive, the next claim over an unchanged cursor table
-- is of that same window, and it writes the claim anew.
pub claim_work-again :
    (t : Text) (w : ExportWindow) (s later : Inventory)
    → 0 < w.from
    → 0 < w.to
    → 0 < later.next_transaction
    → later.export_cursors ≡ (start t w s).export_cursors
    → claim_work t later ≡ (ok (some w), start t w later)
claim_work-again t w s later f g n e =
    claim_read t w later n (read-of_cursors t (start t w s) later e ∙ read-start t w s f g)
