-- ===== src/Tests/Export.antt =====
-- Exports of the tenant of Tests/Inventory.
use cubeforge_api.Prelude.{
  ◌<◌, false, some, List, [], ◌∷◌, ◌==◌, ◌≡◌, refl, arith, lit, includes, whole, add, pos,
}
use cubeforge_api.Tests.Inventory.{stores, epoch}
use cubeforge_api.Export.Window.{ExportWindow, window_from}
use cubeforge_api.Export.Cursor.{next_window, started, carried, never_carried, carry}
use cubeforge_api.Export.Cursor.Once.{Exports, times, Exports-times, confirmed, claimed, fresh}
use cubeforge_api.Inventory.Movement.{SubmittedMovement}
use cubeforge_api.Export.Store.{window_movements, start}
use cubeforge_api.Inventory.Store.{Inventory, record_movements}
use cubeforge_api.Export.ExportTenant.{claim_work}
use cubeforge_api.Export.Report.{TenantOutcome, ExportReport, report_of}
use cubeforge_api.Errors.{ok, write_failed}
use cubeforge_api.Export.Store.Stable.{window_movements-record_movements}
use cubeforge_api.Export.ExportTenant.Claim.{claim_work-again}

abbrev w1 : ExportWindow
w1 = record { from = 1; to = 5 }

abbrev w2 : ExportWindow
w2 = record { from = 5; to = 9 }

first_window : next_window never_carried 5 ≡ ok (carry w1)
unfolding next_window window_from
first_window = refl

second_window : next_window (carried 5) 9 ≡ ok (carry w2)
unfolding next_window window_from
second_window = refl

second_again : next_window (started w2) 12 ≡ ok (carry w2)
unfolding next_window
second_again = refl

-- The second export dies after its claim; the third carries the same window.
died_once : Exports (carried 9) (w2 ∷ w1 ∷ [])
died_once =
    confirmed 12 w2 (claimed 9 w2 (confirmed 5 w1 fresh first_window) second_window) second_again

Exports-times_example : times (w2 ∷ w1 ∷ []) 6 ≡ 1
Exports-times_example = Exports-times (carried 9) (w2 ∷ w1 ∷ []) 6 died_once

abbrev receipt : SubmittedMovement
receipt = record {
  external_id = lit "d-1";
  sku = lit "A-1";
  location = lit "WH1";
  kind = lit "receipt";
  quantity = whole (pos 10);
  occurred_at = epoch;
}

window_movements-record_movements_example :
    window_movements
      (record_movements (lit "acme") (receipt ∷ []) stores.inventory).1
      (lit "acme")
      w1
    ≡ window_movements stores.inventory (lit "acme") w1
window_movements-record_movements_example =
    window_movements-record_movements (lit "acme") (lit "acme") w1 (receipt ∷ []) stores.inventory
      (omega arith)

abbrev later : Inventory
later = (record_movements (lit "acme") (receipt ∷ []) (start (lit "acme") w1 stores.inventory)).1

later_cursors : later.export_cursors ≡ (start (lit "acme") w1 stores.inventory).export_cursors
unfolding record_movements
later_cursors = refl

later_transaction : 0 < later.next_transaction
unfolding record_movements start
later_transaction = omega arith

claim_work-again_example :
    claim_work (lit "acme") later ≡ (ok (some w1), start (lit "acme") w1 later)
claim_work-again_example =
    claim_work-again (lit "acme") w1 stores.inventory later (omega arith) (omega arith)
      later_transaction later_cursors

abbrev outcomes : List TenantOutcome
outcomes =
    TenantOutcome.up_to_date (lit "acme") ∷ TenantOutcome.failed (lit "other") write_failed ∷ []

abbrev both : ExportReport
both = record {
  outcomes = outcomes;
  carried = 0;
  up_to_date = 1;
  failed = 1;
  movements = 0;
  partitions = 0;
  succeeded = false;
}

both_reported : report_of outcomes ≡ ok both
unfolding report_of includes add ◌==◌
both_reported = refl
