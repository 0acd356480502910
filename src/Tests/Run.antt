-- ===== src/Tests/Run.antt =====
-- A run of the export over two tenants, one of which is inactive.
use cubeforge_api.Prelude.{
  Bool, true, none, [], ◌∷◌, map, Text, ◌≡◌, refl, lit, ◌==◌, includes, add, starts_with,
  slice_from, ◌⊎◌,
}
use cubeforge_api.Export.ExportTenant.{
  write_catalogue, write_watermark, confirm, conclusion, reason_of,
}
use cubeforge_api.Access.Identifiers.{is_well_formed}
use cubeforge_api.Tests.Inventory.{stores, acme, epoch}
use cubeforge_api.Export.ExportTenant.{execute as export_tenant}
use cubeforge_api.Tests.Recording.{kept}
use cubeforge_api.Export.RunExport.{execute, carry_loop, carry_tenant}
use cubeforge_api.Access.Entities.{Tenant, is_tenant_active, TenantStatus}
use cubeforge_api.Export.ExportTenant.{
  World, failing_as, claim_window, claim_work, read_tables, read_work, by_day_recorded,
  write_partitions, write,
}
use cubeforge_api.Export.Report.{ExportReport, TenantOutcome, tenant_id_of, report_of}
use cubeforge_api.Errors.{ok, ◌>>=◌}
use cubeforge_api.Export.Sink.{reachable, put_file}
use cubeforge_api.Export.RunExport.Tenants.{execute-ids}
use cubeforge_api.UnitOfWork.{run_in_tenant}
use cubeforge_api.Inventory.Store.{restore, list, RecordedMovement, key}
use cubeforge_api.Export.Store.{read, held, horizon, start, finish, in_window, window_movements}
use cubeforge_api.Export.Cursor.{next_window}
use cubeforge_api.Export.Window.{window_from, transaction_id, covers}
use cubeforge_api.Prelude.Dict.{get, put}
use cubeforge_api.Prelude.Sort.{sort}
use cubeforge_api.Export.Partition.{
  partition_day, movements_key, prefix_for, tenant_segment, window_name, catalogue_key,
  watermark_key,
}
use cubeforge_api.Calendar.{iso_day, day_number, civil}
use cubeforge_api.Access.Identifiers.{require_well_formed_tenant}
use cubeforge_api.Prelude.Decimal.{decimal, digits}
use cubeforge_api.Export.ExportTenant.Through.{through_of}
use cubeforge_api.Export.ExportTenant.Moves.{Moved, execute-through}

abbrev shop_id : Text
shop_id = lit "a1b2c3d4-0000-4000-8000-00000000000f"

abbrev shop : Tenant
shop = record acme { id = shop_id }

abbrev delivered : RecordedMovement
delivered = record kept { tenant = shop_id }

abbrev gone : Tenant
gone = record acme { id = lit "gone"; status = TenantStatus.inactive }

abbrev world : World
world = record {
  stores = record {
    identity = record stores.identity { tenants = (lit "gone", gone) ∷ (shop_id, shop) ∷ [] };
    inventory = record stores.inventory { movements = (key shop_id (lit "d-1"), delivered) ∷ [] };
  };
  sink = record { written = []; failing = []; refusal = none };
}

abbrev any_order : Text → Text → Bool
any_order a b = true

abbrev carried_both : ExportReport
carried_both = record {
  outcomes =
      TenantOutcome.carried shop_id (record { movements = 1; partitions = 1; through = 7 }) ∷ [];
  carried = 1;
  up_to_date = 0;
  failed = 0;
  movements = 1;
  partitions = 1;
  succeeded = true;
}

abbrev world_after : World
world_after = (execute any_order epoch none world).1

ran : execute any_order epoch none world ≡ (ok carried_both, world_after)
unfolding execute ◌>>=◌ failing_as reachable report_of carry_loop is_tenant_active includes add
    carry_tenant cubeforge_api.Export.ExportTenant.execute claim_window claim_work run_in_tenant
    restore read held next_window window_from transaction_id horizon start finish get put ◌==◌
    read_tables read_work in_window window_movements covers sort list starts_with slice_from
    by_day_recorded partition_day iso_day day_number civil write_partitions movements_key prefix_for
    tenant_segment require_well_formed_tenant is_well_formed window_name decimal digits write
    put_file write_catalogue catalogue_key watermark_key write_watermark confirm conclusion
    reason_of
ran = refl

execute-ids_example :
    (reachable world.sink ≡ ok tt) × (map tenant_id_of carried_both.outcomes ≡ shop_id ∷ [])
unfolding is_tenant_active ◌==◌
execute-ids_example = execute-ids any_order epoch none world world_after carried_both ran

execute-through_example :
    (through_of (export_tenant any_order epoch shop_id world).1 shop_id ≡ through_of world shop_id)
    ⊎ Moved any_order shop_id world (export_tenant any_order epoch shop_id world).1
execute-through_example = execute-through any_order epoch shop_id world
