-- ===== src/Export/ExportTenant.antt =====
-- src/application/export/export-tenant.use-case.ts and export-failure.ts
pub mod Claim
pub mod Quiet
pub mod Through
pub mod Moves
use cubeforge_api.Prelude.{Bool, Option, none, some, List, [], ◌∷◌, ◌++◌, map, Text, length, Date}
use cubeforge_api.UnitOfWork.{Stores, run_in_tenant, on_inventory}
use cubeforge_api.Errors.{
  ExportFailureReason, Failure, Exec, Result, ok, database_unavailable, write_failed, pure,
  export_failed, analytics_unavailable, ◌>>=◌, asks, modify, lift, violation, err, gets, thrown,
  ◌>>◌,
}
use cubeforge_api.Export.Sink.{ExportSink, ColumnarFile, put_file}
use cubeforge_api.Export.Cursor.{NextWindow, next_window}
use cubeforge_api.Export.Rows.{
  ExportedMovementRow, ExportedCatalogueRow, movement_columns, movement, catalogue_columns,
  catalogue, watermark, watermark_columns,
}
use cubeforge_api.Inventory.Store.{ReferenceEntity, Inventory, list}
use cubeforge_api.Export.Window.{ExportWindow}
use cubeforge_api.Prelude.Dict.{Dict, put, get}
use cubeforge_api.Export.Partition.{
  CatalogueDataset, partition_day, movements_key, catalogue_key, watermark_key,
}
use cubeforge_api.Export.Report.{CarriedCounts}
use cubeforge_api.Export.Store.{in_window, start, read, finish, horizon}

-- The database and the object storage.
pub record World : Type 0 where
  pub stores : Stores
  pub sink : ExportSink

-- An error that is classified already passes through.
abbrev pub classified : ExportFailureReason → Failure → Failure
classified reason (export_failed inner) = export_failed inner
classified reason (violation e) = export_failed reason
classified reason (analytics_unavailable r) = export_failed reason
classified reason thrown = export_failed reason

abbrev pub classify : {A S : Type 0} → ExportFailureReason → Result A × S → Result A × S
classify reason (ok a, s) = (ok a, s)
classify reason (err e, s) = (err (classified reason e), s)

-- `failingAs`
unfoldable pub failing_as : {A S : Type 0} → ExportFailureReason → Exec S A → Exec S A
failing_as reason step s = classify reason (step s)

unfoldable pub reason_of : Failure → ExportFailureReason
reason_of (export_failed reason) = reason
reason_of (violation e) = database_unavailable
reason_of (analytics_unavailable r) = database_unavailable
reason_of thrown = database_unavailable

abbrev keep_sink : {A : Type 0} → ExportSink → Result A × Stores → Result A × World
keep_sink sink (r, s) = (r, record { stores = s; sink = sink })

abbrev keep_stores : {A : Type 0} → Stores → Result A × ExportSink → Result A × World
keep_stores stores (r, s) = (r, record { stores = stores; sink = s })

-- A unit of work over the tables of the inventory.
abbrev pub in_tenant : {A : Type 0} → Exec Inventory A → Exec World A
in_tenant work w = keep_sink w.sink (run_in_tenant (on_inventory work) w.stores)

abbrev pub on_sink : {A : Type 0} → Exec ExportSink A → Exec World A
on_sink work w = keep_stores w.stores (work w.sink)

claim_next : Text → NextWindow → Exec Inventory (Option ExportWindow)
claim_next tenant NextWindow.up_to_date s = (ok none, s)
claim_next tenant (NextWindow.carry w) s = (ok (some w), start tenant w s)

-- The work of `claimWindow`.
unfoldable pub claim_work : Text → Exec Inventory (Option ExportWindow)
unfolding claim_next
claim_work tenant = do
  cursor ← asks (λ s. read s tenant)
  limit ← asks horizon
  next ← lift (next_window cursor limit)
  claim_next tenant next

unfoldable pub claim_window : Text → Exec World (Option ExportWindow)
claim_window tenant = failing_as database_unavailable (in_tenant (claim_work tenant))

pub record Readings : Type 0 where
  pub movements : List ExportedMovementRow
  pub products : List ExportedCatalogueRow
  pub locations : List ExportedCatalogueRow

-- `catalogueRowOf`
catalogue_row_of : ReferenceEntity → ExportedCatalogueRow
catalogue_row_of e = record { code = e.code; name = e.name; category = e.category }

abbrev movements_for :
    (Text → Text → Bool)
    → Inventory
    → Text
    → Option ExportWindow
    → Result (List ExportedMovementRow)
movements_for le s tenant none = ok []
movements_for le s tenant (some w) = in_window le s tenant w

-- The work of `read`.
unfoldable pub read_work :
    (Text → Text → Bool) → Text → Option ExportWindow → Exec Inventory Readings
unfolding catalogue_row_of
read_work le tenant window = do
  movements ← asks (λ s. movements_for le s tenant window)
  products ← gets (λ s. list le s.products tenant)
  locations ← gets (λ s. list le s.locations tenant)
  pure (record {
    movements = movements;
    products = map catalogue_row_of products;
    locations = map catalogue_row_of locations;
  })

unfoldable pub read_tables : (Text → Text → Bool) → Text → Option ExportWindow → Exec World Readings
read_tables le tenant window =
    failing_as database_unavailable (in_tenant (read_work le tenant window))

-- `confirm`
unfoldable pub confirm : Text → ExportWindow → Exec World (Unit {0})
confirm tenant w = failing_as database_unavailable (in_tenant (modify (finish tenant w.to)))

-- `write`
unfoldable pub write : Text → ColumnarFile → Exec World (Unit {0})
write key file = failing_as write_failed (on_sink (put_file key file))

-- `push` onto the rows of a day, or a new day.
abbrev pub pushed :
    Option (List ExportedMovementRow) → ExportedMovementRow → List ExportedMovementRow
pushed none m = m ∷ []
pushed (some rows) m = rows ++ m ∷ []

grouped :
    (Dict (List ExportedMovementRow) → Result (Dict (List ExportedMovementRow)))
    → Result Text
    → ExportedMovementRow
    → Dict (List ExportedMovementRow)
    → Result (Dict (List ExportedMovementRow))
grouped rest (err e) m days = err e
grouped rest (ok day) m days = rest (put days day (pushed (get days day) m))

-- `byDayRecorded`
unfoldable pub by_day_recorded :
    List ExportedMovementRow
    → Dict (List ExportedMovementRow)
    → Result (Dict (List ExportedMovementRow))
unfolding grouped
by_day_recorded [] days = ok days
by_day_recorded (m ∷ ms) days = grouped (by_day_recorded ms) (partition_day m.recorded_at) m days

abbrev pub movements_file : List ExportedMovementRow → ColumnarFile
movements_file rows = record { columns = movement_columns; rows = map movement rows }

-- The loop over the partitions.
unfoldable pub write_partitions :
    Text → ExportWindow → Dict (List ExportedMovementRow) → Exec World (Unit {0})
write_partitions tenant w [] = pure tt
write_partitions tenant w ((day, rows) ∷ days) = do
  key ← lift (movements_key tenant day w)
  write key (movements_file rows)
  write_partitions tenant w days

abbrev pub write_window :
    Text → Option ExportWindow → Dict (List ExportedMovementRow) → Exec World (Unit {0})
write_window tenant none days = pure tt
write_window tenant (some w) days = write_partitions tenant w days

unfoldable pub write_catalogue :
    Text → CatalogueDataset → List ExportedCatalogueRow → Exec World (Unit {0})
write_catalogue tenant dataset rows = do
  key ← lift (catalogue_key tenant dataset)
  write key (record { columns = catalogue_columns; rows = map catalogue rows })

unfoldable pub write_watermark : Date → Text → Exec World (Unit {0})
write_watermark now tenant = do
  key ← lift (watermark_key tenant)
  write key (record { columns = watermark_columns; rows = watermark now ∷ [] })

abbrev pub confirm_window : Text → Option ExportWindow → Exec World (Unit {0})
confirm_window tenant none = pure tt
confirm_window tenant (some w) = confirm tenant w

pub data TenantExport : Type 0 where
  carried : CarriedCounts → TenantExport
  up_to_date : TenantExport

unfoldable pub conclusion :
    Option ExportWindow → List ExportedMovementRow → Dict (List ExportedMovementRow) → TenantExport
conclusion none rows days = up_to_date
conclusion (some w) [] days = up_to_date
conclusion (some w) (m ∷ ms) days =
    carried (record { movements = length (m ∷ ms); partitions = length days; through = w.to })

-- `ExportTenantUseCase.execute`
unfoldable pub execute : (Text → Text → Bool) → Date → Text → Exec World TenantExport
execute le now tenant = do
  window ← claim_window tenant
  readings ← read_tables le tenant window
  days ← lift (by_day_recorded readings.movements [])
  write_window tenant window days
  write_catalogue tenant CatalogueDataset.products readings.products
  write_catalogue tenant CatalogueDataset.locations readings.locations
  confirm_window tenant window
  write_watermark now tenant
  pure (conclusion window readings.movements days)
