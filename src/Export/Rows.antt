-- ===== src/Export/Rows.antt =====
-- src/domain/export/exported-row.ts
use cubeforge_api.Prelude.{Option, List, [], ◌∷◌, Text, Date, Number, lit}

pub data ColumnarType : Type 0 where
  string int32 int64 timestamp boolean : ColumnarType

pub record ExportedColumn : Type 0 where
  pub name : Text
  pub type : ColumnarType

pub record ExportedMovementRow : Type 0 where
  pub external_id : Text
  pub sku : Text
  pub location_code : Text
  pub kind : Text
  pub quantity : Number
  pub occurred_at : Date
  pub recorded_at : Date

pub record ExportedCatalogueRow : Type 0 where
  pub code : Text
  pub name : Text
  pub category : Option Text

-- `ExportedRow`
pub data ExportedRow : Type 0 where
  movement : ExportedMovementRow → ExportedRow
  catalogue : ExportedCatalogueRow → ExportedRow
  watermark : (complete_through : Date) → ExportedRow

abbrev column : Text → ColumnarType → ExportedColumn
column name type = record { name = name; type = type }

abbrev pub movement_columns : List ExportedColumn
movement_columns =
    column (lit "external_id") string
    ∷ column (lit "sku") string
    ∷ column (lit "location_code") string
    ∷ column (lit "kind") string
    ∷ column (lit "quantity") int32
    ∷ column (lit "occurred_at") timestamp
    ∷ column (lit "recorded_at") timestamp
    ∷ []

abbrev pub catalogue_columns : List ExportedColumn
catalogue_columns =
    column (lit "code") string ∷ column (lit "name") string ∷ column (lit "category") string ∷ []

abbrev pub watermark_columns : List ExportedColumn
watermark_columns = column (lit "complete_through") timestamp ∷ []
