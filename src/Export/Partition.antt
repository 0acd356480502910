-- ===== src/Export/Partition.antt =====
-- src/domain/export/partition.ts
use cubeforge_api.Prelude.{[], ◌∷◌, ◌++◌, Text, Date, lit}
use cubeforge_api.Errors.{Result, ok, err}
use cubeforge_api.Export.Window.{ExportWindow}
use cubeforge_api.Calendar.{iso_day}
use cubeforge_api.Access.Identifiers.{require_well_formed_tenant}
use cubeforge_api.Prelude.Decimal.{decimal}

pub data CatalogueDataset : Type 0 where
  products locations : CatalogueDataset

abbrev pub catalogue_name : CatalogueDataset → Text
catalogue_name products = lit "products"
catalogue_name locations = lit "locations"

unfoldable pub partition_day : Date → Result Text
partition_day recorded_at = iso_day recorded_at

abbrev named_segment : Result Text → Result Text
named_segment (ok tenant) = ok (lit "tenant_id=" ++ (tenant ++ lit "/"))
named_segment (err e) = err e

unfoldable pub tenant_segment : Text → Result Text
tenant_segment tenant = named_segment (require_well_formed_tenant tenant)

abbrev after_prefix : Text → Result Text → Text → Result Text
after_prefix before (ok t) after = ok (before ++ (t ++ after))
after_prefix before (err e) after = err e

-- `dataset` is the name of one of the four datasets.
unfoldable pub prefix_for : Text → Text → Result Text
unfolding tenant_segment
prefix_for dataset tenant = after_prefix (dataset ++ lit "/") (tenant_segment tenant) []

unfoldable pub window_name : ExportWindow → Text
window_name w = decimal w.from ++ (b'-' ∷ decimal w.to)

unfoldable pub movements_key : Text → Text → ExportWindow → Result Text
unfolding prefix_for
movements_key tenant day w =
    after_prefix [] (prefix_for (lit "movements") tenant)
      (lit "recorded_date=" ++ (day ++ (b'/' ∷ window_name w ++ lit ".parquet")))

unfoldable pub catalogue_key : Text → CatalogueDataset → Result Text
unfolding prefix_for
catalogue_key tenant dataset =
    after_prefix [] (prefix_for (catalogue_name dataset) tenant)
      (catalogue_name dataset ++ lit ".parquet")

unfoldable pub watermark_key : Text → Result Text
unfolding prefix_for
watermark_key tenant =
    after_prefix [] (prefix_for (lit "watermarks") tenant) (lit "watermark.parquet")
