-- ===== src/Semantic/Members.antt =====
-- src/adapters/semantic/member-mapping.ts: what the platform's names are called in the model.
use cubeforge_api.Prelude.{Option, none, some, List, [], ◌∷◌, Text, lit}
use cubeforge_api.Semantic.Vocabulary.{
  MeasureName, net_quantity, movement_count, on_hand_quantity, GroupingName, recorded_day,
  occurred_day, kind, product, location, ReadBy, recorded, occurred,
}

pub record MappedColumn : Type 0 where
  pub platform : Text
  pub member : Text

pub record MappedGrouping : Type 0 where
  pub columns : List MappedColumn
  pub time_dimension : Option Text

-- `MEASURE_MEMBERS`
abbrev pub measure_member : MeasureName → Text
measure_member net_quantity = lit "movements.net_quantity"
measure_member movement_count = lit "movements.movement_count"
measure_member on_hand_quantity = lit "movements.on_hand_quantity"

abbrev mapped_day : Text → Text → Text → MappedGrouping
mapped_day column time_dimension member = record {
  columns = record { platform = column; member = member } ∷ [];
  time_dimension = some time_dimension;
}

abbrev mapped_category : Text → Text → MappedGrouping
mapped_category column member = record {
  columns = record { platform = column; member = member } ∷ [];
  time_dimension = none;
}

abbrev mapped_labels : Text → Text → Text → Text → MappedGrouping
mapped_labels code_column name_column code name = record {
  columns =
      record { platform = code_column; member = code }
      ∷ record { platform = name_column; member = name }
      ∷ [];
  time_dimension = none;
}

-- `GROUPING_MEMBERS`, over the columns of `GROUPING_SHAPES`.
abbrev pub grouping_member : GroupingName → MappedGrouping
grouping_member recorded_day =
    mapped_day (lit "recorded_day") (lit "movements.recorded_day")
      (lit "movements.recorded_day.day")
grouping_member occurred_day =
    mapped_day (lit "occurred_day") (lit "movements.occurred_day")
      (lit "movements.occurred_day.day")
grouping_member kind = mapped_category (lit "kind") (lit "movements.kind")
grouping_member product =
    mapped_labels (lit "product_code") (lit "product_name") (lit "products.code")
      (lit "products.name")
grouping_member location =
    mapped_labels (lit "location_code") (lit "location_name") (lit "locations.code")
      (lit "locations.name")

-- `READ_BY_MEMBER`
abbrev pub read_by_member : ReadBy → Text
read_by_member recorded = lit "movements.recorded_day"
read_by_member occurred = lit "movements.occurred_day"

-- `WATERMARK_MEMBER`
abbrev pub watermark_member : Text
watermark_member = lit "watermarks.complete_through"
