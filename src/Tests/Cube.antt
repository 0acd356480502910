-- ===== src/Tests/Cube.antt =====
-- Tests of the configuration of the semantic layer.
use cubeforge_api.Prelude.{
  true, false, some, [], ◌∷◌, Text, ◌==◌, ◌≡◌, ◌↔◌, ◌⊎◌, refl, lit, add, includes, all, none,
}
use cubeforge_api.Cube.Rewrite.{
  ModelQuery, SecurityContext, query_rewrite, tenant_claim, tenant_in, cubes_named_in, confining,
}
use cubeforge_api.Cube.Repair.{
  written_as_a_number, ColumnType, repair_types, every_value_is_a_number,
}
use cubeforge_api.Errors.{ok, err, thrown}
use cubeforge_api.Semantic.Model.{raw_text, raw_null}
use cubeforge_api.Prelude.Dict.{get}
use cubeforge_api.Cube.Rewrite.Confines.{query_rewrite-confines, HasTenant, Row, passes, AsksSame}
use cubeforge_api.Cube.Rewrite.Naming.{IsOf}

abbrev query : ModelQuery
query = record {
  measures = lit "movements.quantity" ∷ lit "products.count" ∷ [];
  dimensions = lit "movements.kind" ∷ [];
  segments = [];
  time_dimensions = [];
  filters = [];
}

abbrev for_acme : SecurityContext
for_acme = some ((tenant_claim, raw_text (lit "acme")) ∷ [])

-- One condition for each of the two cubes.
two_cubes :
    query_rewrite query for_acme
    ≡ ok (record query {
      filters =
          confining (lit "acme") (lit "movements") ∷ confining (lit "acme") (lit "products") ∷ [];
    })
unfolding query_rewrite tenant_in cubes_named_in get add includes ◌==◌
two_cubes = refl

-- A cube that only a filter names gets no condition.
abbrev filtered : ModelQuery
filtered = record {
  measures = lit "movements.quantity" ∷ [];
  dimensions = [];
  segments = [];
  time_dimensions = [];
  filters = record { member = lit "products.code"; operator = lit "set"; values = [] } ∷ [];
}

only_movements : cubes_named_in filtered ≡ lit "movements" ∷ []
unfolding cubes_named_in add includes ◌==◌
only_movements = refl

-- A cube that only a span of time names does.
abbrev timed : ModelQuery
timed = record {
  measures = [];
  dimensions = [];
  segments = [];
  time_dimensions =
      record { dimension = lit "movements.recorded"; granularity = none; date_range = none } ∷ [];
  filters = [];
}

by_time : cubes_named_in timed ≡ lit "movements" ∷ []
unfolding cubes_named_in add includes ◌==◌
by_time = refl

no_tenant : query_rewrite query (some []) ≡ err thrown
unfolding query_rewrite tenant_in get
no_tenant = refl

numbers :
    (written_as_a_number (lit "-12.50") ≡ true)
    × (written_as_a_number (lit "0012") ≡ false)
    × (written_as_a_number (lit "1.") ≡ false)
    × (written_as_a_number (lit "0.5") ≡ true)
    × (written_as_a_number (lit "1e3") ≡ false)
unfolding written_as_a_number
numbers = (refl, refl, refl, refl, refl)

abbrev column : ColumnType
column = record { name = lit "n"; column_type = lit "text" }

is_retyped :
    repair_types
      (column ∷ [])
      (((lit "n", raw_text (lit "12")) ∷ []) ∷ ((lit "n", raw_null) ∷ []) ∷ [])
    ≡ record { name = lit "n"; column_type = lit "bigint" } ∷ []
unfolding repair_types every_value_is_a_number written_as_a_number get ◌==◌
is_retyped = refl

query_rewrite-confines_example :
    ((tenant : Text) × (rewrite : ModelQuery) × (query_rewrite query for_acme ≡ ok rewrite)
      × HasTenant for_acme tenant
      × (AsksSame rewrite query)
      × ((row : Row)
          → (all (passes (λ r f. true) row) rewrite.filters ≡ true)
            ↔ ((all (passes (λ r f. true) row) query.filters ≡ true) × IsOf tenant query row)))
    ⊎ ((query_rewrite query for_acme ≡ err thrown)
        × ((tenant : Text) → ¬ (HasTenant for_acme tenant)))
query_rewrite-confines_example = query_rewrite-confines (λ r f. true) query for_acme
