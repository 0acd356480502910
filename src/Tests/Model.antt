-- ===== src/Tests/Model.antt =====
-- A semantic layer with one row.
use cubeforge_api.Prelude.{
  ◌≡◌, refl, pos, lit, none, List, ◌∷◌, [], map, true, whole, ap, ◌==◌, trim, trim_start, trim_end,
  trim_keep, is_space, sym, includes, Text,
}
use cubeforge_api.Prelude.Dict.{Dict, get, has}
use cubeforge_api.Tests.Inventory.{epoch}
use cubeforge_api.Tests.Edge.{by_day}
use cubeforge_api.Errors.{ok, ok-injective}
use cubeforge_api.Access.Authorize.{Actor, tenant_member, tenant_of}
use cubeforge_api.Access.Identifiers.{require_well_formed_tenant, is_well_formed}
use cubeforge_api.Semantic.Asking.{
  ModelledRow, answered, prepared, ask_modelled_question, refuse_if_over_bound, answered_from,
}
use cubeforge_api.Semantic.Model.{
  Exchange, CubeResult, Raw, raw_text, raw_number, row_from, cube_ask_as, answer,
  complete_through_in, complete_through_of, load_for,
}
use cubeforge_api.Semantic.Model.Complete.{
  ask_modelled_question_complete, has-row_from, up_to, published_columns,
}

abbrev only_row : Dict Raw
only_row =
    (lit "watermarks.complete_through", raw_text (lit "2026-01-31 00:00:00"))
    ∷ (lit "movements.on_hand_quantity", raw_number (whole (pos 3)))
    ∷ []

abbrev result : CubeResult
result = record { data_rows = only_row ∷ []; served_from_store = true; refreshed_at = none }

abbrev layer : Exchange
layer = record {
  load = λ context query. ok result;
  context_for = λ tenant. ok tenant;
  date_from = λ t. epoch;
}

abbrev member : Actor
member = tenant_member (lit "ann") (lit "0a0a0a0a-0000-4000-8000-000000000000")

abbrev rows : List ModelledRow
rows = map (row_from by_day) (only_row ∷ [])

is_answered :
    ask_modelled_question (cube_ask_as layer) member by_day ≡ ok (answered epoch prepared rows)
unfolding ask_modelled_question cube_ask_as answer tenant_of require_well_formed_tenant
    complete_through_in complete_through_of refuse_if_over_bound answered_from get ◌==◌ trim
    trim_start trim_end trim_keep is_space is_well_formed
is_answered = refl

sends_up_to :
    (context : Text) (r : CubeResult)
    → layer.load context (load_for by_day) ≡ ok r
    → r.data_rows ≡ up_to (load_for by_day).limit (only_row ∷ [])
unfolding load_for
sends_up_to context r h = ap (λ x. x.data_rows) (ok-injective (sym h))

ask_modelled_question_complete_example : rows ≡ map (row_from by_day) (only_row ∷ [])
ask_modelled_question_complete_example =
    ask_modelled_question_complete layer member by_day (only_row ∷ []) epoch prepared rows refl
      sends_up_to is_answered

has-row_from_example :
    has (row_from by_day only_row) (lit "product_code")
    ≡ includes (published_columns by_day) (lit "product_code")
has-row_from_example = has-row_from by_day only_row (lit "product_code")
