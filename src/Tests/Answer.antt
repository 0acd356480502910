-- ===== src/Tests/Answer.antt =====
-- An answer of the analytics with two rows.
use cubeforge_api.Prelude.{
  ◌≡◌, ◌==◌, refl, some, none, pos, lit, Option, Text, List, [], ◌∷◌, whole, length, All, In, ◌↔◌,
}
use cubeforge_api.Prelude.Dict.{put}
use cubeforge_api.Tests.Inventory.{epoch}
use cubeforge_api.Errors.{ok}
use cubeforge_api.Analytics.Shape.{
  Readers, AnswerColumn, DecodedRow, decode_rows, decode_all, decode_columns, decode, position,
  text_value, number_value, text, whole_number,
}
use cubeforge_api.Analytics.Shape.Filling.{decode_rows_iff}
use cubeforge_api.Analytics.Shape.Cells.{RowsAre}

abbrev pub readers : Readers
readers = record {
  number_from = λ t. whole (pos (length t));
  date_from = λ t. epoch;
  start = λ t. epoch;
}

abbrev columns : List AnswerColumn
columns =
    record { name = lit "sku"; kind = text }
    ∷ record { name = lit "on_hand"; kind = whole_number }
    ∷ []

abbrev header : List Text
header = lit "on_hand" ∷ lit "sku" ∷ []

abbrev sent : List (List (Option Text))
sent = (some (lit "12") ∷ some (lit "A-1") ∷ []) ∷ (none ∷ some (lit "B-2") ∷ []) ∷ []

abbrev decoded : List DecodedRow
decoded =
    ((lit "sku", some (text_value (lit "A-1")))
      ∷ (lit "on_hand", some (number_value (whole (pos 2))))
      ∷ [])
    ∷ ((lit "sku", some (text_value (lit "B-2"))) ∷ (lit "on_hand", none) ∷ [])
    ∷ []

is_decoded : decode_rows readers columns header sent ≡ ok decoded
unfolding decode_rows decode_all decode_columns decode position put ◌==◌
is_decoded = refl

decode_rows_iff_example :
    (decode_rows readers columns header sent ≡ ok decoded)
    ↔ (All (λ c. In c.name header) columns × RowsAre readers header columns sent decoded)
unfolding ◌==◌
decode_rows_iff_example = decode_rows_iff readers header columns sent decoded ((refl, tt), (tt, tt))
