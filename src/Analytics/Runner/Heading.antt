-- ===== src/Analytics/Runner/Heading.antt =====
-- The header that the first page of src/adapters/analytics/athena-query-runner.ts may repeat.
use cubeforge_api.Prelude.{
  true, none, some, List, [], ◌∷◌, map, Text, ◌≡◌, ◌≢◌, inl, inr, refl, sym, ap, arith, Bool-cases,
  eq_refl, eq-of, subst,
}
use cubeforge_api.Analytics.Runner.{Cells, is_header, without_header_row}

-- The rows of a first page less a first row that repeats the names of the columns.
pub data FirstRows (columns : List Text) : List Cells → List Cells → Type 0 where
  no_rows : FirstRows columns [] []
  repeats : (rows : List Cells) → FirstRows columns (map some columns ∷ rows) rows
  differs :
      (row : Cells) (rows : List Cells)
      → row ≢ map some columns
      → FirstRows columns (row ∷ rows) (row ∷ rows)

is_header-row : (header : List Text) → is_header (map some header) header ≡ true
unfolding is_header
is_header-row [] = refl
is_header-row (name ∷ names) = ground (arith, eq_refl name, is_header-row names)

header_is_names :
    (row : Cells) (header : List Text) → is_header row header ≡ true → row ≡ map some header
unfolding is_header
header_is_names [] [] h = refl
header_is_names [] (name ∷ names) h = cc
header_is_names (value ∷ values) [] h = cc
header_is_names (none ∷ values) (name ∷ names) h = cc
header_is_names (some value ∷ values) (name ∷ names) h =
    let same : value ≡ name = eq-of value name (ground arith) in
    let rest : values ≡ map some names = header_is_names values names (ground arith) in
    cc (same, rest)

pub without_header_row-FirstRows :
    (rows : List Cells) (columns : List Text)
    → FirstRows columns rows (without_header_row rows columns)
unfolding without_header_row
without_header_row-FirstRows [] columns = no_rows
without_header_row-FirstRows (row ∷ rows) columns = elim (Bool-cases (is_header row columns)) [
  | inl header ↦ rw header (
      subst (λ r. FirstRows columns (r ∷ rows) rows) (sym (header_is_names row columns header))
        (repeats rows))
  | inr plain ↦ rw plain (
      differs row rows
        (λ e. ground (arith, plain, is_header-row columns, ap (λ r. is_header r columns) e)))
]
