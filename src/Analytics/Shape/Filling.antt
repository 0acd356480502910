-- ===== src/Analytics/Shape/Filling.antt =====
-- Which rows are decoded, and how: src/domain/analytics/answer-shape.ts.
use cubeforge_api.Prelude.{
  ℕ, false, refl, sym, ap, ◌∙◌, inl, inr, Option-cases, any, Option, none, some, List, [], ◌∷◌,
  ◌++◌, Text, ◌≡◌, ◌↔◌, In, All, length, eq_refl, append-nil, append_assoc,
}
use cubeforge_api.Analytics.Shape.{
  ValueKind, Readers, AnswerColumn, position, DecodedValue, DecodedRow, decode, decode_columns,
  is_missing, decode_all, decode_rows, decode_cell, cell_at,
}
use cubeforge_api.Analytics.Shape.Places.{Stands, position-none, position-some, stands-In}
use cubeforge_api.Analytics.Shape.Cells.{
  Reads, as_text, as_number, as_moment, as_day, CellIs, short, empty, filled, RowIs, no_columns,
  column, RowsAre, no_rows, row_and_rows, Distinct, decode_rows_sound, still_fresh, none_yet,
}
use cubeforge_api.Errors.{ok}
use cubeforge_api.Prelude.Dict.{get, put, put_new}

position-absent :
    (header : List Text) (name : Text) → ¬ (In name header) → position header name ≡ none
position-absent header name out = elim (Option-cases (position header name)) [
  | inl e ↦ e
  | inr (i, found) ↦ absurd (out (stands-In (position-some header name i found)))
]

position-middle :
    (front back : List Text) (name : Text)
    → ¬ (In name back)
    → position (front ++ name ∷ back) name ≡ some (length front)
unfolding position
position-middle [] back name last = rw (position-absent back name last, eq_refl name) refl
position-middle (x ∷ front) back name last = rw (position-middle front back name last) refl

Stands-position :
    (header : List Text) (name : Text) (i : ℕ)
    → Stands header name i
    → position header name ≡ some i
Stands-position header name i s =
    ap (λ h. position h name) s.split ∙ position-middle s.front s.back name s.last ∙ ap some s.count

Reads-decode :
    (r : Readers) (raw : Text) (kind : ValueKind) (v : DecodedValue)
    → Reads r raw kind v
    → decode r kind raw ≡ ok v
unfolding decode
Reads-decode r raw _ _ as_text = refl
Reads-decode r raw _ _ (as_number n e) = rw e refl
Reads-decode r raw _ _ (as_moment ms e) = rw e refl
Reads-decode r raw _ _ (as_day d e) = rw e refl

module _ (r : Readers) (header : List Text) (row : List (Option Text)) where
  CellIs-decode_cell :
      (c : AnswerColumn) (v : Option DecodedValue)
      → CellIs r header row c v
      → decode_cell r c.kind (cell_at row (position header c.name)) ≡ ok v
  CellIs-decode_cell c _ (short i s e) =
      rw (Stands-position header c.name i s) (rw (e, cell_at) refl)
  CellIs-decode_cell c _ (empty i s e) =
      rw (Stands-position header c.name i s) (rw (e, cell_at) refl)
  CellIs-decode_cell c _ (filled i raw v s e reads) =
      rw (Stands-position header c.name i s)
        (rw (e, cell_at) (rw (Reads-decode r raw c.kind v reads) refl))

  RowIs-decode_columns :
      (cs : List AnswerColumn) (before d : DecodedRow)
      → Distinct cs
      → All (λ c. get before c.name ≡ none) cs
      → RowIs r header row cs d
      → decode_columns r header row cs before ≡ ok (before ++ d)
  unfolding decode_columns
  RowIs-decode_columns [] before _ distinct fresh no_columns = ap ok (sym (append-nil before))
  RowIs-decode_columns (c ∷ cs) before _ (apart, distinct) (new, fresh) (column _ v _ d cell rest) =
      rw (CellIs-decode_cell c v cell) (
        RowIs-decode_columns cs (put before c.name v) d distinct
          (still_fresh c before v cs apart fresh) rest
        ∙ ap (λ b. ok (b ++ d)) (put_new before c.name v new)
        ∙ ap ok (append_assoc before ((c.name, v) ∷ []) d))

module _ (r : Readers) (header : List Text) (cs : List AnswerColumn) where
  RowsAre-decode_all :
      (rows : List (List (Option Text))) (out : List DecodedRow)
      → Distinct cs
      → RowsAre r header cs rows out
      → decode_all r cs header rows ≡ ok out
  unfolding decode_all
  RowsAre-decode_all _ _ distinct no_rows = refl
  RowsAre-decode_all _ _ distinct (row_and_rows row d rows ds one more) =
      rw
        (
          RowIs-decode_columns r header row cs [] d distinct (none_yet cs) one,
          RowsAre-decode_all rows ds distinct more,
        )
        refl

  none_missing :
      (ds : List AnswerColumn) → All (λ c. In c.name header) ds → any (is_missing header) ds ≡ false
  none_missing [] h = refl
  none_missing (c ∷ ds) (there, more) = elim (Option-cases (position header c.name)) [
    | inl e ↦ absurd (position-none header c.name e there)
    | inr (i, found) ↦ rw (found, is_missing) (none_missing ds more)
  ]

  -- Where columns have different names, rows are decoded to an outcome exactly if the header names
  -- every column and the outcome has one decoded row for each row, in their order, with one value
  -- for each column, in their order and under their names: null where the row's cell at the last
  -- place of the column's name in the header is missing or null, and else what the cell's text
  -- reads as in the column's kind: itself, a whole number, a moment or a day on the calendar.
  pub decode_rows_iff :
      (rows : List (List (Option Text))) (out : List DecodedRow)
      → Distinct cs
      → (decode_rows r cs header rows ≡ ok out)
        ↔ (All (λ c. In c.name header) cs × RowsAre r header cs rows out)
  unfolding decode_rows
  decode_rows_iff rows out distinct = (
    decode_rows_sound r header cs rows out distinct,
    λ h. rw (none_missing cs h.0) (RowsAre-decode_all rows out distinct h.1),
  )
