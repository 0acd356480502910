-- ===== src/Analytics/Shape/Cells.antt =====
-- The values that are decoded: src/domain/analytics/answer-shape.ts.
use cubeforge_api.Prelude.{
  ℕ, false, arith, refl, sym, ap, ◌∙◌, inl, inr, invalid, not_whole, Number, Date, Bool-cases,
  Option-cases, any, Option, none, some, List, [], ◌∷◌, ◌++◌, Text, ◌==◌, ◌≡◌, In, All, ℤ,
  get_elem?, subst, whole, at, append-nil, append_assoc,
}
use cubeforge_api.Semantic.Period
use cubeforge_api.Analytics.Shape.{
  ValueKind, text, whole_number, moment, day, text_value, number_value, moment_value, day_value,
  Readers, AnswerColumn, position, DecodedValue, DecodedRow, decode, get_elem?, whole, zoned,
  as_utc, decode_columns, is_missing, decode_all, decode_rows, whole_or_throw, moment_or_throw,
  decode_cell, cell_at, then_answer, put,
}
use cubeforge_api.Semantic.Asking.Bound.{then_ok}
use cubeforge_api.Analytics.Shape.Places.{Stands, position-none, position-some, stands-In}
use cubeforge_api.Errors.{ok, ok-injective}
use cubeforge_api.Prelude.Dict.{get, put, get-put, put_new}
use cubeforge_api.Semantic.Asking.{then_answer}

-- A text read as a value of a kind: a text is itself, a number is whole, a moment and a day are on
-- the calendar.
pub data Reads (r : Readers) (raw : Text) : ValueKind → DecodedValue → Type 0 where
  as_text : Reads r raw text (text_value raw)
  as_number :
      (n : ℤ) → r.number_from raw ≡ whole n → Reads r raw whole_number (number_value (whole n))
  as_moment :
      (ms : ℤ)
      → r.date_from (zoned (as_utc raw)) ≡ at ms
      → Reads r raw moment (moment_value (at ms))
  as_day : (d : Text) → Period.day r.start raw ≡ ok d → Reads r raw day (day_value d)

-- The value of a cell: none where the cell is missing or null, and else what its text reads as.
pub data CellIs (r : Readers) (header : List Text) (row : List (Option Text)) (c : AnswerColumn)
    : Option DecodedValue → Type 0 where
  short : (i : ℕ) → Stands header c.name i → get_elem? row i ≡ none → CellIs r header row c none
  empty :
      (i : ℕ) → Stands header c.name i → get_elem? row i ≡ some none → CellIs r header row c none
  filled :
      (i : ℕ) (raw : Text) (v : DecodedValue)
      → Stands header c.name i
      → get_elem? row i ≡ some (some raw)
      → Reads r raw c.kind v
      → CellIs r header row c (some v)

-- One value for each column, in their order.
pub data RowIs (r : Readers) (header : List Text) (row : List (Option Text))
    : List AnswerColumn → DecodedRow → Type 0 where
  no_columns : RowIs r header row [] []
  column :
      (c : AnswerColumn) (v : Option DecodedValue) (cs : List AnswerColumn) (d : DecodedRow)
      → CellIs r header row c v
      → RowIs r header row cs d
      → RowIs r header row (c ∷ cs) ((c.name, v) ∷ d)

-- One decoded row for each row, in their order.
pub data RowsAre (r : Readers) (header : List Text) (cs : List AnswerColumn)
    : List (List (Option Text)) → List DecodedRow → Type 0 where
  no_rows : RowsAre r header cs [] []
  row_and_rows :
      (row : List (Option Text)) (d : DecodedRow) (rows : List (List (Option Text)))
      (ds : List DecodedRow)
      → RowIs r header row cs d
      → RowsAre r header cs rows ds
      → RowsAre r header cs (row ∷ rows) (d ∷ ds)

-- Columns with different names.
abbrev pub Distinct : List AnswerColumn → Type 0
Distinct [] = Unit
Distinct (c ∷ cs) = All (λ d. (c.name == d.name) ≡ false) cs × Distinct cs

whole_sound :
    (n : Number) (v : DecodedValue)
    → whole_or_throw n ≡ ok v
    → (i : ℤ) × (n ≡ whole i) × (v ≡ number_value (whole i))
whole_sound (whole i) v h = (i, refl, sym (ok-injective h))
whole_sound not_whole v h = absurd (ground (arith, h))

moment_sound :
    (d : Date) (v : DecodedValue)
    → moment_or_throw d ≡ ok v
    → (ms : ℤ) × (d ≡ at ms) × (v ≡ moment_value (at ms))
moment_sound (at ms) v h = (ms, refl, sym (ok-injective h))
moment_sound invalid v h = absurd (ground (arith, h))

decode-Reads :
    (r : Readers) (kind : ValueKind) (raw : Text) (v : DecodedValue)
    → decode r kind raw ≡ ok v
    → Reads r raw kind v
unfolding decode
decode-Reads r text raw v h = subst (Reads r raw text) (ok-injective h) as_text
decode-Reads r whole_number raw v h =
    let (n, read, value) = whole_sound (r.number_from raw) v h in
    subst (Reads r raw whole_number) (sym value) (as_number n read)
decode-Reads r moment raw v h =
    let (ms, read, value) = moment_sound (r.date_from (zoned (as_utc raw))) v h in
    subst (Reads r raw moment) (sym value) (as_moment ms read)
decode-Reads r day raw v h =
    let (d, read, value) = then_ok (Period.day r.start raw) (λ d. ok (day_value d)) v h in
    subst (Reads r raw day) (ok-injective value) (as_day d read)

pub none_yet :
    (cs : List AnswerColumn) → All (λ c. get {V = Option DecodedValue} [] c.name ≡ none) cs
unfolding get
none_yet [] = tt
none_yet (c ∷ cs) = (refl, none_yet cs)

-- A column's value leaves the other columns unwritten.
pub still_fresh :
    (c : AnswerColumn) (before : DecodedRow) (v : Option DecodedValue) (cs : List AnswerColumn)
    → All (λ d. (c.name == d.name) ≡ false) cs
    → All (λ d. get before d.name ≡ none) cs
    → All (λ d. get (put before c.name v) d.name ≡ none) cs
still_fresh c before v [] a o = tt
still_fresh c before v (e ∷ cs) (a, rest) (o, os) =
    (get-put before c.name e.name v ∙ rw a o, still_fresh c before v cs rest os)

module _ (r : Readers) (header : List Text) (row : List (Option Text)) where
  cell_sound :
      (c : AnswerColumn) (i : ℕ) (v : Option DecodedValue)
      → Stands header c.name i
      → decode_cell r c.kind (cell_at row (some i)) ≡ ok v
      → CellIs r header row c v
  cell_sound c i v s h = elim (Option-cases (get_elem? row i)) [
    | inl beyond ↦
        subst (CellIs r header row c) (ok-injective (rw (ap_cell_none beyond) at h))
          (short i s beyond)
    | inr (cell, there) ↦ filled_or_empty cell there (rw (ap_cell_some cell there) at h)
  ]
    where
      ap_cell_none : get_elem? row i ≡ none → cell_at row (some i) ≡ none
      ap_cell_none e = rw (e, cell_at)

      ap_cell_some :
          (cell : Option Text) → get_elem? row i ≡ some cell → cell_at row (some i) ≡ cell
      ap_cell_some none e = rw (e, cell_at)
      ap_cell_some (some t) e = rw (e, cell_at)

      filled_or_empty :
          (cell : Option Text)
          → get_elem? row i ≡ some cell
          → decode_cell r c.kind cell ≡ ok v
          → CellIs r header row c v
      filled_or_empty none there h =
          subst (CellIs r header row c) (ok-injective h) (empty i s there)
      filled_or_empty (some raw) there h =
          let (value, read, made) = then_ok (decode r c.kind raw) (λ v. ok (some v)) v h in
          subst (CellIs r header row c) (ok-injective made)
            (filled i raw value s there (decode-Reads r c.kind raw value read))

  decode_cell-CellIs :
      (c : AnswerColumn) (v : Option DecodedValue)
      → In c.name header
      → decode_cell r c.kind (cell_at row (position header c.name)) ≡ ok v
      → CellIs r header row c v
  decode_cell-CellIs c v there h = elim (Option-cases (position header c.name)) [
    | inl absent ↦ absurd (position-none header c.name absent there)
    | inr (i, found) ↦ cell_sound c i v (position-some header c.name i found) (rw found at h)
  ]

  decode_columns-RowIs :
      (cs : List AnswerColumn) (before after : DecodedRow)
      → Distinct cs
      → All (λ c. In c.name header) cs
      → All (λ c. get before c.name ≡ none) cs
      → decode_columns r header row cs before ≡ ok after
      → (d : DecodedRow) × (after ≡ before ++ d) × RowIs r header row cs d
  unfolding decode_columns
  decode_columns-RowIs [] before after apart there fresh h =
      ([], sym (ok-injective h) ∙ sym (append-nil before), no_columns)
  decode_columns-RowIs (c ∷ cs) before after (apart, distinct) (there, more) (fresh, others) h =
      let (v, one, given) =
        then_ok (decode_cell r c.kind (cell_at row (position header c.name)))
          (λ v. decode_columns r header row cs (put before c.name v)) after h in
      let (d, rest, rows) =
        decode_columns-RowIs cs (put before c.name v) after distinct more
          (still_fresh c before v cs apart others) given in
      (
        (c.name, v) ∷ d,
        rest
            ∙ ap (λ b. b ++ d) (put_new before c.name v fresh)
            ∙ append_assoc before ((c.name, v) ∷ []) d,
        column c v cs d (decode_cell-CellIs c v there one) rows,
      )

module _ (r : Readers) (header : List Text) (cs : List AnswerColumn) where
  named_columns : any (is_missing header) cs ≡ false → All (λ c. In c.name header) cs
  named_columns h = named cs h
    where
      named :
          (cs : List AnswerColumn)
          → any (is_missing header) cs ≡ false
          → All (λ c. In c.name header) cs
      named [] h = tt
      named (c ∷ cs) h = elim (Option-cases (position header c.name)) [
        | inl absent ↦ absurd (ground (arith, rw (absent, is_missing) at h))
        | inr (i, found) ↦ (
          stands-In (position-some header c.name i found),
          named cs (ground (arith, rw (found, is_missing) at h)),
        )
      ]

  decode_all-RowsAre :
      (rows : List (List (Option Text))) (out : List DecodedRow)
      → Distinct cs
      → All (λ c. In c.name header) cs
      → decode_all r cs header rows ≡ ok out
      → RowsAre r header cs rows out
  unfolding decode_all get
  decode_all-RowsAre [] out distinct there h =
      subst (RowsAre r header cs []) (ok-injective h) no_rows
  decode_all-RowsAre (row ∷ rows) out distinct there h =
      let (d, one, given) =
        then_ok (decode_columns r header row cs [])
          (λ d. then_answer (decode_all r cs header rows) (λ ds. ok (d ∷ ds))) out h in
      let (ds, more, made) = then_ok (decode_all r cs header rows) (λ ds. ok (d ∷ ds)) out given in
      let (e, same, is) =
        decode_columns-RowIs r header row cs [] d distinct there (none_yet cs) one in
      subst (RowsAre r header cs (row ∷ rows)) (ok-injective made) (
        row_and_rows row d rows ds (subst (RowIs r header row cs) (sym same) is)
          (decode_all-RowsAre rows ds distinct there more))

  pub decode_rows_sound :
      (rows : List (List (Option Text))) (out : List DecodedRow)
      → Distinct cs
      → decode_rows r cs header rows ≡ ok out
      → All (λ c. In c.name header) cs × RowsAre r header cs rows out
  unfolding decode_rows
  decode_rows_sound rows out distinct h = elim (Bool-cases (any (is_missing header) cs)) [
    | inl e ↦ absurd (ground (arith, rw e at h))
    | inr e ↦ (named_columns e, decode_all-RowsAre rows out distinct (named_columns e) (rw e at h))
  ]
