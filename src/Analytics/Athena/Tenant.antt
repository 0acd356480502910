-- ===== src/Analytics/Athena/Tenant.antt =====
-- The questions of src/adapters/analytics/athena-analytics.ts, as they are asked for a tenant.
use cubeforge_api.Prelude.{
  ℕ, ◌+◌, true, Option, none, some, List, Text, ◌≡◌, inl, inr, arith, length, All, all, ◌≤◌, [],
  ◌∷◌, refl, false, ◌↔◌, Date, Bool-cases, ◌⊎◌,
}
use cubeforge_api.Analytics.Runner.{Engine, Clock, run, poll_milliseconds}
use cubeforge_api.Analytics.Athena.{
  Values, ask, ask_as, AnswerColumn, complete_through, stock_on_hand, movements_by_day, DecodedRow,
  ask_carried, Run, answered_rows, watermark_statement, stock_statement, movements_statement,
  watermark_columns, stock_on_hand_columns, movements_by_day_columns, decoded, marked, stock_entry,
  movement_entry, err,
}
use cubeforge_api.Analytics.Athena.Keeping.{IsKept, EndsIn, go_on-EndsIn, run-EndsIn}
use cubeforge_api.Access.Identifiers.{is_well_formed, is_uuid_character, require_well_formed_tenant}
use cubeforge_api.Analytics.Athena.Select.{Confined}
use cubeforge_api.Semantic.Period.{Period, day_shape}
use cubeforge_api.Analytics.Athena.Confined.{
  watermark_statement-Confined, stock_statement-Confined, movements_statement-Confined,
}
use cubeforge_api.Errors.{err, thrown}

-- A digit, a letter from a to f in either case, or a dash.
abbrev IsHexOrDash : ℕ → Type 0
IsHexOrDash c =
    ((b'0' ≤ c) × (c ≤ b'9')) ⊎ ((b'a' ≤ c) × (c ≤ b'f')) ⊎ ((b'A' ≤ c) × (c ≤ b'F')) ⊎ (c ≡ b'-')

-- The form in which a tenant is written.
abbrev pub WritesTenant : Text → Type 0
WritesTenant t = (length t ≡ 36) × All IsHexOrDash t

uuid_character_iff : (c : ℕ) → is_uuid_character c ≡ true ↔ IsHexOrDash c
uuid_character_iff c = ((λ h. ground arith), (λ h. ground arith))

all_uuid_iff : (t : Text) → all is_uuid_character t ≡ true ↔ All IsHexOrDash t
all_uuid_iff [] = ((λ h. tt), (λ h. refl))
all_uuid_iff (c ∷ t) = (
  (λ h. ((uuid_character_iff c).0 (ground (arith, h)), (all_uuid_iff t).0 (ground (arith, h)))),
  (λ h. ground (arith, (uuid_character_iff c).1 h.0, (all_uuid_iff t).1 h.1)),
)

is_well_formed_iff : (t : Text) → is_well_formed t ≡ true ↔ WritesTenant t
unfolding is_well_formed
is_well_formed_iff t = (
  (λ h. (ground (arith, h), (all_uuid_iff t).0 (ground (arith, h)))),
  (λ h. ground (arith, h.0, (all_uuid_iff t).1 h.1)),
)

module _ {W : Type 0} (engine : Engine W) (clock : Clock W) (values : Values) (budget fuel : ℕ)
    (tenant : Text) (I : W → Type 0) (k : IsKept engine clock tenant I) where
  ask-EndsIn :
      (statement : Text) (columns : List AnswerColumn)
      → Confined tenant statement
      → (w : W) → I w
      → EndsIn I (ask engine clock values budget fuel statement columns w)
  unfolding ask
  ask-EndsIn statement columns c w i =
      go_on-EndsIn I (run engine clock poll_milliseconds fuel statement (clock.now w + budget) w)
        (decoded engine clock values budget fuel columns)
        (run-EndsIn engine clock tenant I k poll_milliseconds fuel statement c
          (clock.now w + budget) w i)
        (λ a v j. j)

  carried-EndsIn :
      {Entry : Type 0} (statement : Text) (columns : List AnswerColumn) (entry : DecodedRow → Entry)
      → Confined tenant statement
      → (mark : Option Date) (w : W) → I w
      → EndsIn I (ask_carried engine clock values budget fuel statement columns entry mark w)
  carried-EndsIn statement columns entry c none w i = i
  carried-EndsIn statement columns entry c (some carried) w i =
      go_on-EndsIn I (ask engine clock values budget fuel statement columns w)
        (answered_rows engine clock values budget fuel carried entry)
        (ask-EndsIn statement columns c w i) (λ a v j. j)

  module _ (h : is_well_formed tenant ≡ true) where
    complete_through-EndsIn :
        (w : W) → I w → EndsIn I (complete_through engine clock values budget fuel tenant w)
    unfolding complete_through
    complete_through-EndsIn w i =
        go_on-EndsIn I
          (ask engine clock values budget fuel (watermark_statement tenant) watermark_columns w)
          (marked engine clock values budget fuel)
          (ask-EndsIn (watermark_statement tenant) watermark_columns
            (watermark_statement-Confined tenant h) w i)
          (λ a v j. j)

    stock_on_hand-EndsIn :
        (w : W) → I w → EndsIn I (stock_on_hand engine clock values budget fuel tenant w)
    unfolding stock_on_hand
    stock_on_hand-EndsIn w i =
        go_on-EndsIn I (complete_through engine clock values budget fuel tenant w)
          (ask_carried engine clock values budget fuel (stock_statement tenant)
            stock_on_hand_columns (stock_entry values))
          (complete_through-EndsIn w i)
          (carried-EndsIn (stock_statement tenant) stock_on_hand_columns (stock_entry values)
            (stock_statement-Confined tenant h))

    movements_by_day-EndsIn :
        (period : Period)
        → day_shape period.from ≡ true
        → day_shape period.to ≡ true
        → (w : W) → I w
        → EndsIn I (movements_by_day engine clock values budget fuel tenant period w)
    unfolding movements_by_day
    movements_by_day-EndsIn period from_day to_day w i =
        go_on-EndsIn I (complete_through engine clock values budget fuel tenant w)
          (ask_carried engine clock values budget fuel (movements_statement tenant period)
            movements_by_day_columns (movement_entry values))
          (complete_through-EndsIn w i)
          (carried-EndsIn (movements_statement tenant period) movements_by_day_columns
            (movement_entry values) (movements_statement-Confined tenant h period from_day to_day))

  -- A question asked for a text that is a tenant's is asked of the engine; any other is refused.
  pub ask_as-right :
      {A : Type 0} (question : Text → Run W A) (w : W)
      → is_well_formed tenant ≡ true
      → ask_as engine clock values budget fuel tenant question w ≡ question tenant w
  unfolding ask_as require_well_formed_tenant
  ask_as-right question w right = rw right

  ask_as-wrong :
      {A : Type 0} (question : Text → Run W A) (w : W)
      → is_well_formed tenant ≡ false
      → ask_as engine clock values budget fuel tenant question w ≡ some (err thrown, w)
  unfolding ask_as require_well_formed_tenant
  ask_as-wrong question w wrong = rw wrong

  -- Over a period whose ends have the form of a day: where the text that stands for the tenant is
  -- 36 digits, letters from a to f and dashes, whatever the world satisfies as long as the engine
  -- is only asked statements that are confined to that tenant, it satisfies when either question
  -- has ended; and for any other text both questions throw and leave the world as it is.
  pub ask_as-Confined :
      (period : Period)
      → day_shape period.from ≡ true
      → day_shape period.to ≡ true
      → (w : W) → I w
      → (WritesTenant tenant
          × EndsIn I (
              ask_as engine clock values budget fuel tenant
                (stock_on_hand engine clock values budget fuel)
                w)
          × EndsIn I (
              ask_as engine clock values budget fuel tenant
                (λ t. movements_by_day engine clock values budget fuel t period)
                w))
        ⊎ (¬ (WritesTenant tenant)
            × (ask_as engine clock values budget fuel tenant
                  (stock_on_hand engine clock values budget fuel)
                  w
                ≡ some (err thrown, w))
            × (ask_as engine clock values budget fuel tenant
                  (λ t. movements_by_day engine clock values budget fuel t period)
                  w
                ≡ some (err thrown, w)))
  ask_as-Confined period from_day to_day w i = elim (Bool-cases (is_well_formed tenant)) [
    | inl right ↦ inl (
      (is_well_formed_iff tenant).0 right,
      rw (ask_as-right (stock_on_hand engine clock values budget fuel) w right)
          (stock_on_hand-EndsIn right w i),
      rw (ask_as-right (λ t. movements_by_day engine clock values budget fuel t period) w right)
          (movements_by_day-EndsIn right period from_day to_day w i),
    )
    | inr wrong ↦ inr (
      (λ writes. ill_formed writes wrong),
      ask_as-wrong (stock_on_hand engine clock values budget fuel) w wrong,
      ask_as-wrong (λ t. movements_by_day engine clock values budget fuel t period) w wrong,
    )
  ]
    where
      ill_formed : WritesTenant tenant → is_well_formed tenant ≡ false → ⊥
      ill_formed writes wrong =
          let right = (is_well_formed_iff tenant).1 writes in ground (arith, right, wrong)
