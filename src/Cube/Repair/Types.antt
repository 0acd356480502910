-- ===== src/Cube/Repair/Types.antt =====
-- What `repairTypes` of cube/configuration.js changes.
use cubeforge_api.Prelude.{List, [], ◌∷◌, ◌≡◌, refl, ◌==◌, ap, ◌∙◌, Bool-cases, lit, ◌&&◌, inl, inr}
use cubeforge_api.Cube.Repair.{
  repair_types, ColumnType, Dict, Raw, ◌==◌, repaired, lit, every_value_is_a_number,
}
use cubeforge_api.Prelude.Dict.{Dict}
use cubeforge_api.Semantic.Model.{Raw}

repaired-twice :
    (rows : List (Dict Raw)) (c : ColumnType) → repaired rows (repaired rows c) ≡ repaired rows c
unfolding ◌==◌
repaired-twice rows c =
    elim (Bool-cases (c.column_type == lit "text" && every_value_is_a_number c.name rows)) [
      | inl retyped ↦ rw retyped refl
      | inr kept ↦ rw (kept, kept) refl
    ]

-- A second repair with the same rows changes nothing.
pub repair_types-twice :
    (types : List ColumnType) (rows : List (Dict Raw))
    → repair_types (repair_types types rows) rows ≡ repair_types types rows
unfolding repair_types
repair_types-twice [] rows = refl
repair_types-twice (c ∷ cs) rows =
    ap (λ d. d ∷ repair_types (repair_types cs rows) rows) (repaired-twice rows c)
    ∙ ap (λ ds. repaired rows c ∷ ds) (repair_types-twice cs rows)
