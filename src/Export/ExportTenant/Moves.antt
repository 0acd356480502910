-- ===== src/Export/ExportTenant/Moves.antt =====
-- Where an export leaves the point reached: export-tenant.use-case.ts as a whole.
use cubeforge_api.Prelude.{
  Bool, true, Option, none, some, List, [], ◌∷◌, Text, ◌≡◌, ◌⊎◌, inl, inr, sym, ap, ◌∙◌, Date,
  subst,
}
use cubeforge_api.Export.ExportTenant.Quiet.{Quiet, Quiet-pure, Quiet-bind}
use cubeforge_api.Export.ExportTenant.Through.{
  AllWritten, AllWritten-later, through_of, Quiet-write_catalogue, Quiet-write_watermark,
  confirm-through, confirm-sink, Quiet-write_partitions, write_partitions-AllWritten,
  claim_window-through, read_tables-through,
}
use cubeforge_api.Export.ExportTenant.{
  execute, World, TenantExport, Readings, ExportWindow, Exec, write_watermark, confirm_window,
  write_catalogue, Dict, CatalogueDataset, ExportedMovementRow, claim_window, read_tables,
  by_day_recorded, confirm, write_window, write_partitions,
}
use cubeforge_api.Export.Window.{ExportWindow}
use cubeforge_api.Errors.{Exec, ◌>>=◌, pure, ok}
use cubeforge_api.Prelude.Dict.{Dict, has}
use cubeforge_api.Export.Store.{held}
use cubeforge_api.Export.Partition.{CatalogueDataset}
use cubeforge_api.Export.Rows.{ExportedMovementRow}
use cubeforge_api.Errors.Keeps.{keep-bind, keep-lift}

-- The point reached is the end of the window that was claimed, and every day of what was read in
-- it has its file.
pub record Moved (le : Text → Text → Bool) (t : Text) (before after : World) : Type 0 where
  pub window : ExportWindow
  pub readings : Readings
  pub days : Dict (List ExportedMovementRow)
  pub claimed : (claim_window t before).0 ≡ ok (some window)
  pub was_read : (read_tables le t (some window) (claim_window t before).1).0 ≡ ok readings
  pub by_day : by_day_recorded readings.movements [] ≡ ok days
  pub written : AllWritten after t window days
  pub through : through_of after t ≡ some window.to

AllWritten-sink :
    (w w' : World) (t : Text) (win : ExportWindow) (days : Dict (List ExportedMovementRow))
    → w'.sink ≡ w.sink
    → AllWritten w t win days
    → AllWritten w' t win days
AllWritten-sink w w' t win [] e h = tt
AllWritten-sink w w' t win (d ∷ days) e ((key, k, f), h) =
    ((key, k, subst (λ s. has s.written key ≡ true) (sym e) f), AllWritten-sink w w' t win days e h)

module _ (le : Text → Text → Bool) (now : Date) (t : Text) (w : World) where
  abbrev Same : World → Type 0
  Same v = through_of v t ≡ through_of w t

  abbrev Outcome : World → Type 0
  Outcome v = Same v ⊎ Moved le t w v

  Same-Quiet : {A : Type 0} (m : Exec World A) (v : World) → Quiet m → Same v → Same (m v).1
  Same-Quiet m v q h = ap (λ s. (held s.inventory t).carried_through) (q.stores v) ∙ h

  Outcome-Quiet :
      {A : Type 0} (m : Exec World A) (v : World) → Quiet m → Outcome v → Outcome (m v).1
  Outcome-Quiet m v q (inl h) = inl (Same-Quiet m v q h)
  Outcome-Quiet m v q (inr h) = inr (record {
    window = h.window;
    readings = h.readings;
    days = h.days;
    claimed = h.claimed;
    was_read = h.was_read;
    by_day = h.by_day;
    written = AllWritten-later m v t h.window h.days q h.written;
    through = ap (λ s. (held s.inventory t).carried_through) (q.stores v) ∙ h.through;
  })

  -- What comes after the confirmation, and after the catalogue.
  abbrev marking : TenantExport → Exec World TenantExport
  marking result = write_watermark now t >>= λ _. pure result

  abbrev confirming : Option ExportWindow → TenantExport → Exec World TenantExport
  confirming window result = confirm_window t window >>= λ _. marking result

  abbrev labelling : Option ExportWindow → Readings → TenantExport → Exec World TenantExport
  labelling window readings result =
      write_catalogue t CatalogueDataset.products readings.products >>= λ _.
      write_catalogue t CatalogueDataset.locations readings.locations >>= λ _.
      confirming window result

  Quiet-marking : (result : TenantExport) → Quiet (marking result)
  Quiet-marking result =
      Quiet-bind (write_watermark now t) _ (Quiet-write_watermark now t) λ _. Quiet-pure result

  Quiet-labelling :
      (readings : Readings) (result : TenantExport) → Quiet (labelling none readings result)
  Quiet-labelling readings result =
      Quiet-bind _ _ (Quiet-write_catalogue t CatalogueDataset.products readings.products) λ _.
        Quiet-bind _ _ (Quiet-write_catalogue t CatalogueDataset.locations readings.locations)
          λ _. Quiet-bind _ _ (Quiet-pure tt) λ _. Quiet-marking result

  module _ (win : ExportWindow) (readings : Readings) (days : Dict (List ExportedMovementRow))
      (claimed : (claim_window t w).0 ≡ ok (some win))
      (was_read : (read_tables le t (some win) (claim_window t w).1).0 ≡ ok readings)
      (by_day : by_day_recorded readings.movements [] ≡ ok days) where
    confirmed : (v : World) → Same v → AllWritten v t win days → Outcome (confirm t win v).1
    confirmed v same written = elim (confirm-through t win v) [
      | inl stays ↦ inl (stays ∙ same)
      | inr moves ↦ inr (record {
        window = win;
        readings = readings;
        days = days;
        claimed = claimed;
        was_read = was_read;
        by_day = by_day;
        written = AllWritten-sink v (confirm t win v).1 t win days (confirm-sink t win v) written;
        through = moves;
      })
    ]

    after_writes :
        (result : TenantExport) (v : World)
        → Same v
        → AllWritten v t win days
        → Outcome (labelling (some win) readings result v).1
    after_writes result v same written =
        let q1 = Quiet-write_catalogue t CatalogueDataset.products readings.products in
        let q2 = Quiet-write_catalogue t CatalogueDataset.locations readings.locations in
        let m1 = write_catalogue t CatalogueDataset.products readings.products in
        let m2 = write_catalogue t CatalogueDataset.locations readings.locations in
        let v1 = (m1 v).1 in
        let v2 = (m2 v1).1 in
        let same1 = Same-Quiet m1 v q1 same in
        let same2 = Same-Quiet m2 v1 q2 same1 in
        let written2 =
          AllWritten-later m2 v1 t win days q2 (AllWritten-later m1 v t win days q1 written) in
        let g = confirmed v2 same2 written2 in
        keep-bind Outcome m1 _ v (λ _ _. inl same1)
          λ _ _.
            keep-bind Outcome m2 _ v1 (λ _ _. inl same2)
              λ _ _.
                keep-bind Outcome (confirm t win) _ v2 (λ _ _. g)
                  λ _ _.
                    Outcome-Quiet (marking result) (confirm t win v2).1 (Quiet-marking result) g

  finish_export :
      (window : Option ExportWindow) (readings : Readings) (days : Dict (List ExportedMovementRow))
      → (claim_window t w).0 ≡ ok window
      → (read_tables le t window (claim_window t w).1).0 ≡ ok readings
      → by_day_recorded readings.movements [] ≡ ok days
      → (v : World) (result : TenantExport) → Same v
      → Outcome ((write_window t window days >>= λ _. labelling window readings result) v).1
  finish_export none readings days claimed was_read by_day v result same =
      keep-bind Outcome (pure tt) _ v (λ _ _. inl same)
        λ _ _.
          inl (Same-Quiet (labelling none readings result) v (Quiet-labelling readings result) same)
  finish_export (some win) readings days claimed was_read by_day v result same =
      let m = write_partitions t win days in
      let same1 = Same-Quiet m v (Quiet-write_partitions t win days) same in
      keep-bind Outcome m _ v (λ _ _. inl same1)
        λ x wrote.
          after_writes win readings days claimed was_read by_day result (m v).1 same1
            (write_partitions-AllWritten t win days v x wrote)

  -- However an export ends, with a result or at any failure, the point that the tenant has reached
  -- is either the one before, or the end of the window that this export claimed, and then every day
  -- of what it read in that window has a file under its key.
  pub execute-through :
      (through_of (execute le now t w).1 t ≡ through_of w t) ⊎ Moved le t w (execute le now t w).1
  unfolding execute
  execute-through =
      let claim = claim_window-through t w in
      keep-bind Outcome (claim_window t) _ w (λ _ _. inl claim)
        λ window claimed.
          let v = (claim_window t w).1 in
          let same = read_tables-through le t window v ∙ claim in
          keep-bind Outcome (read_tables le t window) _ v (λ _ _. inl same)
            λ readings was_read.
              keep-lift Outcome _ _ _ (inl same)
                λ days by_day. finish_export window readings days claimed was_read by_day _ _ same
