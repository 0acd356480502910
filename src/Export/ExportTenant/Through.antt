-- ===== src/Export/ExportTenant/Through.antt =====
-- The steps of export-tenant.use-case.ts, the files they write and the point that the cursor holds.
use cubeforge_api.Prelude.{
  ℕ, Bool, true, Option, some, List, [], ◌∷◌, Text, ◌≡◌, ◌⊎◌, inl, inr, refl, sym, ap, ◌∙◌, Date,
  All, subst,
}
use cubeforge_api.UnitOfWork.Atomic.{run_in_tenant-cursors}
use cubeforge_api.Export.ExportTenant.Quiet.{
  Quiet, Quiet-pure, Quiet-lift, Quiet-bind, Quiet-write, write-there, failing_as-state,
}
use cubeforge_api.Export.Store.Cursors.{held-put}
use cubeforge_api.Errors.Keeps.{keep-bind, keep-asks, keep-lift, bind-ok}
use cubeforge_api.Export.ExportTenant.{
  write_catalogue, write_watermark, write_partitions, World, CatalogueDataset, ExportWindow,
  Inventory, in_tenant, ExportedCatalogueRow, watermark_key, Dict, catalogue_key,
  ExportedMovementRow, movements_key, write, movements_file, claim_work, claim_window, read_work,
  read_tables, confirm, claim_next, start, finish, get, NextWindow,
}
use cubeforge_api.Errors.{Exec, lift, ok, database_unavailable, modify}
use cubeforge_api.Export.Partition.{CatalogueDataset, watermark_key, catalogue_key, movements_key}
use cubeforge_api.Export.Window.{ExportWindow}
use cubeforge_api.Export.Store.{held, held_or_fresh, start, finish, cursor_key}
use cubeforge_api.Inventory.Store.{Inventory, HeldCursor}
use cubeforge_api.Export.Rows.{ExportedCatalogueRow, ExportedMovementRow}
use cubeforge_api.Prelude.Dict.{Dict, has, get}
use cubeforge_api.Export.Cursor.{NextWindow}

pub Quiet-write_catalogue :
    (t : Text) (d : CatalogueDataset) (rows : List ExportedCatalogueRow)
    → Quiet (write_catalogue t d rows)
unfolding write_catalogue
Quiet-write_catalogue t d rows =
    Quiet-bind (lift (catalogue_key t d)) _ (Quiet-lift (catalogue_key t d))
      λ key. Quiet-write key _

pub Quiet-write_watermark : (now : Date) (t : Text) → Quiet (write_watermark now t)
unfolding write_watermark
Quiet-write_watermark now t =
    Quiet-bind (lift (watermark_key t)) _ (Quiet-lift (watermark_key t)) λ key. Quiet-write key _

pub Quiet-write_partitions :
    (t : Text) (win : ExportWindow) (days : Dict (List ExportedMovementRow))
    → Quiet (write_partitions t win days)
unfolding write_partitions
Quiet-write_partitions t win [] = Quiet-pure tt
Quiet-write_partitions t win ((day, rows) ∷ days) =
    Quiet-bind (lift (movements_key t day win)) _ (Quiet-lift (movements_key t day win)) λ key.
      Quiet-bind (write key (movements_file rows)) _ (Quiet-write key (movements_file rows))
        λ _. Quiet-write_partitions t win days

-- Under the key of each day there is a file.
abbrev pub AllWritten : World → Text → ExportWindow → Dict (List ExportedMovementRow) → Type 0
AllWritten w t win days =
    All (λ d. (key : Text) × (movements_key t d.0 win ≡ ok key) × (has w.sink.written key ≡ true))
      days

pub AllWritten-later :
    {A : Type 0} (m : Exec World A) (w : World) (t : Text) (win : ExportWindow)
    (days : Dict (List ExportedMovementRow))
    → Quiet m
    → AllWritten w t win days
    → AllWritten (m w).1 t win days
AllWritten-later m w t win [] q h = tt
AllWritten-later m w t win (d ∷ days) q ((key, e, f), h) =
    ((key, e, q.files w key f), AllWritten-later m w t win days q h)

pub write_partitions-AllWritten :
    (t : Text) (win : ExportWindow) (days : Dict (List ExportedMovementRow)) (w : World)
    (x : Unit {0})
    → (write_partitions t win days w).0 ≡ ok x
    → AllWritten (write_partitions t win days w).1 t win days
unfolding write_partitions
write_partitions-AllWritten t win [] w x h = tt
write_partitions-AllWritten t win ((day, rows) ∷ days) w x h =
    let one = bind-ok (lift (movements_key t day win)) _ w x h in
    let two =
      bind-ok (write one.value (movements_file rows)) (λ _. write_partitions t win days) w x
        one.rest in
    let w1 = (write one.value (movements_file rows) w).1 in
    let there = write-there one.value (movements_file rows) w two.value two.first in
    subst (λ v. AllWritten v t win ((day, rows) ∷ days)) (sym (one.same ∙ two.same))
      (
        (one.value, one.first, (Quiet-write_partitions t win days).files w1 one.value there),
        write_partitions-AllWritten t win days w1 x two.rest,
      )

-- How far a tenant's movements have been carried, as the cursor table says.
abbrev pub through_of : World → Text → Option ℕ
through_of w t = (held w.stores.inventory t).carried_through

abbrev through_in : Text → Dict HeldCursor → Option ℕ
through_in t d = (held_or_fresh (get d (cursor_key t))).carried_through

in_tenant-through :
    {A : Type 0} (work : Exec Inventory A) (t : Text) (w : World)
    → (held (work w.stores.inventory).1 t).carried_through ≡ through_of w t
    → through_of (in_tenant work w).1 t ≡ through_of w t
unfolding held
in_tenant-through work t w h =
    run_in_tenant-cursors (λ d. through_in t d ≡ through_of w t) work w.stores refl h

in_tenant-either :
    {A : Type 0} (work : Exec Inventory A) (t : Text) (w : World) (to : ℕ)
    → (held (work w.stores.inventory).1 t).carried_through ≡ some to
    → (through_of (in_tenant work w).1 t ≡ through_of w t)
      ⊎ (through_of (in_tenant work w).1 t ≡ some to)
unfolding held
in_tenant-either work t w to h =
    run_in_tenant-cursors (λ d. (through_in t d ≡ through_of w t) ⊎ (through_in t d ≡ some to)) work
      w.stores (inl refl) (inr h)

claim_next-through :
    (t : Text) (next : NextWindow) (s : Inventory)
    → (held (claim_next t next s).1 t).carried_through ≡ (held s t).carried_through
unfolding claim_next start
claim_next-through t NextWindow.up_to_date s = refl
claim_next-through t (NextWindow.carry win) s = rw (held-put s t _)

claim_work-through :
    (t : Text) (s : Inventory)
    → (held (claim_work t s).1 t).carried_through ≡ (held s t).carried_through
unfolding claim_work
claim_work-through t s =
    let P : Inventory → Type 0 = λ i. (held i t).carried_through ≡ (held s t).carried_through in
    keep-asks P _ _ s refl λ cursor _.
      keep-asks P _ _ s refl λ limit _. keep-lift P _ _ s refl λ next _. claim_next-through t next s

pub claim_window-through :
    (t : Text) (w : World) → through_of (claim_window t w).1 t ≡ through_of w t
unfolding claim_window
claim_window-through t w =
    ap (λ v. through_of v t) (failing_as-state database_unavailable (in_tenant (claim_work t)) w)
    ∙ in_tenant-through (claim_work t) t w (claim_work-through t w.stores.inventory)

read_work-through :
    (le : Text → Text → Bool) (t : Text) (window : Option ExportWindow) (s : Inventory)
    → (held (read_work le t window s).1 t).carried_through ≡ (held s t).carried_through
unfolding read_work
read_work-through le t window s =
    let P : Inventory → Type 0 = λ i. (held i t).carried_through ≡ (held s t).carried_through in
    keep-asks P _ _ s refl λ movements _.
      keep-bind P _ _ s (λ _ _. refl)
        λ products _. keep-bind P _ _ s (λ _ _. refl) λ locations _. refl

pub read_tables-through :
    (le : Text → Text → Bool) (t : Text) (window : Option ExportWindow) (w : World)
    → through_of (read_tables le t window w).1 t ≡ through_of w t
unfolding read_tables
read_tables-through le t window w =
    ap (λ v. through_of v t)
      (failing_as-state database_unavailable (in_tenant (read_work le t window)) w)
    ∙ in_tenant-through (read_work le t window) t w
        (read_work-through le t window w.stores.inventory)

pub confirm-through :
    (t : Text) (win : ExportWindow) (w : World)
    → (through_of (confirm t win w).1 t ≡ through_of w t)
      ⊎ (through_of (confirm t win w).1 t ≡ some win.to)
unfolding confirm finish
confirm-through t win w =
    subst (λ (v : World). (through_of v t ≡ through_of w t) ⊎ (through_of v t ≡ some win.to))
      (sym (failing_as-state database_unavailable (in_tenant (modify (finish t win.to))) w))
      (in_tenant-either (modify (finish t win.to)) t w win.to
        (ap (λ h. h.carried_through) (held-put w.stores.inventory t _)))

pub confirm-sink : (t : Text) (win : ExportWindow) (w : World) → (confirm t win w).1.sink ≡ w.sink
unfolding confirm
confirm-sink t win w =
    ap (λ v. v.sink)
      (failing_as-state database_unavailable (in_tenant (modify (finish t win.to))) w)
