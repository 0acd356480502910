-- ===== src/UnitOfWork/Atomic.antt =====
-- What the tables hold after a unit of work.
use cubeforge_api.Prelude.{◌≡◌, refl, arith}
use cubeforge_api.UnitOfWork.{
  run_in_tenant, Stores, settle, Identity, Exec, on_identity, restore, keep_inventory,
  keep_identity, on_inventory,
}
use cubeforge_api.Access.Directory.{Identity}
use cubeforge_api.Errors.{Exec, Result, Failure, err, ok, asks}
use cubeforge_api.Inventory.Store.{restore, HeldCursor, Inventory}
use cubeforge_api.Prelude.Dict.{Dict}

settle-keeps :
    {A : Type 0} (P : Identity → Type 0) (s : Stores) (r : Result A) (i : Identity)
    → P s.identity
    → P i
    → P (settle s (keep_inventory s.inventory (r, i))).1.identity
unfolding settle
settle-keeps P s (ok a) i before after = after
settle-keeps P s (err e) i before after = before

-- A unit of work over the identity store keeps a property that its work keeps.
pub run_in_tenant-keeps :
    {A : Type 0} (P : Identity → Type 0) (work : Exec Identity A) (s : Stores)
    → P s.identity
    → P (work s.identity).1
    → P (run_in_tenant (on_identity work) s).1.identity
unfolding run_in_tenant
run_in_tenant-keeps P work s before after =
    settle-keeps P s (work s.identity).0 (work s.identity).1 before after

-- The tables of both stores are the same; the transaction counter may have moved.
pub record SameTables (s s' : Stores) : Type 0 where
  pub identity : s'.identity ≡ s.identity
  pub products : s'.inventory.products ≡ s.inventory.products
  pub locations : s'.inventory.locations ≡ s.inventory.locations
  pub movements : s'.inventory.movements ≡ s.inventory.movements
  pub export_cursors : s'.inventory.export_cursors ≡ s.inventory.export_cursors

settle-err :
    {A : Type 0} (s s' : Stores) (r : Result A) (e : Failure)
    → (settle s (r, s')).0 ≡ err e
    → SameTables s (settle s (r, s')).1
unfolding settle restore
settle-err s s' (ok a) e h = absurd (ground arith)
settle-err s s' (err e') e h = record {
  identity = refl;
  products = refl;
  locations = refl;
  movements = refl;
  export_cursors = refl;
}

-- Whatever the work is and wherever it throws, a unit of work that throws leaves every table of
-- both stores as it was before.
pub run_in_tenant-err :
    {A : Type 0} (work : Exec Stores A) (s : Stores) (e : Failure)
    → (run_in_tenant work s).0 ≡ err e
    → SameTables s (run_in_tenant work s).1
unfolding run_in_tenant
run_in_tenant-err work s e h = settle-err s (work s).1 (work s).0 e h

settle-cursors :
    {A : Type 0} (P : Dict HeldCursor → Type 0) (s : Stores) (r : Result A) (i : Inventory)
    → P s.inventory.export_cursors
    → P i.export_cursors
    → P (settle s (keep_identity s.identity (r, i))).1.inventory.export_cursors
unfolding settle restore
settle-cursors P s (ok a) i before after = after
settle-cursors P s (err e) i before after = before

-- The same for the export cursors, under a work over the inventory.
pub run_in_tenant-cursors :
    {A : Type 0} (P : Dict HeldCursor → Type 0) (work : Exec Inventory A) (s : Stores)
    → P s.inventory.export_cursors
    → P (work s.inventory).1.export_cursors
    → P (run_in_tenant (on_inventory work) s).1.inventory.export_cursors
unfolding run_in_tenant
run_in_tenant-cursors P work s before after =
    settle-cursors P s (work s.inventory).0 (work s.inventory).1 before after

settle_result : {A : Type 0} (s s' : Stores) (r : Result A) → (settle s (r, s')).0 ≡ r
unfolding settle
settle_result s s' (ok a) = refl
settle_result s s' (err e) = refl

-- A unit of work that only reads comes back with what it read.
pub run_in_tenant-asks :
    {A : Type 0} (f : Stores → Result A) (s : Stores) → (run_in_tenant (asks f) s).0 ≡ f s
unfolding run_in_tenant
run_in_tenant-asks f s = settle_result s s (f s)

settle-ok :
    {A : Type 0} (s : Stores) (r : Result A) (i : Identity) (a : A)
    → (settle s (keep_inventory s.inventory (r, i))).0 ≡ ok a
    → (r ≡ ok a) × ((settle s (keep_inventory s.inventory (r, i))).1.identity ≡ i)
unfolding settle
settle-ok s (ok b) i a h = (h, refl)
settle-ok s (err e) i a h = absurd (ground (arith, h))

-- A unit of work that returns has returned from its work, and keeps what the work wrote.
pub run_in_tenant-ok :
    {A : Type 0} (work : Exec Identity A) (s : Stores) (a : A)
    → (run_in_tenant (on_identity work) s).0 ≡ ok a
    → ((work s.identity).0 ≡ ok a)
      × ((run_in_tenant (on_identity work) s).1.identity ≡ (work s.identity).1)
unfolding run_in_tenant
run_in_tenant-ok work s a h = settle-ok s (work s.identity).0 (work s.identity).1 a h
