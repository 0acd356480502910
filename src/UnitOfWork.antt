-- ===== src/UnitOfWork.antt =====
-- src/adapters/persistence/in-memory/in-memory-tenant-scoped-unit-of-work.ts and
-- in-memory-platform-unit-of-work.ts: the two stores, and what a failed unit of work takes back.
pub mod Atomic
use cubeforge_api.Errors.{Result, ok, err, Exec}
use cubeforge_api.Access.Directory.{Identity}
use cubeforge_api.Inventory.Store.{Inventory, restore}

pub record Stores : Type 0 where
  pub identity : Identity
  pub inventory : Inventory

-- The `catch` of `runInTenant`: both stores are restored, and the error goes on.
settle : {A : Type 0} → Stores → Result A × Stores → Result A × Stores
settle before (ok a, after) = (ok a, after)
settle before (err e, after) = (
  err e,
  record { identity = before.identity; inventory = restore before.inventory after.inventory },
)

-- `work` is given the repositories of one tenant, here that tenant's identifier.
unfoldable pub run_in_tenant : {A : Type 0} → Exec Stores A → Exec Stores A
unfolding settle
run_in_tenant work s = settle s (work s)

settle_identity : {A : Type 0} → Identity → Result A × Identity → Result A × Identity
settle_identity before (ok a, after) = (ok a, after)
settle_identity before (err e, after) = (err e, before)

-- `runAsOperator`, over the tenants and the people.
unfoldable pub run_as_operator : {A : Type 0} → Exec Identity A → Exec Identity A
unfolding settle_identity
run_as_operator work s = settle_identity s (work s)

abbrev pub keep_inventory : {A : Type 0} → Inventory → Result A × Identity → Result A × Stores
keep_inventory inventory (r, i) = (r, record { identity = i; inventory = inventory })

-- An action on the one store or on the other.
abbrev pub on_identity : {A : Type 0} → Exec Identity A → Exec Stores A
on_identity m s = keep_inventory s.inventory (m s.identity)

abbrev pub keep_identity : {A : Type 0} → Identity → Result A × Inventory → Result A × Stores
keep_identity identity (r, i) = (r, record { identity = identity; inventory = i })

abbrev pub on_inventory : {A : Type 0} → Exec Inventory A → Exec Stores A
on_inventory m s = keep_identity s.identity (m s.inventory)
