-- ===== src/Inventory/Catalogue.antt =====
-- src/application/inventory: declaring and listing products and places, and reading the stock.
pub mod Declaring
use cubeforge_api.Prelude.{
  ℕ, zero, suc, ◌+◌, ◌-◌, ◌≤◌, ◌<◌, Bool, true, false, not, ◌&&◌, ◌||◌, Option, none, some, List,
  [], ◌∷◌, ◌++◌, map, Text, ◌==◌, if◌then◌else◌, ◌≡◌, ◌≢◌, ◌↔◌, ◌⊎◌, inl, inr, refl, sym, ap, ◌∙◌,
  arith, length, filter, Date, ◌<ℤ◌, Bool-cases, Option-cases,
}
use cubeforge_api.Access.Role.{Role, admin, editor, viewer}
use cubeforge_api.Inventory.Store.{
  Inventory, StockLevel, Declaration, Held, ReferenceEntity, declare, list, stock_on_hand,
}
use cubeforge_api.Access.Authorize.{Actor, tenant_acted_in, authorize_caller_in_tenant}
use cubeforge_api.Errors.{Exec, ◌>>=◌, Result, lift, ok, ◌>>◌, asks, gets}
use cubeforge_api.Prelude.Dict.{Dict}
use cubeforge_api.UnitOfWork.{Stores, run_in_tenant, on_inventory}

-- `DECLARE_PRODUCT_ROLES`, which are those of the places too
abbrev pub declaring_roles : List Role
declaring_roles = admin ∷ editor ∷ []

-- `READ_STOCK_ROLES`, which are those of the two lists too
abbrev pub reading_roles : List Role
reading_roles = admin ∷ editor ∷ viewer ∷ []

abbrev with_products : Inventory → Declaration × Dict Held → Result Declaration × Inventory
with_products s (made, d) = (ok made, record s { products = d })

abbrev with_locations : Inventory → Declaration × Dict Held → Result Declaration × Inventory
with_locations s (made, d) = (ok made, record s { locations = d })

-- `DeclareProductUseCase.execute`
unfoldable pub declare_product : Date → Actor → Text → Text → Option Text → Exec Stores Declaration
declare_product now actor sku name category = do
  tenant ← lift (tenant_acted_in actor)
  run_in_tenant (do
    asks (λ s. authorize_caller_in_tenant s.identity tenant actor declaring_roles)
    on_inventory (λ s. with_products s (declare s.products tenant sku name category now)))

-- `DeclareLocationUseCase.execute`
unfoldable pub declare_location : Date → Actor → Text → Text → Exec Stores Declaration
declare_location now actor code name = do
  tenant ← lift (tenant_acted_in actor)
  run_in_tenant (do
    asks (λ s. authorize_caller_in_tenant s.identity tenant actor declaring_roles)
    on_inventory (λ s. with_locations s (declare s.locations tenant code name none now)))

-- `ListProductsUseCase.execute` and `ListLocationsUseCase.execute`; `le` is as for `list`.
unfoldable pub list_products : (Text → Text → Bool) → Actor → Exec Stores (List ReferenceEntity)
list_products le actor = do
  tenant ← lift (tenant_acted_in actor)
  run_in_tenant (do
    asks (λ s. authorize_caller_in_tenant s.identity tenant actor reading_roles)
    on_inventory (gets (λ s. list le s.products tenant)))

unfoldable pub list_locations : (Text → Text → Bool) → Actor → Exec Stores (List ReferenceEntity)
list_locations le actor = do
  tenant ← lift (tenant_acted_in actor)
  run_in_tenant (do
    asks (λ s. authorize_caller_in_tenant s.identity tenant actor reading_roles)
    on_inventory (gets (λ s. list le s.locations tenant)))

-- `ReadStockOnHandUseCase.execute`
unfoldable pub read_stock : (StockLevel → StockLevel → Bool) → Actor → Exec Stores (List StockLevel)
read_stock le actor = do
  tenant ← lift (tenant_acted_in actor)
  run_in_tenant (do
    asks (λ s. authorize_caller_in_tenant s.identity tenant actor reading_roles)
    on_inventory (gets (λ s. stock_on_hand le s tenant)))
