-- ===== src/Inventory/Catalogue/Declaring.antt =====
-- Declaring a product more than once: src/application/inventory/declare-product.use-case.ts.
use cubeforge_api.Inventory.Store.{Declaration}
use cubeforge_api.Inventory.Catalogue.{run_in_tenant, ◌>>=◌, Stores, Role, Declaration}
use cubeforge_api.UnitOfWork.{run_in_tenant, Stores}
use cubeforge_api.Errors.{◌>>=◌}
use cubeforge_api.Access.Role.{Role}
