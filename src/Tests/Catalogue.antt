-- ===== src/Tests/Catalogue.antt =====
-- A product is declared twice.
use cubeforge_api.Prelude.{none, lit}
use cubeforge_api.Tests.Inventory.{stores, caller, epoch}
use cubeforge_api.UnitOfWork.{Stores}
use cubeforge_api.Inventory.Catalogue.{declare_product}

abbrev renamed : Stores
renamed = (declare_product epoch caller (lit "C-7") (lit "Cable") none stores).1
