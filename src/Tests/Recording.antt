-- ===== src/Tests/Recording.antt =====
-- Codes, single movements, the history and the stock that it sums up to.
use cubeforge_api.Prelude.{
  Bool, true, some, [], ◌∷◌, ◌==◌, ◌≡◌, ◌↔◌, refl, All, lit, at, whole, pos, negsuc, add_number,
  ◌+ℤ◌,
}
use cubeforge_api.Tests.Inventory.{stores}
use cubeforge_api.Inventory.Movement.{SubmittedMovement, judge_movement, admissible}
use cubeforge_api.Inventory.Store.{
  RecordedMovement, Inventory, StockLevel, mine, stock_on_hand, record_movements, total_loop,
}
use cubeforge_api.Prelude.Dict.{get, put}
use cubeforge_api.Inventory.Identifiers.{parse, value}
use cubeforge_api.Inventory.Store.Keys.{Without}
use cubeforge_api.Inventory.Store.Stock.{on_hand_of, stock_on_hand-eq-sum}
use cubeforge_api.Inventory.Store.Recording.{get-record_movements}
use cubeforge_api.Inventory.Identifiers.Codes.{IsCode, parse_iff}
use cubeforge_api.Prelude.Sort.{sort}
use cubeforge_api.Inventory.Movement.Admissible.{IsAdmissible, judge_movement_iff}

abbrev receipt : SubmittedMovement
receipt = record {
  external_id = lit "d-1";
  sku = lit "A-1";
  location = lit "WH1";
  kind = lit "receipt";
  quantity = whole (pos 10);
  occurred_at = at (pos 1000);
}

abbrev sale : SubmittedMovement
sale = record receipt { external_id = lit "d-2"; kind = lit "sale"; quantity = whole (negsuc 3) }

abbrev pub kept : RecordedMovement
kept = record {
  submitted = receipt;
  tenant = lit "acme";
  recorded_at = at (pos 4000);
  recorded_xid = 6;
}

abbrev sold : RecordedMovement
sold = record kept { submitted = sale }

abbrev stocked : Inventory
stocked = record stores.inventory {
  movements = (lit "acme:d-1", kept) ∷ (lit "acme:d-2", sold) ∷ [];
}

kept_there : get stocked.movements (lit "acme:d-1") ≡ some kept
unfolding get ◌==◌
kept_there = refl

get-record_movements_example :
    get (record_movements (lit "acme") (receipt ∷ sale ∷ []) stocked).1.movements (lit "acme:d-1")
    ≡ some kept
get-record_movements_example =
    get-record_movements (lit "acme") (receipt ∷ sale ∷ []) stocked (lit "acme:d-1") kept kept_there

parse_iff_example :
    (parse (lit "WH.1-a_b") ≡ value (lit "WH.1-a_b"))
    ↔ ((lit "WH.1-a_b" ≡ lit "WH.1-a_b") × IsCode (lit "WH.1-a_b"))
parse_iff_example = parse_iff (lit "WH.1-a_b") (lit "WH.1-a_b")

judge_movement_iff_example :
    (judge_movement sale (at (pos 5000)) ≡ admissible) ↔ IsAdmissible sale (at (pos 5000))
judge_movement_iff_example = judge_movement_iff sale (at (pos 5000))

abbrev any_order : StockLevel → StockLevel → Bool
any_order a b = true

no_nul : All (λ m. Without 0 m.location) (mine stocked (lit "acme"))
unfolding mine ◌==◌
no_nul = ((refl, (refl, (refl, tt))), ((refl, (refl, (refl, tt))), tt))

stock_on_hand-eq-sum_example :
    All
      (λ l. l.on_hand ≡ on_hand_of l.sku l.location (mine stocked (lit "acme")))
      (stock_on_hand any_order stocked (lit "acme"))
stock_on_hand-eq-sum_example = stock_on_hand-eq-sum any_order stocked (lit "acme") no_nul

-- Ten in, four out.
six_left :
    stock_on_hand any_order stocked (lit "acme")
    ≡ record { sku = lit "A-1"; location = lit "WH1"; on_hand = whole (pos 6) } ∷ []
unfolding stock_on_hand mine total_loop get put ◌==◌ sort add_number ◌+ℤ◌
six_left = refl
