-- ===== src/Tests/Inventory.antt =====
-- The inventory: a tenant with one product and one place receives a batch.
use cubeforge_api.Prelude.{
  none, some, List, [], ◌∷◌, Text, ◌==◌, ◌≡◌, refl, Date, at, Number, pos, lit, whole, negsuc,
  not_whole, includes, add, trim, trim_start, trim_end, trim_keep, is_space, length, map, ◌+◌, ap,
}
use cubeforge_api.Access.Role
use cubeforge_api.Access.Entities.{
  TenantStatus, PersonStatus, MembershipStatus, Tenant, Person, Membership, is_tenant_active,
  is_person_active, is_membership_active,
}
use cubeforge_api.Inventory.Store.{Held, declared, record_movements, record_loop, restore}
use cubeforge_api.UnitOfWork.{Stores, run_in_tenant}
use cubeforge_api.Access.Authorize.{
  Actor, tenant_member, authorize_caller_in_tenant, authorize_in_tenant, tenant_acted_in,
}
use cubeforge_api.Inventory.Record.{
  SubmittedRow, MovementOutcome, execute, recorded, record_survivors, RecordMovementsReport,
  rejected, judge_locally, judge_loop, judge_row, see_row, unknown_reference,
  drop_unknown_references, drop_loop, distinct, settle_loop, summarise, present,
  record_movements_roles,
}
use cubeforge_api.Errors.{◌>>=◌, Result, ok, err}
use cubeforge_api.Inventory.Movement.{
  duplicate_within_batch, unknown_sku, malformed_identifier, quantity_sign_mismatch, judge_movement,
  quantity_not_whole, judge_number, judge_quantity, judge_moment, required_sign,
}
use cubeforge_api.Access.Decision.{decide_access}
use cubeforge_api.Access.Directory.{find_current, find_person, find_by_person, memberships_of}
use cubeforge_api.Prelude.Dict.{get, has, put}
use cubeforge_api.Inventory.Identifiers.{
  parse_sku, parse_location_code, parse_external_movement_id, parse, is_code, is_supported,
}
use cubeforge_api.Inventory.Record.Report.{report_of}
use cubeforge_api.Inventory.Record.Outcomes.{expected, execute-counts, execute-report}
use cubeforge_api.Inventory.Record.Retry.{again, execute-retry}
use cubeforge_api.Inventory.Record.Positions.{verdicts}
use cubeforge_api.Inventory.Record.Report.{survivors}

abbrev pub epoch : Date
epoch = at (pos 0)

abbrev pub acme : Tenant
acme = record {
  id = lit "acme";
  name = lit "Acme";
  status = TenantStatus.active;
  created_at = epoch;
}

abbrev pub ann : Person
ann = record {
  id = lit "ann";
  email = lit "ann@acme.test";
  status = PersonStatus.active;
  created_at = epoch;
}

abbrev pub link : Membership
link = record {
  id = lit "m1";
  tenant_id = lit "acme";
  person_id = lit "ann";
  role = Role.editor;
  status = MembershipStatus.active;
  created_at = epoch;
}

abbrev pub named : Held
named = record { name = lit "n"; category = none; created_at = epoch; updated_at = epoch }

abbrev pub stores : Stores
stores = record {
  identity = record {
    tenants = (lit "acme", acme) ∷ [];
    people = (lit "ann", ann) ∷ [];
    memberships = (lit "m1", link) ∷ [];
  };
  inventory = record {
    products = (lit "acme:A-1", named) ∷ [];
    locations = (lit "acme:WH1", named) ∷ [];
    movements = [];
    next_transaction = 7;
    export_cursors = [];
    recording_moment = at (pos 4000);
  };
}

abbrev pub caller : Actor
caller = tenant_member (lit "ann") (lit "acme")

-- `new Date(text)` at the one text that the rows hold.
abbrev date_from : Text → Date
date_from t = at (pos 1000)

abbrev now : Date
now = at (pos 5000)

abbrev row : Text → Text → Number → SubmittedRow
row id sku quantity = record {
  external_id = id;
  sku = sku;
  location = lit "WH1";
  kind = lit "receipt";
  quantity = quantity;
  occurred_at = lit "1970-01-01T00:00:01Z";
}

abbrev ten : Number
ten = whole (pos 10)

abbrev batch : List SubmittedRow
batch =
    row (lit "d-1") (lit "A-1") ten
    ∷ row (lit "d-1") (lit "A-1") ten
    ∷ row (lit "d-2") (lit "B-9") ten
    ∷ row (lit "d 3") (lit "A-1") ten
    ∷ row (lit "d-4") (lit "A-1") (whole (negsuc 4))
    ∷ row (lit "d-5") (lit "A-1") not_whole
    ∷ []

abbrev answers : List MovementOutcome
answers =
    recorded (lit "d-1")
    ∷ rejected (some (lit "d-1")) duplicate_within_batch
    ∷ rejected (some (lit "d-2")) unknown_sku
    ∷ rejected none malformed_identifier
    ∷ rejected (some (lit "d-4")) quantity_sign_mismatch
    ∷ rejected (some (lit "d-5")) quantity_not_whole
    ∷ []

-- All that a run computes with.
running_code : Unit {0}
unfolding ◌>>=◌ execute record_survivors judge_locally judge_loop judge_row see_row judge_movement
    judge_number judge_quantity judge_moment required_sign unknown_reference drop_unknown_references
    drop_loop distinct declared settle_loop summarise present record_movements record_loop
    run_in_tenant restore authorize_caller_in_tenant authorize_in_tenant tenant_acted_in
    decide_access find_current find_person find_by_person memberships_of is_tenant_active
    is_person_active is_membership_active get has put includes add ◌==◌ parse_sku
    parse_location_code parse_external_movement_id parse is_code is_supported trim trim_start
    trim_end trim_keep is_space
running_code = tt

abbrev outcomes_of : Result RecordMovementsReport → List MovementOutcome
outcomes_of (ok r) = r.outcomes
outcomes_of (err e) = []

batch_outcomes : outcomes_of (execute date_from now caller batch stores).0 ≡ answers
unfolding running_code
batch_outcomes = refl

abbrev report : RecordMovementsReport
report = record { recorded = 1; already_recorded = 0; rejected = 5; outcomes = answers }

abbrev after : Stores
after = (execute date_from now caller batch stores).1

batch_reported : execute date_from now caller batch stores ≡ (ok report, after)
unfolding running_code
batch_reported = refl

caller_authorized :
    authorize_caller_in_tenant stores.identity (lit "acme") caller record_movements_roles
    ≡ ok Role.editor
unfolding running_code
caller_authorized = refl

acme_acted_in : tenant_acted_in caller ≡ ok (lit "acme")
unfolding running_code
acme_acted_in = refl

execute-report_example : execute date_from now caller batch stores ≡ (
  ok (report_of (map (expected stores.inventory (lit "acme")) (verdicts date_from now [] batch))),
  record {
    identity = stores.identity;
    inventory =
        (record_movements
          (lit "acme")
          (survivors stores.inventory (lit "acme") (verdicts date_from now [] batch))
          stores.inventory).1;
  },
)
execute-report_example =
    execute-report date_from now caller batch stores (lit "acme") Role.editor acme_acted_in
      caller_authorized

execute-counts_example :
    (length report.outcomes ≡ 6) × (report.recorded + report.already_recorded + report.rejected ≡ 6)
execute-counts_example =
    execute-counts date_from now caller batch stores report (ap (λ x. x.0) batch_reported)

execute-retry_example : execute date_from now caller batch after ≡ (
  ok (report_of (map again answers)),
  record {
    identity = after.identity;
    inventory = record after.inventory { next_transaction = after.inventory.next_transaction + 1 };
  },
)
execute-retry_example = execute-retry date_from now caller batch stores after report batch_reported
