-- ===== src/Inventory/Record.antt =====
-- src/application/inventory/record-movements.use-case.ts. The array `outcomes` that the steps write
-- into is passed along; `none` is `undefined`.
pub mod Positions
pub mod Report
pub mod Outcomes
pub mod Retry
use cubeforge_api.Prelude.{
  Bool, true, false, ℕ, ◌+◌, Option, none, some, List, [], ◌∷◌, ◌++◌, Text, includes, add, not,
  nat_eq, if◌then◌else◌, filter, length, map, set, Date, Number,
}
use cubeforge_api.Errors.{Result, ok, err, thrown, Exec, lift, asks, ◌>>=◌, ◌>>◌}
use cubeforge_api.Access.Role.{Role, admin, editor}
use cubeforge_api.Access.Authorize.{Actor, authorize_caller_in_tenant, tenant_acted_in}
use cubeforge_api.UnitOfWork.{Stores, run_in_tenant, on_inventory}
use cubeforge_api.Inventory.Identifiers.{
  Parsed, malformed, value, parse_sku, parse_location_code, parse_external_movement_id,
}
use cubeforge_api.Inventory.Movement.{
  SubmittedMovement, RejectionReason, malformed_identifier, duplicate_within_batch, unknown_sku,
  unknown_location, Judgement, admissible, inadmissible, judge_movement,
}
use cubeforge_api.Inventory.Store.{Inventory, declared, record_movements}

pub record SubmittedRow : Type 0 where
  pub external_id : Text
  pub sku : Text
  pub location : Text
  pub kind : Text
  pub quantity : Number
  pub occurred_at : Text

pub data MovementOutcome : Type 0 where
  recorded : Text → MovementOutcome
  already_recorded : Text → MovementOutcome
  rejected : Option Text → RejectionReason → MovementOutcome

pub record RecordMovementsReport : Type 0 where
  pub recorded : ℕ
  pub already_recorded : ℕ
  pub rejected : ℕ
  pub outcomes : List MovementOutcome

pub record Candidate : Type 0 where
  pub position : ℕ
  pub movement : SubmittedMovement

abbrev pub record_movements_roles : List Role
record_movements_roles = admin ∷ editor ∷ []

-- What local judgement says of one row.
pub data Verdict : Type 0 where
  decided : MovementOutcome → Verdict
  open_row : SubmittedMovement → Verdict

abbrev judged : Judgement → SubmittedMovement → Verdict
judged admissible m = open_row m
judged (inadmissible reason) m = decided (rejected (some m.external_id) reason)

-- The row behind the three parses.
judge_parsed : (Text → Date) → Date → List Text → SubmittedRow → Parsed → Parsed → Parsed → Verdict
judge_parsed date_from now seen row (malformed e) s l = decided (rejected none malformed_identifier)
judge_parsed date_from now seen row (value e) (malformed s) l =
    decided (rejected (some e) malformed_identifier)
judge_parsed date_from now seen row (value e) (value s) (malformed l) =
    decided (rejected (some e) malformed_identifier)
judge_parsed date_from now seen row (value e) (value s) (value l) =
    if includes seen e
    then decided (rejected (some e) duplicate_within_batch)
    else let m : SubmittedMovement = record {
      external_id = e;
      sku = s;
      location = l;
      kind = row.kind;
      quantity = row.quantity;
      occurred_at = date_from row.occurred_at;
    } in
      judged (judge_movement m now) m

-- The body of the loop of `judgeLocally`, short of its writes. `date_from` is `new Date(text)`.
unfoldable pub judge_row : (Text → Date) → Date → List Text → SubmittedRow → Verdict
unfolding judge_parsed
judge_row date_from now seen row =
    judge_parsed date_from now seen row (parse_external_movement_id row.external_id)
      (parse_sku row.sku) (parse_location_code row.location)

-- `seen.add`, which a row reaches whose three codes parse; adding one again changes nothing.
see_parsed : List Text → Parsed → Parsed → Parsed → List Text
see_parsed seen (value e) (value s) (value l) = add seen e
see_parsed seen _ s l = seen

unfoldable pub see_row : List Text → SubmittedRow → List Text
unfolding see_parsed
see_row seen row =
    see_parsed seen (parse_external_movement_id row.external_id) (parse_sku row.sku)
      (parse_location_code row.location)

abbrev pub Outcomes : Type 0
Outcomes = List (Option MovementOutcome)

-- One step of the loop: a decided row is written into its place, an open one is a candidate.
abbrev pub write_verdict : Verdict → ℕ → Outcomes × List Candidate → Outcomes × List Candidate
write_verdict (decided o) i (outs, cands) = (set outs i (some o), cands)
write_verdict (open_row m) i (outs, cands) =
    (outs, cands ++ record { position = i; movement = m } ∷ [])

unfoldable pub judge_loop :
    (Text → Date)
    → Date
    → List SubmittedRow
    → ℕ
    → List Text
    → Outcomes × List Candidate
    → Outcomes × List Candidate
judge_loop date_from now [] i seen acc = acc
judge_loop date_from now (r ∷ rs) i seen acc =
    judge_loop date_from now rs (i + 1) (see_row seen r)
      (write_verdict (judge_row date_from now seen r) i acc)

-- `judgeLocally`
unfoldable pub judge_locally :
    (Text → Date) → Date → List SubmittedRow → Outcomes → Outcomes × List Candidate
unfolding judge_loop
judge_locally date_from now rows outs = judge_loop date_from now rows 0 [] (outs, [])

-- Why a candidate is dropped, if it is.
unfoldable pub unknown_reference :
    List Text → List Text → SubmittedMovement → Option RejectionReason
unknown_reference skus places m =
    if not (includes skus m.sku)
    then some unknown_sku
    else if not (includes places m.location)
    then some unknown_location
    else none

abbrev pub drop_one :
    Option RejectionReason → Candidate → Outcomes × List Candidate → Outcomes × List Candidate
drop_one none c (outs, kept) = (outs, kept ++ c ∷ [])
drop_one (some reason) c (outs, kept) =
    (set outs c.position (some (rejected (some c.movement.external_id) reason)), kept)

unfoldable pub drop_loop :
    List Text → List Text → List Candidate → Outcomes × List Candidate → Outcomes × List Candidate
drop_loop skus places [] acc = acc
drop_loop skus places (c ∷ cs) acc =
    drop_loop skus places cs (drop_one (unknown_reference skus places c.movement) c acc)

-- `[...new Set(texts)]`
unfoldable pub distinct : List Text → List Text → List Text
distinct seen [] = seen
distinct seen (t ∷ ts) = distinct (add seen t) ts

-- `dropUnknownReferences`
unfoldable pub drop_unknown_references :
    Inventory → Text → List Candidate → Outcomes → Outcomes × List Candidate
unfolding drop_loop
drop_unknown_references s tenant cands outs =
    let skus = distinct [] (map (λ c. c.movement.sku) cands) in
    let places = distinct [] (map (λ c. c.movement.location) cands) in
    drop_loop (declared s.products tenant skus) (declared s.locations tenant places) cands
      (outs, [])

abbrev pub settled : List Text → SubmittedMovement → MovementOutcome
settled news m =
    if includes news m.external_id then recorded m.external_id else already_recorded m.external_id

-- The loop over the survivors, with the set that recording them came back with.
unfoldable pub settle_loop : List Text → List Candidate → Outcomes → Outcomes
settle_loop news [] outs = outs
settle_loop news (c ∷ cs) outs =
    settle_loop news cs (set outs c.position (some (settled news c.movement)))

-- `outcomes.filter((o) => o !== undefined)`
unfoldable pub present : Outcomes → List MovementOutcome
present [] = []
present (none ∷ os) = present os
present (some o ∷ os) = o ∷ present os

abbrev pub is_recorded : MovementOutcome → Bool
is_recorded (recorded e) = true
is_recorded _ = false

abbrev pub is_already_recorded : MovementOutcome → Bool
is_already_recorded (already_recorded e) = true
is_already_recorded _ = false

abbrev pub is_rejected : MovementOutcome → Bool
is_rejected (rejected e reason) = true
is_rejected _ = false

unfoldable pub summarise : Outcomes → Result RecordMovementsReport
unfolding present
summarise outs =
    let done = present outs in
    if not (nat_eq (length done) (length outs))
    then err thrown
    else ok (record {
      recorded = length (filter is_recorded done);
      already_recorded = length (filter is_already_recorded done);
      rejected = length (filter is_rejected done);
      outcomes = done;
    })

-- What happens in the unit of work once the caller is authorised.
unfoldable pub record_survivors :
    Text → List Candidate → Outcomes → Exec Inventory RecordMovementsReport
unfolding drop_unknown_references settle_loop summarise
record_survivors tenant cands outs s =
    let (outs', survivors) = drop_unknown_references s tenant cands outs in
    let (news, s') = record_movements tenant (map (λ c. c.movement) survivors) s in
    (summarise (settle_loop news survivors outs'), s')

-- `RecordMovementsUseCase.execute`
unfoldable pub execute :
    (Text → Date) → Date → Actor → List SubmittedRow → Exec Stores RecordMovementsReport
execute date_from now actor rows = do
  tenant ← lift (tenant_acted_in actor)
  let (outs, cands) = judge_locally date_from now rows (map (λ _. none) rows)
  run_in_tenant (do
    asks (λ s. authorize_caller_in_tenant s.identity tenant actor record_movements_roles)
    on_inventory (record_survivors tenant cands outs))
