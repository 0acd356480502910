-- ===== src/Inventory/Store.antt =====
-- src/adapters/persistence/in-memory/in-memory-inventory-store.ts: the tables of the inventory, the
-- repositories of the reference entities and of the movements, and the snapshot that a unit of work
-- takes back. A repository that is bound to a tenant takes it as an argument.
pub mod Recording
pub mod Keys
pub mod Stock
pub mod Declaring
use cubeforge_api.Prelude.{
  Bool, ℕ, ◌+◌, Option, none, some, List, [], ◌∷◌, ◌++◌, Text, ◌==◌, add, starts_with, slice_from,
  if◌then◌else◌, filter, length, map, Date, Number, add_number, whole, pos,
}
use cubeforge_api.Prelude.Dict.{Dict, get, has, put, values}
use cubeforge_api.Prelude.Sort.{sort}
use cubeforge_api.Inventory.Movement.{SubmittedMovement}

pub record RecordedMovement : Type 0 where
  pub submitted : SubmittedMovement
  pub open submitted use *
  pub tenant : Text
  pub recorded_at : Date
  pub recorded_xid : ℕ

-- `Held`; a location has no category.
pub record Held : Type 0 where
  pub name : Text
  pub category : Option Text
  pub created_at : Date
  pub updated_at : Date

-- A row of the export cursor table.
pub record HeldCursor : Type 0 where
  pub carried_through : Option ℕ
  pub started_window : Option (ℕ × ℕ)

-- `recording_moment` is what `recordingMoment()` answers.
pub record Inventory : Type 0 where
  pub products : Dict Held
  pub locations : Dict Held
  pub movements : Dict RecordedMovement
  pub next_transaction : ℕ
  pub export_cursors : Dict HeldCursor
  pub recording_moment : Date

-- `restore(snapshot)`: the four tables come back; the transaction counter does not, and neither
-- does the moment.
unfoldable pub restore : Inventory → Inventory → Inventory
restore snapshot s = record s {
  products = snapshot.products;
  locations = snapshot.locations;
  movements = snapshot.movements;
  export_cursors = snapshot.export_cursors;
}

-- `${tenantId}:${code}`
abbrev pub key : Text → Text → Text
key tenant code = tenant ++ b':' ∷ code

pub data Declaration : Type 0 where
  created updated : Declaration

-- `InMemoryReferenceRepository` over one of the two tables.
declare_over : Option Held → Dict Held → Text → Text → Option Text → Date → Declaration × Dict Held
declare_over (some existing) d k name category now =
    (updated, put d k (record existing { name = name; category = category; updated_at = now }))
declare_over none d k name category now = (
  created,
  put d k (record { name = name; category = category; created_at = now; updated_at = now }),
)

unfoldable pub declare :
    Dict Held → Text → Text → Text → Option Text → Date → Declaration × Dict Held
unfolding declare_over
declare d tenant code name category now =
    let k = key tenant code in declare_over (get d k) d k name category now

unfoldable pub declared : Dict Held → Text → List Text → List Text
declared d tenant codes = filter (λ c. has d (key tenant c)) codes

pub record ReferenceEntity : Type 0 where
  pub code : Text
  pub name : Text
  pub category : Option Text
  pub created_at : Date
  pub updated_at : Date

entity_of : ℕ → Text × Held → ReferenceEntity
entity_of n (k, held) = record {
  code = slice_from k n;
  name = held.name;
  category = held.category;
  created_at = held.created_at;
  updated_at = held.updated_at;
}

-- `list()`; `le` is whether `localeCompare` answers at most 0.
unfoldable pub list : (Text → Text → Bool) → Dict Held → Text → List ReferenceEntity
unfolding entity_of
list le d tenant =
    let prefix = key tenant [] in
    sort (λ a b. le a.code b.code)
      (map (entity_of (length prefix)) (filter (λ e. starts_with e.0 prefix) d))

-- The loop of `InMemoryMovementRepository.record`: the table and the identifiers recorded so far.
unfoldable pub record_loop :
    Text
    → ℕ
    → Date
    → List SubmittedMovement
    → Dict RecordedMovement
    → List Text
    → Dict RecordedMovement × List Text
record_loop tenant xid moment [] d recorded = (d, recorded)
record_loop tenant xid moment (m ∷ ms) d recorded =
    let k = key tenant m.external_id in
    let skipped = record_loop tenant xid moment ms d recorded in
    let stored =
      record_loop tenant xid moment ms
        (put d k
          (record { submitted = m; tenant = tenant; recorded_at = moment; recorded_xid = xid }))
        (add recorded m.external_id) in
    if has d k then skipped else stored

unfoldable pub record_movements : Text → List SubmittedMovement → Inventory → List Text × Inventory
record_movements tenant ms s =
    let (d, recorded) =
      record_loop tenant s.next_transaction s.recording_moment ms s.movements [] in
    (recorded, record s { movements = d; next_transaction = s.next_transaction + 1 })

-- `mine`
unfoldable pub mine : Inventory → Text → List RecordedMovement
mine s tenant = filter (λ m. m.tenant == tenant) (values s.movements)

pub record StockLevel : Type 0 where
  pub sku : Text
  pub location : Text
  pub on_hand : Number

-- `running?.onHand ?? 0`
abbrev pub running : Option StockLevel → Number
running none = whole (pos 0)
running (some l) = l.on_hand

-- `${sku}\u0000${location}`
abbrev pub stock_key : Text → Text → Text
stock_key sku location = sku ++ 0 ∷ location

unfoldable pub total_loop : List RecordedMovement → Dict StockLevel → Dict StockLevel
total_loop [] totals = totals
total_loop (m ∷ ms) totals =
    let k = stock_key m.sku m.location in
    total_loop ms (
      put totals k (record {
        sku = m.sku;
        location = m.location;
        on_hand = add_number (running (get totals k)) m.quantity;
      }))

-- `stockOnHand()`; `le` is whether the comparator answers at most 0.
unfoldable pub stock_on_hand : (StockLevel → StockLevel → Bool) → Inventory → Text → List StockLevel
unfolding total_loop mine
stock_on_hand le s tenant = sort le (values (total_loop (mine s tenant) []))
