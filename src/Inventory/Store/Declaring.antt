-- ===== src/Inventory/Store/Declaring.antt =====
-- What `InMemoryReferenceRepository.declare` leaves in the table.
use cubeforge_api.Prelude.{true, Option, Text, ◌≡◌, inl, inr, arith, Date, Option-cases}
use cubeforge_api.Inventory.Store.{declare, declare_over, has, Dict, Held, key, updated, get}
use cubeforge_api.Prelude.Dict.{has, Dict, get, get_self}

pub has-declare :
    (d : Dict Held) (t code name : Text) (category : Option Text) (now : Date)
    → has (declare d t code name category now).1 (key t code) ≡ true
unfolding declare declare_over has
has-declare d t code name category now = elim (Option-cases (get d (key t code))) [
  | inl e ↦ rw (e, get_self d (key t code) _)
  | inr (h, e) ↦ rw (e, get_self d (key t code) _)
]

pub declare-known :
    (d : Dict Held) (t code name : Text) (category : Option Text) (now : Date)
    → has d (key t code) ≡ true
    → (declare d t code name category now).0 ≡ updated
unfolding declare declare_over has
declare-known d t code name category now h = elim (Option-cases (get d (key t code))) [
  | inl e ↦ absurd (ground (arith, h, e))
  | inr (held, e) ↦ rw e
]
