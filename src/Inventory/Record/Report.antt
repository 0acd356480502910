-- ===== src/Inventory/Record/Report.antt =====
-- The report of `RecordMovementsUseCase`, row by row.
use cubeforge_api.Prelude.{
  ℕ, ◌+◌, Option, none, some, List, [], ◌∷◌, ◌&&◌, ◌||◌, not, Text, includes, add, includes-add,
  includes-map, In, eq_iff, if◌then◌else◌, length, map, filter, Date, ◌≡◌, refl, ap, arith, inl,
  inr, nat_eq_iff,
}
use cubeforge_api.Prelude.Dict.{Dict, has}
use cubeforge_api.Errors.{ok}
use cubeforge_api.Inventory.Movement.{
  SubmittedMovement, RejectionReason, unknown_sku, unknown_location,
}
use cubeforge_api.Inventory.Store.{Held, Inventory, key, declared, record_movements}
use cubeforge_api.Inventory.Store.Recording.{includes-record_loop}
use cubeforge_api.Inventory.Record.{
  SubmittedRow, MovementOutcome, recorded, already_recorded, RecordMovementsReport, Verdict,
  decided, open_row, judge_locally, unknown_reference, distinct, drop_unknown_references,
  is_recorded, is_already_recorded, is_rejected, summarise, record_survivors,
}
use cubeforge_api.Inventory.Record.Positions.{
  verdicts, slots, opens, blanks, judge_loop_lem, reject_if, drop_verdict, drop_loop_lem,
  settle_verdict, filled, settle_loop_lem, present-filled, length-filled,
}

-- The movements that are still open in a plan.
abbrev pub movements_of : List Verdict → List SubmittedMovement
movements_of [] = []
movements_of (decided o ∷ vs) = movements_of vs
movements_of (open_row m ∷ vs) = m ∷ movements_of vs

map-opens :
    {A : Type 0} (f : SubmittedMovement → A) (vs : List Verdict) (i : ℕ)
    → map (λ c. f c.movement) (opens i vs) ≡ map f (movements_of vs)
map-opens f [] i = refl
map-opens f (decided o ∷ vs) i = map-opens f vs (i + 1)
map-opens f (open_row m ∷ vs) i = ap (λ t. f m ∷ t) (map-opens f vs (i + 1))

map-id : {A : Type 0} (xs : List A) → map (λ x. x) xs ≡ xs
map-id [] = refl
map-id (x ∷ xs) = ap (λ t. x ∷ t) (map-id xs)

-- The one fate of an open row, read off the store and nothing else.
abbrev pub unknown_in : Inventory → Text → SubmittedMovement → Option RejectionReason
unknown_in s t m =
    if not (has s.products (key t m.sku))
    then some unknown_sku
    else if not (has s.locations (key t m.location))
    then some unknown_location
    else none

abbrev pub survive : Inventory → Text → Verdict → Verdict
survive s t (decided o) = decided o
survive s t (open_row m) = reject_if (unknown_in s t m) m

abbrev pub outcome_in : Inventory → Text → Verdict → MovementOutcome
outcome_in s t (decided o) = o
outcome_in s t (open_row m) =
    if has s.movements (key t m.external_id)
    then already_recorded m.external_id
    else recorded m.external_id

includes-distinct :
    (seen ts : List Text) (x : Text)
    → includes (distinct seen ts) x ≡ (includes seen x || includes ts x)
unfolding distinct includes
includes-distinct seen [] x = ground arith
includes-distinct seen (t ∷ ts) x =
    ground (arith, includes-distinct (add seen t) ts x, includes-add seen t x)

includes-declared :
    (d : Dict Held) (t : Text) (cs : List Text) (x : Text)
    → includes (declared d t cs) x ≡ (includes cs x && has d (key t x))
unfolding declared includes
includes-declared d t [] x = refl
includes-declared d t (c ∷ cs) x = ground (arith, includes-declared d t cs x, eq_iff c x)

-- Asking once for the set of codes answers as asking for each code would.
includes-known :
    (d : Dict Held) (t : Text) (f : SubmittedMovement → Text) (ms : List SubmittedMovement)
    (m : SubmittedMovement)
    → In m ms
    → includes (declared d t (distinct [] (map f ms))) (f m) ≡ has d (key t (f m))
unfolding includes
includes-known d t f ms m i = ground (
  arith,
  includes-declared d t (distinct [] (map f ms)) (f m),
  includes-distinct [] (map f ms) (f m),
  includes-map f m ms i,
)

-- Two functions that agree on the open rows of a plan and on the decided ones map it alike.
map-agree :
    {A : Type 0} (f g : Verdict → A) (vs : List Verdict)
    → ((o : MovementOutcome) → f (decided o) ≡ g (decided o))
    → ((m : SubmittedMovement) → In m (movements_of vs) → f (open_row m) ≡ g (open_row m))
    → map f vs ≡ map g vs
map-agree f g [] h k = refl
map-agree f g (decided o ∷ vs) h k = cc (h o, map-agree f g vs h k)
map-agree f g (open_row m ∷ vs) h k = cc (k m (inl refl), map-agree f g vs h (λ n i. k n (inr i)))

module _ (s : Inventory) (t : Text) where
  drop_verdict-eq-survive :
      (vs : List Verdict)
      → map
          (drop_verdict
            (declared s.products t (distinct [] (map (λ m. m.sku) (movements_of vs))))
            (declared s.locations t (distinct [] (map (λ m. m.location) (movements_of vs)))))
          vs
        ≡ map (survive s t) vs
  unfolding unknown_reference
  drop_verdict-eq-survive vs =
      map-agree _ _ vs (λ o. refl)
        (λ m i. rw (
          includes-known s.products t (λ m. m.sku) (movements_of vs) m i,
          includes-known s.locations t (λ m. m.location) (movements_of vs) m i,
        ))

  settle_verdict-eq-outcome_in :
      (vs : List Verdict)
      → map (settle_verdict (record_movements t (movements_of vs) s).0) vs ≡ map (outcome_in s t) vs
  unfolding record_movements includes
  settle_verdict-eq-outcome_in vs =
      map-agree _ _ vs (λ o. refl)
        (λ m i. ground (
          arith,
          includes-record_loop t s.next_transaction s.recording_moment (movements_of vs) s.movements
              [] m.external_id,
          includes-map (λ m. m.external_id) m (movements_of vs) i,
        ))

-- The counts of a list of outcomes.
abbrev pub report_of : List MovementOutcome → RecordMovementsReport
report_of outs = record {
  recorded = length (filter is_recorded outs);
  already_recorded = length (filter is_already_recorded outs);
  rejected = length (filter is_rejected outs);
  outcomes = outs;
}

-- An array with no hole in it is summarised, and does not throw.
summarise-filled :
    (news : List Text) (vs : List Verdict)
    → summarise (filled news vs) ≡ ok (report_of (map (settle_verdict news) vs))
unfolding summarise
summarise-filled news vs =
    rw (present-filled, length-filled)
      (rw (nat_eq_iff (length (map (settle_verdict news) vs)) _).1 refl)

blanks-eq : (rows : List SubmittedRow) → map (λ _. none) rows ≡ blanks rows
blanks-eq [] = refl
blanks-eq (r ∷ rs) = ap (λ t. none ∷ t) (blanks-eq rs)

drop_lem :
    (s : Inventory) (t : Text) (vs : List Verdict)
    → drop_unknown_references s t (opens 0 vs) (slots vs)
      ≡ (slots (map (survive s t) vs), opens 0 (map (survive s t) vs))
unfolding drop_unknown_references
drop_lem s t vs =
    rw
      (
        map-opens (λ m. m.sku) vs 0,
        map-opens (λ m. m.location) vs 0,
        ← drop_verdict-eq-survive s t vs,
      )
      (drop_loop_lem _ _ vs [] [] 0 refl)

-- The outcomes after the unit of work, and the movements that it hands to the store.
abbrev pub final_outcomes : Inventory → Text → List Verdict → List MovementOutcome
final_outcomes s t vs = map (outcome_in s t) (map (survive s t) vs)

abbrev pub survivors : Inventory → Text → List Verdict → List SubmittedMovement
survivors s t vs = movements_of (map (survive s t) vs)

pub record_survivors_lem :
    (s : Inventory) (t : Text) (vs : List Verdict)
    → record_survivors t (opens 0 vs) (slots vs) s
      ≡ (ok (report_of (final_outcomes s t vs)), (record_movements t (survivors s t vs) s).1)
unfolding record_survivors
record_survivors_lem s t vs = rw (drop_lem s t vs) (
    rw (map-opens (λ m. m) (map (survive s t) vs) 0, map-id (survivors s t vs))
      (rw
        (settle_loop_lem (record_movements t (survivors s t vs) s).0 (map (survive s t) vs) [] 0
          refl)
        (rw (
          summarise-filled _ (map (survive s t) vs),
          settle_verdict-eq-outcome_in s t (map (survive s t) vs),
        ))))

pub judge_locally_lem :
    (date_from : Text → Date) (now : Date) (rows : List SubmittedRow)
    → judge_locally date_from now rows (map (λ _. none) rows)
      ≡ (slots (verdicts date_from now [] rows), opens 0 (verdicts date_from now [] rows))
unfolding judge_locally
judge_locally_lem date_from now rows =
    rw blanks-eq (judge_loop_lem date_from now rows [] [] [] 0 refl)
