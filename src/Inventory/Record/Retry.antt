-- ===== src/Inventory/Record/Retry.antt =====
-- A client that sends a batch again: src/application/inventory/record-movements.use-case.ts.
use cubeforge_api.Prelude.Dict.{has}
use cubeforge_api.Inventory.Record.{
  MovementOutcome, recorded, Text, already_recorded, List, record_movements, rejected,
  SubmittedMovement, Verdict, map, [], decided, ◌∷◌, true, open_row, judge_row, Date, SubmittedRow,
  see_row, Result, Actor, Stores, RecordMovementsReport, execute,
}
use cubeforge_api.Inventory.Store.{Inventory, record_movements, key}
use cubeforge_api.Prelude.{
  Text, List, In, ◌≡◌, map, [], true, ◌+◌, arith, includes-map, Date, inl, Option-cases, refl, inr,
  ap, sym, ◌∙◌,
}
use cubeforge_api.Inventory.Movement.{SubmittedMovement}
use cubeforge_api.Inventory.Record.Report.{
  survive, movements_of, outcome_in, unknown_in, survivors, report_of,
}
use cubeforge_api.Inventory.Store.Recording.{has-record_loop, record_loop_known}
use cubeforge_api.Inventory.Record.Positions.{verdicts}
use cubeforge_api.Inventory.Record.Outcomes.{
  expected, final_outcomes-eq-expected, execute-cases, execute-report,
}
use cubeforge_api.Errors.{Result, ok, ok-injective}
use cubeforge_api.Access.Authorize.{Actor}
use cubeforge_api.UnitOfWork.{Stores}

-- The answer to a row of a batch that is sent again.
abbrev pub again : MovementOutcome → MovementOutcome
again (recorded e) = already_recorded e
again (already_recorded e) = already_recorded e
again (rejected e reason) = rejected e reason

-- The rows that are decided without the store are all rejections.
abbrev AreRejected : List Verdict → Type 0
AreRejected [] = Unit
AreRejected (decided o ∷ vs) = (again o ≡ o) × AreRejected vs
AreRejected (open_row m ∷ vs) = AreRejected vs

judge_row-again :
    (date_from : Text → Date) (now : Date) (seen : List Text) (row : SubmittedRow)
    (o : MovementOutcome)
    → judge_row date_from now seen row ≡ decided o
    → again o ≡ o
unfolding judge_row
judge_row-again date_from now seen row o h = ground arith

AreRejected-cons :
    (v : Verdict) (vs : List Verdict)
    → ((o : MovementOutcome) → v ≡ decided o → again o ≡ o)
    → AreRejected vs
    → AreRejected (v ∷ vs)
AreRejected-cons (decided o) vs h r = (h o refl, r)
AreRejected-cons (open_row m) vs h r = r

AreRejected-verdicts :
    (date_from : Text → Date) (now : Date) (seen : List Text) (rows : List SubmittedRow)
    → AreRejected (verdicts date_from now seen rows)
AreRejected-verdicts date_from now seen [] = tt
AreRejected-verdicts date_from now seen (r ∷ rs) =
    AreRejected-cons (judge_row date_from now seen r) _ (judge_row-again date_from now seen r)
      (AreRejected-verdicts date_from now (see_row seen r) rs)

module _ (s : Inventory) (t : Text) where
  abbrev after : List SubmittedMovement → Inventory
  after ms = (record_movements t ms s).1

  -- Recording touches neither products nor places, so that the same rows survive.
  survive-after :
      (ms : List SubmittedMovement) (v : Verdict) → survive (after ms) t v ≡ survive s t v
  unfolding record_movements
  survive-after ms (decided o) = refl
  survive-after ms (open_row m) = refl

  map-survive-after :
      (ms : List SubmittedMovement) (vs : List Verdict)
      → map (survive (after ms) t) vs ≡ map (survive s t) vs
  map-survive-after ms [] = refl
  map-survive-after ms (v ∷ vs) = cc (survive-after ms v, map-survive-after ms vs)

  -- A movement that was handed over is there afterwards.
  has-after :
      (ms : List SubmittedMovement) (m : SubmittedMovement)
      → In m ms
      → has (after ms).movements (key t m.external_id) ≡ true
  unfolding record_movements
  has-after ms m i = ground (
    arith,
    has-record_loop t s.next_transaction s.recording_moment ms s.movements [] m.external_id,
    includes-map (λ n. n.external_id) m ms i,
  )

  -- Recording the same movements again records nothing, and takes one transaction identifier.
  pub record_movements_again :
      (ms : List SubmittedMovement)
      → record_movements t ms (after ms)
        ≡ ([], record (after ms) { next_transaction = (after ms).next_transaction + 1 })
  record_movements_again ms =
      unfold record_movements in
      rw (
        record_loop_known t (s.next_transaction + 1) s.recording_moment ms (after ms).movements []
          (has-after ms))

  outcome-again :
      (ms : List SubmittedMovement) (m : SubmittedMovement)
      → In m ms
      → outcome_in (after ms) t (open_row m) ≡ again (outcome_in s t (open_row m))
  outcome-again ms m i = rw (has-after ms m i) (ground arith)

  outcomes-again :
      (ms : List SubmittedMovement) (vs : List Verdict)
      → AreRejected vs
      → ((m : SubmittedMovement) → In m (movements_of vs) → In m ms)
      → map (outcome_in (after ms) t) vs ≡ map again (map (outcome_in s t) vs)
  outcomes-again ms [] r h = refl
  outcomes-again ms (decided o ∷ vs) (r, rs) h = cc (r, outcomes-again ms vs rs h)
  outcomes-again ms (open_row m ∷ vs) rs h =
      cc (outcome-again ms m (h m (inl refl)), outcomes-again ms vs rs (λ n i. h n (inr i)))

  AreRejected-survive : (vs : List Verdict) → AreRejected vs → AreRejected (map (survive s t) vs)
  AreRejected-survive [] r = tt
  AreRejected-survive (decided o ∷ vs) (r, rs) = (r, AreRejected-survive vs rs)
  AreRejected-survive (open_row m ∷ vs) rs = elim (Option-cases (unknown_in s t m)) [
    | inl e ↦ rw e (AreRejected-survive vs rs)
    | inr (reason, e) ↦ rw e (refl, AreRejected-survive vs rs)
  ]

module _ (s : Inventory) (t : Text) (date_from : Text → Date) (now : Date)
    (rows : List SubmittedRow) where
  abbrev plan : List Verdict
  plan = verdicts date_from now [] rows

  expected-again :
      map (expected (after s t (survivors s t plan)) t) plan ≡ map again (map (expected s t) plan)
  expected-again =
      rw
        (
          ← final_outcomes-eq-expected (after s t (survivors s t plan)) t plan,
          ← final_outcomes-eq-expected s t plan,
          map-survive-after s t (survivors s t plan) plan,
        )
        (outcomes-again s t (survivors s t plan) (map (survive s t) plan)
          (AreRejected-survive s t plan (AreRejected-verdicts date_from now [] rows)) (λ m i. i))

  inventory-again :
      (record_movements t
        (survivors (after s t (survivors s t plan)) t plan)
        (after s t (survivors s t plan))).1
      ≡ record (after s t (survivors s t plan)) {
        next_transaction = (after s t (survivors s t plan)).next_transaction + 1;
      }
  inventory-again =
      rw (map-survive-after s t (survivors s t plan) plan)
        (ap (λ x. x.1) (record_movements_again s t (survivors s t plan)))

pair-injective :
    {A B : Type 0} {a b : A} {s t : B}
    → ◌≡◌ {A = Result A × B} (ok a, s) (ok b, t)
    → (a ≡ b) × (s ≡ t)
pair-injective h = (ok-injective (ap (λ x. x.0) h), ap (λ x. x.1) h)

-- A batch that succeeded and is sent again, judged at the same moment, succeeds again. What was
-- recorded is answered as already recorded, every other row as before, and of the two stores only
-- the transaction counter moves: no movement is recorded twice.
pub execute-retry :
    (date_from : Text → Date) (now : Date) (actor : Actor) (rows : List SubmittedRow)
    (st st1 : Stores) (r : RecordMovementsReport)
    → execute date_from now actor rows st ≡ (ok r, st1)
    → execute date_from now actor rows st1 ≡ (
      ok (report_of (map again r.outcomes)),
      record {
        identity = st1.identity;
        inventory = record st1.inventory { next_transaction = st1.inventory.next_transaction + 1 };
      },
    )
execute-retry date_from now actor rows st st1 r h =
    elim (execute-cases date_from now actor rows st) [
      | inr (e, refused) ↦ absurd (cc (h, refused))
      | inl a ↦
          let first = execute-report date_from now actor rows st a.tenant a.role a.here a.may in
          let (same_report, same_stores) = pair-injective (sym first ∙ h) in
          rw (← same_report, ← same_stores)
            (execute-report date_from now actor rows _ a.tenant a.role a.here a.may
              ∙ rw (
                expected-again st.inventory a.tenant date_from now rows,
                inventory-again st.inventory a.tenant date_from now rows,
              ))
    ]
