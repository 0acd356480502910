-- ===== src/Inventory/Record/Outcomes.antt =====
-- What a batch of movements comes to: `RecordMovementsUseCase.execute` as a whole.
use cubeforge_api.Prelude.{
  suc, ◌+◌, some, List, [], ◌∷◌, not, Text, if◌then◌else◌, length, map, filter, Date, ◌≡◌, refl, ap,
  arith, ◌⊎◌, inr, inl, sym, ◌∙◌,
}
use cubeforge_api.Prelude.Dict.{has}
use cubeforge_api.Errors.{◌>>=◌, ok, Failure, err, Result-cases, ok-injective}
use cubeforge_api.Access.Role.{Role}
use cubeforge_api.Access.Authorize.{Actor, authorize_caller_in_tenant, tenant_acted_in}
use cubeforge_api.UnitOfWork.{Stores, run_in_tenant}
use cubeforge_api.Inventory.Movement.{unknown_sku, unknown_location}
use cubeforge_api.Inventory.Store.{Inventory, key, record_movements, restore}
use cubeforge_api.Inventory.Record.{
  SubmittedRow, see_row, MovementOutcome, recorded, already_recorded, rejected, Verdict, decided,
  open_row, record_movements_roles, execute, is_recorded, is_already_recorded, is_rejected,
  RecordMovementsReport,
}
use cubeforge_api.Inventory.Record.Positions.{verdicts}
use cubeforge_api.Inventory.Record.Report.{
  survive, outcome_in, report_of, final_outcomes, survivors, record_survivors_lem,
  judge_locally_lem,
}

module _ (s : Inventory) (t : Text) where
  -- The outcome of one row, from its verdict and the store before the batch.
  abbrev pub expected : Verdict → MovementOutcome
  expected (decided o) = o
  expected (open_row m) =
      if not (has s.products (key t m.sku))
      then rejected (some m.external_id) unknown_sku
      else if not (has s.locations (key t m.location))
      then rejected (some m.external_id) unknown_location
      else if has s.movements (key t m.external_id)
      then already_recorded m.external_id
      else recorded m.external_id

  expected_lem : (v : Verdict) → outcome_in s t (survive s t v) ≡ expected v
  expected_lem (decided o) = refl
  expected_lem (open_row m) = ground arith

  pub final_outcomes-eq-expected : (vs : List Verdict) → final_outcomes s t vs ≡ map expected vs
  final_outcomes-eq-expected [] = refl
  final_outcomes-eq-expected (v ∷ vs) = cc (expected_lem v, final_outcomes-eq-expected vs)

length-verdicts :
    (date_from : Text → Date) (now : Date) (seen : List Text) (rows : List SubmittedRow)
    {A : Type 0} (f : Verdict → A)
    → length (map f (verdicts date_from now seen rows)) ≡ length rows
length-verdicts date_from now seen [] f = refl
length-verdicts date_from now seen (r ∷ rs) f =
    ap suc (length-verdicts date_from now (see_row seen r) rs f)

counts :
    (outs : List MovementOutcome)
    → length (filter is_recorded outs)
        + length (filter is_already_recorded outs)
        + length (filter is_rejected outs)
      ≡ length outs
counts [] = omega arith
counts (recorded e ∷ os) = omega (arith, counts os)
counts (already_recorded e ∷ os) = omega (arith, counts os)
counts (rejected e reason ∷ os) = omega (arith, counts os)

module _ (date_from : Text → Date) (now : Date) (actor : Actor) (rows : List SubmittedRow)
    (st : Stores) (t : Text) (role : Role) where
  -- For a caller who acts in a tenant and is authorised there, the batch succeeds: it reports, row
  -- by row and in order, what the row's own verdict and the products, places and movements of the
  -- tenant before the batch decide, and it leaves the store as recording the surviving movements
  -- leaves it. The identity store is untouched.
  pub execute-report :
      tenant_acted_in actor ≡ ok t
      → authorize_caller_in_tenant st.identity t actor record_movements_roles ≡ ok role
      → let vs = verdicts date_from now [] rows in
        execute date_from now actor rows st ≡ (
          ok (report_of (map (expected st.inventory t) vs)),
          record {
            identity = st.identity;
            inventory = (record_movements t (survivors st.inventory t vs) st.inventory).1;
          },
        )
  unfolding execute run_in_tenant ◌>>=◌
  execute-report here may =
      rw (here, judge_locally_lem date_from now rows)
        (rw may (
          rw (
            record_survivors_lem st.inventory t (verdicts date_from now [] rows),
            final_outcomes-eq-expected st.inventory t (verdicts date_from now [] rows),
          )))

module _ (date_from : Text → Date) (now : Date) (actor : Actor) (rows : List SubmittedRow)
    (st : Stores) where
  -- What it takes for a batch to succeed.
  pub record IsAuthorized : Type 0 where
    pub tenant : Text
    pub role : Role
    pub here : tenant_acted_in actor ≡ ok tenant
    pub may : authorize_caller_in_tenant st.identity tenant actor record_movements_roles ≡ ok role

  refused_tenant :
      (e : Failure)
      → tenant_acted_in actor ≡ err e
      → execute date_from now actor rows st ≡ (err e, st)
  unfolding execute ◌>>=◌
  refused_tenant e h = rw h

  refused_role :
      (t : Text) (e : Failure)
      → tenant_acted_in actor ≡ ok t
      → authorize_caller_in_tenant st.identity t actor record_movements_roles ≡ err e
      → execute date_from now actor rows st ≡ (err e, st)
  unfolding execute run_in_tenant restore ◌>>=◌
  refused_role t e here h = rw (here, judge_locally_lem date_from now rows) (rw h)

  -- A batch is refused as a whole, and then it leaves both stores as they were, or the caller is
  -- authorised.
  pub execute-cases :
      IsAuthorized ⊎ ((e : Failure) × (execute date_from now actor rows st ≡ (err e, st)))
  execute-cases = elim (Result-cases (tenant_acted_in actor)) [
    | inr (e, h) ↦ inr (e, refused_tenant e h)
    | inl (t, here) ↦
        elim (Result-cases
          (authorize_caller_in_tenant st.identity t actor record_movements_roles)) [
            | inr (e, h) ↦ inr (e, refused_role t e here h)
            | inl (role, may) ↦ inl (record { tenant = t; role = role; here = here; may = may })
          ]
  ]

  -- Whenever the batch succeeds, the report has as many outcomes as there are submitted rows, and
  -- its three counts add up to that number.
  pub execute-counts :
      (r : RecordMovementsReport)
      → (execute date_from now actor rows st).0 ≡ ok r
      → (length r.outcomes ≡ length rows)
        × (r.recorded + r.already_recorded + r.rejected ≡ length rows)
  execute-counts r h = elim execute-cases [
    | inr (e, refused) ↦ absurd (cc (refused))
    | inl a ↦
        let outs = map (expected st.inventory a.tenant) (verdicts date_from now [] rows) in
        let same : report_of outs ≡ r = ok-injective (
          sym (
            ap (λ x. x.0) (execute-report date_from now actor rows st a.tenant a.role a.here a.may))
          ∙ h) in
        rw (← same) (
          length-verdicts date_from now [] rows (expected st.inventory a.tenant),
          counts outs ∙ length-verdicts date_from now [] rows (expected st.inventory a.tenant),
        )
  ]
