-- ===== src/Export/RunExport/Tenants.antt =====
-- Which tenants a run reports on.
use cubeforge_api.Prelude.{
  Bool, not, Option, List, [], ◌∷◌, ◌++◌, map, Text, ◌≡◌, inl, inr, refl, sym, ap, ◌∙◌, arith,
  filter, Date, Bool-cases,
}
use cubeforge_api.Access.Entities.{Tenant, is_tenant_active}
use cubeforge_api.Export.RunExport.{
  carry_tenant, carry_loop, skipped, outcome_of, caught, TenantOutcome, Result, run_active, execute,
  reachable, values,
}
use cubeforge_api.Export.ExportTenant.{World, TenantExport, carried, up_to_date, failing_as}
use cubeforge_api.Export.Report.{TenantOutcome, tenant_id_of, report_of, ExportReport}
use cubeforge_api.Errors.{Result, ok, err, ◌>>=◌, Result-cases}
use cubeforge_api.Export.Sink.{reachable}
use cubeforge_api.Prelude.Dict.{values}

abbrev ids : List Tenant → List Text
ids ts = map (λ t. t.id) ts

-- The tenants that a run with this option is for.
abbrev pub chosen : Option Text → List Tenant → List Tenant
chosen only ts = filter (λ t. not (skipped only t.id)) ts

map-append : {A B : Type 0} (f : A → B) (xs ys : List A) → map f (xs ++ ys) ≡ map f xs ++ map f ys
map-append f [] ys = refl
map-append f (x ∷ xs) ys = ap (λ t. f x ∷ t) (map-append f xs ys)

append_assoc : {A : Type 0} (xs ys zs : List A) → (xs ++ ys) ++ zs ≡ xs ++ (ys ++ zs)
append_assoc [] ys zs = refl
append_assoc (x ∷ xs) ys zs = ap (λ t. x ∷ t) (append_assoc xs ys zs)

append_nil : {A : Type 0} (xs : List A) → xs ++ [] ≡ xs
append_nil [] = refl
append_nil (x ∷ xs) = ap (λ t. x ∷ t) (append_nil xs)

tenant_id-outcome_of : (t : Text) (r : Result TenantExport) → tenant_id_of (outcome_of t r) ≡ t
unfolding outcome_of
tenant_id-outcome_of t (ok (carried counts)) = refl
tenant_id-outcome_of t (ok up_to_date) = refl
tenant_id-outcome_of t (err e) = refl

module _ (le : Text → Text → Bool) (now : Date) where
  tenant_id-carry_tenant : (t : Text) (w : World) → tenant_id_of (carry_tenant le now t w).0 ≡ t
  unfolding carry_tenant caught
  tenant_id-carry_tenant t w = tenant_id-outcome_of t _

  one_more :
      (t : Text) (w : World) (outs : List TenantOutcome) (rest : List Text)
      → map tenant_id_of (outs ++ (carry_tenant le now t w).0 ∷ []) ++ rest
        ≡ map tenant_id_of outs ++ t ∷ rest
  one_more t w outs rest =
      rw
        (
          map-append tenant_id_of outs ((carry_tenant le now t w).0 ∷ []),
          tenant_id-carry_tenant t w,
        )
        (append_assoc (map tenant_id_of outs) (t ∷ []) rest)

  pub ids-carry_loop :
      (only : Option Text) (ts : List Tenant) (outs : List TenantOutcome) (w : World)
      → map tenant_id_of (carry_loop le now only ts outs w).0
        ≡ map tenant_id_of outs ++ ids (chosen only ts)
  unfolding carry_loop
  ids-carry_loop only [] outs w = sym (append_nil (map tenant_id_of outs))
  ids-carry_loop only (t ∷ ts) outs w = elim (Bool-cases (skipped only t.id)) [
    | inl skip ↦ rw skip (ids-carry_loop only ts outs w)
    | inr take ↦ rw take (ids-carry_loop only ts _ _ ∙ one_more t.id w outs (ids (chosen only ts)))
  ]

  run_active-ids :
      (only : Option Text) (ts : List Tenant) (w w' : World) (r : ExportReport)
      → run_active le now only ts w ≡ (ok r, w')
      → map tenant_id_of r.outcomes ≡ ids (chosen only ts)
  unfolding run_active report_of
  run_active-ids only ts w w' r h =
      let all_ids = ids-carry_loop only ts [] w in ground (arith, all_ids, h)

  reached_loop :
      (only : Option Text) (w w' : World) (r : ExportReport)
      → reachable w.sink ≡ ok tt
      → execute le now only w ≡ (ok r, w')
      → run_active le now only (filter is_tenant_active (values w.stores.identity.tenants)) w
        ≡ (ok r, w')
  unfolding execute failing_as ◌>>=◌
  reached_loop only w w' r e h = rw e at h

  -- A run that reports has reached the storage, and it reports on the active tenants that it is
  -- for, each once and in the order of the table, however many of them fail.
  pub execute-ids :
      (only : Option Text) (w w' : World) (r : ExportReport)
      → execute le now only w ≡ (ok r, w')
      → (reachable w.sink ≡ ok tt)
        × (map tenant_id_of r.outcomes
            ≡ map
                (λ t. t.id)
                (chosen only (filter is_tenant_active (values w.stores.identity.tenants))))
  unfolding execute failing_as ◌>>=◌
  execute-ids only w w' r h = elim (Result-cases (reachable w.sink)) [
    | inl (x, e) ↦ (e, run_active-ids only _ w w' r (reached_loop only w w' r e h))
    | inr (x, e) ↦ absurd (ground (arith, h, e))
  ]
