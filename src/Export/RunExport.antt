-- ===== src/Export/RunExport.antt =====
-- src/application/export/run-export.use-case.ts. The correlation identifier, which is handed
-- through, is left out.
pub mod Tenants
use cubeforge_api.Prelude.{
  Bool, true, false, not, Option, none, some, List, [], ◌∷◌, ◌++◌, Text, ◌==◌, if◌then◌else◌,
  filter, Date, any,
}
use cubeforge_api.Errors.{
  Result, Exec, err, ok, ◌>>◌, thrown, storage_unreachable, asks, ◌>>=◌, gets,
}
use cubeforge_api.Export.ExportTenant.{
  World, TenantExport, carried, up_to_date, reason_of, failing_as,
}
use cubeforge_api.Export.Report.{TenantOutcome, ExportReport, failed, report_of}
use cubeforge_api.Export.ExportTenant
use cubeforge_api.Access.Entities.{Tenant, is_tenant_active}
use cubeforge_api.Export.Sink.{reachable}
use cubeforge_api.Prelude.Dict.{values}

outcome_of : Text → Result TenantExport → TenantOutcome
outcome_of tenant (ok (carried counts)) = TenantOutcome.carried tenant counts
outcome_of tenant (ok up_to_date) = TenantOutcome.up_to_date tenant
outcome_of tenant (err e) = failed tenant (reason_of e)

caught : Text → Result TenantExport × World → TenantOutcome × World
caught tenant (r, w) = (outcome_of tenant r, w)

abbrev pub skipped : Option Text → Text → Bool
skipped none tenant = false
skipped (some only) tenant = not (tenant == only)

-- Whether the tenant that was named is there to export.
abbrev named_exists : Option Text → List Tenant → Bool
named_exists none ts = true
named_exists (some only) ts = any (λ t. t.id == only) ts

module _ (le : Text → Text → Bool) (now : Date) where
  -- `carry`, which never throws.
  unfoldable pub carry_tenant : Text → World → TenantOutcome × World
  unfolding caught outcome_of
  carry_tenant tenant w = caught tenant (ExportTenant.execute le now tenant w)

  -- The loop over the active tenants.
  unfoldable pub carry_loop :
      Option Text → List Tenant → List TenantOutcome → World → List TenantOutcome × World
  carry_loop only [] outcomes w = (outcomes, w)
  carry_loop only (t ∷ ts) outcomes w =
      let rest = carry_loop only ts outcomes w in
      let (o, w') = carry_tenant t.id w in
      let on = carry_loop only ts (outcomes ++ o ∷ []) w' in if skipped only t.id then rest else on

  run_active : Option Text → List Tenant → Exec World ExportReport
  run_active only active w =
      let (outcomes, w') = carry_loop only active [] w in
      if named_exists only active then (report_of outcomes, w') else (err thrown, w)

  -- `RunExportUseCase.execute`. Listing the tenants neither writes nor throws.
  unfoldable pub execute : Option Text → Exec World ExportReport
  unfolding run_active
  execute only = do
    failing_as storage_unreachable (asks (λ w. reachable w.sink))
    active ← gets (λ w. filter is_tenant_active (values w.stores.identity.tenants))
    run_active only active
