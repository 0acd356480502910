-- ===== src/Export/Report/Counts.antt =====
-- The totals of a run.
use cubeforge_api.Prelude.{
  ◌+◌, true, false, List, [], ◌∷◌, ◌≡◌, ◌↔◌, refl, arith, length, filter, All,
}
use cubeforge_api.Export.Report.{
  TenantOutcome, report_of, is_carried, is_failed, ExportReport, is_up_to_date, carried, ok,
  up_to_date, failed,
}
use cubeforge_api.Errors.{ok}

counts :
    (outs : List TenantOutcome)
    → length (filter is_carried outs)
        + length (filter is_up_to_date outs)
        + length (filter is_failed outs)
      ≡ length outs
counts [] = omega arith
counts (carried t c ∷ os) = omega (arith, counts os)
counts (up_to_date t ∷ os) = omega (arith, counts os)
counts (failed t r ∷ os) = omega (arith, counts os)

none_failed :
    (outs : List TenantOutcome)
    → length (filter is_failed outs) ≡ 0
    → All (λ o. is_failed o ≡ false) outs
none_failed [] h = tt
none_failed (carried t c ∷ os) h = (refl, none_failed os h)
none_failed (up_to_date t ∷ os) h = (refl, none_failed os h)
none_failed (failed t r ∷ os) h = absurd (omega (arith, h))

failed_none :
    (outs : List TenantOutcome)
    → All (λ o. is_failed o ≡ false) outs
    → length (filter is_failed outs) ≡ 0
failed_none [] h = refl
failed_none (o ∷ os) (p, h) = ground (arith, failed_none os h, p)

-- A report that comes about counts every tenant under one heading, and it says that the run
-- succeeded exactly if no tenant failed.
pub report_of-counts :
    (outs : List TenantOutcome) (r : ExportReport)
    → report_of outs ≡ ok r
    → (r.carried + r.up_to_date + r.failed ≡ length outs)
      × ((r.succeeded ≡ true) ↔ All (λ o. is_failed o ≡ false) outs)
unfolding report_of
report_of-counts outs r h = (
  ground (arith, counts outs, h),
  (λ s. none_failed outs (ground (arith, h, s)), λ a. ground (arith, failed_none outs a, h)),
)
