-- ===== src/Export/Report.antt =====
-- src/domain/export/report.ts
pub mod Counts
use cubeforge_api.Prelude.{
  ℕ, ◌+◌, Bool, true, false, List, [], ◌∷◌, Text, if◌then◌else◌, length, filter, add, includes,
  nat_eq,
}
use cubeforge_api.Errors.{ExportFailureReason, Result, err, thrown, ok}

pub record CarriedCounts : Type 0 where
  pub movements : ℕ
  pub partitions : ℕ
  pub through : ℕ

pub data TenantOutcome : Type 0 where
  carried : (tenant_id : Text) → CarriedCounts → TenantOutcome
  up_to_date : (tenant_id : Text) → TenantOutcome
  failed : (tenant_id : Text) → ExportFailureReason → TenantOutcome

abbrev pub tenant_id_of : TenantOutcome → Text
tenant_id_of (carried t c) = t
tenant_id_of (up_to_date t) = t
tenant_id_of (failed t r) = t

pub record ExportReport : Type 0 where
  pub outcomes : List TenantOutcome
  pub carried : ℕ
  pub up_to_date : ℕ
  pub failed : ℕ
  pub movements : ℕ
  pub partitions : ℕ
  pub succeeded : Bool

-- The loop over `named`: whether a tenant is reported twice.
unfoldable pub reported_twice : List Text → List TenantOutcome → Bool
reported_twice named [] = false
reported_twice named (o ∷ os) =
    let rest = reported_twice (add named (tenant_id_of o)) os in
    if includes named (tenant_id_of o) then true else rest

abbrev pub is_carried : TenantOutcome → Bool
is_carried (carried t c) = true
is_carried _ = false

abbrev pub is_up_to_date : TenantOutcome → Bool
is_up_to_date (up_to_date t) = true
is_up_to_date _ = false

abbrev pub is_failed : TenantOutcome → Bool
is_failed (failed t r) = true
is_failed _ = false

abbrev pub movements_in : TenantOutcome → ℕ
movements_in (carried t c) = c.movements
movements_in _ = 0

abbrev pub partitions_in : TenantOutcome → ℕ
partitions_in (carried t c) = c.partitions
partitions_in _ = 0

-- `reduce` with `+`
abbrev pub total : (TenantOutcome → ℕ) → ℕ → List TenantOutcome → ℕ
total f acc [] = acc
total f acc (o ∷ os) = total f (acc + f o) os

unfoldable pub report_of : List TenantOutcome → Result ExportReport
unfolding reported_twice
report_of outcomes =
    if reported_twice [] outcomes
    then err thrown
    else ok (record {
      outcomes = outcomes;
      carried = length (filter is_carried outcomes);
      up_to_date = length (filter is_up_to_date outcomes);
      failed = length (filter is_failed outcomes);
      movements = total movements_in 0 (filter is_carried outcomes);
      partitions = total partitions_in 0 (filter is_carried outcomes);
      succeeded = nat_eq (length (filter is_failed outcomes)) 0;
    })
