-- ===== src/Analytics/Reading.antt =====
-- src/application/analytics/read-exported-stock.use-case.ts and read-movement-history.use-case.ts,
-- with src/domain/analytics/answer.ts. What the analytics answer for a tenant is a parameter.
use cubeforge_api.Prelude.{Option, List, Text, Date, Number}
use cubeforge_api.Access.Authorize.{Actor, tenant_of}
use cubeforge_api.Errors.{
  Result, Failure, analytics_unavailable, AnalyticsFailureReason, question_failed,
}
use cubeforge_api.Semantic.Asking.{then_answer}
use cubeforge_api.Semantic.Period.{Period}

pub data AnalyticalAnswer (Entry : Type 0) : Type 0 where
  answered : (complete_through : Date) (entries : List Entry) → AnalyticalAnswer Entry
  never_exported : AnalyticalAnswer Entry

pub record StockOnHandEntry : Type 0 where
  pub sku : Text
  pub name : Text
  pub on_hand : Number

-- A day of `none` is the null that a cast lets through.
pub record MovementsOnDayEntry : Type 0 where
  pub day : Option Text
  pub kind : Text
  pub quantity : Number

-- `ReadExportedStockUseCase.execute`
unfoldable pub read_exported_stock :
    (Text → Result (AnalyticalAnswer StockOnHandEntry))
    → Actor
    → Result (AnalyticalAnswer StockOnHandEntry)
read_exported_stock stock_on_hand actor = then_answer (tenant_of actor) stock_on_hand

-- `ReadMovementHistoryUseCase.execute`
unfoldable pub read_movement_history :
    (Text → Period → Result (AnalyticalAnswer MovementsOnDayEntry))
    → Actor
    → Period
    → Result (AnalyticalAnswer MovementsOnDayEntry)
read_movement_history movements_by_day actor period =
    then_answer (tenant_of actor) (λ tenant. movements_by_day tenant period)

-- `reasonOf`
unfoldable pub reason_of : Failure → AnalyticsFailureReason
reason_of (analytics_unavailable reason) = reason
reason_of _ = question_failed
