-- ===== src/Semantic/Model.antt =====
-- src/adapters/semantic/cube-model.ts, with `askingAs` of
-- src/application/analytics/analytics-failure.ts. The exchange with the semantic layer, the signing
-- of the context and `new Date(text)` are parameters.
pub mod Complete
use cubeforge_api.Prelude.{
  ℕ, suc, ◌+◌, Bool, true, false, Option, none, some, List, [], ◌∷◌, ◌++◌, map, Text, if◌then◌else◌,
  length, Date, Number, nat_eq, before, is_invalid, lit, trim,
}
use cubeforge_api.Prelude.Dict.{Dict, get, put}
use cubeforge_api.Errors.{
  Result, AnalyticsFailureReason, Failure, analytics_unavailable, ok, err, model_unreadable,
  model_rejected, Exec,
}
use cubeforge_api.Semantic.Members.{
  MappedGrouping, watermark_member, measure_member, MappedColumn, grouping_member, read_by_member,
}
use cubeforge_api.Semantic.Question.{ModelledQuestion}
use cubeforge_api.Semantic.Asking.{
  Cell, ServedFrom, number, ModelledRow, prepared, ModelledAnswer, null, exported_objects,
  answered_from, never_exported, then_answer, text,
}
use cubeforge_api.Semantic.Vocabulary.{measure_text, MeasureName}
use cubeforge_api.Access.Identifiers.{require_well_formed_tenant}
use cubeforge_api.Semantic.Period.{calendar}

pub record TimeDimension : Type 0 where
  pub dimension : Text
  pub granularity : Option Text
  pub date_range : Option (Text × Text)

-- `CubeQuery`; an absent list is an empty one, and an absent zone or limit is `none`.
pub record CubeQuery : Type 0 where
  pub measures : List Text
  pub dimensions : List Text
  pub time_dimensions : List TimeDimension
  pub timezone : Option Text
  pub limit : Option ℕ

-- A value of a row that may be anything; `other` is neither a string, nor a number, nor null.
pub data Raw : Type 0 where
  raw_text : Text → Raw
  raw_number : Number → Raw
  raw_null other : Raw

pub record CubeResult : Type 0 where
  pub data_rows : List (Dict Raw)
  pub served_from_store : Bool
  pub refreshed_at : Option Date

pub record Exchange : Type 0 where
  pub load : Text → CubeQuery → Result CubeResult
  pub context_for : Text → Result Text
  pub date_from : Text → Date

-- `askingAs`
abbrev pub refile : AnalyticsFailureReason → Failure → Failure
refile reason (analytics_unavailable r) = analytics_unavailable r
refile reason _ = analytics_unavailable reason

abbrev pub asking_as : {A : Type 0} → AnalyticsFailureReason → Result A → Result A
asking_as reason (ok a) = ok a
asking_as reason (err e) = err (refile reason e)

-- `askingAs` on an action.
abbrev pub asking : {S A : Type 0} → AnalyticsFailureReason → Exec S A → Exec S A
asking reason m s = let (r, s') = m s in (asking_as reason r, s')

-- `replace(' ', 'T')`: the first space.
abbrev pub with_t : Text → Text
with_t [] = []
with_t (c ∷ t) = let rest = with_t t in if nat_eq c b' ' then b'T' ∷ t else c ∷ rest

abbrev unreadable : Failure
unreadable = analytics_unavailable model_unreadable

abbrev moment_or_throw : Date → Result (Option Date)
moment_or_throw d = if is_invalid d then err unreadable else ok (some d)

abbrev reported_moment : (Text → Date) → Option Raw → Result (Option Date)
reported_moment date_from none = ok none
reported_moment date_from (some raw_null) = ok none
reported_moment date_from (some (raw_text t)) =
    if nat_eq (length (trim t)) 0
    then ok none
    else moment_or_throw (date_from (with_t t ++ lit "Z"))
reported_moment date_from (some _) = err unreadable

abbrev first_watermark : List (Dict Raw) → Option Raw
first_watermark [] = none
first_watermark (row ∷ rows) = get row watermark_member

-- `completeThroughIn`
unfoldable pub complete_through_in : (Text → Date) → CubeResult → Result (Option Date)
complete_through_in date_from r = reported_moment date_from (first_watermark r.data_rows)

-- `completeThrough`
unfoldable pub complete_through_of : Date → Option Date → Date
complete_through_of carried none = carried
complete_through_of carried (some refreshed) =
    if before refreshed carried then refreshed else carried

abbrev pub flat_map : {A B : Type 0} → (A → List B) → List A → List B
flat_map f [] = []
flat_map f (x ∷ xs) = f x ++ flat_map f xs

abbrev plain_members : MappedGrouping → List Text
plain_members g = elim g.time_dimension [ none ↦ map (λ c. c.member) g.columns | some d ↦ [] ]

abbrev by_day : MappedGrouping → List TimeDimension
by_day g = elim g.time_dimension [
  | none ↦ []
  | some d ↦ record { dimension = d; granularity = some (lit "day"); date_range = none } ∷ []
]

-- `loadFor`
unfoldable pub load_for : ModelledQuestion → CubeQuery
load_for asked = record {
  measures = map measure_member asked.measures;
  dimensions = flat_map plain_members (map grouping_member asked.groupings);
  time_dimensions =
      record {
        dimension = read_by_member asked.by;
        granularity = none;
        date_range = some (asked.period.from, asked.period.to);
      }
      ∷ flat_map by_day (map grouping_member asked.groupings);
  timezone = some calendar;
  limit = some (suc asked.limit);
}

abbrev watermark_query : CubeQuery
watermark_query = record {
  measures = watermark_member ∷ [];
  dimensions = [];
  time_dimensions = [];
  timezone = none;
  limit = none;
}

-- `valueOf`
abbrev pub value_of : Option Raw → Cell
value_of (some (raw_number n)) = number n
value_of (some (raw_text [])) = null
value_of (some (raw_text (c ∷ t))) = text (c ∷ t)
value_of _ = null

abbrev pub measure_column : MeasureName → MappedColumn
measure_column m = record { platform = measure_text m; member = measure_member m }

-- `columns` of `rowFrom`
abbrev pub columns_of : ModelledQuestion → List MappedColumn
columns_of asked =
    map measure_column asked.measures ++ flat_map (λ g. (grouping_member g).columns) asked.groupings

abbrev pub from_columns : Dict Raw → List MappedColumn → ModelledRow → ModelledRow
from_columns row [] values = values
from_columns row (c ∷ cs) values =
    from_columns row cs (put values c.platform (value_of (get row c.member)))

-- `rowFrom`
unfoldable pub row_from : ModelledQuestion → Dict Raw → ModelledRow
row_from asked row = from_columns row (columns_of asked) []

abbrev served : Bool → ServedFrom
served true = prepared
served false = exported_objects

abbrev pub answer_from : ModelledQuestion → Date → CubeResult → Result ModelledAnswer
answer_from asked carried r =
    answered_from (served r.served_from_store) (complete_through_of carried r.refreshed_at)
      (map (row_from asked) r.data_rows)

abbrev pub answer_carried : Exchange → Text → ModelledQuestion → Option Date → Result ModelledAnswer
answer_carried x context asked none = ok never_exported
answer_carried x context asked (some carried) =
    then_answer (x.load context (load_for asked)) (answer_from asked carried)

abbrev pub answer_read : Exchange → ModelledQuestion → Text → CubeResult → Result ModelledAnswer
answer_read x asked context reported =
    then_answer (complete_through_in x.date_from reported) (answer_carried x context asked)

abbrev pub answer_in : Exchange → ModelledQuestion → Text → Result ModelledAnswer
answer_in x asked context =
    then_answer (asking_as model_rejected (x.load context watermark_query))
      (answer_read x asked context)

-- The private `answer`
unfoldable pub answer : Exchange → Text → ModelledQuestion → Result ModelledAnswer
answer x tenant asked = then_answer (x.context_for tenant) (answer_in x asked)

-- `CubeModel.askAs`, with the question that the use case asks.
unfoldable pub cube_ask_as : Exchange → Text → ModelledQuestion → Result ModelledAnswer
cube_ask_as x tenant asked =
    then_answer (require_well_formed_tenant tenant) (λ _. answer x tenant asked)
