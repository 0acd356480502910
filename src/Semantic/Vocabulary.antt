-- ===== src/Semantic/Vocabulary.antt =====
-- src/domain/semantic/vocabulary.ts, askable.ts and published-vocabulary.ts. The sentence of a
-- refusal is left out.
pub mod Names
use cubeforge_api.Prelude.{
  ℕ, Bool, true, false, not, ◌||◌, Option, none, some, List, [], ◌∷◌, map, Text, ◌==◌, length,
  filter, lit, includes, find, leb, ltb,
}

pub data MeasureName : Type 0 where
  net_quantity movement_count on_hand_quantity : MeasureName

pub data GroupingName : Type 0 where
  recorded_day occurred_day kind product location : GroupingName

pub data ReadBy : Type 0 where
  recorded occurred : ReadBy

abbrev pub measure_text : MeasureName → Text
measure_text net_quantity = lit "net_quantity"
measure_text movement_count = lit "movement_count"
measure_text on_hand_quantity = lit "on_hand_quantity"

abbrev pub grouping_text : GroupingName → Text
grouping_text recorded_day = lit "recorded_day"
grouping_text occurred_day = lit "occurred_day"
grouping_text kind = lit "kind"
grouping_text product = lit "product"
grouping_text location = lit "location"

-- `MEASURES`
abbrev pub measure_names : List MeasureName
measure_names = net_quantity ∷ movement_count ∷ on_hand_quantity ∷ []

-- `GROUPINGS`
abbrev pub grouping_names : List GroupingName
grouping_names = recorded_day ∷ occurred_day ∷ kind ∷ product ∷ location ∷ []

-- `READ_BY`
abbrev pub read_by_names : List ReadBy
read_by_names = recorded ∷ occurred ∷ []

-- `cumulative` of `MEASURE_TRAITS`
abbrev pub cumulative : MeasureName → Bool
cumulative on_hand_quantity = true
cumulative _ = false

pub data GroupingShape : Type 0 where
  day : (column : Text) → GroupingShape
  category : (column : Text) → GroupingShape
  labelled : (code_column name_column : Text) → GroupingShape

-- `GROUPING_SHAPES`
abbrev pub grouping_shape : GroupingName → GroupingShape
grouping_shape recorded_day = day (lit "recorded_day")
grouping_shape occurred_day = day (lit "occurred_day")
grouping_shape kind = category (lit "kind")
grouping_shape product = labelled (lit "product_code") (lit "product_name")
grouping_shape location = labelled (lit "location_code") (lit "location_name")

-- `rowColumnsOf`
abbrev pub row_columns_of : GroupingShape → List Text
row_columns_of (day c) = c ∷ []
row_columns_of (category c) = c ∷ []
row_columns_of (labelled c n) = c ∷ n ∷ []

-- `VocabularyResult`; what is on offer, which travels beside the unknown names, is left out.
pub data VocabularyResult (T : Type 0) : Type 0 where
  recognised : List T → VocabularyResult T
  refused : (unknown : List Text) → VocabularyResult T

module _ {T : Type 0} (text : T → Text) (offered : List T) where
  abbrev pub is_unknown : Text → Bool
  is_unknown name = not (includes (map text offered) name)

  abbrev with_name : Option T → List T → List T
  with_name none rest = rest
  with_name (some t) rest = t ∷ rest

  -- The names, each read as the one on offer that is written so.
  abbrev pub read_names : List Text → List T
  read_names [] = []
  read_names (n ∷ ns) = with_name (find (λ t. text t == n) offered) (read_names ns)

  abbrev recognise_unless : List Text → List T → VocabularyResult T
  recognise_unless [] names = recognised names
  recognise_unless (u ∷ us) names = refused (u ∷ us)

  unfoldable pub recognise : List Text → VocabularyResult T
  recognise names = recognise_unless (filter is_unknown names) (read_names names)

abbrev pub measures_from : List Text → VocabularyResult MeasureName
measures_from = recognise measure_text measure_names

abbrev pub groupings_from : List Text → VocabularyResult GroupingName
groupings_from = recognise grouping_text grouping_names

-- `isByDay`
abbrev pub shape_is_day : GroupingShape → Bool
shape_is_day (day c) = true
shape_is_day _ = false

abbrev pub is_by_day : GroupingName → Bool
is_by_day g = shape_is_day (grouping_shape g)

-- `whyUnaskable`, whether it comes back with a sentence.
unfoldable pub unaskable : List MeasureName → List GroupingName → Bool
unaskable measures groupings =
    not (leb (length (filter cumulative measures)) 0 || ltb (length (filter is_by_day groupings)) 2)

pub record PublishedMeasure : Type 0 where
  pub name : MeasureName
  pub cumulative : Bool

pub record PublishedGrouping : Type 0 where
  pub name : GroupingName
  pub shape : GroupingShape

pub record PublishedVocabulary : Type 0 where
  pub measures : List PublishedMeasure
  pub groupings : List PublishedGrouping
  pub read_by : List ReadBy
  pub longest_period_days : ℕ
  pub calendar : Text
