-- ===== src/Semantic/Asking.antt =====
-- src/application/semantic/ and src/domain/semantic/modelled-answer.ts. What the model answers for a
-- tenant, TenantScopedModel.askAs, is the parameter `ask_as`.
pub mod Bound
use cubeforge_api.Prelude.{
  List, [], ◌∷◌, map, Text, if◌then◌else◌, length, Date, Number, is_invalid, ltb, lit,
}
use cubeforge_api.Errors.{Result, ok, err, thrown}
use cubeforge_api.Prelude.Dict.{Dict}
use cubeforge_api.Access.Role.{Role}
use cubeforge_api.Semantic.Question.{ModelledQuestion, max_answer_rows, invalid_field}
use cubeforge_api.Semantic.Vocabulary.{
  PublishedVocabulary, cumulative, measure_names, grouping_shape, grouping_names, read_by_names,
}
use cubeforge_api.Access.Authorize.{Actor, tenant_of}
use cubeforge_api.Semantic.Period.{longest_period_days, calendar}

pub data ServedFrom : Type 0 where
  prepared exported_objects : ServedFrom

pub data Cell : Type 0 where
  text : Text → Cell
  number : Number → Cell
  null : Cell

abbrev pub ModelledRow : Type 0
ModelledRow = Dict Cell

pub data ModelledAnswer : Type 0 where
  answered :
      (complete_through : Date) (served_from : ServedFrom) (rows : List ModelledRow)
      → ModelledAnswer
  never_exported : ModelledAnswer

unfoldable pub answered_from : ServedFrom → Date → List ModelledRow → Result ModelledAnswer
answered_from served complete_through rows =
    if is_invalid complete_through then err thrown else ok (answered complete_through served rows)

abbrev pub ask_modelled_question_roles : List Role
ask_modelled_question_roles = Role.admin ∷ Role.editor ∷ Role.viewer ∷ []

-- `refuseIfOverBound`
unfoldable pub refuse_if_over_bound : ModelledAnswer → Result ModelledAnswer
refuse_if_over_bound never_exported = ok never_exported
refuse_if_over_bound (answered d s rows) =
    if ltb max_answer_rows (length rows)
    then err (invalid_field (lit "question"))
    else ok (answered d s rows)

abbrev pub then_answer : {A B : Type 0} → Result A → (A → Result B) → Result B
then_answer (ok a) f = f a
then_answer (err e) f = err e

-- `AskModelledQuestionUseCase.execute`
unfoldable pub ask_modelled_question :
    (Text → ModelledQuestion → Result ModelledAnswer)
    → Actor
    → ModelledQuestion
    → Result ModelledAnswer
ask_modelled_question ask_as actor question =
    then_answer (tenant_of actor)
      (λ tenant. then_answer (ask_as tenant question) refuse_if_over_bound)

-- `describeVocabulary`
unfoldable pub published_vocabulary : PublishedVocabulary
published_vocabulary = record {
  measures = map (λ m. record { name = m; cumulative = cumulative m }) measure_names;
  groupings = map (λ g. record { name = g; shape = grouping_shape g }) grouping_names;
  read_by = read_by_names;
  longest_period_days = longest_period_days;
  calendar = calendar;
}

-- `DescribeVocabularyUseCase.execute`
unfoldable pub describe_vocabulary : Actor → Result PublishedVocabulary
describe_vocabulary actor = then_answer (tenant_of actor) (λ tenant. ok published_vocabulary)
