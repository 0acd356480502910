-- ===== src/Semantic/Question.antt =====
-- src/domain/semantic/question.ts. The prose detail of a refusal is left out.
pub mod Accepted
use cubeforge_api.Prelude.{ℕ, List, [], ◌∷◌, Text, if◌then◌else◌, lit}
use cubeforge_api.Errors.{Result, ok, err, violation, validation, Failure}
use cubeforge_api.Semantic.Vocabulary.{
  recognised, refused, unaskable, MeasureName, VocabularyResult, GroupingName, ReadBy,
  measures_from, groupings_from,
}
use cubeforge_api.Semantic.Period.{Period}

abbrev pub max_answer_rows : ℕ
max_answer_rows = 5000

pub record ModelledQuestion : Type 0 where
  pub measures : List MeasureName
  pub groupings : List GroupingName
  pub period : Period
  pub by : ReadBy
  pub limit : ℕ

abbrev pub invalid_field : Text → Failure
invalid_field field = violation (validation field)

-- `refuse`: the field names the sides that are wrong.
abbrev composed :
    VocabularyResult MeasureName
    → VocabularyResult GroupingName
    → Period
    → ReadBy
    → Result ModelledQuestion
composed (recognised ms) (recognised gs) period by =
    if unaskable ms gs
    then err (invalid_field (lit "question"))
    else ok (record {
      measures = ms;
      groupings = gs;
      period = period;
      by = by;
      limit = max_answer_rows;
    })
composed (refused us) (recognised gs) period by = err (invalid_field (lit "measures"))
composed (recognised ms) (refused us) period by = err (invalid_field (lit "groupings"))
composed (refused us) (refused vs) period by = err (invalid_field (lit "measures and groupings"))

abbrev unless_empty : List Text → Result ModelledQuestion → Result ModelledQuestion
unless_empty [] r = err (invalid_field (lit "measures"))
unless_empty (n ∷ ns) r = r

-- `questionFrom`
unfoldable pub question_from : List Text → List Text → Period → ReadBy → Result ModelledQuestion
question_from measures groupings period by =
    unless_empty measures (composed (measures_from measures) (groupings_from groupings) period by)
