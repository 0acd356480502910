-- ===== src/Semantic/Question/Accepted.antt =====
-- The questions that are composed: src/domain/semantic/question.ts and askable.ts.
use cubeforge_api.Prelude.{
  [], ◌∷◌, false, List, map, Text, ◌≡◌, ◌≢◌, ◌⊎◌, ◌↔◌, refl, arith, inl, inr, Bool-cases, ◌<◌,
  filter, List-cases, length, subst,
}
use cubeforge_api.Errors.{ok, ok-injective}
use cubeforge_api.Semantic.Question.{ModelledQuestion, question_from, max_answer_rows, composed}
use cubeforge_api.Semantic.Vocabulary.{
  MeasureName, GroupingName, ReadBy, measure_text, grouping_text, unaskable, recognised, refused,
  VocabularyResult, measures_from, groupings_from, cumulative, is_by_day,
}
use cubeforge_api.Semantic.Period.{Period}
use cubeforge_api.Semantic.Vocabulary.Names.{measures_from_iff, groupings_from_iff}

-- What a question may combine: no measure that counts earlier movements, or fewer than two days.
abbrev pub CanBeAsked : List MeasureName → List GroupingName → Type 0
CanBeAsked ms gs = (filter cumulative ms ≡ []) ⊎ (length (filter is_by_day gs) < 2)

unaskable_sound :
    (ms : List MeasureName) (gs : List GroupingName) → unaskable ms gs ≡ false → CanBeAsked ms gs
unfolding unaskable
unaskable_sound ms gs h = elim (List-cases (filter cumulative ms)) [
  | inl e ↦ inl e
  | inr (u, us, e) ↦ inr (ground (arith, rw e at h))
]

unaskable_complete :
    (ms : List MeasureName) (gs : List GroupingName) → CanBeAsked ms gs → unaskable ms gs ≡ false
unfolding unaskable
unaskable_complete ms gs (inl e) = rw e refl
unaskable_complete ms gs (inr h) = ground (arith, h)

-- The names of the question are the ones that were given, and they can be asked together.
pub record Accepted (measures groupings : List Text) (period : Period) (by : ReadBy)
    (q : ModelledQuestion) : Type 0 where
  some_measure : measures ≢ []
  same_measures : map measure_text q.measures ≡ measures
  same_groupings : map grouping_text q.groupings ≡ groupings
  together : CanBeAsked q.measures q.groupings
  same_period : q.period ≡ period
  same_by : q.by ≡ by
  same_limit : q.limit ≡ max_answer_rows

record Composed (ms : VocabularyResult MeasureName) (gs : VocabularyResult GroupingName)
    (period : Period) (by : ReadBy) (q : ModelledQuestion) : Type 0 where
  measures : ms ≡ recognised q.measures
  groupings : gs ≡ recognised q.groupings
  together : CanBeAsked q.measures q.groupings
  same_period : q.period ≡ period
  same_by : q.by ≡ by
  same_limit : q.limit ≡ max_answer_rows

composed_sound :
    (ms : VocabularyResult MeasureName) (gs : VocabularyResult GroupingName) (period : Period)
    (by : ReadBy) (q : ModelledQuestion)
    → composed ms gs period by ≡ ok q
    → Composed ms gs period by q
composed_sound (recognised ms) (recognised gs) period by q h = elim (Bool-cases (unaskable ms gs)) [
  | inl e ↦ absurd (ground (arith, rw e at h))
  | inr e ↦
      let same = ok-injective (rw e at h) in
      subst (Composed (recognised ms) (recognised gs) period by) same (record {
        measures = refl;
        groupings = refl;
        together = unaskable_sound ms gs e;
        same_period = refl;
        same_by = refl;
        same_limit = refl;
      })
]
composed_sound (refused us) (recognised gs) period by q h = absurd (ground (arith, h))
composed_sound (recognised us) (refused gs) period by q h = absurd (ground (arith, h))
composed_sound (refused us) (refused gs) period by q h = absurd (ground (arith, h))

module _ (period : Period) (by : ReadBy) where
  accepted :
      (measures groupings : List Text) (q : ModelledQuestion)
      → question_from measures groupings period by ≡ ok q
      → Accepted measures groupings period by q
  unfolding question_from
  accepted [] gs q h = absurd (ground (arith, h))
  accepted (m ∷ ms) gs q h =
      let c = composed_sound (measures_from (m ∷ ms)) (groupings_from gs) period by q h in
      record {
        some_measure = λ e. absurd (ground (arith, e));
        same_measures = (measures_from_iff (m ∷ ms) q.measures).0 c.measures;
        same_groupings = (groupings_from_iff gs q.groupings).0 c.groupings;
        together = c.together;
        same_period = c.same_period;
        same_by = c.same_by;
        same_limit = c.same_limit;
      }

  composes :
      (measures groupings : List Text) (q : ModelledQuestion)
      → Accepted measures groupings period by q
      → question_from measures groupings period by ≡ ok q
  unfolding question_from
  composes [] gs q a = absurd (a.some_measure refl)
  composes (m ∷ ms) gs q a =
      rw
        (
          (measures_from_iff (m ∷ ms) q.measures).1 a.same_measures,
          (groupings_from_iff gs q.groupings).1 a.same_groupings,
          unaskable_complete q.measures q.groupings a.together,
        )
        (rw (← a.same_period, ← a.same_by, ← a.same_limit) refl)

  -- A question comes about exactly if at least one measure is named, the names are the texts of the
  -- question's measures and groupings in their order, and these can be asked together: no measure
  -- counts earlier movements, or fewer than two groupings are days. It carries the period and the
  -- reading that were given, and the limit of rows.
  pub question_from_iff :
      (measures groupings : List Text) (q : ModelledQuestion)
      → (question_from measures groupings period by ≡ ok q)
        ↔ Accepted measures groupings period by q
  question_from_iff ms gs q = (accepted ms gs q, composes ms gs q)
