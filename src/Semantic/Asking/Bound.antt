-- ===== src/Semantic/Asking/Bound.antt =====
-- The answer to a question, and its bound: src/application/semantic/ask-modelled-question.use-case.ts.
use cubeforge_api.Prelude.{
  Text, ◌≡◌, ◌↔◌, refl, arith, ◌≤◌, [], inl, inr, List, length, subst, ◌∙◌, Bool-cases, ap, ltb,
}
use cubeforge_api.Errors.{Result, ok, err, ok-injective}
use cubeforge_api.Semantic.Asking.{
  ModelledAnswer, answered, never_exported, ask_modelled_question, refuse_if_over_bound,
  ModelledQuestion, then_answer, ModelledRow, Actor, max_answer_rows,
}
use cubeforge_api.Semantic.Question.{ModelledQuestion, max_answer_rows}
use cubeforge_api.Access.Authorize.{Actor, tenant_of}

abbrev rows_of : ModelledAnswer → List ModelledRow
rows_of never_exported = []
rows_of (answered d s rows) = rows

-- The caller is a member of a tenant, the model answers so for that tenant, within the bound.
pub record Asked (ask_as : Text → ModelledQuestion → Result ModelledAnswer) (actor : Actor)
    (question : ModelledQuestion) (answer : ModelledAnswer) : Type 0 where
  pub tenant : Text
  pub member : tenant_of actor ≡ ok tenant
  pub answers : ask_as tenant question ≡ ok answer
  pub bounded : length (rows_of answer) ≤ max_answer_rows

bound_sound :
    (a b : ModelledAnswer)
    → refuse_if_over_bound a ≡ ok b
    → (a ≡ b) × (length (rows_of b) ≤ max_answer_rows)
unfolding refuse_if_over_bound
bound_sound never_exported b h = (
  ok-injective h,
  subst (λ x. length (rows_of x) ≤ max_answer_rows) (ok-injective h) (ground arith),
)
bound_sound (answered d s rows) b h = elim (Bool-cases (ltb max_answer_rows (length rows))) [
  | inl e ↦ absurd (ground (arith, rw e at h))
  | inr e ↦
      let same = ok-injective (rw e at h) in
      (same, subst (λ x. length (rows_of x) ≤ max_answer_rows) same (ground (arith, e)))
]

bound_complete :
    (a : ModelledAnswer) → length (rows_of a) ≤ max_answer_rows → refuse_if_over_bound a ≡ ok a
unfolding refuse_if_over_bound
bound_complete never_exported h = refl
bound_complete (answered d s rows) h = ground (arith, h)

pub then_ok :
    {A B : Type 0} (r : Result A) (f : A → Result B) (b : B)
    → then_answer r f ≡ ok b
    → (a : A) × (r ≡ ok a) × (f a ≡ ok b)
then_ok (ok a) f b h = (a, refl, h)
then_ok (err e) f b h = absurd (ground (arith, h))

module _ (ask_as : Text → ModelledQuestion → Result ModelledAnswer) (actor : Actor)
    (question : ModelledQuestion) (answer : ModelledAnswer) where
  asked :
      ask_modelled_question ask_as actor question ≡ ok answer → Asked ask_as actor question answer
  unfolding ask_modelled_question
  asked h =
      let (tenant, member, given) = then_ok (tenant_of actor) _ answer h in
      let (raw, answers, kept) = then_ok (ask_as tenant question) _ answer given in
      let (same, bounded) = bound_sound raw answer kept in
      record { tenant = tenant; member = member; answers = answers ∙ ap ok same; bounded = bounded }

  answers :
      Asked ask_as actor question answer → ask_modelled_question ask_as actor question ≡ ok answer
  unfolding ask_modelled_question
  answers a = rw (a.member, a.answers) (bound_complete answer a.bounded)

  -- A caller gets an answer to a question exactly if the caller is a member of a tenant, the model
  -- gives that answer for that tenant, and the answer has at most 5000 rows.
  pub ask_modelled_question_iff :
      (ask_modelled_question ask_as actor question ≡ ok answer) ↔ Asked ask_as actor question answer
  ask_modelled_question_iff = (asked, answers)
