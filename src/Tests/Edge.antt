-- ===== src/Tests/Edge.antt =====
-- Declarations, the guard, and the questions of the semantic layer.
use cubeforge_api.Prelude.{true, false, some, [], ◌∷◌, Text, ◌≡◌, ◌↔◌, lit}
use cubeforge_api.Tests.Inventory.{stores, caller, epoch}
use cubeforge_api.Http.Declaration.{Shape, assert_usable, AccessDeclaration, listed, in_tenant}
use cubeforge_api.Http.Guard.{can_activate}
use cubeforge_api.Semantic.Period.{Period}
use cubeforge_api.Semantic.Question.{ModelledQuestion, question_from}
use cubeforge_api.Semantic.Asking.{ModelledAnswer, ask_modelled_question, answered}
use cubeforge_api.Errors.{ok, Result}
use cubeforge_api.Access.Role
use cubeforge_api.Http.Declaration.Usable.{SaysOneThing, assert_usable_iff}
use cubeforge_api.Http.Guard.Admission.{MayEnter, can_activate_iff}
use cubeforge_api.Semantic.Vocabulary.{MeasureName, GroupingName, ReadBy}
use cubeforge_api.Semantic.Question.Accepted.{Accepted, question_from_iff}
use cubeforge_api.Semantic.Asking.{prepared, number}
use cubeforge_api.Semantic.Asking.Bound.{Asked, ask_modelled_question_iff}
use cubeforge_api.Prelude.{whole, pos}

abbrev some_roles : Shape
some_roles = record {
  public = false;
  operator = false;
  person = false;
  roles = listed (lit "admin" ∷ lit "viewer" ∷ []);
  machines = true;
}

assert_usable_iff_example : (assert_usable some_roles ≡ ok tt) ↔ SaysOneThing some_roles
assert_usable_iff_example = assert_usable_iff some_roles

abbrev editors : AccessDeclaration
editors = in_tenant (Role.editor ∷ []) false

can_activate_iff_example :
    ((can_activate (some editors) (some (lit "acme")) (some caller) stores).0 ≡ ok true)
    ↔ MayEnter stores (some (lit "acme")) editors (some caller)
can_activate_iff_example = can_activate_iff stores (some (lit "acme")) editors (some caller)

abbrev january : Period
january = record { from = lit "2026-01-01"; to = lit "2026-01-31" }

abbrev pub by_day : ModelledQuestion
by_day = record {
  measures = MeasureName.on_hand_quantity ∷ [];
  groupings = GroupingName.recorded_day ∷ GroupingName.product ∷ [];
  period = january;
  by = ReadBy.recorded;
  limit = 5000;
}

question_from_iff_example :
    (question_from
        (lit "on_hand_quantity" ∷ [])
        (lit "recorded_day" ∷ lit "product" ∷ [])
        january
        ReadBy.recorded
      ≡ ok by_day)
    ↔ Accepted
        (lit "on_hand_quantity" ∷ [])
        (lit "recorded_day" ∷ lit "product" ∷ [])
        january
        ReadBy.recorded
        by_day
question_from_iff_example =
    question_from_iff january ReadBy.recorded (lit "on_hand_quantity" ∷ [])
      (lit "recorded_day" ∷ lit "product" ∷ []) by_day

-- A model with one row for every tenant.
abbrev one_row : ModelledAnswer
one_row = answered epoch prepared (((lit "on_hand_quantity", number (whole (pos 3))) ∷ []) ∷ [])

abbrev small_model : Text → ModelledQuestion → Result ModelledAnswer
small_model tenant q = ok one_row

ask_modelled_question_iff_example :
    (ask_modelled_question small_model caller by_day ≡ ok one_row)
    ↔ Asked small_model caller by_day one_row
ask_modelled_question_iff_example = ask_modelled_question_iff small_model caller by_day one_row
