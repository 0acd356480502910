-- ===== src/Analytics/Athena/Keeping.antt =====
-- What src/adapters/analytics/athena-analytics.ts submits to the engine for a tenant, told by
-- what the engine's operations keep true of the world.
use cubeforge_api.Prelude.{
  ℕ, zero, suc, Option, none, some, Text, inl, inr, Bool-cases, Option-cases, leb,
}
use cubeforge_api.Analytics.Runner.{
  Engine, Clock, waiting_on, QuestionState, settle, QueryResult, read_from, settled_or_again,
  EnginePage, last_or_next, with_page, succeeded, queued, running, failed, cancelled, read_all,
  run_submitted, run, read_when_settled,
}
use cubeforge_api.Errors.{Result, question_failed}
use cubeforge_api.Analytics.Athena.{Run, go_on, ok, err}
use cubeforge_api.Analytics.Athena.Select.{Confined}
use cubeforge_api.Semantic.Model.{asking}

-- A predicate of the world that submitting a statement keeps where the statement is confined to
-- the tenant, and that nothing else that is asked of the engine, and no pause, breaks.
pub record IsKept {W : Type 0} (engine : Engine W) (clock : Clock W) (tenant : Text)
    (I : W → Type 0) : Type 0 where
  pub submits : (s : Text) → Confined tenant s → (w : W) → I w → I (engine.submit s w).1
  pub tells : (question : Text) (w : W) → I w → I (engine.state_of question w).1
  pub reads :
      (question : Text) (token : Option Text) (w : W) → I w → I (engine.page_of question token w).1
  pub stops : (question : Text) (w : W) → I w → I (engine.stop question w).1
  pub pauses : (ms : ℕ) (w : W) → I w → I (clock.pause ms w)

-- The world that an action ends in, if it ends, satisfies a predicate.
abbrev pub EndsIn : {W A : Type 0} → (W → Type 0) → Option (Result A × W) → Type 0
EndsIn I none = Unit
EndsIn I (some (r, w)) = I w

pub go_on-EndsIn :
    {W A B : Type 0} (I : W → Type 0) (o : Option (Result A × W)) (f : A → Run W B)
    → EndsIn I o
    → ((a : A) (w : W) → I w → EndsIn I (f a w))
    → EndsIn I (go_on o f)
go_on-EndsIn I none f h k = tt
go_on-EndsIn I (some (ok a, w)) f h k = k a w h
go_on-EndsIn I (some (err e, w)) f h k = h

module _ {W : Type 0} (engine : Engine W) (clock : Clock W) (tenant : Text) (I : W → Type 0)
    (k : IsKept engine clock tenant I) where
  waiting_on-EndsIn :
      (poll : ℕ) (again : W → Option (Result (Unit {0}) × W)) (question : Text) (deadline : ℕ)
      (w : W)
      → I w
      → ((v : W) → I v → EndsIn I (again v))
      → EndsIn I (waiting_on engine clock poll again question deadline w)
  waiting_on-EndsIn poll again question deadline w i go =
      elim (Bool-cases (leb deadline (clock.now w))) [
        | inl late ↦ rw late (k.stops question w i)
        | inr soon ↦ rw soon (go (clock.pause poll w) (k.pauses poll w i))
      ]

  settled_or_again-EndsIn :
      (poll : ℕ) (again : W → Option (Result (Unit {0}) × W)) (question : Text) (deadline : ℕ)
      (o : Result QuestionState × W)
      → I o.1
      → ((v : W) → I v → EndsIn I (again v))
      → EndsIn I (
          settled_or_again engine clock poll again question deadline
            (asking question_failed (λ w. o) o.1))
  settled_or_again-EndsIn poll again question deadline (err e, w) i go = i
  settled_or_again-EndsIn poll again question deadline (ok succeeded, w) i go = i
  settled_or_again-EndsIn poll again question deadline (ok queued, w) i go =
      waiting_on-EndsIn poll again question deadline w i go
  settled_or_again-EndsIn poll again question deadline (ok running, w) i go =
      waiting_on-EndsIn poll again question deadline w i go
  settled_or_again-EndsIn poll again question deadline (ok failed, w) i go = i
  settled_or_again-EndsIn poll again question deadline (ok cancelled, w) i go = i

  settle-EndsIn :
      (poll fuel : ℕ) (question : Text) (deadline : ℕ) (w : W)
      → I w
      → EndsIn I (settle engine clock poll fuel question deadline w)
  unfolding settle
  settle-EndsIn poll zero question deadline w i = tt
  settle-EndsIn poll (suc fuel) question deadline w i =
      settled_or_again-EndsIn poll (settle engine clock poll fuel question deadline) question
        deadline (engine.state_of question w) (k.tells question w i)
        (settle-EndsIn poll fuel question deadline)

  last_or_next-EndsIn :
      (poll : ℕ) (next : Option Text → Option QueryResult → W → Option (Result QueryResult × W))
      (so_far : Option QueryResult) (o : Result EnginePage × W)
      → I o.1
      → ((token : Option Text) (read : Option QueryResult) (v : W)
          → I v
          → EndsIn I (next token read v))
      → EndsIn I (last_or_next engine clock poll next so_far (asking question_failed (λ w. o) o.1))
  last_or_next-EndsIn poll next so_far (err e, w) i go = i
  last_or_next-EndsIn poll next so_far (ok page, w) i go = elim (Option-cases page.next_token) [
    | inl last ↦ rw last i
    | inr (token, more) ↦
        rw more (go (some token) (some (with_page engine clock poll so_far page)) w i)
  ]

  read_from-EndsIn :
      (poll fuel : ℕ) (question : Text) (token : Option Text) (so_far : Option QueryResult) (w : W)
      → I w
      → EndsIn I (read_from engine clock poll fuel question token so_far w)
  unfolding read_from
  read_from-EndsIn poll zero question token so_far w i = tt
  read_from-EndsIn poll (suc fuel) question token so_far w i =
      last_or_next-EndsIn poll (read_from engine clock poll fuel question) so_far
        (engine.page_of question token w) (k.reads question token w i)
        (read_from-EndsIn poll fuel question)

  read_when_settled-EndsIn :
      (poll fuel : ℕ) (question : Text) (o : Option (Result (Unit {0}) × W))
      → EndsIn I o
      → EndsIn I (read_when_settled engine clock poll fuel question o)
  unfolding read_all
  read_when_settled-EndsIn poll fuel question none h = tt
  read_when_settled-EndsIn poll fuel question (some (err e, w)) i = i
  read_when_settled-EndsIn poll fuel question (some (ok done, w)) i =
      read_from-EndsIn poll fuel question none none w i

  run_submitted-EndsIn :
      (poll fuel deadline : ℕ) (o : Result Text × W)
      → I o.1
      → EndsIn I
          (run_submitted engine clock poll fuel deadline (asking question_failed (λ w. o) o.1))
  run_submitted-EndsIn poll fuel deadline (err e, w) i = i
  run_submitted-EndsIn poll fuel deadline (ok question, w) i =
      read_when_settled-EndsIn poll fuel question
        (settle engine clock poll fuel question deadline w)
        (settle-EndsIn poll fuel question deadline w i)

  pub run-EndsIn :
      (poll fuel : ℕ) (statement : Text)
      → Confined tenant statement
      → (deadline : ℕ) (w : W) → I w
      → EndsIn I (run engine clock poll fuel statement deadline w)
  unfolding run
  run-EndsIn poll fuel statement c deadline w i =
      run_submitted-EndsIn poll fuel deadline (engine.submit statement w)
        (k.submits statement c w i)
