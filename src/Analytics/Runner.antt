-- ===== src/Analytics/Runner.antt =====
-- src/adapters/analytics/athena-query-runner.ts. The engine, `Date.now` and `setTimeout` are
-- parameters over a state of the world. The loops are on fuel.
pub mod Settling
pub mod Paging
pub mod Heading
pub mod Running
use cubeforge_api.Prelude.{
  ℕ, [], zero, suc, List, Text, Option, Bool, none, ◌∷◌, if◌then◌else◌, some, false, leb, ◌++◌,
  ◌==◌, true, ◌&&◌,
}
use cubeforge_api.Errors.{
  Result, Exec, err, question_failed, ok, analytics_unavailable, question_timed_out,
}
use cubeforge_api.Semantic.Model.{asking}

pub data QuestionState : Type 0 where
  queued running succeeded failed cancelled : QuestionState

abbrev pub Cells : Type 0
Cells = List (Option Text)

pub record EnginePage : Type 0 where
  pub columns : List Text
  pub rows : List Cells
  pub next_token : Option Text

pub record Engine (W : Type 0) : Type 0 where
  pub submit : Text → Exec W Text
  pub state_of : Text → Exec W QuestionState
  pub page_of : Text → Option Text → Exec W EnginePage
  pub stop : Text → Exec W (Unit {0})

-- `Date.now`, and `pause`.
pub record Clock (W : Type 0) : Type 0 where
  pub now : W → ℕ
  pub pause : ℕ → W → W

pub record QueryResult : Type 0 where
  pub header : List Text
  pub rows : List Cells

-- `pollMilliseconds`, where the caller does not say.
abbrev pub poll_milliseconds : ℕ
poll_milliseconds = 250

abbrev is_name : Option Text → Text → Bool
is_name none name = false
is_name (some value) name = value == name

-- `first.length === header.length && first.every((value, at) => value === header[at])`
unfoldable pub is_header : Cells → List Text → Bool
is_header [] [] = true
is_header (value ∷ values) (name ∷ names) = is_name value name && is_header values names
is_header _ _ = false

-- `withoutHeaderRow`
unfoldable pub without_header_row : List Cells → List Text → List Cells
without_header_row [] header = []
without_header_row (first ∷ rows) header = if is_header first header then rows else first ∷ rows

module _ {W : Type 0} (engine : Engine W) (clock : Clock W) (poll : ℕ) where
  -- What is done about a question that the engine still works on.
  abbrev pub waiting_on :
      (W → Option (Result (Unit {0}) × W)) → Text → ℕ → W → Option (Result (Unit {0}) × W)
  waiting_on again question deadline w =
      if leb deadline (clock.now w)
      then some (err (analytics_unavailable question_timed_out), (engine.stop question w).1)
      else again (clock.pause poll w)

  abbrev pub settled_or_again :
      (W → Option (Result (Unit {0}) × W))
      → Text
      → ℕ
      → Result QuestionState × W
      → Option (Result (Unit {0}) × W)
  settled_or_again again question deadline (err e, w) = some (err e, w)
  settled_or_again again question deadline (ok succeeded, w) = some (ok tt, w)
  settled_or_again again question deadline (ok queued, w) = waiting_on again question deadline w
  settled_or_again again question deadline (ok running, w) = waiting_on again question deadline w
  settled_or_again again question deadline (ok _, w) =
      some (err (analytics_unavailable question_failed), w)

  -- `settle`; the deadline is its time, and `none` means that the fuel ran out.
  unfoldable pub settle : ℕ → Text → ℕ → W → Option (Result (Unit {0}) × W)
  settle zero question deadline w = none
  settle (suc fuel) question deadline w =
      settled_or_again (settle fuel question deadline) question deadline
        (asking question_failed (engine.state_of question) w)

  -- What a page adds to the result; `none` is a result of which no page is read.
  abbrev pub with_page : Option QueryResult → EnginePage → QueryResult
  with_page none page = record {
    header = page.columns;
    rows = without_header_row page.rows page.columns;
  }
  with_page (some result) page = record { header = result.header; rows = result.rows ++ page.rows }

  abbrev pub last_or_next :
      (Option Text → Option QueryResult → W → Option (Result QueryResult × W))
      → Option QueryResult
      → Result EnginePage × W
      → Option (Result QueryResult × W)
  last_or_next next so_far (err e, w) = some (err e, w)
  last_or_next next so_far (ok page, w) = elim page.next_token [
    | none ↦ some (ok (with_page so_far page), w)
    | some token ↦ next (some token) (some (with_page so_far page)) w
  ]

  -- The loop of `readAll`, from a token and what is read so far.
  unfoldable pub read_from :
      ℕ → Text → Option Text → Option QueryResult → W → Option (Result QueryResult × W)
  read_from zero question token so_far w = none
  read_from (suc fuel) question token so_far w =
      last_or_next (read_from fuel question) so_far
        (asking question_failed (engine.page_of question token) w)

  -- `readAll`
  unfoldable pub read_all : ℕ → Text → W → Option (Result QueryResult × W)
  read_all fuel question w = read_from fuel question none none w

  abbrev pub read_when_settled :
      ℕ → Text → Option (Result (Unit {0}) × W) → Option (Result QueryResult × W)
  read_when_settled fuel question none = none
  read_when_settled fuel question (some (err e, w)) = some (err e, w)
  read_when_settled fuel question (some (ok done, w)) = read_all fuel question w

  abbrev pub run_submitted : ℕ → ℕ → Result Text × W → Option (Result QueryResult × W)
  run_submitted fuel deadline (err e, w) = some (err e, w)
  run_submitted fuel deadline (ok question, w) =
      read_when_settled fuel question (settle fuel question deadline w)

  -- `QueryRunner.run`
  unfoldable pub run : ℕ → Text → ℕ → W → Option (Result QueryResult × W)
  run fuel statement deadline w =
      run_submitted fuel deadline (asking question_failed (engine.submit statement) w)
