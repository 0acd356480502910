-- ===== src/Tests/Athena.antt =====
-- Tests of the analytics over an engine that is written down: it works on a question for two
-- rounds and answers on two pages.
use cubeforge_api.Prelude.{
  ℕ, zero, suc, ◌+◌, ◌-◌, ◌≤◌, Option, none, some, List, [], ◌∷◌, Text, ◌==◌, ◌≡◌, refl, arith,
  length, lit, All, ◌++◌, ◌⊎◌,
}
use cubeforge_api.Analytics.Runner.Settling
use cubeforge_api.Analytics.Runner.Paging
use cubeforge_api.Analytics.Runner.Running
use cubeforge_api.Analytics.Runner.{
  QuestionState, succeeded, running, EnginePage, Engine, Clock, run, settle, read_all, read_from,
  without_header_row, is_header, Cells,
}
use cubeforge_api.Analytics.Athena.Keeping.{IsKept, EndsIn}
use cubeforge_api.Analytics.Athena.Tenant.{ask_as-Confined, WritesTenant}
use cubeforge_api.Analytics.Athena.Select.{Confined}
use cubeforge_api.Errors.{Result, Failure, ok, err, question_failed, thrown}
use cubeforge_api.Tests.Answer.{readers}
use cubeforge_api.Analytics.Athena.{Values, ask_as, stock_on_hand, movements_by_day}
use cubeforge_api.Semantic.Period.{Period}
use cubeforge_api.Semantic.Model.{refile, flat_map}
use cubeforge_api.Analytics.Runner.Heading.{FirstRows}

record Desk : Type 0 where
  time : ℕ
  left : ℕ
  asked : List Text

abbrev state_at : ℕ → QuestionState
state_at zero = succeeded
state_at (suc n) = running

abbrev first_page : EnginePage
first_page = record {
  columns = lit "complete_through" ∷ [];
  rows = (some (lit "complete_through") ∷ []) ∷ (some (lit "2026-01-31 00:00:00") ∷ []) ∷ [];
  next_token = some (lit "more");
}

abbrev second_page : EnginePage
second_page = record {
  columns = lit "complete_through" ∷ [];
  rows = (none ∷ []) ∷ [];
  next_token = none;
}

abbrev page_at : Option Text → EnginePage
page_at none = first_page
page_at (some token) = second_page

abbrev engine : Engine Desk
engine = record {
  submit = λ s w. (ok (lit "question"), record w { asked = s ∷ w.asked });
  state_of = λ q w. (ok (state_at w.left), w);
  page_of = λ q token w. (ok (page_at token), w);
  stop = λ q w. (ok tt, w);
}

abbrev clock : Clock Desk
clock = record {
  now = λ w. w.time;
  pause = λ ms w. record w { time = w.time + ms; left = w.left - 1 };
}

abbrev opened : Desk
opened = record { time = 0; left = 2; asked = [] }

abbrev submitted : Desk
submitted = record { time = 0; left = 2; asked = lit "SELECT 1" ∷ [] }

engine-IsAdvancing : Settling.IsAdvancing engine clock
engine-IsAdvancing = record { asked = λ q w. omega arith; paused = λ ms w. omega arith }

pages :
    (w : Desk)
    → Paging.Pages engine clock 250 (lit "question") none w (first_page ∷ second_page ∷ []) w
pages w =
    Paging.page_before none w w w first_page (lit "more") (second_page ∷ []) refl refl
      (Paging.last_page (some (lit "more")) w w second_page refl refl)

-- The repeated header is left out, and the rows of both pages are there.
reads_both :
    run engine clock 250 3 (lit "SELECT 1") 1_000 opened
    ≡ some (
      ok (record {
        header = lit "complete_through" ∷ [];
        rows = (some (lit "2026-01-31 00:00:00") ∷ []) ∷ (none ∷ []) ∷ [];
      }),
      record { time = 500; left = 0; asked = lit "SELECT 1" ∷ [] },
    )
unfolding run settle read_all read_from without_header_row is_header ◌==◌
reads_both = refl

run-Settles_example :
    (r : Result (Unit {0})) × (u : Desk) × Settling.Settles engine clock 250
      (lit "question")
      1_000
      submitted
      r
      u
    × ((e : Failure)
        → r ≡ err e
        → run engine clock 250 5 (lit "SELECT 1") 1_000 opened ≡ some (err e, u))
    × ((pages : List EnginePage) (e : Failure) (w : Desk)
        → r ≡ ok tt
        → Paging.Broken engine clock 250 (lit "question") none u pages e w
        → length pages ≤ 4
        → run engine clock 250 5 (lit "SELECT 1") 1_000 opened
          ≡ some (err (refile question_failed e), w))
    × ((page : EnginePage) (pages : List EnginePage) (w : Desk)
        → r ≡ ok tt
        → Paging.Pages engine clock 250 (lit "question") none u (page ∷ pages) w
        → length pages ≤ 4
        → (rows : List Cells) × FirstRows page.columns page.rows rows
          × (run engine clock 250 5 (lit "SELECT 1") 1_000 opened
              ≡ some (
                ok (record { header = page.columns; rows = rows ++ flat_map (λ p. p.rows) pages }),
                w,
              )))
run-Settles_example =
    Running.run-Settles engine clock 250 engine-IsAdvancing (lit "SELECT 1") (lit "question") 1_000
      4 opened submitted refl (omega arith)

abbrev tenant : Text
tenant = lit "0a0a0a0a-0000-4000-8000-000000000000"

abbrev AllConfined : Desk → Type 0
AllConfined w = All (Confined tenant) w.asked

engine-IsKept : IsKept engine clock tenant AllConfined
engine-IsKept = record {
  submits = λ s c w i. (c, i);
  tells = λ q w i. i;
  reads = λ q token w i. i;
  stops = λ q w i. i;
  pauses = λ ms w i. i;
}

abbrev values : Values
values = record { readers = readers; number_text = λ n. lit "1"; date_text = λ d. lit "then" }

abbrev january : Period
january = record { from = lit "2026-01-01"; to = lit "2026-01-31" }

ask_as-Confined_example :
    (WritesTenant tenant
      × EndsIn AllConfined (
          ask_as engine clock values 30_000 5 tenant
            (stock_on_hand engine clock values 30_000 5)
            opened)
      × EndsIn AllConfined (
          ask_as engine clock values 30_000 5 tenant
            (λ t. movements_by_day engine clock values 30_000 5 t january)
            opened))
    ⊎ (¬ (WritesTenant tenant)
        × (ask_as engine clock values 30_000 5 tenant
              (stock_on_hand engine clock values 30_000 5)
              opened
            ≡ some (err thrown, opened))
        × (ask_as engine clock values 30_000 5 tenant
              (λ t. movements_by_day engine clock values 30_000 5 t january)
              opened
            ≡ some (err thrown, opened)))
ask_as-Confined_example =
    ask_as-Confined engine clock values 30_000 5 tenant AllConfined engine-IsKept january refl refl
      opened tt
