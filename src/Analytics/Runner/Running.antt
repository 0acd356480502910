-- ===== src/Analytics/Runner/Running.antt =====
-- A question of src/adapters/analytics/athena-query-runner.ts, from its statement to its rows.
use cubeforge_api.Prelude.{
  ℕ, suc, ◌+◌, ◌≤◌, none, some, List, ◌∷◌, Text, ◌≡◌, refl, arith, length, ◌*◌, ◌++◌,
}
use cubeforge_api.Analytics.Runner.{
  Engine, Clock, run, EnginePage, question_failed, Cells, without_header_row,
}
use cubeforge_api.Analytics.Runner.Settling.{IsAdvancing, Settles, settle-Settles}
use cubeforge_api.Errors.{ok, Result, Failure, err, question_failed}
use cubeforge_api.Analytics.Runner.Paging.{Pages, read_all-pages, Broken, read_all-Broken}
use cubeforge_api.Semantic.Model.{refile, flat_map}
use cubeforge_api.Analytics.Runner.Heading.{FirstRows, without_header_row-FirstRows}

module _ {W : Type 0} (engine : Engine W) (clock : Clock W) (poll : ℕ) where
  -- Once a question is submitted, with a clock that advances and as many rounds as the time left
  -- has pauses, the question settles. What the wait threw is then thrown. Otherwise pages are read,
  -- where these are no more than the rounds and one. If a request for a page fails, after however
  -- many, the run throws that failure, filed as that of the question unless it says more. If none
  -- does, the answer has the rows of all of the engine's pages in order under the names of the
  -- first, whose first row is left out exactly if it repeats the names.
  pub run-Settles :
      IsAdvancing engine clock
      → (statement question : Text) (deadline rounds : ℕ) (w v : W)
      → engine.submit statement w ≡ (ok question, v)
      → deadline ≤ clock.now v + rounds * poll
      → (r : Result (Unit {0})) × (u : W) × Settles engine clock poll question deadline v r u
        × ((e : Failure)
            → r ≡ err e
            → run engine clock poll (suc rounds) statement deadline w ≡ some (err e, u))
        × ((pages : List EnginePage) (e : Failure) (w' : W)
            → r ≡ ok tt
            → Broken engine clock poll question none u pages e w'
            → length pages ≤ rounds
            → run engine clock poll (suc rounds) statement deadline w
              ≡ some (err (refile question_failed e), w'))
        × ((page : EnginePage) (pages : List EnginePage) (w' : W)
            → r ≡ ok tt
            → Pages engine clock poll question none u (page ∷ pages) w'
            → length pages ≤ rounds
            → (rows : List Cells) × FirstRows page.columns page.rows rows
              × (run engine clock poll (suc rounds) statement deadline w
                  ≡ some (
                    ok (record {
                      header = page.columns;
                      rows = rows ++ flat_map (λ p. p.rows) pages;
                    }),
                    w',
                  )))
  unfolding run
  run-Settles a statement question deadline rounds w v accepted enough =
      let (r, u, settled, goes) =
        settle-Settles engine clock poll question deadline a rounds v enough in
      (
        r,
        u,
        goes,
        (λ e threw. rw (accepted, settled, threw) refl),
        (λ pages e w' done b few.
            rw (accepted, settled, done)
              (read_all-Broken engine clock poll question u w' pages e b rounds few)),
        λ page pages w' done p few. (
          without_header_row page.rows page.columns,
          without_header_row-FirstRows page.rows page.columns,
          rw (accepted, settled, done)
              (read_all-pages engine clock poll question u w' (page ∷ pages) p (suc rounds)
                (omega (arith, few))),
        ),
      )
