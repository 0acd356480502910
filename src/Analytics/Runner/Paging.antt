-- ===== src/Analytics/Runner/Paging.antt =====
-- How the pages of src/adapters/analytics/athena-query-runner.ts add up.
use cubeforge_api.Prelude.{
  ℕ, zero, suc, append-nil, ◌≤◌, Option, none, some, List, [], ◌∷◌, ◌++◌, Text, ◌≡◌, refl, length,
  append_assoc, ap, arith, ◌∙◌,
}
use cubeforge_api.Analytics.Runner.{
  Engine, Clock, EnginePage, QueryResult, read_from, Cells, with_page, without_header_row, read_all,
  last_or_next,
}
use cubeforge_api.Errors.{ok, Result, Failure, err, thrown, question_failed}
use cubeforge_api.Semantic.Model.{flat_map, refile}

module _ {W : Type 0} (engine : Engine W) (clock : Clock W) (poll : ℕ) (question : Text) where
  -- The pages that the engine gives from a token on, the last of which names no successor.
  pub data Pages : Option Text → W → List EnginePage → W → Type 0 where
    last_page :
        (token : Option Text) (w w' : W) (page : EnginePage)
        → engine.page_of question token w ≡ (ok page, w')
        → page.next_token ≡ none
        → Pages token w (page ∷ []) w'
    page_before :
        (token : Option Text) (w v w' : W) (page : EnginePage) (successor : Text)
        (pages : List EnginePage)
        → engine.page_of question token w ≡ (ok page, v)
        → page.next_token ≡ some successor
        → Pages (some successor) v pages w'
        → Pages token w (page ∷ pages) w'

  -- The pages that are read before a request for one fails.
  pub data Broken : Option Text → W → List EnginePage → Failure → W → Type 0 where
    broke_at :
        (token : Option Text) (w w' : W) (e : Failure)
        → engine.page_of question token w ≡ (err e, w')
        → Broken token w [] e w'
    broke_after :
        (token : Option Text) (w v w' : W) (page : EnginePage) (successor : Text)
        (pages : List EnginePage) (e : Failure)
        → engine.page_of question token w ≡ (ok page, v)
        → page.next_token ≡ some successor
        → Broken (some successor) v pages e w'
        → Broken token w (page ∷ pages) e w'

  -- The rows of pages, in their order.
  abbrev pub rows_of : List EnginePage → List Cells
  rows_of pages = flat_map (λ page. page.rows) pages

  -- What the pages come to behind what is read so far.
  abbrev pub read_behind : Option QueryResult → List EnginePage → Result QueryResult
  read_behind none [] = err thrown
  read_behind none (page ∷ pages) = ok (record {
    header = page.columns;
    rows = without_header_row page.rows page.columns ++ rows_of pages;
  })
  read_behind (some result) pages =
      ok (record { header = result.header; rows = result.rows ++ rows_of pages })

  read_behind-page :
      (so_far : Option QueryResult) (page : EnginePage) (pages : List EnginePage)
      → read_behind (some (with_page engine clock poll so_far page)) pages
        ≡ read_behind so_far (page ∷ pages)
  read_behind-page none page pages = refl
  read_behind-page (some result) page pages = rw append_assoc refl

  read_behind-last :
      (so_far : Option QueryResult) (page : EnginePage)
      → ok (with_page engine clock poll so_far page) ≡ read_behind so_far (page ∷ [])
  read_behind-last none page = rw append-nil refl
  read_behind-last (some result) page = rw append-nil refl

  last_or_next-none :
      (next : Option Text → Option QueryResult → W → Option (Result QueryResult × W))
      (so_far : Option QueryResult) (page : EnginePage) (w : W)
      → page.next_token ≡ none
      → last_or_next engine clock poll next so_far (ok page, w)
        ≡ some (ok (with_page engine clock poll so_far page), w)
  last_or_next-none next so_far page w h = simp h

  last_or_next-some :
      (next : Option Text → Option QueryResult → W → Option (Result QueryResult × W))
      (so_far : Option QueryResult) (page : EnginePage) (w : W) (token : Text)
      → page.next_token ≡ some token
      → last_or_next engine clock poll next so_far (ok page, w)
        ≡ next (some token) (some (with_page engine clock poll so_far page)) w
  last_or_next-some next so_far page w token h = simp h

  read_from-pages :
      (so_far : Option QueryResult) (token : Option Text) (w w' : W) (pages : List EnginePage)
      → Pages token w pages w'
      → (fuel : ℕ) → length pages ≤ fuel
      → read_from engine clock poll fuel question token so_far w
        ≡ some (read_behind so_far pages, w')
  unfolding read_from
  read_from-pages so_far _ _ _ _ (last_page token w w' page given h) (suc fuel) _ = rw given (
      last_or_next-none (read_from engine clock poll fuel question) so_far page w' h
      ∙ ap (λ r. some (r, w')) (read_behind-last so_far page))
  read_from-pages so_far _ _ _ _ (page_before token w v w' page successor pages given h p)
        (suc fuel) enough =
      rw given (
        last_or_next-some (read_from engine clock poll fuel question) so_far page v successor h
        ∙ read_from-pages (some (with_page engine clock poll so_far page)) (some successor) v w'
            pages p fuel (omega (arith, enough))
        ∙ ap (λ r. some (r, w')) (read_behind-page so_far page pages))
  read_from-pages so_far _ _ _ _ (last_page token w w' page given h) zero enough =
      absurd (omega (arith, enough))
  read_from-pages so_far _ _ _ _ (page_before token w v w' page successor pages given h p) zero
        enough =
      absurd (omega (arith, enough))

  pub read_all-pages :
      (w w' : W) (pages : List EnginePage)
      → Pages none w pages w'
      → (fuel : ℕ) → length pages ≤ fuel
      → read_all engine clock poll fuel question w ≡ some (read_behind none pages, w')
  unfolding read_all
  read_all-pages w w' pages p fuel enough = read_from-pages none none w w' pages p fuel enough

  read_from-Broken :
      (so_far : Option QueryResult) (token : Option Text) (w w' : W) (pages : List EnginePage)
      (e : Failure)
      → Broken token w pages e w'
      → (fuel : ℕ) → length pages ≤ fuel
      → read_from engine clock poll (suc fuel) question token so_far w
        ≡ some (err (refile question_failed e), w')
  unfolding read_from
  read_from-Broken so_far _ _ _ _ _ (broke_at token w w' e threw) fuel _ = rw threw refl
  read_from-Broken so_far _ _ _ _ _ (broke_after token w v w' page successor pages e given h b)
        (suc fuel) enough =
      rw given (
        last_or_next-some (read_from engine clock poll (suc fuel) question) so_far page v successor
          h
        ∙ read_from-Broken (some (with_page engine clock poll so_far page)) (some successor) v w'
            pages e b fuel (omega (arith, enough)))
  read_from-Broken so_far _ _ _ _ _ (broke_after token w v w' page successor pages e given h b) zero
        enough =
      absurd (omega (arith, enough))

  pub read_all-Broken :
      (w w' : W) (pages : List EnginePage) (e : Failure)
      → Broken none w pages e w'
      → (fuel : ℕ) → length pages ≤ fuel
      → read_all engine clock poll (suc fuel) question w ≡ some (err (refile question_failed e), w')
  unfolding read_all
  read_all-Broken w w' pages e b fuel enough = read_from-Broken none none w w' pages e b fuel enough
