-- ===== src/Semantic/Client/Loads.antt =====
-- How one `load` of src/adapters/semantic/cube-client.ts goes, as a relation.
use cubeforge_api.Prelude.{
  ℕ, zero, suc, ◌+◌, ◌-◌, ◌≤◌, ◌<◌, true, false, Text, ◌≡◌, inl, inr, refl, arith, Date, Bool-cases,
  leb, leb→le, some, ◌*◌, ap, subst, le→leb,
}
use cubeforge_api.Semantic.Client.{
  CubeSurroundings, CubeLoad, SemanticConfig, Response, CubeBody, ask_once, endpoint, is_refusal,
  response_body, Parsed, refusal, load_until, CubeResult, is_still_working, answer_from_body,
  between_attempts_ms, has_error, load_within,
}
use cubeforge_api.Errors.{
  Result, ok, Failure, err, ◌>>=◌, analytics_unavailable, question_timed_out, model_unreachable,
  model_unreadable, Exec-cases,
}
use cubeforge_api.Semantic.Model.{refile}

-- What is relied on of the clock: it is not set back while a question is asked, and a wait lasts
-- as long as it was asked to.
pub record IsAdvancing {W : Type 0} (world : CubeSurroundings W) : Type 0 where
  pub fetched :
      (url : Text) (load : CubeLoad) (ms : ℕ) (w : W)
      → world.now w ≤ world.now (world.fetching url load ms w).1
  pub read : (response : Response) (w : W) → world.now w ≤ world.now (world.json response w).1
  pub waited : (ms : ℕ) (w : W) → world.now w + ms ≤ world.now (world.waiting ms w)

module _ {W : Type 0} (world : CubeSurroundings W) (date_from : Text → Date)
    (config : SemanticConfig) (load : CubeLoad) (deadline : ℕ) where
  abbrev pub fetched_at : W → Result Response × W
  fetched_at w = world.fetching (endpoint world date_from config) load (deadline - world.now w) w

  -- One attempt from `w`, with what it comes to.
  pub data Asked (w : W) : Result CubeBody → W → Type 0 where
    too_late : deadline ≤ world.now w → Asked w (err (analytics_unavailable question_timed_out)) w
    unreachable :
        (e : Failure) (w' : W)
        → world.now w < deadline
        → fetched_at w ≡ (err e, w')
        → Asked w (err (refile model_unreachable e)) w'
    unreadable :
        (e : Failure) (response : Response) (v w' : W)
        → world.now w < deadline
        → fetched_at w ≡ (ok response, v)
        → world.json response v ≡ (err e, w')
        → Asked w (err (refile model_unreadable e)) w'
    refused :
        (response : Response) (parsed : Parsed) (v w' : W)
        → world.now w < deadline
        → fetched_at w ≡ (ok response, v)
        → world.json response v ≡ (ok parsed, w')
        → is_refusal response (response_body parsed) ≡ true
        → Asked w (err (refusal response)) w'
    replied :
        (response : Response) (parsed : Parsed) (v w' : W)
        → world.now w < deadline
        → fetched_at w ≡ (ok response, v)
        → world.json response v ≡ (ok parsed, w')
        → is_refusal response (response_body parsed) ≡ false
        → Asked w (ok (response_body parsed)) w'

  pub ask_once-Asked :
      (w : W)
      → Asked w
          (ask_once world date_from config load deadline w).0
          (ask_once world date_from config load deadline w).1
  unfolding ask_once ◌>>=◌
  ask_once-Asked w = elim (Bool-cases (leb deadline (world.now w))) [
    | inl late ↦ rw late (too_late (leb→le _ _ late))
    | inr soon ↦ rw soon (elim (Exec-cases (fetched_at w)) [
      | inr (e, w', h) ↦ rw h (unreachable e w' (ground arith) h)
      | inl (response, v, h) ↦ rw h (elim (Exec-cases (world.json response v)) [
        | inr (e, w', j) ↦ rw j (unreadable e response v w' (ground arith) h j)
        | inl (parsed, w', j) ↦
            rw j (elim (Bool-cases (is_refusal response (response_body parsed))) [
              | inl wrong ↦ rw wrong (refused response parsed v w' (ground arith) h j wrong)
              | inr right ↦ rw right (replied response parsed v w' (ground arith) h j right)
            ])
      ])
    ])
  ]

  -- `load` from a state: questions still being computed are waited on, and any other outcome is
  -- the last.
  pub data Loads : W → Result CubeResult → W → Type 0 where
    failed : (w : W) (e : Failure) (w' : W) → Asked w (err e) w' → Loads w (err e) w'
    answered :
        (w : W) (body : CubeBody) (w' : W)
        → Asked w (ok body) w'
        → is_still_working body ≡ false
        → Loads w (ok (answer_from_body date_from body)) w'
    waited_on :
        (w : W) (body : CubeBody) (v w' : W) (r : Result CubeResult)
        → Asked w (ok body) v
        → is_still_working body ≡ true
        → Loads (world.waiting between_attempts_ms v) r w'
        → Loads w r w'

  fetched_at-advances :
      IsAdvancing world
      → (w v : W) (r : Result Response) → fetched_at w ≡ (r, v)
      → world.now w ≤ world.now v
  fetched_at-advances a w v r h = omega (
    arith,
    a.fetched (endpoint world date_from config) load (deadline - world.now w) w,
    ap (λ o. world.now o.1) h,
  )

  json-advances :
      IsAdvancing world
      → (response : Response) (v w : W) (r : Result Parsed) → world.json response v ≡ (r, w)
      → world.now v ≤ world.now w
  json-advances a response v w r h = omega (arith, a.read response v, ap (λ o. world.now o.1) h)

  Asked-advances :
      IsAdvancing world
      → (w w' : W) (r : Result CubeBody) → Asked w r w'
      → world.now w ≤ world.now w'
  Asked-advances a w _ _ (too_late h) = omega arith
  Asked-advances a w _ _ (unreachable e w' h f) = fetched_at-advances a w w' (err e) f
  Asked-advances a w _ _ (unreadable e p v w' h f j) =
      omega (arith, fetched_at-advances a w v (ok p) f, json-advances a p v w' (err e) j)
  Asked-advances a w _ _ (refused p q v w' h f j k) =
      omega (arith, fetched_at-advances a w v (ok p) f, json-advances a p v w' (ok q) j)
  Asked-advances a w _ _ (replied p q v w' h f j k) =
      omega (arith, fetched_at-advances a w v (ok p) f, json-advances a p v w' (ok q) j)

  ask_once-result :
      (w w' : W) (r : Result CubeBody)
      → ask_once world date_from config load deadline w ≡ (r, w')
      → Asked w r w'
  ask_once-result w w' r h = subst (λ o. Asked w o.0 o.1) h (ask_once-Asked w)

  -- A reply with an error in it is one that says that the question is still being computed.
  Asked-errors :
      (w w' : W) (body : CubeBody)
      → Asked w (ok body) w'
      → is_still_working body ≡ false
      → has_error body ≡ false
  Asked-errors w _ _ (replied p q v w' h f j k) done = ground arith

  pub load_until-Loads :
      IsAdvancing world
      → (fuel : ℕ) (w : W) → deadline ≤ world.now w + fuel * between_attempts_ms
      → (r : Result CubeResult) × (w' : W) × (load_until world date_from
            (suc fuel)
            config
            load
            deadline
            w
          ≡ some (r, w'))
        × Loads w r w'
  unfolding load_until ask_once
  load_until-Loads a zero w h = rw (le→leb deadline (world.now w) (omega (arith, h))) (
    err (analytics_unavailable question_timed_out),
    w,
    refl,
    failed w _ w (too_late (omega (arith, h))),
  )
  load_until-Loads a (suc fuel) w h =
      elim (Exec-cases (ask_once world date_from config load deadline w)) [
        | inr (e, w', threw) ↦
            rw threw (err e, w', refl, failed w e w' (ask_once-result w w' (err e) threw))
        | inl (body, v, gave) ↦ rw gave (elim (Bool-cases (is_still_working body)) [
          | inr done ↦ rw done (
            ok (answer_from_body date_from body),
            v,
            refl,
            answered w body v (ask_once-result w v (ok body) gave) done,
          )
          | inl more ↦
              let (r, w', ends, goes) =
                load_until-Loads a fuel (world.waiting between_attempts_ms v) (
                  omega (
                    arith,
                    h,
                    a.waited between_attempts_ms v,
                    Asked-advances a w v (ok body) (ask_once-result w v (ok body) gave),
                  )) in
              rw more (
                r,
                w',
                ends,
                waited_on w body v w' r (ask_once-result w v (ok body) gave) more goes,
              )
        ])
      ]

-- Where the clock advances and the time there is for a question is no longer than some number of
-- waits, as many rounds and one more end in an answer or in a failure, as the relation tells: the
-- answer is read from a reply that was asked for in time and bears no error, a reply that the layer
-- is still working is waited on, and nothing is asked once the time is over.
pub load_within-Loads :
    {W : Type 0} (world : CubeSurroundings W) (date_from : Text → Date) (config : SemanticConfig)
    (load : CubeLoad)
    → IsAdvancing world
    → (rounds : ℕ) (w : W) → config.question_timeout_ms ≤ rounds * between_attempts_ms
    → (r : Result CubeResult) × (w' : W) × (load_within world date_from (suc rounds) config load w
        ≡ some (r, w'))
      × Loads world date_from config load (world.now w + config.question_timeout_ms) w r w'
unfolding load_within
load_within-Loads world date_from config load a rounds w h =
    load_until-Loads world date_from config load (world.now w + config.question_timeout_ms) a rounds
      w (omega (arith, h))
