-- ===== src/Analytics/Runner/Settling.antt =====
-- How a question of src/adapters/analytics/athena-query-runner.ts is waited for.
use cubeforge_api.Prelude.{
  refl, suc, inl, inr, true, false, ℕ, zero, Bool, Text, ◌≤◌, Option, ◌+◌, ◌≡◌, some, arith, ap,
  ◌<◌, ◌≢◌, Bool-cases, leb, leb→le, ◌*◌,
}
use cubeforge_api.Analytics.Runner.{
  queued, running, failed, cancelled, succeeded, Engine, QuestionState, Clock, waiting_on, settle,
  settled_or_again,
}
use cubeforge_api.Errors.{
  Result, Failure, err, ok, question_failed, analytics_unavailable, question_timed_out, Exec-cases,
}
use cubeforge_api.Semantic.Model.{refile, asking}

-- What is relied on of the clock: asking for a state does not set it back, and a pause lasts as
-- long as it was asked to.
pub record IsAdvancing {W : Type 0} (engine : Engine W) (clock : Clock W) : Type 0 where
  pub asked : (question : Text) (w : W) → clock.now w ≤ clock.now (engine.state_of question w).1
  pub paused : (ms : ℕ) (w : W) → clock.now w + ms ≤ clock.now (clock.pause ms w)

abbrev pub is_unsettled : QuestionState → Bool
is_unsettled queued = true
is_unsettled running = true
is_unsettled _ = false

module _ {W : Type 0} (engine : Engine W) (clock : Clock W) (poll : ℕ) (question : Text)
    (deadline : ℕ) where
  -- The wait for a question, from one state of the world to another.
  pub data Settles : W → Result (Unit {0}) → W → Type 0 where
    not_told :
        (w w' : W) (e : Failure)
        → engine.state_of question w ≡ (err e, w')
        → Settles w (err (refile question_failed e)) w'
    is_done : (w w' : W) → engine.state_of question w ≡ (ok succeeded, w') → Settles w (ok tt) w'
    came_to_nothing :
        (w w' : W) (state : QuestionState)
        → engine.state_of question w ≡ (ok state, w')
        → is_unsettled state ≡ false
        → state ≢ succeeded
        → Settles w (err (analytics_unavailable question_failed)) w'
    given_up :
        (w v : W) (state : QuestionState)
        → engine.state_of question w ≡ (ok state, v)
        → is_unsettled state ≡ true
        → deadline ≤ clock.now v
        → Settles w (err (analytics_unavailable question_timed_out)) (engine.stop question v).1
    waited :
        (w v w' : W) (state : QuestionState) (r : Result (Unit {0}))
        → engine.state_of question w ≡ (ok state, v)
        → is_unsettled state ≡ true
        → clock.now v < deadline
        → Settles (clock.pause poll v) r w'
        → Settles w r w'

  abbrev pub Settled : W → Option (Result (Unit {0}) × W) → Type 0
  Settled w o = (r : Result (Unit {0})) × (w' : W) × (o ≡ some (r, w')) × Settles w r w'

  state_of-advances :
      IsAdvancing engine clock
      → (w v : W) (r : Result QuestionState) → engine.state_of question w ≡ (r, v)
      → clock.now w ≤ clock.now v
  state_of-advances a w v r h = omega (arith, a.asked question w, ap (λ o. clock.now o.1) h)

  out_of_time :
      IsAdvancing engine clock
      → (w v : W) (r : Result QuestionState) → engine.state_of question w ≡ (r, v)
      → deadline ≤ clock.now w
      → ¬ (clock.now v < deadline)
  out_of_time a w v r told h early = omega (arith, h, early, state_of-advances a w v r told)

  -- One state that is not the last, with what is done after the pause.
  waiting_on-Settles :
      (again : W → Option (Result (Unit {0}) × W)) (w v : W) (state : QuestionState)
      → engine.state_of question w ≡ (ok state, v)
      → is_unsettled state ≡ true
      → (clock.now v < deadline → Settled (clock.pause poll v) (again (clock.pause poll v)))
      → Settled w (waiting_on engine clock poll again question deadline v)
  waiting_on-Settles again w v state h u next = elim (Bool-cases (leb deadline (clock.now v))) [
    | inl late ↦ rw late (
      err (analytics_unavailable question_timed_out),
      (engine.stop question v).1,
      refl,
      given_up w v state h u (leb→le _ _ late),
    )
    | inr soon ↦
        let (r, w', ends, goes) = next (ground arith) in
        rw soon (r, w', ends, waited w v w' state r h u (ground arith) goes)
  ]

  -- One round, with what is done after the pause.
  round-Settles :
      (again : W → Option (Result (Unit {0}) × W)) (w : W)
      → ((v : W) (state : QuestionState)
          → engine.state_of question w ≡ (ok state, v)
          → clock.now v < deadline
          → Settled (clock.pause poll v) (again (clock.pause poll v)))
      → Settled w (
          settled_or_again engine clock poll again question deadline
            (asking question_failed (engine.state_of question) w))
  round-Settles again w next = elim (Exec-cases (engine.state_of question w)) [
    | inr (e, v, threw) ↦ rw threw (err (refile question_failed e), v, refl, not_told w v e threw)
    | inl (succeeded, v, told) ↦ rw told (ok tt, v, refl, is_done w v told)
    | inl (queued, v, told) ↦
        rw told (waiting_on-Settles again w v queued told refl (next v queued told))
    | inl (running, v, told) ↦
        rw told (waiting_on-Settles again w v running told refl (next v running told))
    | inl (failed, v, told) ↦ rw told (
      err (analytics_unavailable question_failed),
      v,
      refl,
      came_to_nothing w v failed told refl (λ e. cc),
    )
    | inl (cancelled, v, told) ↦ rw told (
      err (analytics_unavailable question_failed),
      v,
      refl,
      came_to_nothing w v cancelled told refl (λ e. cc),
    )
  ]

  pub settle-Settles :
      IsAdvancing engine clock
      → (fuel : ℕ) (w : W) → deadline ≤ clock.now w + fuel * poll
      → Settled w (settle engine clock poll (suc fuel) question deadline w)
  unfolding settle
  settle-Settles a zero w h =
      round-Settles (settle engine clock poll zero question deadline) w
        (λ v state told early. absurd (out_of_time a w v (ok state) told (omega (arith, h)) early))
  settle-Settles a (suc fuel) w h =
      round-Settles (settle engine clock poll (suc fuel) question deadline) w (λ v state told early.
        settle-Settles a fuel (clock.pause poll v)
          (omega (arith, h, a.paused poll v, state_of-advances a w v (ok state) told)))
