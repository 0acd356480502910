-- ===== src/Tests/Client.antt =====
-- Tests of the client of the semantic layer, with a layer that is still working a few times.
use cubeforge_api.Prelude.{
  ℕ, zero, suc, ◌+◌, ◌-◌, true, none, some, [], ◌∷◌, Text, ◌==◌, ◌≡◌, refl, arith, Date, invalid,
  lit,
}
use cubeforge_api.Semantic.Client.Loads
use cubeforge_api.Semantic.Client.{
  CubeBody, Response, CubeSurroundings, SemanticConfig, CubeLoad, load_within, refused_the_question,
  reported_rows, load_until, object, ask_once, reported_true, reported_raw, answer_from_body,
  still_working,
}
use cubeforge_api.Errors.{Result, ok, ◌>>=◌, err, analytics_unavailable, question_timed_out}
use cubeforge_api.Semantic.Model.{CubeResult, raw_text}

-- The time, and how often the layer still says that it is working.
abbrev Moment : Type 0
Moment = ℕ × ℕ

abbrev body_at : ℕ → CubeBody
body_at zero = record {
  error = none;
  data_field = some (reported_rows (((lit "movements.count", raw_text (lit "12")) ∷ []) ∷ []));
  external = some reported_true;
  last_refresh_time = none;
}
body_at (suc n) = record {
  error = some (reported_raw (raw_text still_working));
  data_field = none;
  external = none;
  last_refresh_time = none;
}

abbrev response : Response
response = record { is_ok = true; status = 200; handle = 0 }

abbrev layer : CubeSurroundings Moment
layer = record {
  now = λ w. w.0;
  fetching = λ url load ms w. (ok response, (w.0 + 20, w.1));
  json = λ r w. (ok (object (body_at w.1)), w);
  waiting = λ ms w. (w.0 + ms, w.1 - 1);
}

abbrev config : SemanticConfig
config = record { url = lit "http://cube:4000"; question_timeout_ms = 1_200 }

abbrev load : CubeLoad
load = record {
  context = lit "signed";
  query = record {
    measures = lit "movements.count" ∷ [];
    dimensions = [];
    time_dimensions = [];
    timezone = none;
    limit = none;
  };
}

layer-IsAdvancing : Loads.IsAdvancing layer
layer-IsAdvancing = record {
  fetched = λ url load ms w. omega arith;
  read = λ r w. omega arith;
  waited = λ ms w. omega arith;
}

abbrev never : Text → Date
never t = invalid

-- Two rounds of waiting, then the rows.
answered_late :
    load_within layer never 4 config load (1_000, 2)
    ≡ some (
      ok (record {
        data_rows = ((lit "movements.count", raw_text (lit "12")) ∷ []) ∷ [];
        served_from_store = true;
        refreshed_at = none;
      }),
      (2_060, 0),
    )
unfolding load_within load_until ask_once ◌>>=◌ answer_from_body ◌==◌
answered_late = refl

-- Nine rounds are too many for the time there is.
timed_out :
    load_within layer never 4 config load (1_000, 9)
    ≡ some (err (analytics_unavailable question_timed_out), (2_560, 6))
unfolding load_within load_until ask_once ◌>>=◌ answer_from_body ◌==◌
timed_out = refl

refused_for_the_question : refused_the_question 400 ≡ true
unfolding refused_the_question
refused_for_the_question = refl

load_within-Loads_example :
    (r : Result CubeResult) × (w : Moment) × (load_within layer never 4 config load (1_000, 2)
      ≡ some (r, w))
    × Loads.Loads layer never config load (1_000 + 1_200) (1_000, 2) r w
load_within-Loads_example =
    Loads.load_within-Loads layer never config load layer-IsAdvancing 3 (1_000, 2) (omega arith)
