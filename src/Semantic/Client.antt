-- ===== src/Semantic/Client.antt =====
-- src/adapters/semantic/cube-client.ts. `fetch`, the reading of a response's JSON, `setTimeout` and
-- `Date.now` are parameters over a state of the world. The loop is on fuel.
pub mod Loads
use cubeforge_api.Prelude.{
  ℕ, zero, suc, ◌+◌, ◌-◌, Bool, true, false, not, ◌&&◌, ◌||◌, Option, none, some, List, [], ◌++◌,
  Text, ◌==◌, if◌then◌else◌, length, Date, lit, ltb, is_none, nat_eq, leb, trim, is_invalid,
}
use cubeforge_api.Prelude.Dict.{Dict}
use cubeforge_api.Semantic.Model.{CubeQuery, CubeResult, Raw, raw_text, asking}
use cubeforge_api.Errors.{
  Exec, Failure, Result, violation, guard, model_unreadable, err, unanswerable, ◌>>◌, ◌>>=◌,
  analytics_unavailable, ok, pure, question_timed_out, model_rejected, model_unreachable,
}

-- What a field of the body is: an array of rows, `true`, or a value of another kind.
pub data Reported : Type 0 where
  reported_rows : List (Dict Raw) → Reported
  reported_true : Reported
  reported_raw : Raw → Reported

-- `CubeBody`: every field may be missing, and may be anything.
pub record CubeBody : Type 0 where
  pub error : Option Reported
  pub data_field : Option Reported
  pub external : Option Reported
  pub last_refresh_time : Option Reported

-- What `response.json()` gives.
pub data Parsed : Type 0 where
  object : CubeBody → Parsed
  not_an_object : Parsed

-- The global `Response`: `ok` and `status`, with what its body is read with.
pub record Response : Type 0 where
  pub is_ok : Bool
  pub status : ℕ
  pub handle : ℕ

pub record SemanticConfig : Type 0 where
  pub url : Text
  pub question_timeout_ms : ℕ

pub record CubeLoad : Type 0 where
  pub context : Text
  pub query : CubeQuery

-- `CubeSurroundings`, with the clock and the reading of a response.
pub record CubeSurroundings (W : Type 0) : Type 0 where
  pub now : W → ℕ
  pub fetching : Text → CubeLoad → ℕ → Exec W Response
  pub json : Response → Exec W Parsed
  pub waiting : ℕ → W → W

-- `BETWEEN_ATTEMPTS_MS`
abbrev pub between_attempts_ms : ℕ
between_attempts_ms = 500

-- `STILL_WORKING`
abbrev pub still_working : Text
still_working = lit "Continue wait"

-- `refusedTheQuestion`
unfoldable pub refused_the_question : ℕ → Bool
refused_the_question status = ltb status 500 && not (nat_eq status 401) && not (nat_eq status 403)

-- `responseBody`
abbrev pub response_body : Parsed → CubeBody
response_body (object body) = body
response_body not_an_object = record {
  error = none;
  data_field = none;
  external = none;
  last_refresh_time = none;
}

-- `momentOf`
abbrev pub moment_of : (Text → Date) → Option Reported → Option Date
moment_of date_from (some (reported_raw (raw_text t))) =
    if nat_eq (length (trim t)) 0 || is_invalid (date_from t) then none else some (date_from t)
moment_of date_from _ = none

abbrev rows_of : Option Reported → List (Dict Raw)
rows_of (some (reported_rows rows)) = rows
rows_of _ = []

abbrev is_true : Option Reported → Bool
is_true (some reported_true) = true
is_true _ = false

-- `answerFrom`
unfoldable pub answer_from_body : (Text → Date) → CubeBody → CubeResult
answer_from_body date_from body = record {
  data_rows = rows_of body.data_field;
  served_from_store = is_true body.external;
  refreshed_at = moment_of date_from body.last_refresh_time;
}

-- `body.error !== undefined`
abbrev pub has_error : CubeBody → Bool
has_error body = not (is_none body.error)

abbrev says : Option Reported → Text → Bool
says (some (reported_raw (raw_text t))) s = t == s
says _ s = false

-- `body.error === STILL_WORKING`
abbrev pub is_still_working : CubeBody → Bool
is_still_working body = says body.error still_working

-- Whether the response is one that `askOnce` throws on.
abbrev pub is_refusal : Response → CubeBody → Bool
is_refusal response body = not response.is_ok || (has_error body && not (is_still_working body))

-- What it throws then.
abbrev pub refusal : Response → Failure
refusal response =
    if refused_the_question response.status
    then violation unanswerable
    else analytics_unavailable model_rejected

module _ {W : Type 0} (world : CubeSurroundings W) (date_from : Text → Date) where
  -- The address that a question is posted to.
  abbrev pub endpoint : SemanticConfig → Text
  endpoint config = config.url ++ lit "/cubejs-api/v1/load"

  abbrev pub judged : Response → Parsed → Exec W CubeBody
  judged response parsed =
      guard (not (is_refusal response (response_body parsed))) (refusal response)
      >> pure (response_body parsed)

  abbrev pub read_response : Response → Exec W CubeBody
  read_response response = asking model_unreadable (world.json response) >>= judged response

  -- `askOnce`
  unfoldable pub ask_once : SemanticConfig → CubeLoad → ℕ → Exec W CubeBody
  ask_once config load deadline w =
      if leb deadline (world.now w)
      then (err (analytics_unavailable question_timed_out), w)
      else (asking model_unreachable
              (world.fetching (endpoint config) load (deadline - world.now w))
            >>= read_response)
          w

  abbrev pub answered_or_again :
      (W → Option (Result CubeResult × W)) → Result CubeBody × W → Option (Result CubeResult × W)
  answered_or_again again (err e, w) = some (err e, w)
  answered_or_again again (ok body, w) =
      if is_still_working body
      then again (world.waiting between_attempts_ms w)
      else some (ok (answer_from_body date_from body), w)

  -- The loop of `load`; `none` means that the fuel ran out.
  unfoldable pub load_until : ℕ → SemanticConfig → CubeLoad → ℕ → W → Option (Result CubeResult × W)
  load_until zero config load deadline w = none
  load_until (suc fuel) config load deadline w =
      answered_or_again (load_until fuel config load deadline) (ask_once config load deadline w)

  -- `CubeClient.load`
  unfoldable pub load_within : ℕ → SemanticConfig → CubeLoad → W → Option (Result CubeResult × W)
  load_within fuel config load w =
      load_until fuel config load (world.now w + config.question_timeout_ms) w
