-- ===== src/Http/Throttling/Buckets.antt =====
-- The buckets that src/adapters/http/platform-throttling.ts registers.
use cubeforge_api.Prelude.{◌<◌, Option, List, map, Text, ◌≡◌, refl, sym, ap, arith, Number, ◌*◌}
use cubeforge_api.Errors.{Result, ok, err, ok-injective}
use cubeforge_api.Http.Throttling.{
  CallerConfig, platform_throttler_options, refuse_vocabulary_not_above, throttler_options,
  then_answer, caller_options, Bucket, every_bucket, questions_config, vocabulary_config,
  load_throttling_config, inventory_config,
}
use cubeforge_api.Semantic.Asking.{then_answer}

then_answer-ok :
    {A B : Type 0} (r : Result A) (f : A → Result B) (b : B)
    → then_answer r f ≡ ok b
    → (a : A) × (r ≡ ok a) × (f a ≡ ok b)
then_answer-ok (ok a) f b h = (a, refl, h)
then_answer-ok (err e) f b h = cc

-- The vocabulary's allowance is above that of the questions, as rates.
abbrev pub IsAbove : CallerConfig → CallerConfig → Type 0
IsAbove vocabulary questions =
    questions.requests_per_caller * vocabulary.window_seconds
    < vocabulary.requests_per_caller * questions.window_seconds

allowed-IsAbove :
    (number_from : Text → Number) (questions vocabulary : CallerConfig) (u : Unit {0})
    → refuse_vocabulary_not_above number_from questions vocabulary ≡ ok u
    → IsAbove vocabulary questions
allowed-IsAbove number_from questions vocabulary u h = ground arith

-- Where the settings are accepted, every bucket that a route may skip is registered, once and in
-- the order of their list, and the settings let a caller read the vocabulary at a higher rate than
-- ask questions.
pub platform_throttler_options-names :
    (number_from : Text → Number) (env : Text → Option Text) (buckets : List Bucket)
    → platform_throttler_options number_from env ≡ ok buckets
    → (map (λ b. b.name) buckets ≡ every_bucket)
      × ((questions vocabulary : CallerConfig) × (questions_config number_from env ≡ ok questions)
          × (vocabulary_config number_from env ≡ ok vocabulary)
          × IsAbove vocabulary questions)
unfolding platform_throttler_options throttler_options caller_options
platform_throttler_options-names number_from env buckets h =
    let (questions, asked, h1) = then_answer-ok (questions_config number_from env) _ buckets h in
    let (vocabulary, read, h2) = then_answer-ok (vocabulary_config number_from env) _ buckets h1 in
    let (u, above, h3) =
      then_answer-ok (refuse_vocabulary_not_above number_from questions vocabulary) _ buckets h2 in
    let (credentials, kept, h4) =
      then_answer-ok (load_throttling_config number_from env) _ buckets h3 in
    let (inventory, held, h5) = then_answer-ok (inventory_config number_from env) _ buckets h4 in
    (
      ap (map (λ b. b.name)) (sym (ok-injective h5)),
      (
        questions,
        vocabulary,
        asked,
        read,
        allowed-IsAbove number_from questions vocabulary u above,
      ),
    )
