-- ===== src/Tests/Throttling.antt =====
-- Tests of the buckets with no setting given.
use cubeforge_api.Prelude.{
  ℕ, Option, none, List, [], ◌∷◌, map, Text, ◌==◌, ◌≡◌, refl, length, Number, whole, includes, pos,
  lit,
}
use cubeforge_api.Errors.{Result, ok, err, thrown}
use cubeforge_api.Http.Throttling.{
  platform_throttler_options, every_bucket_except, Bucket, load_throttling_config,
  load_caller_config, throttler_options, caller_options,
}

abbrev number_from : Text → Number
number_from t = whole (pos (length t))

abbrev unset : Text → Option Text
unset key = none

abbrev limits : Result (List Bucket) → List ℕ
limits (ok buckets) = map (λ b. b.limit) buckets
limits (err e) = []

baseline : limits (platform_throttler_options number_from unset) ≡ 60 ∷ 10 ∷ 20 ∷ 60 ∷ 10 ∷ 60 ∷ []
unfolding platform_throttler_options load_throttling_config load_caller_config throttler_options
    caller_options
baseline = refl

unknown_bucket : every_bucket_except (lit "sign-in" ∷ []) ≡ err thrown
unfolding every_bucket_except includes ◌==◌
unknown_bucket = refl

one_owned :
    every_bucket_except (lit "analytics-caller" ∷ lit "sign-in-origin" ∷ lit "sign-in-address" ∷ [])
    ≡ ok (lit "redemption-origin" ∷ lit "inventory-credential" ∷ lit "vocabulary-caller" ∷ [])
unfolding every_bucket_except includes ◌==◌
one_owned = refl
