-- ===== src/Http/Throttling.antt =====
-- src/adapters/http: throttling-buckets.ts, credential-throttling.ts, inventory-throttling.ts,
-- analytics-throttling.ts, vocabulary-throttling.ts and throttling.config.ts, which
-- platform-throttling.ts composes. `number_from` is `Number(text)`, `digest` is SHA-256 in
-- hexadecimal digits and `lower` is `toLowerCase`; the counting is the framework's.
pub mod Buckets
use cubeforge_api.Prelude.{
  ℕ, suc, ◌+◌, not, Option, none, some, List, [], ◌∷◌, ◌++◌, Text, if◌then◌else◌, length, filter,
  lit, nat_eq, ◌*◌, Number, all, trim, leb, whole, includes, pos,
}
use cubeforge_api.Access.Authorize.{Actor, platform_operator, person, tenant_member, machine}
use cubeforge_api.Errors.{Result, ok, err, thrown}
use cubeforge_api.Semantic.Asking.{then_answer}

-- `EVERY_BUCKET`
abbrev pub every_bucket : List Text
every_bucket =
    lit "sign-in-origin"
    ∷ lit "sign-in-address"
    ∷ lit "redemption-origin"
    ∷ lit "inventory-credential"
    ∷ lit "analytics-caller"
    ∷ lit "vocabulary-caller"
    ∷ []

-- `everyBucketExcept`, as the names that are skipped.
unfoldable pub every_bucket_except : List Text → Result (List Text)
every_bucket_except owned =
    if all (includes every_bucket) owned
    then ok (filter (λ bucket. not (includes owned bucket)) every_bucket)
    else err thrown

-- What is counted: a request's origin, the address in its body, or its caller.
pub data Tracker : Type 0 where
  by_origin by_address by_caller : Tracker

-- What is read of a request; `none` is an address or an email that is missing or no string.
pub record Counted : Type 0 where
  pub ip : Option Text
  pub email : Option Text
  pub actor : Option Actor

abbrev identity_of : Option Text → Option Actor → Text
identity_of none none = lit "origin:unknown"
identity_of (some ip) none = lit "origin:" ++ ip
identity_of ip (some (machine key tenant role)) = lit "key:" ++ key
identity_of ip (some (platform_operator p)) = lit "person:" ++ p
identity_of ip (some (person p)) = lit "person:" ++ p
identity_of ip (some (tenant_member p tenant)) = lit "person:" ++ p

abbrev origin_of : Option Text → Text
origin_of none = lit "unknown-origin"
origin_of (some []) = lit "unknown-origin"
origin_of (some (c ∷ t)) = c ∷ t

module _ (digest lower : Text → Text) where
  -- `callerOf`
  unfoldable pub caller_of : Counted → Text
  caller_of request = digest (identity_of request.ip request.actor)

  abbrev address_in : Option Text → Text → Text
  address_in none origin = origin
  address_in (some email) origin =
      if nat_eq (length (trim email)) 0 then origin else digest (lower (trim email))

  -- `addressOf`
  unfoldable pub address_of : Counted → Text
  address_of request = address_in request.email (origin_of request.ip)

  -- `getTracker`
  abbrev pub tracked : Tracker → Counted → Text
  tracked by_origin request = origin_of request.ip
  tracked by_address request = address_of request
  tracked by_caller request = caller_of request

  -- `generateKey`
  abbrev pub generate_key : Text → Text → Text
  generate_key tracker name = name ++ lit "-" ++ tracker

-- `ThrottlerOptions`; the duration of a block is `none` where it is not set.
pub record Bucket : Type 0 where
  pub name : Text
  pub ttl : ℕ
  pub limit : ℕ
  pub block_duration : Option ℕ
  pub tracker : Tracker

pub record ThrottlingConfig : Type 0 where
  pub window_seconds : ℕ
  pub cooldown_seconds : ℕ
  pub sign_in_attempts_per_address : ℕ
  pub sign_in_attempts_per_origin : ℕ
  pub redemptions_per_origin : ℕ

-- The settings of the inventory, the questions and the vocabulary.
pub record CallerConfig : Type 0 where
  pub window_seconds : ℕ
  pub requests_per_caller : ℕ

abbrev credential_bucket : ThrottlingConfig → Text → ℕ → Tracker → Bucket
credential_bucket config name limit tracker = record {
  name = name;
  ttl = config.window_seconds * 1000;
  limit = limit;
  block_duration = some (config.cooldown_seconds * 1000);
  tracker = tracker;
}

-- `throttlerOptions`
unfoldable pub throttler_options : ThrottlingConfig → List Bucket
throttler_options config =
    credential_bucket config (lit "sign-in-origin") config.sign_in_attempts_per_origin by_origin
    ∷ credential_bucket config (lit "sign-in-address") config.sign_in_attempts_per_address
        by_address
    ∷ credential_bucket config (lit "redemption-origin") config.redemptions_per_origin by_origin
    ∷ []

-- `inventoryThrottlerOptions`, `analyticsThrottlerOptions` and `vocabularyThrottlerOptions`, by
-- the name of their bucket.
unfoldable pub caller_options : Text → CallerConfig → List Bucket
caller_options name config =
    record {
      name = name;
      ttl = config.window_seconds * 1000;
      limit = config.requests_per_caller;
      block_duration = none;
      tracker = by_caller;
    }
    ∷ []

abbrev Env : Type 0
Env = Text → Option Text

module _ (number_from : Text → Number) where
  abbrev positive : Number → Result ℕ
  positive (whole (pos (suc n))) = ok (suc n)
  positive _ = err thrown

  -- `positiveInteger`
  abbrev pub positive_integer : Option Text → ℕ → Result ℕ
  positive_integer none fallback = ok fallback
  positive_integer (some raw) fallback =
      if nat_eq (length (trim raw)) 0 then ok fallback else positive (number_from raw)

  -- `loadInventoryThrottlingConfig`, `loadAnalyticsThrottlingConfig` and
  -- `loadVocabularyThrottlingConfig`, by the settings they read and the limit they start from.
  unfoldable pub load_caller_config : Env → Text → Text → ℕ → Result CallerConfig
  load_caller_config env window requests baseline =
      then_answer (positive_integer (env window) 60) (λ seconds.
        then_answer (positive_integer (env requests) baseline)
          (λ limit. ok (record { window_seconds = seconds; requests_per_caller = limit })))

  -- `loadThrottlingConfig`
  unfoldable pub load_throttling_config : Env → Result ThrottlingConfig
  load_throttling_config env =
      then_answer (positive_integer (env (lit "AUTH_THROTTLE_WINDOW_SECONDS")) 300) (λ window.
        then_answer (positive_integer (env (lit "AUTH_THROTTLE_COOLDOWN_SECONDS")) 900) (λ cooldown.
          then_answer (positive_integer (env (lit "AUTH_SIGN_IN_ATTEMPTS_PER_ADDRESS")) 10)
            (λ address.
              then_answer (positive_integer (env (lit "AUTH_SIGN_IN_ATTEMPTS_PER_ORIGIN")) 60)
                (λ origin.
                  then_answer (positive_integer (env (lit "AUTH_REDEMPTIONS_PER_ORIGIN")) 20)
                    (λ redemptions. ok (record {
                      window_seconds = window;
                      cooldown_seconds = cooldown;
                      sign_in_attempts_per_address = address;
                      sign_in_attempts_per_origin = origin;
                      redemptions_per_origin = redemptions;
                    }))))))

  -- `refuseVocabularyNotAbove`
  abbrev pub refuse_vocabulary_not_above : CallerConfig → CallerConfig → Result (Unit {0})
  refuse_vocabulary_not_above questions vocabulary =
      if leb (vocabulary.requests_per_caller * questions.window_seconds)
        (questions.requests_per_caller * vocabulary.window_seconds)
      then err thrown
      else ok tt

  abbrev composed : ThrottlingConfig → CallerConfig → CallerConfig → CallerConfig → List Bucket
  composed credentials inventory questions vocabulary =
      ((throttler_options credentials ++ caller_options (lit "inventory-credential") inventory)
        ++ caller_options (lit "analytics-caller") questions)
      ++ caller_options (lit "vocabulary-caller") vocabulary

  abbrev pub questions_config : Env → Result CallerConfig
  questions_config env =
      load_caller_config env (lit "ANALYTICS_THROTTLE_WINDOW_SECONDS")
        (lit "ANALYTICS_QUESTIONS_PER_CALLER") 10

  abbrev pub vocabulary_config : Env → Result CallerConfig
  vocabulary_config env =
      load_caller_config env (lit "ANALYTICS_VOCABULARY_WINDOW_SECONDS")
        (lit "ANALYTICS_VOCABULARY_REQUESTS_PER_CALLER") 60

  abbrev pub inventory_config : Env → Result CallerConfig
  inventory_config env =
      load_caller_config env (lit "INVENTORY_THROTTLE_WINDOW_SECONDS")
        (lit "INVENTORY_REQUESTS_PER_CREDENTIAL") 60

  -- `platformThrottlerOptions`
  unfoldable pub platform_throttler_options : Env → Result (List Bucket)
  platform_throttler_options env = then_answer (questions_config env) (λ questions.
      then_answer (vocabulary_config env) (λ vocabulary.
        then_answer (refuse_vocabulary_not_above questions vocabulary) (λ above.
          then_answer (load_throttling_config env) (λ credentials.
            then_answer (inventory_config env)
              (λ inventory. ok (composed credentials inventory questions vocabulary))))))
