-- ===== src/Cube/Host.antt =====
-- cube/configuration.js, where the engine is. `new URL(text).hostname` is a parameter, with `none`
-- where it throws.
use cubeforge_api.Prelude.{
  Bool, false, not, Option, none, some, List, [], ◌∷◌, Text, if◌then◌else◌, lit, includes, ◌≡◌, ◌↔◌,
  true, arith,
}
use cubeforge_api.Errors.{Result, err, thrown, ok}
use cubeforge_api.Semantic.Asking.{then_answer}

-- `LOCAL_HOSTS`
abbrev pub local_hosts : List Text
local_hosts = lit "localhost" ∷ lit "127.0.0.1" ∷ lit "::1" ∷ lit "floci" ∷ []

module _ (hostname : Text → Option Text) where
  abbrev required : Option Text → Result (Unit {0})
  required none = err thrown
  required (some host) = if not (includes local_hosts host) then err thrown else ok tt

  -- `requireLocalEmulator`
  unfoldable pub require_local_emulator : Text → Result (Unit {0})
  require_local_emulator endpoint = required (hostname endpoint)

  -- `env[ENGINE_SETTING] || 'http://floci:4566'`
  abbrev pub setting_or_default : Option Text → Text
  setting_or_default none = lit "http://floci:4566"
  setting_or_default (some []) = lit "http://floci:4566"
  setting_or_default (some (c ∷ t)) = c ∷ t

  -- `engineAddress`
  unfoldable pub engine_address : Option Text → Result Text
  engine_address setting =
      then_answer (require_local_emulator (setting_or_default setting))
        (λ checked. ok (setting_or_default setting))

  abbrev has_host : Option Text → Bool
  has_host none = false
  has_host (some host) = includes local_hosts host

  -- `isLocalEmulator`
  unfoldable pub is_local_emulator : Text → Bool
  is_local_emulator endpoint = has_host (hostname endpoint)

  required-has_host : (o : Option Text) → (required o ≡ ok tt) ↔ (has_host o ≡ true)
  required-has_host none = (λ h. cc, λ h. cc)
  required-has_host (some host) = (λ h. ground arith, λ h. ground arith)

  -- An address is refused exactly if it is not one of the emulator's.
  pub require_local_emulator_iff :
      (endpoint : Text)
      → (require_local_emulator endpoint ≡ ok tt) ↔ (is_local_emulator endpoint ≡ true)
  unfolding require_local_emulator is_local_emulator
  require_local_emulator_iff endpoint = required-has_host (hostname endpoint)
