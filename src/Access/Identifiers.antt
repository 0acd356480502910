-- ===== src/Access/Identifiers.antt =====
-- src/domain/identifiers.ts. `lower` is `toLowerCase`, whose table of characters is a parameter.
use mathlib.Core.Option
use cubeforge_api.Prelude.{
  ℕ, suc, ◌+◌, Bool, false, not, ◌&&◌, ◌||◌, Option, none, some, [], ◌∷◌, Text, if◌then◌else◌,
  length, leb, nat_eq, ltb, trim, all,
}
use cubeforge_api.Errors.{Result, err, thrown, ok}

unfoldable pub require_non_blank : Text → Result Text
require_non_blank value =
    let trimmed = trim value in if nat_eq (length trimmed) 0 then err thrown else ok trimmed

-- `tenantId`; `personId`, `membershipId`, `signInId` and `apiKeyId` are the same function.
unfoldable pub tenant_id : Text → Result Text
unfolding require_non_blank
tenant_id value = require_non_blank value

-- `[0-9a-fA-F-]`
abbrev pub is_uuid_character : ℕ → Bool
is_uuid_character c =
    (leb b'0' c && leb c b'9')
    || (leb b'a' c && leb c b'f')
    || (leb b'A' c && leb c b'F')
    || nat_eq c b'-'

unfoldable pub is_well_formed : Text → Bool
is_well_formed t = nat_eq (length t) 36 && all is_uuid_character t

unfoldable pub require_well_formed_tenant : Text → Result Text
require_well_formed_tenant value = if not (is_well_formed value) then err thrown else ok value

-- `indexOf`, with `none` for -1
abbrev pub index_of : ℕ → Text → Option ℕ
index_of c [] = none
index_of c (d ∷ t) = let rest = index_of c t in if nat_eq c d then some 0 else Option.map suc rest

-- Whether there is a separator with something before it and something behind it.
abbrev pub has_parts : Option ℕ → ℕ → Bool
has_parts none n = false
has_parts (some separator) n = ltb 0 separator && ltb (separator + 1) n

abbrev checked : (Text → Text) → Result Text → Result Text
checked lower (err e) = err e
checked lower (ok trimmed) =
    let normalized = lower trimmed in
    if has_parts (index_of b'@' normalized) (length normalized) then ok normalized else err thrown

unfoldable pub email_address : (Text → Text) → Text → Result Text
unfolding require_non_blank
email_address lower value = checked lower (require_non_blank value)
