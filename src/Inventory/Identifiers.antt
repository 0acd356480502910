-- ===== src/Inventory/Identifiers.antt =====
-- src/domain/inventory/identifiers.ts
pub mod Codes
use cubeforge_api.Prelude.{
  Bool, false, ℕ, ltb, leb, nat_eq, not, ◌&&◌, ◌||◌, [], ◌∷◌, Text, trim, if◌then◌else◌, length,
  all,
}
use cubeforge_api.Errors.{Result, ok, err, thrown}

pub data Malformation : Type 0 where
  blank too_long unsupported_characters : Malformation

pub data Parsed : Type 0 where
  malformed : Malformation → Parsed
  value : Text → Parsed

abbrev pub longest : ℕ
longest = 64

-- `[A-Za-z0-9._-]`
unfoldable pub is_supported : ℕ → Bool
is_supported c =
    (leb b'A' c && leb c b'Z')
    || (leb b'a' c && leb c b'z')
    || (leb b'0' c && leb c b'9')
    || nat_eq c b'.'
    || nat_eq c b'_'
    || nat_eq c b'-'

-- `SUPPORTED.test(value)`: one character or more, all of them supported.
unfoldable pub is_code : Text → Bool
unfolding is_supported
is_code [] = false
is_code (c ∷ t) = all is_supported (c ∷ t)

unfoldable pub parse : Text → Parsed
parse t =
    if nat_eq (length (trim t)) 0
    then malformed blank
    else if ltb longest (length t)
    then malformed too_long
    else if not (is_code t)
    then malformed unsupported_characters
    else value t

unfoldable pub parse_sku : Text → Parsed
unfolding parse
parse_sku t = parse t

unfoldable pub parse_location_code : Text → Parsed
unfolding parse
parse_location_code t = parse t

unfoldable pub parse_external_movement_id : Text → Parsed
unfolding parse
parse_external_movement_id t = parse t

unfoldable pub or_throw : Parsed → Result Text
or_throw (malformed because) = err thrown
or_throw (value t) = ok t

unfoldable pub sku : Text → Result Text
unfolding parse_sku or_throw
sku t = or_throw (parse_sku t)

unfoldable pub location_code : Text → Result Text
unfolding parse_location_code or_throw
location_code t = or_throw (parse_location_code t)

unfoldable pub external_movement_id : Text → Result Text
unfolding parse_external_movement_id or_throw
external_movement_id t = or_throw (parse_external_movement_id t)
