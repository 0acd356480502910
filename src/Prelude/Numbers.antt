-- ===== src/Prelude/Numbers.antt =====
-- JavaScript's `number`, as far as the source tells its values apart: an integer, or anything else
-- (a fraction, NaN, an infinity). Sums stay far below 2^53, where they are exact.
use mathlib.Core.Path.{◌≡◌, refl, ◌∙◌}
use cubeforge_api.Prelude.Int.{ℤ, pos, ◌+ℤ◌, +ℤ_assoc, +ℤ_zero, +ℤ_comm}

pub data Number : Type 0 where
  whole : ℤ → Number
  not_whole : Number

unfoldable pub add_number : Number → Number → Number
add_number (whole a) (whole b) = whole (a +ℤ b)
add_number _ _ = not_whole

pub add_number_assoc :
    (a b c : Number) → add_number (add_number a b) c ≡ add_number a (add_number b c)
unfolding add_number
add_number_assoc (whole a) (whole b) (whole c) = rw +ℤ_assoc
add_number_assoc (whole a) (whole b) not_whole = refl
add_number_assoc (whole a) not_whole c = refl
add_number_assoc not_whole b c = refl

pub add_number_zero : (a : Number) → add_number a (whole (pos 0)) ≡ a
unfolding add_number
add_number_zero (whole a) = rw +ℤ_zero
add_number_zero not_whole = refl

pub add_number_comm : (a b : Number) → add_number a b ≡ add_number b a
unfolding add_number
add_number_comm (whole a) (whole b) = rw (+ℤ_comm a b)
add_number_comm (whole a) not_whole = refl
add_number_comm not_whole (whole b) = refl
add_number_comm not_whole not_whole = refl

pub zero_add_number : (a : Number) → add_number (whole (pos 0)) a ≡ a
zero_add_number a = add_number_comm (whole (pos 0)) a ∙ add_number_zero a
