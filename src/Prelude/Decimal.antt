-- ===== src/Prelude/Decimal.antt =====
-- Numbers in template literals: decimal digits.
use cubeforge_api.Prelude.Tests.{ltb, if◌then◌else◌, Bool-cases}
use cubeforge_api.Prelude.Texts.{Text}
use Prim.Native.Nat.{ℕ, zero, suc, ◌+◌, ◌-◌, ◌*◌, ◌/◌, ◌%◌, ◌<◌}
use mathlib.Core.Path.{◌≡◌, refl, sym, ap, ◌∙◌}
use mathlib.Core.Logic.{inl, inr}
use mathlib.Core.List.{[], ◌∷◌, ◌++◌}
use native.Mathlib.Omega.{arith}

-- With more fuel than digits.
unfoldable pub digits : ℕ → ℕ → Text
digits zero n = []
digits (suc f) n =
    let rest = digits f (n / 10) in
    if ltb n 10 then (b'0' + n) ∷ [] else rest ++ (b'0' + n % 10) ∷ []

-- `${n}`
unfoldable pub decimal : ℕ → Text
unfolding digits
decimal n = digits (suc n) n

-- `String(n).padStart(2, '0')`
unfoldable pub two_digits : ℕ → Text
two_digits n = (b'0' + n / 10 % 10) ∷ (b'0' + n % 10) ∷ []

-- The number that a text of digits stands for.
abbrev pub value_from : ℕ → Text → ℕ
value_from acc [] = acc
value_from acc (c ∷ t) = value_from (acc * 10 + (c - b'0')) t

value_from-snoc :
    (acc : ℕ) (t : Text) (c : ℕ) → value_from acc (t ++ c ∷ []) ≡ value_from acc t * 10 + (c - b'0')
value_from-snoc acc [] c = refl
value_from-snoc acc (d ∷ t) c = value_from-snoc (acc * 10 + (d - b'0')) t c

value-digits : (f n : ℕ) → n < f → value_from 0 (digits f n) ≡ n
unfolding digits
value-digits zero n h = elim h [ ]
value-digits (suc f) n h = elim (Bool-cases (ltb n 10)) [
  | inl e ↦ rw e (omega arith)
  | inr e ↦ rw (e, value_from-snoc, value-digits f (n / 10) (ground arith)) (omega arith)
]

-- Printing loses nothing.
pub value-decimal : (n : ℕ) → value_from 0 (decimal n) ≡ n
unfolding decimal
value-decimal n = value-digits (suc n) n (omega arith)

pub decimal-injective : (m n : ℕ) → decimal m ≡ decimal n → m ≡ n
decimal-injective m n e = sym (value-decimal m) ∙ (ap (value_from 0) e ∙ value-decimal n)
