-- ===== src/Prelude/Texts.antt =====
-- JavaScript strings: lists of UTF-16 code units.
use Prim.Native.Nat.{ℕ, zero, suc}
use Prim.Native.Char.{code}
use Prim.Native.String.{String}
use mathlib.Core.Path.{◌≡◌, refl}
use mathlib.Core.Logic.{inl, inr, ◌↔◌}
use mathlib.Core.Bool.{Bool, true, false, ◌&&◌, ◌||◌}
use mathlib.Core.List.{List, [], ◌∷◌, ◌++◌, map}
use native.Mathlib.Omega.{arith}
use cubeforge_api.Prelude.Lists.{In}
use cubeforge_api.Prelude.Tests.{nat_eq_iff, nat_eq, leb, if◌then◌else◌}

abbrev pub Text : Type 0
Text = List ℕ

-- A literal of the source. All of them are ASCII, so that code points are code units.
abbrev pub lit : String → Text
lit String.[] = []
lit (String.◌∷◌ c s) = code c ∷ lit s

-- `===` on strings
infix 50 ◌==◌
unfoldable pub ◌==◌ : Text → Text → Bool
[] == [] = true
(x ∷ xs) == (y ∷ ys) = nat_eq x y && xs == ys
_ == _ = false

cons_injective : (x y : ℕ) (xs ys : Text) → (x ≡ y) × (xs ≡ ys) → x ∷ xs ≡ y ∷ ys
cons_injective x y xs ys h = cc (h.0, h.1)

pub eq-of : (a b : Text) → (a == b) ≡ true → a ≡ b
unfolding ◌==◌
eq-of [] [] h = refl
eq-of (x ∷ xs) (y ∷ ys) h = ground (arith, eq-of xs ys)
eq-of [] (y ∷ ys) h = cc
eq-of (x ∷ xs) [] h = cc

pub eq_refl : (a : Text) → (a == a) ≡ true
unfolding ◌==◌
eq_refl [] = refl
eq_refl (x ∷ xs) = ground (arith, eq_refl xs)

pub eq_iff : (a b : Text) → ((a == b) ≡ true) ↔ (a ≡ b)
eq_iff a b = (eq-of a b, λ e. ground (arith, eq_refl a))

-- `array.includes(s)` and `set.has(s)`
unfoldable pub includes : List Text → Text → Bool
includes [] s = false
includes (t ∷ ts) s = t == s || includes ts s

-- `set.add(s)`
unfoldable pub add : List Text → Text → List Text
add ts s = if includes ts s then ts else ts ++ s ∷ []

pub includes-append :
    (ts us : List Text) (s : Text) → includes (ts ++ us) s ≡ (includes ts s || includes us s)
unfolding includes
includes-append [] us s = refl
includes-append (t ∷ ts) us s = ground (arith, includes-append ts us s)

pub includes-add : (ts : List Text) (s t : Text) → includes (add ts s) t ≡ (s == t || includes ts t)
unfolding add includes
includes-add ts s t = ground (arith, includes-append ts (s ∷ []) t, eq_iff s t)

-- `text.startsWith(prefix)`
unfoldable pub starts_with : Text → Text → Bool
starts_with t [] = true
starts_with [] (p ∷ ps) = false
starts_with (c ∷ t) (p ∷ ps) = nat_eq c p && starts_with t ps

-- `text.slice(n)` for a non-negative n
unfoldable pub slice_from : Text → ℕ → Text
slice_from t zero = t
slice_from [] (suc n) = []
slice_from (c ∷ t) (suc n) = slice_from t n

-- The code units that `trim` removes: white space and line terminators of ECMAScript.
unfoldable pub is_space : ℕ → Bool
is_space c =
    (leb 9 c && leb c 13)
    || nat_eq c 32
    || nat_eq c 160
    || nat_eq c 0x1680
    || (leb 0x2000 c && leb c 0x200a)
    || nat_eq c 0x2028
    || nat_eq c 0x2029
    || nat_eq c 0x202f
    || nat_eq c 0x205f
    || nat_eq c 0x3000
    || nat_eq c 0xfeff

unfoldable pub trim_start : Text → Text
trim_start [] = []
trim_start (c ∷ t) = let rest = trim_start t in if is_space c then rest else c ∷ t

-- One more code unit before a text that is trimmed at its end.
unfoldable pub trim_keep : ℕ → Text → Text
trim_keep c [] = if is_space c then [] else c ∷ []
trim_keep c (d ∷ r) = c ∷ d ∷ r

unfoldable pub trim_end : Text → Text
unfolding trim_keep
trim_end [] = []
trim_end (c ∷ t) = trim_keep c (trim_end t)

-- `text.trim()`
unfoldable pub trim : Text → Text
unfolding trim_start trim_end is_space
trim t = trim_end (trim_start t)

-- A prefix that two texts share does not tell them apart.
pub eq-append_left : (p a b : Text) → ((p ++ a) == (p ++ b)) ≡ (a == b)
unfolding ◌==◌
eq-append_left [] a b = refl
eq-append_left (c ∷ p) a b = ground (arith, eq-append_left p a b, nat_eq_iff c c)

pub includes-map :
    {A : Type 0} (f : A → Text) (a : A) (xs : List A) → In a xs → includes (map f xs) (f a) ≡ true
unfolding includes
includes-map f a [] i = absurd i
includes-map f a (x ∷ xs) (inl e) = ground (arith, e, eq_refl (f a))
includes-map f a (x ∷ xs) (inr i) = ground (arith, includes-map f a xs i)
