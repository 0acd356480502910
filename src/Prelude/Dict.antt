-- ===== src/Prelude/Dict.antt =====
-- JavaScript's `Map` with string keys: an association list in insertion order. Setting a key that
-- is present keeps its place, and `values()` runs in this order.
pub mod Indexed
pub mod Sums
use mathlib.Core.Path.{◌≡◌, refl}
use mathlib.Core.Bool.{Bool, true, false}
use mathlib.Core.Option.{Option, none, some}
use mathlib.Core.List.{List, [], ◌∷◌, ◌++◌}
use native.Mathlib.Omega.{arith}
use cubeforge_api.Prelude.Tests.{if◌then◌else◌}
use cubeforge_api.Prelude.Texts.{Text, ◌==◌, eq_iff, eq_refl}

abbrev pub Dict {ℓ} : Type ℓ → Type ℓ
Dict V = List (Text × V)

module _ {ℓ} {V : Type ℓ} where
  -- `map.get(k)`, with `none` for `undefined`
  unfoldable pub get : Dict V → Text → Option V
  get [] k = none
  get ((j, v) ∷ d) k = let rest = get d k in if j == k then some v else rest

  abbrev is_some : Option V → Bool
  is_some none = false
  is_some (some v) = true

  -- `map.has(k)`
  unfoldable pub has : Dict V → Text → Bool
  unfolding get
  has d k = is_some (get d k)

  -- `map.set(k, v)`
  unfoldable pub put : Dict V → Text → V → Dict V
  put [] k v = (k, v) ∷ []
  put ((j, w) ∷ d) k v = let rest = put d k v in if j == k then (j, v) ∷ d else (j, w) ∷ rest

  -- `map.values()`
  abbrev pub values : Dict V → List V
  values [] = []
  values ((j, v) ∷ d) = v ∷ values d

  pub get-put :
      (d : Dict V) (k j : Text) (v : V) → get (put d k v) j ≡ (if k == j then some v else get d j)
  unfolding get put
  get-put [] k j v = refl
  get-put ((i, w) ∷ d) k j v = ground (arith, get-put d k j v, eq_iff i k, eq_iff i j, eq_iff k j)

  pub has_iff_get : (d : Dict V) (k : Text) → has d k ≡ false → get d k ≡ none
  unfolding has
  has_iff_get d k h = ground arith

  -- A new key goes to the end.
  pub put_new : (d : Dict V) (k : Text) (v : V) → get d k ≡ none → put d k v ≡ d ++ (k, v) ∷ []
  unfolding get put
  put_new [] k v h = refl
  put_new ((i, w) ∷ d) k v h = ground (arith, put_new d k v)

  pub get_self : (d : Dict V) (k : Text) (v : V) → get (put d k v) k ≡ some v
  get_self d k v = ground (arith, get-put d k k v, eq_refl k)

  pub has-put :
      (d : Dict V) (k j : Text) (v : V) → has (put d k v) j ≡ (if k == j then true else has d j)
  unfolding has
  has-put d k j v = ground (arith, get-put d k j v)
