-- ===== src/Prelude/Dict/Sums.antt =====
-- Sums over the rows of a table, under a write.
use mathlib.Core.List.{List, [], ◌∷◌}
use Prim.Native.Nat.{ℕ, ◌+◌}
use mathlib.Core.Path.{◌≡◌, ap}
use mathlib.Core.Logic.{inl, inr}
use mathlib.Core.Option.{none, some}
use native.Mathlib.Omega.{arith}
use cubeforge_api.Prelude.Dict.{Dict, get, put, values}
use cubeforge_api.Prelude.Tests.{Bool-cases}
use cubeforge_api.Prelude.Texts.{Text, ◌==◌}

module _ {V : Type 0} (weight : V → ℕ) where
  abbrev pub sum_of : List V → ℕ
  sum_of [] = 0
  sum_of (x ∷ xs) = weight x + sum_of xs

  -- A write over a row exchanges its weight for that of the new one.
  pub sum-put :
      (d : Dict V) (k : Text) (v w : V)
      → get d k ≡ some w
      → sum_of (values (put d k v)) + weight w ≡ sum_of (values d) + weight v
  unfolding get put
  sum-put [] k v w h = cc
  sum-put ((i, x) ∷ d) k v w h = elim (Bool-cases (i == k)) [
    | inl e ↦ let same : x ≡ w = ground arith in rw e (omega (arith, ap weight same))
    | inr e ↦ rw e (omega (arith, sum-put d k v w (ground arith)))
  ]

  pub sum-put_new :
      (d : Dict V) (k : Text) (v : V)
      → get d k ≡ none
      → sum_of (values (put d k v)) ≡ sum_of (values d) + weight v
  unfolding get put
  sum-put_new [] k v h = omega arith
  sum-put_new ((i, x) ∷ d) k v h = elim (Bool-cases (i == k)) [
    | inl e ↦ absurd (ground arith)
    | inr e ↦ rw e (omega (arith, sum-put_new d k v (ground arith)))
  ]
