-- ===== src/Prelude/Dict/Indexed.antt =====
-- Tables whose rows carry their own keys, each once.
use cubeforge_api.Prelude.Lists.{All, filter, find}
use cubeforge_api.Prelude.Dict.{Dict, get, put, values, get-put}
use cubeforge_api.Prelude.Tests.{Bool-cases}
use cubeforge_api.Prelude.Texts.{Text, ◌==◌, eq_iff}
use mathlib.Core.Path.{◌≡◌, refl, subst}
use mathlib.Core.Bool.{Bool, true, false}
use mathlib.Core.Logic.{inl, inr}
use mathlib.Core.Option.{none, some}
use mathlib.Core.List.{List, [], ◌∷◌}
use native.Mathlib.Omega.{arith}
use cubeforge_api.Prelude.{subst}

pub All-imp :
    {A : Type 0} {P Q : A → Type 0} (xs : List A) → ((x : A) → P x → Q x) → All P xs → All Q xs
All-imp [] f h = tt
All-imp (x ∷ xs) f (p, h) = (f x p, All-imp xs f h)

pub All-imp₂ :
    {A : Type 0} {P Q R : A → Type 0} (xs : List A)
    → ((x : A) → P x → Q x → R x)
    → All P xs
    → All Q xs
    → All R xs
All-imp₂ [] f h g = tt
All-imp₂ (x ∷ xs) f (p, h) (q, g) = (f x p q, All-imp₂ xs f h g)

pub All-values-put :
    {V : Type 0} (P : V → Type 0) (d : Dict V) (k : Text) (v : V)
    → P v
    → All P (values d)
    → All P (values (put d k v))
unfolding put
All-values-put P [] k v p h = (p, tt)
All-values-put P ((j, w) ∷ d) k v p (q, h) = elim (Bool-cases (j == k)) [
  | inl e ↦ rw e (p, h)
  | inr e ↦ rw e (q, All-values-put P d k v p h)
]

module _ {V : Type 0} (key_of : V → Text) where
  abbrev pub IsIndexed : Dict V → Type 0
  IsIndexed [] = Unit
  IsIndexed ((k, v) ∷ d) = (k ≡ key_of v) × (get d k ≡ none) × IsIndexed d

  still_absent :
      (d : Dict V) (v : V) (i : Text)
      → (i == key_of v) ≡ false
      → get d i ≡ none
      → get (put d (key_of v) v) i ≡ none
  still_absent d v i n h =
      ground (arith, get-put d (key_of v) i v, eq_iff i (key_of v), eq_iff (key_of v) i)

  pub IsIndexed-put : (d : Dict V) (v : V) → IsIndexed d → IsIndexed (put d (key_of v) v)
  unfolding put get
  IsIndexed-put [] v h = (refl, refl, tt)
  IsIndexed-put ((i, w) ∷ d) v (e, n, h) = elim (Bool-cases (i == key_of v)) [
    | inl same ↦ rw same ((eq_iff i (key_of v)).0 same, n, h)
    | inr other ↦ rw other (e, still_absent d v i other n, IsIndexed-put d v h)
  ]

  pub get_own : (d : Dict V) → IsIndexed d → All (λ v. get d (key_of v) ≡ some v) (values d)
  unfolding get
  get_own [] h = tt
  get_own ((i, w) ∷ d) (e, n, h) = (
    ground (arith, eq_iff i (key_of w)),
    All-imp (values d) (λ v g. ground (arith, eq_iff i (key_of v), g, n)) (get_own d h),
  )

pub All-filter :
    {A : Type 0} (P : A → Type 0) (p : A → Bool) (xs : List A) → All P xs → All P (filter p xs)
All-filter P p [] h = tt
All-filter P p (x ∷ xs) (q, h) = elim (Bool-cases (p x)) [
  | inl e ↦ rw e (q, All-filter P p xs h)
  | inr e ↦ rw e (All-filter P p xs h)
]

pub find_sound :
    {A : Type 0} (P : A → Type 0) (p : A → Bool) (xs : List A) (x : A)
    → All P xs
    → find p xs ≡ some x
    → P x × (p x ≡ true)
find_sound P p [] x h e = cc
find_sound P p (y ∷ ys) x (q, h) e = elim (Bool-cases (p y)) [
  | inl t ↦ let same : y ≡ x = ground arith in (subst P same q, subst (λ z. p z ≡ true) same t)
  | inr t ↦ find_sound P p ys x h (ground arith)
]
