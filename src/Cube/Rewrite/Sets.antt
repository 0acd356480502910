-- ===== src/Cube/Rewrite/Sets.antt =====
-- Lemmas on `every`, on membership in a list of texts and on the set that a list makes.
use cubeforge_api.Prelude.{
  Bool, true, ◌&&◌, ◌||◌, List, [], ◌∷◌, ◌++◌, map, Text, ◌==◌, ◌≡◌, inl, inr, refl, sym, ap, ◌∙◌,
  arith, Bool-cases, all, includes, eq-of, eq_refl, In, add, includes-add,
}
use cubeforge_api.Cube.Rewrite.{set_from}

pub all-append :
    {A : Type 0} (p : A → Bool) (xs ys : List A) → all p (xs ++ ys) ≡ (all p xs && all p ys)
all-append p [] ys = refl
all-append p (x ∷ xs) ys = ground (arith, all-append p xs ys)

pub includes-set_from :
    (seen ts : List Text) (t : Text)
    → includes (set_from seen ts) t ≡ (includes seen t || includes ts t)
unfolding includes
includes-set_from seen [] t = ground arith
includes-set_from seen (u ∷ us) t =
    ground (arith, includes-set_from (add seen u) us t, includes-add seen u t)

pub all-map :
    {A B : Type 0} (p : B → Bool) (f : A → B) (xs : List A)
    → all p (map f xs) ≡ all (λ x. p (f x)) xs
all-map p f [] = refl
all-map p f (x ∷ xs) = ground (arith, all-map p f xs)

pub included_holds :
    (p : Text → Bool) (ts : List Text)
    → all p ts ≡ true
    → (t : Text) → includes ts t ≡ true
    → p t ≡ true
unfolding includes
included_holds p [] h t i = cc
included_holds p (u ∷ us) h t i = elim (Bool-cases (u == t)) [
  | inl same ↦ sym (ap p (eq-of u t same)) ∙ ground arith
  | inr differs ↦ included_holds p us (ground arith) t (ground arith)
]

pub all_included :
    (p : Text → Bool) (ts : List Text)
    → ((t : Text) → includes ts t ≡ true → p t ≡ true)
    → all p ts ≡ true
unfolding includes
all_included p [] k = refl
all_included p (u ∷ us) k =
    ground (arith, k u (ground (arith, eq_refl u)), all_included p us (λ t i. k t (ground arith)))

-- A text that is included among images is the image of a member.
pub image_of :
    (f : Text → Text) (ts : List Text) (c : Text)
    → includes (map f ts) c ≡ true
    → (t : Text) × In t ts × (f t ≡ c)
unfolding includes
image_of f [] c i = absurd (ground (arith, i))
image_of f (u ∷ us) c i = elim (Bool-cases (f u == c)) [
  | inl same ↦ (u, inl refl, eq-of (f u) c same)
  | inr differs ↦ let (t, there, e) = image_of f us c (ground arith) in (t, inr there, e)
]
