-- ===== src/Analytics/Shape/Places.antt =====
-- Where a column stands in a header: src/domain/analytics/answer-shape.ts.
use cubeforge_api.Prelude.{
  ℕ, suc, none, some, List, [], ◌∷◌, ◌++◌, Text, ◌≡◌, length, In, arith, refl, sym, ap, ◌∙◌, inl,
  inr, Option-cases, eq_iff, subst,
}
use cubeforge_api.Analytics.Shape.{position}

-- Where a name stands last in a header: behind so many others.
pub record Stands (header : List Text) (name : Text) (i : ℕ) : Type 0 where
  pub front : List Text
  pub back : List Text
  pub split : header ≡ front ++ name ∷ back
  pub last : ¬ (In name back)
  pub count : length front ≡ i

pub position-none :
    (header : List Text) (name : Text) → position header name ≡ none → ¬ (In name header)
unfolding position
position-none [] name h i = i
position-none (x ∷ xs) name h i = elim (Option-cases (position xs name)) [
  | inr (j, found) ↦ absurd (ground (arith, rw found at h))
  | inl absent ↦ elim i [
    | inl same ↦ ground (arith, rw absent at h, eq_iff x name, same)
    | inr later ↦ position-none xs name absent later
  ]
]

pub position-some :
    (header : List Text) (name : Text) (i : ℕ)
    → position header name ≡ some i
    → Stands header name i
unfolding position
position-some [] name i h = absurd (ground (arith, h))
position-some (x ∷ xs) name i h = elim (Option-cases (position xs name)) [
  | inr (j, found) ↦
      let s = position-some xs name j found in
      let next : suc j ≡ i = ground (arith, rw found at h) in
      record {
        front = x ∷ s.front;
        back = s.back;
        split = ap (λ t. x ∷ t) s.split;
        last = s.last;
        count = ap suc s.count ∙ next;
      }
  | inl absent ↦
      let here : (x ≡ name) × (0 ≡ i) = ground (arith, rw absent at h, eq_iff x name) in
      record {
        front = [];
        back = xs;
        split = ap (λ t. t ∷ xs) here.0;
        last = position-none xs name absent;
        count = here.1;
      }
]

pub stands-In : {header : List Text} {name : Text} {i : ℕ} → Stands header name i → In name header
stands-In {header} {name} s = subst (In name) (sym s.split) (in_middle s.front s.back)
  where
    in_middle : (front back : List Text) → In name (front ++ name ∷ back)
    in_middle [] back = inl refl
    in_middle (x ∷ front) back = inr (in_middle front back)
