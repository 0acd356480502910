-- ===== src/Cube/Rewrite/Naming.antt =====
-- Which members a query of cube/configuration.js names, and in which cubes they are.
use cubeforge_api.Prelude.{
  ℕ, false, some, List, [], ◌∷◌, ◌++◌, map, Text, ◌≡◌, ◌↔◌, ◌⊎◌, inl, inr, refl, sym, ap, ◌∙◌,
  arith, Bool-cases, In, nat_eq, subst, nat_eq_iff, lit,
}
use cubeforge_api.Cube.Rewrite.{
  ModelQuery, cube_of, members_in, TimeDimension, Dict, get, tenant_member, lit,
}
use cubeforge_api.Semantic.Model.{TimeDimension}
use cubeforge_api.Prelude.Dict.{Dict, get}

-- A query names a member as a measure, as a dimension, as a segment or as the dimension of a span of
-- time.
pub data Names (query : ModelQuery) : Text → Type 0 where
  as_measure : (m : Text) → In m query.measures → Names query m
  as_dimension : (m : Text) → In m query.dimensions → Names query m
  as_segment : (m : Text) → In m query.segments → Names query m
  in_time : (d : TimeDimension) → In d query.time_dimensions → Names query d.dimension

-- The cube of a member is what stands before its first dot, or all of it.
pub data InCube : Text → Text → Type 0 where
  dotted : (cube rest : Text) → ¬ (In b'.' cube) → InCube cube (cube ++ b'.' ∷ rest)
  bare : (cube : Text) → ¬ (In b'.' cube) → InCube cube cube

-- Where a row has the tenant in every cube of a member that the query names.
abbrev pub IsOf : Text → ModelQuery → Dict Text → Type 0
IsOf tenant query row =
    (member cube : Text)
    → Names query member
    → InCube cube member
    → get row (cube ++ lit ".tenant_id") ≡ some tenant

in_append : {A : Type 0} (a : A) (xs ys : List A) → In a (xs ++ ys) → In a xs ⊎ In a ys
in_append a [] ys i = inr i
in_append a (x ∷ xs) ys (inl e) = inl (inl e)
in_append a (x ∷ xs) ys (inr i) = elim (in_append a xs ys i) [
  | inl here ↦ inl (inr here)
  | inr there ↦ inr there
]

append_left : {A : Type 0} (a : A) (xs ys : List A) → In a xs → In a (xs ++ ys)
append_left a [] ys i = elim i [ ]
append_left a (x ∷ xs) ys (inl e) = inl e
append_left a (x ∷ xs) ys (inr i) = inr (append_left a xs ys i)

append_right : {A : Type 0} (a : A) (xs ys : List A) → In a ys → In a (xs ++ ys)
append_right a [] ys i = i
append_right a (x ∷ xs) ys i = inr (append_right a xs ys i)

in_map :
    {A B : Type 0} (f : A → B) (b : B) (xs : List A)
    → In b (map f xs)
    → (a : A) × In a xs × (b ≡ f a)
in_map f b [] i = elim i [ ]
in_map f b (x ∷ xs) (inl e) = (x, inl refl, e)
in_map f b (x ∷ xs) (inr i) = let (a, there, e) = in_map f b xs i in (a, inr there, e)

map_in : {A B : Type 0} (f : A → B) (a : A) (xs : List A) → In a xs → In (f a) (map f xs)
map_in f a [] i = elim i [ ]
map_in f a (x ∷ xs) (inl e) = inl (ap f e)
map_in f a (x ∷ xs) (inr i) = inr (map_in f a xs i)

module _ (query : ModelQuery) where
  pub members_in-Names : (m : Text) → In m (members_in query) → Names query m
  members_in-Names m i = elim (in_append m _ _ i) [
    | inr timed ↦
        let (d, there, e) = in_map (λ d. d.dimension) m query.time_dimensions timed in
        subst (Names query) (sym e) (in_time d there)
    | inl listed ↦ elim (in_append m _ _ listed) [
      | inr segment ↦ as_segment m segment
      | inl field ↦ elim (in_append m _ _ field) [
        | inl measure ↦ as_measure m measure
        | inr dimension ↦ as_dimension m dimension
      ]
    ]
  ]

  pub Names-members_in : (m : Text) → Names query m → In m (members_in query)
  Names-members_in _ (as_measure m i) = append_left m _ _ (append_left m _ _ (append_left m _ _ i))
  Names-members_in _ (as_dimension m i) =
      append_left m _ _ (append_left m _ _ (append_right m query.measures _ i))
  Names-members_in _ (as_segment m i) =
      append_left m _ _ (append_right m (query.measures ++ query.dimensions) _ i)
  Names-members_in _ (in_time d i) =
      append_right d.dimension ((query.measures ++ query.dimensions) ++ query.segments) _
        (map_in (λ d. d.dimension) d query.time_dimensions i)

not_in_cons : (c : ℕ) (t : Text) → nat_eq c b'.' ≡ false → ¬ (In b'.' t) → ¬ (In b'.' (c ∷ t))
not_in_cons c t differs out (inl e) = ground (arith, e, differs)
not_in_cons c t differs out (inr i) = out i

InCube-cons :
    (c : ℕ) (cube t : Text) → nat_eq c b'.' ≡ false → InCube cube t → InCube (c ∷ cube) (c ∷ t)
InCube-cons c _ _ differs (dotted cube rest out) =
    dotted (c ∷ cube) rest (not_in_cons c cube differs out)
InCube-cons c _ _ differs (bare cube out) = bare (c ∷ cube) (not_in_cons c cube differs out)

pub cube_of-InCube : (m : Text) → InCube (cube_of m) m
cube_of-InCube [] = bare [] (λ i. i)
cube_of-InCube (c ∷ t) = elim (Bool-cases (nat_eq c b'.')) [
  | inr differs ↦ rw differs (InCube-cons c (cube_of t) t differs (cube_of-InCube t))
  | inl dot ↦
      rw dot
        (subst (λ d. InCube [] (d ∷ t)) (sym ((nat_eq_iff c b'.').0 dot)) (dotted [] t (λ i. i)))
]

before_dot : (cube rest : Text) → ¬ (In b'.' cube) → cube_of (cube ++ b'.' ∷ rest) ≡ cube
before_dot [] rest out = refl
before_dot (c ∷ cube) rest out = elim (Bool-cases (nat_eq c b'.')) [
  | inl dot ↦ absurd (out (inl (sym ((nat_eq_iff c b'.').0 dot))))
  | inr differs ↦ rw differs (ap (λ t. c ∷ t) (before_dot cube rest (λ i. out (inr i))))
]

no_dot : (cube : Text) → ¬ (In b'.' cube) → cube_of cube ≡ cube
no_dot [] out = refl
no_dot (c ∷ cube) out = elim (Bool-cases (nat_eq c b'.')) [
  | inl dot ↦ absurd (out (inl (sym ((nat_eq_iff c b'.').0 dot))))
  | inr differs ↦ rw differs (ap (λ t. c ∷ t) (no_dot cube (λ i. out (inr i))))
]

InCube-cube_of : (cube m : Text) → InCube cube m → cube_of m ≡ cube
InCube-cube_of _ _ (dotted cube rest out) = before_dot cube rest out
InCube-cube_of _ _ (bare cube out) = no_dot cube out

pub members_iff :
    (tenant : Text) (query : ModelQuery) (row : Dict Text)
    → ((member : Text)
        → In member (members_in query)
        → get row (tenant_member (cube_of member)) ≡ some tenant)
      ↔ IsOf tenant query row
members_iff tenant query row = (
  λ h member cube named lies.
      ap (λ c. get row (tenant_member c)) (sym (InCube-cube_of cube member lies))
      ∙ h member (Names-members_in query member named),
  λ h member i. h member (cube_of member) (members_in-Names query member i) (cube_of-InCube member),
)
