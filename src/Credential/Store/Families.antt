-- ===== src/Credential/Store/Families.antt =====
-- The refresh tokens of one sign-in, and what the writes of the session repository do to them.
use cubeforge_api.Prelude.{
  ℕ, ◌≤◌, Bool, ◌&&◌, none, some, [], ◌∷◌, Text, ◌==◌, if◌then◌else◌, ◌≡◌, inl, inr, refl, sym, ◌∙◌,
  arith, Date, Bool-cases, is_none, All, eq_iff,
}
use cubeforge_api.Prelude.Dict.Sums.{sum_of}
use cubeforge_api.Credential.Store.{
  RefreshToken, invalidate_where, invalidate_one, is_none, values, get,
}
use cubeforge_api.Prelude.Dict.{Dict, values, get}
use cubeforge_api.Prelude.Dict.Indexed.{IsIndexed}

-- A token that may still be exchanged, its deadline aside.
abbrev pub is_live : RefreshToken → Bool
is_live t = is_none t.exchanged_at && is_none t.invalidated_at

unfoldable pub live_weight : Text → RefreshToken → ℕ
live_weight family t = if t.sign_in_id == family && is_live t then 1 else 0

-- How many live tokens a family has.
abbrev pub live_in : Text → Dict RefreshToken → ℕ
live_in family d = sum_of (live_weight family) (values d)

abbrev pub token_id : RefreshToken → Text
token_id t = t.id

module _ (matches : RefreshToken → Bool) (moment : Date) where
  invalidate_one-weight :
      (family : Text) (t : RefreshToken)
      → live_weight family (invalidate_one matches moment t) ≤ live_weight family t
  unfolding live_weight
  invalidate_one-weight family t = ground arith

  pub live-invalidate_where :
      (family : Text) (d : Dict RefreshToken)
      → live_in family (invalidate_where matches moment d) ≤ live_in family d
  unfolding invalidate_where
  live-invalidate_where family [] = omega arith
  live-invalidate_where family ((id, t) ∷ d) =
      omega (arith, invalidate_one-weight family t, live-invalidate_where family d)

  pub get-invalidate_where :
      (d : Dict RefreshToken) (k : Text)
      → get d k ≡ none
      → get (invalidate_where matches moment d) k ≡ none
  unfolding invalidate_where get
  get-invalidate_where [] k h = refl
  get-invalidate_where ((id, t) ∷ d) k h = ground (arith, get-invalidate_where d k)

  id-invalidate_one : (t : RefreshToken) → (invalidate_one matches moment t).id ≡ t.id
  id-invalidate_one t = ground arith

  pub IsIndexed-invalidate_where :
      (d : Dict RefreshToken)
      → IsIndexed token_id d
      → IsIndexed token_id (invalidate_where matches moment d)
  unfolding invalidate_where
  IsIndexed-invalidate_where [] h = tt
  IsIndexed-invalidate_where ((id, t) ∷ d) (e, n, h) =
      (e ∙ sym (id-invalidate_one t), get-invalidate_where d id n, IsIndexed-invalidate_where d h)

  -- The fields that invalidation leaves alone.
  pub All-invalidate_where :
      (P : RefreshToken → Type 0) (d : Dict RefreshToken)
      → ((t : RefreshToken) → P t → P (record t { invalidated_at = some moment }))
      → All P (values d)
      → All P (values (invalidate_where matches moment d))
  unfolding invalidate_where
  All-invalidate_where P [] keep h = tt
  All-invalidate_where P ((id, t) ∷ d) keep (p, h) =
      elim (Bool-cases (matches t && is_none t.invalidated_at)) [
        | inl e ↦ rw e (keep t p, All-invalidate_where P d keep h)
        | inr e ↦ rw e (p, All-invalidate_where P d keep h)
      ]

-- A family that is invalidated has no live token.
own-weight :
    (family : Text) (moment : Date) (t : RefreshToken)
    → live_weight family (invalidate_one (λ u. u.sign_in_id == family) moment t) ≡ 0
unfolding live_weight
own-weight family moment t = ground arith

pub live-invalidated :
    (family : Text) (moment : Date) (d : Dict RefreshToken)
    → live_in family (invalidate_where (λ u. u.sign_in_id == family) moment d) ≡ 0
unfolding invalidate_where
live-invalidated family moment [] = refl
live-invalidated family moment ((id, t) ∷ d) =
    omega (arith, own-weight family moment t, live-invalidated family moment d)

person-weight :
    (family person : Text) (moment : Date) (t : RefreshToken)
    → (t.sign_in_id ≡ family → t.person_id ≡ person)
    → live_weight family (invalidate_one (λ u. u.person_id == person) moment t) ≡ 0
unfolding live_weight
person-weight family person moment t h =
    ground (arith, eq_iff t.sign_in_id family, eq_iff t.person_id person, h)

-- Where a person's tokens are invalidated, a family that is all that person's has no live token.
pub live-invalidated_person :
    (family person : Text) (moment : Date) (d : Dict RefreshToken)
    → All (λ t. t.sign_in_id ≡ family → t.person_id ≡ person) (values d)
    → live_in family (invalidate_where (λ u. u.person_id == person) moment d) ≡ 0
unfolding invalidate_where
live-invalidated_person family person moment [] h = refl
live-invalidated_person family person moment ((id, t) ∷ d) (p, h) = omega (
  arith,
  person-weight family person moment t p,
  live-invalidated_person family person moment d h,
)
