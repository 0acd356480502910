-- ===== src/Access/Directory/Counts.antt =====
-- The number of active administrators under a write to the table of memberships.
use cubeforge_api.Prelude.Dict.Sums.{sum_of}
use cubeforge_api.Prelude.{
  ℕ, ◌+◌, some, List, [], ◌∷◌, Text, ◌==◌, if◌then◌else◌, ◌≡◌, inl, inr, refl, arith, length,
  filter, Bool-cases, All, eq_iff,
}
use cubeforge_api.Access.Entities.{Membership}
use cubeforge_api.Access.Directory.{
  count_active_administrators, find_by_id, is_active_administrator, memberships_of, Identity,
  values,
}
use cubeforge_api.Prelude.Dict.{get, values}
use cubeforge_api.Prelude.Dict.Indexed.{IsIndexed, get_own, All-filter, find_sound}

All-own-tenant :
    (t : Text) (xs : List Membership)
    → All (λ m. m.tenant_id ≡ t) (filter (λ m. m.tenant_id == t) xs)
All-own-tenant t [] = tt
All-own-tenant t (x ∷ xs) = elim (Bool-cases (x.tenant_id == t)) [
  | inl e ↦ rw e ((eq_iff x.tenant_id t).0 e, All-own-tenant t xs)
  | inr e ↦ rw e (All-own-tenant t xs)
]

-- Whether a membership is that of an active administrator of a tenant.
unfoldable pub weight : Text → Membership → ℕ
weight t m = if m.tenant_id == t then if is_active_administrator m then 1 else 0 else 0

abbrev pub count_in : Text → List Membership → ℕ
count_in t ms = sum_of (weight t) ms

one :
    (x : Membership) (ys : List Membership) (n : ℕ)
    → length (filter is_active_administrator ys) ≡ n
    → length (filter is_active_administrator (x ∷ ys))
      ≡ (if is_active_administrator x then 1 else 0) + n
one x ys n h = elim (Bool-cases (is_active_administrator x)) [
  | inl e ↦ rw e (omega arith)
  | inr e ↦ rw e (omega arith)
]

length-eq-count_in :
    (t : Text) (xs : List Membership)
    → length (filter is_active_administrator (filter (λ m. m.tenant_id == t) xs)) ≡ count_in t xs
unfolding weight
length-eq-count_in t [] = refl
length-eq-count_in t (x ∷ xs) = elim (Bool-cases (x.tenant_id == t)) [
  | inl e ↦ rw e (one x (filter (λ m. m.tenant_id == t) xs) _ (length-eq-count_in t xs))
  | inr e ↦ rw e (omega (arith, length-eq-count_in t xs))
]

pub count_lem :
    (s : Identity) (t : Text) → count_active_administrators s t ≡ count_in t (values s.memberships)
unfolding count_active_administrators memberships_of
count_lem s t = length-eq-count_in t (values s.memberships)

abbrev pub id_of : Membership → Text
id_of m = m.id

-- What the tenant-scoped search finds is the row under that identifier, and the tenant's.
pub find_by_id_sound :
    (s : Identity) (t id : Text) (m : Membership)
    → IsIndexed id_of s.memberships
    → find_by_id s t id ≡ some m
    → (get s.memberships id ≡ some m) × (m.id ≡ id) × (m.tenant_id ≡ t)
unfolding find_by_id memberships_of
find_by_id_sound s t id m h e =
    let own =
      All-filter _ (λ n. n.tenant_id == t) (values s.memberships) (get_own id_of s.memberships h) in
    let (row, same) =
      find_sound (λ n. get s.memberships n.id ≡ some n) (λ n. n.id == id) _ m own e in
    let (here, _) =
      find_sound (λ n. n.tenant_id ≡ t) (λ n. n.id == id) _ m
        (All-own-tenant t (values s.memberships)) e in
    let is_id = (eq_iff m.id id).0 same in (rw (← is_id) row, is_id, here)
