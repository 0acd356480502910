-- ===== src/Members/Retain.antt =====
-- The invariant that a tenant has an active administrator, under a write to the memberships.
use cubeforge_api.Prelude.{
  ◌≤◌, true, false, some, Text, ◌==◌, ◌≡◌, ◌⊎◌, inl, inr, sym, ap, ◌∙◌, arith, Bool-cases, eq_iff,
  subst,
}
use cubeforge_api.Access.Directory.{
  Identity, update, find_by_id, is_active_administrator, count_active_administrators,
}
use cubeforge_api.Prelude.Dict.Indexed.{IsIndexed, IsIndexed-put}
use cubeforge_api.Access.Entities.{Membership}
use cubeforge_api.Prelude.Dict.Sums.{sum-put}
use cubeforge_api.Access.Directory.Counts.{id_of, count_in, weight, find_by_id_sound, count_lem}
use cubeforge_api.Prelude.Dict.{values, get, put}

-- The tables are keyed by the rows' own identifiers, and a tenant has an active administrator.
pub record IsAdministered (t : Text) (s : Identity) : Type 0 where
  pub indexed : IsIndexed id_of s.memberships
  pub retained : 1 ≤ count_in t (values s.memberships)

-- Over a write that keeps the tenant, a weight falls only where an active administrator of this
-- tenant stops being one.
weight-cases :
    (t : Text) (m n : Membership)
    → n.tenant_id ≡ m.tenant_id
    → (weight t m ≤ weight t n)
      ⊎ ((m.tenant_id ≡ t)
          × (is_active_administrator m ≡ true)
          × (is_active_administrator n ≡ false)
          × (weight t m ≤ 1))
unfolding weight
weight-cases t m n e = elim (Bool-cases (m.tenant_id == t)) [
  | inr other ↦ inl (rw (e, other) (omega arith))
  | inl own ↦ elim (Bool-cases (is_active_administrator m)) [
    | inr a ↦ inl (rw (own, a) (omega arith))
    | inl a ↦ elim (Bool-cases (is_active_administrator n)) [
      | inl b ↦ inl (rw (e, own, a, b) (omega arith))
      | inr b ↦ inr ((eq_iff m.tenant_id t).0 own, a, b, rw (own, a) (omega arith))
    ]
  ]
]

retained-put :
    (t u : Text) (s : Identity) (m n : Membership)
    → get s.memberships m.id ≡ some m
    → m.tenant_id ≡ u
    → n.tenant_id ≡ m.tenant_id
    → (is_active_administrator m ≡ true
        → is_active_administrator n ≡ false
        → 2 ≤ count_active_administrators s u)
    → 1 ≤ count_in t (values s.memberships)
    → 1 ≤ count_in t (values (put s.memberships m.id n))
retained-put t u s m n row here same spare h = elim (weight-cases t m n same) [
  | inl more ↦ omega (arith, sum-put (weight t) s.memberships m.id n m row)
  | inr (own, a, b, small) ↦
      let two : 2 ≤ count_in t (values s.memberships) =
        subst (λ k. 2 ≤ k)
          (count_lem s u ∙ ap (λ v. count_in v (values s.memberships)) (sym here ∙ own))
          (spare a b) in
      omega (arith, sum-put (weight t) s.memberships m.id n m row)
]

-- A write to a membership of a tenant that keeps its identifier and its tenant, and that leaves an
-- administrator in place unless another one remains.
pub write-IsAdministered :
    (t u id : Text) (s : Identity) (change : Membership → Membership) (m : Membership)
    → find_by_id s u id ≡ some m
    → (change m).id ≡ m.id
    → (change m).tenant_id ≡ m.tenant_id
    → (is_active_administrator m ≡ true
        → is_active_administrator (change m) ≡ false
        → 2 ≤ count_active_administrators s u)
    → IsAdministered t s
    → IsAdministered t (update u m.id change s)
unfolding update
write-IsAdministered t u id s change m found same_id same_tenant spare h =
    let (row, is_id, here) = find_by_id_sound s u id m h.indexed found in
    let again : find_by_id s u m.id ≡ some m =
      subst (λ i. find_by_id s u i ≡ some m) (sym is_id) found in
    let own_row : get s.memberships m.id ≡ some m =
      subst (λ i. get s.memberships i ≡ some m) (sym is_id) row in
    rw again (record {
      indexed =
          subst (λ i. IsIndexed id_of (put s.memberships i (change m))) same_id
            (IsIndexed-put id_of s.memberships (change m) h.indexed);
      retained = retained-put t u s m (change m) own_row here same_tenant spare h.retained;
    })
