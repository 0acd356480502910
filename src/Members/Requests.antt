-- ===== src/Members/Requests.antt =====
-- Sequences of requests to src/application/membership.
use cubeforge_api.Prelude.{
  ◌≤◌, true, false, some, none, Text, ◌==◌, ◌≡◌, inl, inr, sym, ap, arith, Bool-cases, subst,
  Option, ℕ, ◌&&◌, Date, any, refl,
}
use cubeforge_api.Access.Directory.{
  Identity, find_by_id, is_active_administrator, count_active_administrators,
  find_or_create_by_email, update_role, update_status, insert_membership,
}
use cubeforge_api.Prelude.Dict.Indexed.{IsIndexed, IsIndexed-put}
use cubeforge_api.Access.Entities.{
  Membership, assert_tenant_retains_administrator, membership_active, revoke_membership, revoked,
  create_membership,
}
use cubeforge_api.Prelude.Dict.Sums.{sum-put_new}
use cubeforge_api.Access.Directory.Counts.{id_of, count_in, count_lem, weight}
use cubeforge_api.Prelude.Dict.{values, get}
use cubeforge_api.Members.{
  change_role_work, revoke_work, required, Actor, ok, Role, removes_by_role, create_member_work,
  Date, Stores, change_member_role, revoke, create_tenant_member,
}
use cubeforge_api.Access.Authorize.{Actor}
use cubeforge_api.Errors.{ok, ok-injective}
use cubeforge_api.Access.Role.{Role, role_eq, admin}
use cubeforge_api.Errors.Keeps.{keep-asks, keep-lift, keep-bind}
use cubeforge_api.Members.Retain.{IsAdministered, write-IsAdministered}
use cubeforge_api.UnitOfWork.{Stores}
use cubeforge_api.UnitOfWork.Atomic.{run_in_tenant-keeps}

required-eq-ok : {A : Type 0} (o : Option A) (a : A) → required o ≡ ok a → o ≡ some a
required-eq-ok none a h = cc
required-eq-ok (some b) a h = ap some (ok-injective h)

spare-of_role :
    (n : ℕ) (m : Membership) (r : Role) (x : Unit {0})
    → assert_tenant_retains_administrator n (removes_by_role m r) ≡ ok x
    → is_active_administrator m ≡ true
    → is_active_administrator (record m { role = r }) ≡ false
    → 2 ≤ n
unfolding assert_tenant_retains_administrator
spare-of_role n m r x h a b = ground arith

spare-of_revoke :
    (n : ℕ) (m : Membership) (x : Unit {0})
    → assert_tenant_retains_administrator n (membership_active m.status && role_eq m.role admin)
      ≡ ok tt
    → is_active_administrator m ≡ true
    → 2 ≤ n
unfolding assert_tenant_retains_administrator
spare-of_revoke n m x h a = ground arith

id-revoke_membership : (m : Membership) → (revoke_membership m).id ≡ m.id
unfolding revoke_membership
id-revoke_membership m = ground arith

status-revoke_membership : (m : Membership) → (revoke_membership m).status ≡ revoked
unfolding revoke_membership
status-revoke_membership m = ground arith

memberships-find_or_create_by_email :
    (candidate email : Text) (now : Date) (s : Identity)
    → (find_or_create_by_email candidate email now s).1.memberships ≡ s.memberships
unfolding find_or_create_by_email
memberships-find_or_create_by_email candidate email now s = ground arith

IsAdministered-of_memberships :
    (t : Text) (s s' : Identity)
    → s'.memberships ≡ s.memberships
    → IsAdministered t s
    → IsAdministered t s'
IsAdministered-of_memberships t s s' e h = record {
  indexed = subst (IsIndexed id_of) (sym e) h.indexed;
  retained = subst (λ d. 1 ≤ count_in t (values d)) (sym e) h.retained;
}

fresh-in :
    (s s' : Identity) (id : Text)
    → s'.memberships ≡ s.memberships
    → get s.memberships id ≡ none
    → get s'.memberships id ≡ none
fresh-in s s' id e h = rw (e) h

module _ (t : Text) where
  change_role_work-IsAdministered :
      (u : Text) (actor : Actor) (id role : Text) (s : Identity)
      → IsAdministered t s
      → IsAdministered t (change_role_work u actor id role s).1
  unfolding change_role_work update_role
  change_role_work-IsAdministered u actor id role s h = keep-asks (IsAdministered t) _ _ s h λ a _.
      keep-asks (IsAdministered t) _ _ s h λ r _. keep-asks (IsAdministered t) _ _ s h λ m found.
        keep-asks (IsAdministered t) _ _ s h λ x kept.
          write-IsAdministered t u id s (λ n. record n { role = r }) m (required-eq-ok _ m found)
            refl refl (spare-of_role _ m r x kept) h

  revoked_write :
      (u id : Text) (s : Identity) (m : Membership) (x : Unit {0})
      → find_by_id s u id ≡ some m
      → assert_tenant_retains_administrator
          (count_active_administrators s u)
          (membership_active m.status && role_eq m.role admin)
        ≡ ok x
      → IsAdministered t s
      → IsAdministered t (update_status u (revoke_membership m).id (revoke_membership m).status s)
  unfolding update_status
  revoked_write u id s m x found kept h =
      rw (id-revoke_membership m, status-revoke_membership m)
        (write-IsAdministered t u id s (λ n. record n { status = revoked }) m found refl refl
          (λ a b. spare-of_revoke _ m x kept a) h)

  revoke_work-IsAdministered :
      (u : Text) (actor : Actor) (id : Text) (s : Identity)
      → IsAdministered t s
      → IsAdministered t (revoke_work u actor id s).1
  unfolding revoke_work update_status
  revoke_work-IsAdministered u actor id s h = keep-asks (IsAdministered t) _ _ s h λ a _.
      keep-asks (IsAdministered t) _ _ s h λ m found.
        keep-asks (IsAdministered t) _ _ s h
          λ x kept. revoked_write u id s m x (required-eq-ok _ m found) kept h

  insert_membership-IsAdministered :
      (m : Membership) (s : Identity)
      → get s.memberships m.id ≡ none
      → IsAdministered t s
      → IsAdministered t (insert_membership m s).1
  unfolding insert_membership
  insert_membership-IsAdministered m s fresh h =
      elim (Bool-cases (
        any (λ e. e.tenant_id == m.tenant_id && e.person_id == m.person_id)
          (values s.memberships))) [
            | inl taken ↦ rw taken h
            | inr free ↦ rw free (record {
              indexed = IsIndexed-put id_of s.memberships m h.indexed;
              retained =
                  omega (arith, h.retained, sum-put_new (weight t) s.memberships m.id m fresh);
            })
          ]

  create_member_work-IsAdministered :
      (lower : Text → Text) (now : Date) (candidate id u : Text) (actor : Actor) (email role : Text)
      (s : Identity)
      → get s.memberships id ≡ none
      → IsAdministered t s
      → IsAdministered t (create_member_work lower now candidate id u actor email role s).1
  unfolding create_member_work create_membership
  create_member_work-IsAdministered lower now candidate id u actor email role s fresh h =
      keep-asks (IsAdministered t) _ _ s h λ a _. keep-lift (IsAdministered t) _ _ s h λ r _.
        keep-lift (IsAdministered t) _ _ s h λ address _.
          let s' = (find_or_create_by_email candidate address now s).1 in
          let same = memberships-find_or_create_by_email candidate address now s in
          let h' : IsAdministered t s' = IsAdministered-of_memberships t s s' same h in
          keep-bind (IsAdministered t) _ _ s (λ e _. h')
            (λ person_id _.
              let m = create_membership id u person_id r now in
              let h2 = insert_membership-IsAdministered m s' (fresh-in s s' id same fresh) h' in
              keep-bind (IsAdministered t) _ _ s' (λ e _. h2) (λ _ _. h2))

-- One request to the members of some tenant, by anyone, with whatever arguments. The identifier
-- that the generator supplies for a new membership is not in use.
pub data Step (s : Stores) : Stores → Type 0 where
  change : (actor : Actor) (id role : Text) → Step s (change_member_role actor id role s).1
  withdraw : (actor : Actor) (id : Text) → Step s (revoke actor id s).1
  enrol :
      (lower : Text → Text) (now : Date) (candidate id : Text) (actor : Actor) (email role : Text)
      → get s.identity.memberships id ≡ none
      → Step s (create_tenant_member lower now candidate id actor email role s).1

pub data Reach (s : Stores) : Stores → Type 0 where
  here : Reach s s
  next : {u v : Stores} → Reach s u → Step u v → Reach s v

module _ (t : Text) where
  abbrev Holds : Stores → Type 0
  Holds s = IsAdministered t s.identity

  Step-IsAdministered : {s s' : Stores} → Step s s' → Holds s → Holds s'
  unfolding change_member_role revoke create_tenant_member
  Step-IsAdministered {s} (change actor id role) h = keep-lift Holds _ _ s h λ u _.
      run_in_tenant-keeps (IsAdministered t) (change_role_work u actor id role) s h
        (change_role_work-IsAdministered t u actor id role s.identity h)
  Step-IsAdministered {s} (withdraw actor id) h = keep-lift Holds _ _ s h λ u _.
      run_in_tenant-keeps (IsAdministered t) (revoke_work u actor id) s h
        (revoke_work-IsAdministered t u actor id s.identity h)
  Step-IsAdministered {s} (enrol lower now candidate id actor email role fresh) h =
      keep-lift Holds _ _ s h λ u _.
        run_in_tenant-keeps (IsAdministered t)
          (create_member_work lower now candidate id u actor email role) s h
          (create_member_work-IsAdministered t lower now candidate id u actor email role s.identity
            fresh h)

  Reach-IsAdministered : {s s' : Stores} → Reach s s' → Holds s → Holds s'
  Reach-IsAdministered here h = h
  Reach-IsAdministered (next r st) h = Step-IsAdministered st (Reach-IsAdministered r h)

-- From a store whose memberships are keyed by their own identifiers, a tenant with an active
-- administrator keeps one through any sequence of role changes, revocations and new members, in
-- this tenant or in any other, by whoever asks, if each new membership has an identifier that is not
-- in use.
pub Reach-retains :
    (t : Text) (s s' : Stores)
    → IsIndexed id_of s.identity.memberships
    → 1 ≤ count_active_administrators s.identity t
    → Reach s s'
    → 1 ≤ count_active_administrators s'.identity t
Reach-retains t s s' indexed one r =
    let start : IsAdministered t s.identity = record {
      indexed = indexed;
      retained = subst (λ n. 1 ≤ n) (count_lem s.identity t) one;
    } in
    subst (λ n. 1 ≤ n) (sym (count_lem s'.identity t)) (Reach-IsAdministered t r start).retained
