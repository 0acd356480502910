-- ===== src/Members/Provisioning.antt =====
-- A new tenant, whichever of the steps fail: src/application/tenant/provision-tenant.use-case.ts.
use cubeforge_api.Prelude.{
  ◌≤◌, ◌≡◌, false, none, some, Text, Bool-cases, Date, any, arith, ◌==◌, refl, true, eq_refl, ◌&&◌,
  ◌∙◌, inl, inr, Bool, subst, lit,
}
use cubeforge_api.Access.Directory.{
  count_active_administrators, insert_tenant, insert_membership, find_or_create_by_email,
  update_tenant_status, Identity, is_active_administrator,
}
use cubeforge_api.Access.Entities.{
  Tenant, is_tenant_active, Membership, create_membership, inactive, create_tenant,
}
use cubeforge_api.Errors.{Result, ok, err, Failure, ◌>>=◌, pure, Exec, guard, lift}
use cubeforge_api.Members.{
  ProvisionedTenant, install_administrator, recovered, Date, rescue, retire, run_in_tenant, admin,
  Bool, Actor, provision_tenant, lit, in_field, email_address,
}
use cubeforge_api.UnitOfWork.{Stores, run_as_operator, on_identity, run_in_tenant}
use cubeforge_api.Prelude.Dict.{get, values, get_self, put}
use cubeforge_api.Access.Directory.Counts.{weight, count_lem}
use cubeforge_api.Errors.Keeps.{bind-ok, outcome-bind}
use cubeforge_api.Access.Role.{admin}
use cubeforge_api.UnitOfWork.Atomic.{run_in_tenant-err, run_in_tenant-ok}
use cubeforge_api.Prelude.Dict.Sums.{sum-put_new}
use cubeforge_api.Access.Authorize.{Actor, require_platform_operator}
use cubeforge_api.Access.Identifiers.{email_address}

-- What has become of the tenant under an identifier: it has an administrator, or it is not there, or
-- it is there and inactive.
pub data Settled (id : Text) : Result ProvisionedTenant × Stores → Type 0 where
  administered :
      (p : ProvisionedTenant) (s : Stores)
      → get s.identity.tenants id ≡ some p.tenant
      → 1 ≤ count_active_administrators s.identity id
      → Settled id (ok p, s)
  absent : (e : Failure) (s : Stores) → get s.identity.tenants id ≡ none → Settled id (err e, s)
  retired :
      (e : Failure) (s : Stores) (t : Tenant)
      → get s.identity.tenants id ≡ some t
      → is_tenant_active t ≡ false
      → Settled id (err e, s)

-- The tenant is in the table, or the insertion has thrown and changed nothing.
inserted :
    (t : Tenant) (s : Stores) (x : Unit {0})
    → (on_identity (run_as_operator (insert_tenant t)) s).0 ≡ ok x
    → get (on_identity (run_as_operator (insert_tenant t)) s).1.identity.tenants t.id ≡ some t
unfolding run_as_operator insert_tenant
inserted t s x h = elim (Bool-cases (any (λ e. e.name == t.name) (values s.identity.tenants))) [
  | inl taken ↦ absurd (ground (arith, rw taken at h))
  | inr free ↦ rw free (get_self s.identity.tenants t.id t)
]

not_inserted :
    (t : Tenant) (s : Stores) (e : Failure)
    → (on_identity (run_as_operator (insert_tenant t)) s).0 ≡ err e
    → (on_identity (run_as_operator (insert_tenant t)) s).1.identity ≡ s.identity
unfolding run_as_operator insert_tenant
not_inserted t s e h = elim (Bool-cases (any (λ u. u.name == t.name) (values s.identity.tenants))) [
  | inl taken ↦ rw taken refl
  | inr free ↦ absurd (ground (arith, rw free at h))
]

inserted_rows :
    (t : Tenant) (s : Stores)
    → (on_identity (run_as_operator (insert_tenant t)) s).1.identity.memberships
      ≡ s.identity.memberships
unfolding run_as_operator insert_tenant
inserted_rows t s = elim (Bool-cases (any (λ e. e.name == t.name) (values s.identity.tenants))) [
  | inl taken ↦ rw taken refl
  | inr free ↦ rw free refl
]

weighs : (m : Membership) → is_active_administrator m ≡ true → weight m.tenant_id m ≡ 1
unfolding weight
weighs m rules = rw (eq_refl m.tenant_id, rules) refl

admin_counts :
    (m : Membership) (i : Identity) (x : Unit {0})
    → get i.memberships m.id ≡ none
    → is_active_administrator m ≡ true
    → (insert_membership m i).0 ≡ ok x
    → (1 ≤ count_active_administrators (insert_membership m i).1 m.tenant_id)
      × ((insert_membership m i).1.tenants ≡ i.tenants)
unfolding insert_membership weight
admin_counts m i x fresh rules h =
    elim (Bool-cases (
      any (λ e. e.tenant_id == m.tenant_id && e.person_id == m.person_id) (values i.memberships))) [
        | inl taken ↦ absurd (ground (arith, rw taken at h))
        | inr free ↦ rw free (
          rw (count_lem (record i { memberships = put i.memberships m.id m }) m.tenant_id) (
              omega (
                arith,
                sum-put_new (weight m.tenant_id) i.memberships m.id m fresh,
                weighs m rules,
              )),
          refl,
        )
      ]

tables-find_or_create :
    (candidate email : Text) (now : Date) (i : Identity)
    → ((find_or_create_by_email candidate email now i).1.memberships ≡ i.memberships)
      × ((find_or_create_by_email candidate email now i).1.tenants ≡ i.tenants)
unfolding find_or_create_by_email
tables-find_or_create candidate email now i = (ground arith, ground arith)

-- The second unit of work, where it returns.
installed :
    (now : Date) (candidate id tenant address person : Text) (i : Identity)
    → get i.memberships id ≡ none
    → (install_administrator now candidate id tenant address i).0 ≡ ok person
    → (1
        ≤ count_active_administrators
            (install_administrator now candidate id tenant address i).1
            tenant)
      × ((install_administrator now candidate id tenant address i).1.tenants ≡ i.tenants)
unfolding install_administrator create_membership
installed now candidate id tenant address person i fresh h =
    let one = bind-ok (find_or_create_by_email candidate address now) _ i person h in
    let m = create_membership id tenant one.value admin now in
    let i1 = (find_or_create_by_email candidate address now i).1 in
    let (rows, tenants) = tables-find_or_create candidate address now i in
    let two = bind-ok (insert_membership m) _ i1 person one.rest in
    let (counts, kept) = admin_counts m i1 two.value (rw rows fresh) refl two.first in
    let after = one.same ∙ two.same in (rw after counts, rw after (kept ∙ tenants))

module _ {S A : Type 0} (recover : S → S) where
  recovered-err :
      (p : Result A × S) (e : Failure)
      → (recovered recover p).0 ≡ err e
      → (p.0 ≡ err e) × ((recovered recover p).1 ≡ recover p.1)
  recovered-err (ok a, s) e h = absurd (ground (arith, h))
  recovered-err (err x, s) e h = (h, refl)

  recovered-ok :
      (p : Result A × S) (a : A)
      → (recovered recover p).0 ≡ ok a
      → (p.0 ≡ ok a) × ((recovered recover p).1 ≡ p.1)
  recovered-ok (ok b, s) a h = (h, refl)
  recovered-ok (err x, s) a h = absurd (ground (arith, h))

-- A tenant that is there is inactive once it is retired.
retired_row :
    (t : Tenant) (s : Stores)
    → get s.identity.tenants t.id ≡ some t
    → get (retire t.id s).identity.tenants t.id ≡ some (record t { status = inactive })
unfolding update_tenant_status
retired_row t s there = rw there (get_self s.identity.tenants t.id (record t { status = inactive }))

module _ (now : Date) (candidate id address : Text) where
  settled_second :
      (t : Tenant) (s : Stores)
      → get s.identity.tenants t.id ≡ some t
      → get s.identity.memberships id ≡ none
      → Settled t.id (
          (rescue
                (retire t.id)
                (run_in_tenant (on_identity (install_administrator now candidate id t.id address)))
              >>= λ person. pure (record { tenant = t; administrator_person_id = person }))
            s)
  unfolding is_tenant_active
  settled_second t s there fresh =
      let install = install_administrator now candidate id t.id address in
      let body : Exec Stores Text = run_in_tenant (on_identity install) in
      outcome-bind (Settled t.id) (rescue (retire t.id) body) _ s
        (λ e h.
          let (failed, after) = recovered-err (retire t.id) (body s) e h in
          let back = run_in_tenant-err (on_identity install) s e failed in
          let row = retired_row t (body s).1 (rw back.identity there) in
          retired e _ (record t { status = inactive }) (rw after row) refl)
        (λ person h.
          let (done, after) = recovered-ok (retire t.id) (body s) person h in
          let (work, kept) = run_in_tenant-ok install s person done in
          let (counts, tenants) =
            installed now candidate id t.id address person s.identity fresh work in
          administered _ _ (rw (after, kept, tenants) there) (rw (after, kept) counts))

same_id :
    (new_id name : Text) (now : Date) (t : Tenant)
    → create_tenant new_id name now ≡ ok t
    → t.id ≡ new_id
unfolding create_tenant
same_id new_id name now t h = ground (arith, h)

guard-Settled :
    (id : Text) (b : Bool) (f : Failure) (k : Unit {0} → Exec Stores ProvisionedTenant) (s : Stores)
    → get s.identity.tenants id ≡ none
    → Settled id (k tt s)
    → Settled id ((guard b f >>= k) s)
unfolding ◌>>=◌
guard-Settled id true f k s free h = h
guard-Settled id false f k s free h = absent f s free

module _ (lower : Text → Text) (now : Date) (new_id candidate id : Text) (actor : Actor)
    (name email : Text) (s : Stores) where
  -- The steps after the tenant is inserted.
  abbrev second : Tenant → Text → Exec Stores ProvisionedTenant
  second t address =
      rescue (retire t.id)
        (run_in_tenant (on_identity (install_administrator now candidate id t.id address)))
      >>= λ person. pure (record { tenant = t; administrator_person_id = person })

  settled_first :
      (t : Tenant) (address : Text)
      → t.id ≡ new_id
      → get s.identity.tenants new_id ≡ none
      → get s.identity.memberships id ≡ none
      → Settled new_id
          ((on_identity (run_as_operator (insert_tenant t)) >>= λ _. second t address) s)
  settled_first t address same free fresh =
      let insert = on_identity (run_as_operator (insert_tenant t)) in
      outcome-bind (Settled new_id) insert _ s (λ e h. absent e _ (rw (not_inserted t s e h) free))
        (λ x h.
          subst (λ i. Settled i (second t address (insert s).1)) same
            (settled_second now candidate id address t (insert s).1 (inserted t s x h)
              (rw (inserted_rows t s) fresh)))

  -- Where the identifiers of the new tenant and the new membership are not in use, and whatever the
  -- caller, the name and the address are: if provisioning returns, the tenant that it answers is
  -- there and has an active administrator; if it throws, the tenant is not there or it is inactive.
  pub provision_tenant-settles :
      get s.identity.tenants new_id ≡ none
      → get s.identity.memberships id ≡ none
      → Settled new_id (provision_tenant lower now new_id candidate id actor name email s)
  unfolding provision_tenant
  provision_tenant-settles free fresh =
      outcome-bind (Settled new_id) (lift (require_platform_operator actor)) _ s
        (λ e _. absent e s free)
        (λ _ _. guard-Settled new_id _ _ _ s free (
          outcome-bind (Settled new_id)
            (lift (in_field (lit "administratorEmail") (email_address lower email))) _ s
            (λ e _. absent e s free)
            (λ address _.
              outcome-bind (Settled new_id) (lift (create_tenant new_id name now)) _ s
                (λ e _. absent e s free)
                (λ t made. settled_first t address (same_id new_id name now t made) free fresh))))
