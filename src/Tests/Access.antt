-- ===== src/Tests/Access.antt =====
-- Who may act, and the administrators of a tenant.
use cubeforge_api.Prelude.{◌≤◌, some, [], ◌∷◌, ◌==◌, ◌≡◌, ◌↔◌, refl, arith, lit}
use cubeforge_api.Access.Role.{Role}
use cubeforge_api.Tests.Inventory.{acme, ann, link, stores}
use cubeforge_api.Access.Decision.{decide_access, granted, HasStanding, decide_access-granted_iff}
use cubeforge_api.Access.Entities.{Membership, is_membership_active}
use cubeforge_api.UnitOfWork.{Stores}
use cubeforge_api.Access.Authorize.{Actor, tenant_member, authorize_caller_in_tenant}
use cubeforge_api.Prelude.Dict.{get}
use cubeforge_api.Access.Directory.{count_active_administrators, memberships_of}
use cubeforge_api.Errors.{ok}
use cubeforge_api.Members.{change_member_role, revoke}
use cubeforge_api.Prelude.Dict.Indexed.{IsIndexed}
use cubeforge_api.Access.Directory.Counts.{id_of}
use cubeforge_api.Members.Requests.{Reach-retains, next, here, change, withdraw}
use cubeforge_api.Access.Authorize.Standing.{MayAct, authorize_caller_in_tenant_iff}

decide_access-granted_iff_example :
    (decide_access acme ann (some link) ≡ granted Role.editor)
    ↔ HasStanding acme ann (some link) Role.editor
decide_access-granted_iff_example = decide_access-granted_iff acme ann (some link) Role.editor

abbrev first_admin : Membership
first_admin = record link { role = Role.admin }

abbrev second_admin : Membership
second_admin = record link { id = lit "m2"; person_id = lit "bob"; role = Role.admin }

abbrev run_by_two : Stores
run_by_two = record stores {
  identity = record stores.identity {
    memberships = (lit "m1", first_admin) ∷ (lit "m2", second_admin) ∷ [];
  };
}

abbrev ann_asks : Actor
ann_asks = tenant_member (lit "ann") (lit "acme")

-- The second administrator becomes a viewer; then the first, who is the last one left, asks to be
-- revoked.
abbrev demoted : Stores
demoted = (change_member_role ann_asks (lit "m2") (lit "viewer") run_by_two).1

abbrev at_last : Stores
at_last = (revoke ann_asks (lit "m1") demoted).1

keyed : IsIndexed id_of run_by_two.identity.memberships
unfolding get ◌==◌
keyed = (refl, refl, (refl, refl, tt))

two : 1 ≤ count_active_administrators run_by_two.identity (lit "acme")
unfolding count_active_administrators memberships_of is_membership_active ◌==◌
two = ground arith

Reach-retains_example : 1 ≤ count_active_administrators at_last.identity (lit "acme")
Reach-retains_example =
    Reach-retains (lit "acme") run_by_two at_last keyed two
      (next (next here (change ann_asks (lit "m2") (lit "viewer"))) (withdraw ann_asks (lit "m1")))

authorize_caller_in_tenant_iff_example :
    (authorize_caller_in_tenant stores.identity (lit "acme") ann_asks (Role.editor ∷ [])
      ≡ ok Role.editor)
    ↔ MayAct stores.identity (lit "acme") (Role.editor ∷ []) ann_asks Role.editor
authorize_caller_in_tenant_iff_example =
    authorize_caller_in_tenant_iff stores.identity (lit "acme") (Role.editor ∷ []) ann_asks
      Role.editor
