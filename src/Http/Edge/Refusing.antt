-- ===== src/Http/Edge/Refusing.antt =====
-- What a caller is told whom the guard of src/adapters/http/access/access.guard.ts refuses, by
-- src/adapters/http/domain-error.filter.ts.
use cubeforge_api.Prelude.{
  none, some, Bool, Option, List, Text, ◌≡◌, inl, inr, refl, sym, arith, true, subst, ◌∙◌,
}
use cubeforge_api.Access.Authorize.{
  tenant_member, machine, AuthorizedActor, authorize_in_tenant, Actor, platform_operator, person,
}
use cubeforge_api.Errors.{Failure, violation, not_found, err, Result, asks, pure, err-injective}
use cubeforge_api.Http.Filter.{reply_to, refused, not_found_response}
use cubeforge_api.UnitOfWork.{Stores, run_in_tenant}
use cubeforge_api.Access.Authorize.Refusals.{Refuses, authorize_in_tenant-Refuses}
use cubeforge_api.Access.Role.{Role}
use cubeforge_api.Http.Guard.{
  enter_tenant, can_activate, enter_as_operator, enter_as_person, enter_resolved,
}
use cubeforge_api.Errors.Keeps.{outcome-bind}
use cubeforge_api.Http.Declaration.{AccessDeclaration, in_tenant, public, operator, any_person}
use cubeforge_api.UnitOfWork.Atomic.{run_in_tenant-asks}

-- Told as an absence.
abbrev pub IsAbsence : Failure → Type 0
IsAbsence e = reply_to e ≡ refused not_found_response

Refuses-IsAbsence : (e : Failure) → Refuses e → IsAbsence e
unfolding reply_to
Refuses-IsAbsence e (inl h) = rw h refl
Refuses-IsAbsence e (inr h) = rw h refl

absent_IsAbsence : (e : Failure) → violation not_found ≡ e → IsAbsence e
absent_IsAbsence e h = Refuses-IsAbsence e (inl (sym h))

key-IsAbsence :
    (st : Stores) (path : Option Text) (roles : List Role) (machines : Bool) (k t : Text) (r : Role)
    (e : Failure)
    → (enter_tenant roles machines path (machine k t r) st).0 ≡ err e
    → IsAbsence e
key-IsAbsence st path roles machines k t r e h = absent_IsAbsence e (ground arith)

reads_access : Text → Text → List Role → Stores → Result AuthorizedActor
reads_access p t roles s = authorize_in_tenant s.identity t (tenant_member p t) roles

member-IsAbsence :
    (st : Stores) (path : Option Text) (roles : List Role) (machines : Bool) (p t : Text)
    (e : Failure)
    → (enter_tenant roles machines path (tenant_member p t) st).0 ≡ err e
    → IsAbsence e
unfolding reads_access
member-IsAbsence st path roles machines p t =
    outcome-bind (λ o. (e : Failure) → o.0 ≡ err e → IsAbsence e)
      (run_in_tenant (asks (reads_access p t roles))) (λ _. pure true) st
      (λ e' threw e same. Refuses-IsAbsence e (
        subst Refuses (err-injective same) (
          authorize_in_tenant-Refuses st.identity t (tenant_member p t) roles e'
            (sym (run_in_tenant-asks (reads_access p t roles) st) ∙ threw))))
      (λ a gave e same. cc)

operator-IsAbsence : (actor : Actor) (e : Failure) → enter_as_operator actor ≡ err e → IsAbsence e
operator-IsAbsence (platform_operator p) e h = cc
operator-IsAbsence (person p) e h = absent_IsAbsence e (err-injective h)
operator-IsAbsence (tenant_member p t) e h = absent_IsAbsence e (err-injective h)
operator-IsAbsence (machine k t r) e h = absent_IsAbsence e (err-injective h)

person-IsAbsence : (actor : Actor) (e : Failure) → enter_as_person actor ≡ err e → IsAbsence e
person-IsAbsence (platform_operator p) e h = cc
person-IsAbsence (person p) e h = cc
person-IsAbsence (tenant_member p t) e h = absent_IsAbsence e (err-injective h)
person-IsAbsence (machine k t r) e h = absent_IsAbsence e (err-injective h)

tenant-IsAbsence :
    (st : Stores) (path : Option Text) (roles : List Role) (machines : Bool) (actor : Actor)
    (e : Failure)
    → (enter_tenant roles machines path actor st).0 ≡ err e
    → IsAbsence e
tenant-IsAbsence st path roles machines (platform_operator p) e h =
    absent_IsAbsence e (err-injective h)
tenant-IsAbsence st path roles machines (person p) e h = absent_IsAbsence e (err-injective h)
tenant-IsAbsence st path roles machines (tenant_member p t) e h =
    member-IsAbsence st path roles machines p t e h
tenant-IsAbsence st path roles machines (machine k t r) e h =
    key-IsAbsence st path roles machines k t r e h

enter-IsAbsence :
    (d : AccessDeclaration) (path : Option Text) (actor : Option Actor) (st : Stores) (e : Failure)
    → (enter_resolved d path actor st).0 ≡ err e
    → IsAbsence e
enter-IsAbsence public path actor st e h = cc
enter-IsAbsence operator path none st e h = absent_IsAbsence e (err-injective h)
enter-IsAbsence any_person path none st e h = absent_IsAbsence e (err-injective h)
enter-IsAbsence (in_tenant roles machines) path none st e h = absent_IsAbsence e (err-injective h)
enter-IsAbsence operator path (some actor) st e h = operator-IsAbsence actor e h
enter-IsAbsence any_person path (some actor) st e h = person-IsAbsence actor e h
enter-IsAbsence (in_tenant roles machines) path (some actor) st e h =
    tenant-IsAbsence st path roles machines actor e h

-- Whoever the guard refuses, on whatever route, with whatever declaration and actor, is answered
-- as though what they asked for did not exist: the answer does not tell a route that is not theirs
-- from a tenant that is not there.
pub can_activate-refused :
    (d : Option AccessDeclaration) (path : Option Text) (actor : Option Actor) (st : Stores)
    (e : Failure)
    → (can_activate d path actor st).0 ≡ err e
    → reply_to e ≡ refused not_found_response
unfolding can_activate
can_activate-refused none path actor st e h = absent_IsAbsence e (err-injective h)
can_activate-refused (some d) path actor st e h = enter-IsAbsence d path actor st e h
