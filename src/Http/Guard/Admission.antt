-- ===== src/Http/Guard/Admission.antt =====
-- Who gets past the guard: src/adapters/http/access/access.guard.ts.
use cubeforge_api.Prelude.{
  inl, inr, Bool, true, false, Option, some, List, Text, ◌≡◌, arith, ◌↔◌, none, sym, ◌∙◌, ap, refl,
}
use cubeforge_api.Http.Declaration.{AccessDeclaration, public, operator, any_person, in_tenant}
use cubeforge_api.Access.Authorize.Standing.{MayAct, authorize_caller_in_tenant_iff}
use cubeforge_api.UnitOfWork.{Stores, run_in_tenant}
use cubeforge_api.Http.Guard.{can_activate, names_tenant, tenant_in_path, enter_tenant}
use cubeforge_api.Access.Authorize.{
  Actor, platform_operator, machine, person, tenant_member, AuthorizedActor,
  authorize_caller_in_tenant, authorize_in_tenant,
}
use cubeforge_api.Access.Role.{Role, permits}
use cubeforge_api.Errors.{ok, Result, Result-cases, asks, pure}
use cubeforge_api.Errors.Keeps.{bind-ok, bind-returns}
use cubeforge_api.UnitOfWork.Atomic.{run_in_tenant-asks}

-- What a declaration admits, each way in by itself.
pub data MayEnter (st : Stores) (path : Option Text)
    : AccessDeclaration → Option Actor → Type 0 where
  anyone : (actor : Option Actor) → MayEnter st path public actor
  an_operator : (p : Text) → MayEnter st path operator (some (platform_operator p))
  a_person : (p : Text) → MayEnter st path any_person (some (person p))
  an_operator_in_person : (p : Text) → MayEnter st path any_person (some (platform_operator p))
  a_key :
      (key tenant : Text) (role : Role) (roles : List Role)
      → permits roles role ≡ true
      → names_tenant (tenant_in_path path) tenant ≡ true
      → MayEnter st path (in_tenant roles true) (some (machine key tenant role))
  a_member :
      (p tenant : Text) (role : Role) (roles : List Role) (machines : Bool)
      → MayAct st.identity tenant roles (tenant_member p tenant) role
      → MayEnter st path (in_tenant roles machines) (some (tenant_member p tenant))

key_sound :
    (st : Stores) (path : Option Text) (key tenant : Text) (role : Role) (roles : List Role)
    (machines : Bool)
    → (can_activate (some (in_tenant roles machines)) path (some (machine key tenant role)) st).0
      ≡ ok true
    → MayEnter st path (in_tenant roles machines) (some (machine key tenant role))
unfolding can_activate
key_sound st path key tenant role roles true h =
    a_key key tenant role roles (ground arith) (ground arith)
key_sound st path key tenant role roles false h = absurd (ground arith)

module _ (st : Stores) (path : Option Text) (p tenant : Text) (roles : List Role) where
  abbrev asked : Result AuthorizedActor
  asked = authorize_in_tenant st.identity tenant (tenant_member p tenant) roles

  abbrev reads : Stores → Result AuthorizedActor
  reads s = authorize_in_tenant s.identity tenant (tenant_member p tenant) roles

  abbrev opened : Result Bool
  opened = (enter_tenant roles true path (tenant_member p tenant) st).0

  member_sound : opened ≡ ok true → (a : AuthorizedActor) × (asked ≡ ok a)
  member_sound h =
      let one =
        bind-ok
          (run_in_tenant
            (asks (λ s. authorize_in_tenant s.identity tenant (tenant_member p tenant) roles)))
          (λ _. pure true) st true h in
      (one.value, sym (run_in_tenant-asks reads st) ∙ one.first)

  member_complete : (a : AuthorizedActor) → asked ≡ ok a → opened ≡ ok true
  member_complete a e =
      ap (λ r. r.0)
        (bind-returns (run_in_tenant (asks reads)) (λ _. pure true) st a
          (run_in_tenant-asks reads st ∙ e))

  role_of_asked :
      (a : AuthorizedActor)
      → asked ≡ ok a
      → authorize_caller_in_tenant st.identity tenant (tenant_member p tenant) roles ≡ ok a.role
  unfolding authorize_caller_in_tenant
  role_of_asked a e = rw e refl

  asked_of_role :
      (role : Role)
      → authorize_caller_in_tenant st.identity tenant (tenant_member p tenant) roles ≡ ok role
      → (a : AuthorizedActor) × (asked ≡ ok a)
  unfolding authorize_caller_in_tenant
  asked_of_role role h = elim (Result-cases asked) [
    | inl (a, e) ↦ (a, e)
    | inr (x, e) ↦ absurd (ground (arith, rw e at h))
  ]

module _ (st : Stores) (path : Option Text) where
  -- The request enters with some answer of the guard other than an error.
  enter_sound :
      (d : AccessDeclaration) (actor : Option Actor)
      → (can_activate (some d) path actor st).0 ≡ ok true
      → MayEnter st path d actor
  unfolding can_activate
  enter_sound public actor h = anyone actor
  enter_sound operator none h = absurd (ground arith)
  enter_sound any_person none h = absurd (ground arith)
  enter_sound (in_tenant roles machines) none h = absurd (ground arith)
  enter_sound operator (some (platform_operator p)) h = an_operator p
  enter_sound operator (some (person p)) h = absurd (ground arith)
  enter_sound operator (some (tenant_member p t)) h = absurd (ground arith)
  enter_sound operator (some (machine k t r)) h = absurd (ground arith)
  enter_sound any_person (some (platform_operator p)) h = an_operator_in_person p
  enter_sound any_person (some (person p)) h = a_person p
  enter_sound any_person (some (tenant_member p t)) h = absurd (ground arith)
  enter_sound any_person (some (machine k t r)) h = absurd (ground arith)
  enter_sound (in_tenant roles machines) (some (platform_operator p)) h = absurd (ground arith)
  enter_sound (in_tenant roles machines) (some (person p)) h = absurd (ground arith)
  enter_sound (in_tenant roles machines) (some (machine k t r)) h =
      key_sound st path k t r roles machines h
  enter_sound (in_tenant roles machines) (some (tenant_member p t)) h =
      let (a, e) = member_sound st path p t roles h in
      a_member p t a.role roles machines (
        (authorize_caller_in_tenant_iff st.identity t roles (tenant_member p t) a.role).0
          (role_of_asked st path p t roles a e))

  enter_complete :
      (d : AccessDeclaration) (actor : Option Actor)
      → MayEnter st path d actor
      → (can_activate (some d) path actor st).0 ≡ ok true
  unfolding can_activate
  enter_complete _ _ (anyone actor) = refl
  enter_complete _ _ (an_operator p) = refl
  enter_complete _ _ (a_person p) = refl
  enter_complete _ _ (an_operator_in_person p) = refl
  enter_complete _ _ (a_key k t r roles allowed here) = rw (allowed, here) refl
  enter_complete _ _ (a_member p t r roles machines acts) =
      let (a, e) =
        asked_of_role st path p t roles r
          ((authorize_caller_in_tenant_iff st.identity t roles (tenant_member p t) r).1 acts) in
      member_complete st path p t roles a e

  -- The guard lets a request through exactly if the declaration admits its caller: anyone where the
  -- route is public, an operator where it is the operators', a person or an operator where it is any
  -- person's, and where it names roles, a key, if the route admits keys, whose role is among them and
  -- whose tenant is the one that the path names, or a member who may act in that tenant with one of
  -- the roles.
  pub can_activate_iff :
      (d : AccessDeclaration) (actor : Option Actor)
      → ((can_activate (some d) path actor st).0 ≡ ok true) ↔ MayEnter st path d actor
  can_activate_iff d actor = (enter_sound d actor, enter_complete d actor)
