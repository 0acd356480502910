-- ===== src/Credential/Principal/Standing.antt =====
-- The memberships that a caller reads of their own standing:
-- src/application/identity/describe-caller.use-case.ts.
use cubeforge_api.Prelude.{
  ◌≡◌, true, Bool, some, List, [], ◌∷◌, refl, inl, inr, In, All, filter, Bool-cases, Option-cases,
  subst, Text, sym, ◌==◌, ◌↔◌, ap, eq_iff, ◌∙◌,
}
use cubeforge_api.Prelude.Sort.{sort, insert, All-sort}
use cubeforge_api.Prelude.Dict.{Dict, get, values}
use cubeforge_api.Prelude.Dict.Indexed.{All-imp}
use cubeforge_api.Access.Entities.{Tenant, Person, Membership}
use cubeforge_api.Access.Decision.{
  AccessDecision, HasStanding, decide_access, decide_access-granted_iff, refused, granted,
}
use cubeforge_api.Credential.Principal.{
  StandingMembership, granted_memberships, standings_of, granted_in, Actor, Text, CallerStanding,
  caller_person_of, describe_caller, ok, describe_record, ◌>>=◌,
}
use cubeforge_api.Credential.Store.{Vault}
use cubeforge_api.Access.Authorize.{Actor}
use cubeforge_api.Errors.{ok, ◌>>=◌, ok-injective}

-- The entry comes of a membership of the person in a tenant that is there, where the person has
-- standing with the role.
pub record IsHeld (s : Vault) (p : Person) (g : StandingMembership) : Type 0 where
  pub tenant : Tenant
  pub membership : Membership
  pub row : In membership (values s.identity.memberships)
  pub own : membership.person_id ≡ p.id
  pub there : get s.identity.tenants membership.tenant_id ≡ some tenant
  pub standing : HasStanding tenant p (some membership) g.role
  pub same_id : g.tenant_id ≡ tenant.id
  pub same_name : g.tenant_name ≡ tenant.name

In-filter :
    {A : Type 0} (p : A → Bool) (xs : List A) (a : A) → In a (filter p xs) → In a xs × (p a ≡ true)
In-filter p [] a h = absurd h
In-filter p (x ∷ xs) a h = elim (Bool-cases (p x)) [
  | inl e ↦ elim (rw e at h) [
    | inl same ↦ (inl same, rw same e)
    | inr rest ↦ let (i, f) = In-filter p xs a rest in (inr i, f)
  ]
  | inr e ↦ let (i, f) = In-filter p xs a (rw e at h) in (inr i, f)
]

filter-In :
    {A : Type 0} (p : A → Bool) (xs : List A) (a : A) → In a xs → p a ≡ true → In a (filter p xs)
filter-In p [] a h e = absurd h
filter-In p (x ∷ xs) a (inl same) e = rw (← same, e) (inl refl)
filter-In p (x ∷ xs) a (inr h) e = elim (Bool-cases (p x)) [
  | inl f ↦ rw f (inr (filter-In p xs a h e))
  | inr f ↦ rw f (filter-In p xs a h e)
]

module _ {A : Type 0} (le : A → A → Bool) where
  insert-In : (x a : A) (ys : List A) → In a (x ∷ ys) → In a (insert le x ys)
  unfolding insert
  insert-In x a [] h = h
  insert-In x a (y ∷ ys) h = elim (Bool-cases (le x y)) [
    | inl e ↦ rw e h
    | inr e ↦ rw e (elim h [
      | inl same ↦ inr (insert-In x a ys (inl same))
      | inr (inl same) ↦ inl same
      | inr (inr rest) ↦ inr (insert-In x a ys (inr rest))
    ])
  ]

  sort-In : (a : A) (xs : List A) → In a xs → In a (sort le xs)
  unfolding sort
  sort-In a [] h = h
  sort-In a (x ∷ xs) (inl same) = insert-In x a (sort le xs) (inl same)
  sort-In a (x ∷ xs) (inr h) = insert-In x a (sort le xs) (inr (sort-In a xs h))

All-In : {A : Type 0} (P : A → Type 0) (xs : List A) (a : A) → All P xs → In a xs → P a
All-In P [] a h i = absurd i
All-In P (x ∷ xs) a (q, h) (inl same) = subst P (sym same) q
All-In P (x ∷ xs) a (q, h) (inr i) = All-In P xs a h i

module _ (p : Person) (tenants : Dict Tenant) where
  -- As `IsHeld`, over some of the memberships.
  record Held (ms : List Membership) (g : StandingMembership) : Type 0 where
    tenant : Tenant
    membership : Membership
    row : In membership ms
    there : get tenants membership.tenant_id ≡ some tenant
    standing : HasStanding tenant p (some membership) g.role
    same_id : g.tenant_id ≡ tenant.id
    same_name : g.tenant_name ≡ tenant.name

  further :
      (m : Membership) (ms : List Membership) (g : StandingMembership) → Held ms g → Held (m ∷ ms) g
  further m ms g h = record {
    tenant = h.tenant;
    membership = h.membership;
    row = inr h.row;
    there = h.there;
    standing = h.standing;
    same_id = h.same_id;
    same_name = h.same_name;
  }

  entry_sound :
      (m : Membership) (ms : List Membership) (t : Tenant) (d : AccessDecision)
      (rest : List StandingMembership)
      → get tenants m.tenant_id ≡ some t
      → decide_access t p (some m) ≡ d
      → All (Held ms) rest
      → All (Held (m ∷ ms)) (granted_in d t rest)
  entry_sound m ms t (refused reason) rest there e h = All-imp rest (further m ms) h
  entry_sound m ms t (granted role) rest there e h = (
    record {
      tenant = t;
      membership = m;
      row = inl refl;
      there = there;
      standing = (decide_access-granted_iff t p (some m) role).0 e;
      same_id = refl;
      same_name = refl;
    },
    All-imp rest (further m ms) h,
  )

  entries_sound :
      (ms : List Membership) → All (Held ms) (granted_memberships p (standings_of tenants ms))
  unfolding granted_memberships standings_of
  entries_sound [] = tt
  entries_sound (m ∷ ms) = elim (Option-cases (get tenants m.tenant_id)) [
    | inl e ↦ rw e (All-imp _ (further m ms) (entries_sound ms))
    | inr (t, e) ↦
        rw e (entry_sound m ms t (decide_access t p (some m)) _ e refl (entries_sound ms))
  ]

  entry_in :
      (d : AccessDecision) (t : Tenant) (g : StandingMembership) (rest : List StandingMembership)
      → In g rest
      → In g (granted_in d t rest)
  entry_in (granted role) t g rest h = inr h
  entry_in (refused reason) t g rest h = h

  entry_first :
      (m : Membership) (t : Tenant) (g : StandingMembership) (rest : List StandingMembership)
      → HasStanding t p (some m) g.role
      → g.tenant_id ≡ t.id
      → g.tenant_name ≡ t.name
      → In g (granted_in (decide_access t p (some m)) t rest)
  entry_first m t g rest standing same_id same_name =
      rw ((decide_access-granted_iff t p (some m) g.role).1 standing)
        (inl (rw (← same_id, ← same_name) refl))

  entries_complete :
      (ms : List Membership) (m : Membership) (t : Tenant) (g : StandingMembership)
      → In m ms
      → get tenants m.tenant_id ≡ some t
      → HasStanding t p (some m) g.role
      → g.tenant_id ≡ t.id
      → g.tenant_name ≡ t.name
      → In g (granted_memberships p (standings_of tenants ms))
  unfolding granted_memberships standings_of
  entries_complete [] m t g row there standing same_id same_name = absurd row
  entries_complete (n ∷ ms) m t g (inl same) there standing same_id same_name =
      rw (← same, there) (entry_first m t g _ standing same_id same_name)
  entries_complete (n ∷ ms) m t g (inr row) there standing same_id same_name =
      let rest = entries_complete ms m t g row there standing same_id same_name in
      elim (Option-cases (get tenants n.tenant_id)) [
        | inl e ↦ rw e rest
        | inr (u, e) ↦ rw e (entry_in (decide_access u p (some n)) u g _ rest)
      ]

-- The person that an actor acts for alone, as the store holds it.
pub record Describes (s : Vault) (actor : Actor) (p : Person) : Type 0 where
  pub person_id : Text
  pub alone : caller_person_of actor ≡ ok person_id
  pub known : get s.identity.people person_id ≡ some p
  pub same : p.id ≡ person_id

module _ (le : Text → Text → Bool) (s : Vault) (actor : Actor) (p : Person)
    (c : CallerStanding) where
  abbrev listed : Text → List StandingMembership
  listed person_id = granted_memberships p (
      standings_of s.identity.tenants
        (filter (λ m. m.person_id == person_id) (values s.identity.memberships)))

  described :
      (person_id : Text)
      → caller_person_of actor ≡ ok person_id
      → get s.identity.people person_id ≡ some p
      → (describe_caller le actor s).0 ≡ ok c
      → sort (λ a b. le a.tenant_name b.tenant_name) (listed person_id) ≡ c.memberships
  unfolding describe_caller describe_record ◌>>=◌
  described person_id alone known h =
      ap (λ x. x.memberships) (ok-injective (rw (alone, known) at h))

  module _ (g : StandingMembership) (d : Describes s actor p)
      (h : (describe_caller le actor s).0 ≡ ok c) where
    abbrev mine : Membership → Bool
    mine m = m.person_id == d.person_id

    abbrev in_order : StandingMembership → StandingMembership → Bool
    in_order a b = le a.tenant_name b.tenant_name

    told : In g c.memberships → IsHeld s p g
    told i =
        let rows = filter mine (values s.identity.memberships) in
        let held =
          All-In (Held p s.identity.tenants rows) _ g
            (All-sort (Held p s.identity.tenants rows) in_order (listed d.person_id)
              (entries_sound p s.identity.tenants rows))
            (subst (In g) (sym (described d.person_id d.alone d.known h)) i) in
        let (row, own) = In-filter mine (values s.identity.memberships) held.membership held.row in
        record {
          tenant = held.tenant;
          membership = held.membership;
          row = row;
          own = (eq_iff held.membership.person_id d.person_id).0 own ∙ sym d.same;
          there = held.there;
          standing = held.standing;
          same_id = held.same_id;
          same_name = held.same_name;
        }

    is_told : IsHeld s p g → In g c.memberships
    is_told k =
        let rows = filter mine (values s.identity.memberships) in
        let own = (eq_iff k.membership.person_id d.person_id).1 (k.own ∙ d.same) in
        let row = filter-In mine (values s.identity.memberships) k.membership k.row own in
        subst (In g) (described d.person_id d.alone d.known h) (
          sort-In in_order g (listed d.person_id) (
            entries_complete p s.identity.tenants rows k.membership k.tenant g row k.there
              k.standing k.same_id k.same_name))

  -- The memberships that a caller who is a person the store holds is told of are exactly those of
  -- this person, in tenants that are there, with which the person has standing, each with its role.
  pub describe_caller-memberships_iff :
      (g : StandingMembership)
      → Describes s actor p
      → (describe_caller le actor s).0 ≡ ok c
      → In g c.memberships ↔ IsHeld s p g
  describe_caller-memberships_iff g d h = (told g d h, is_told g d h)
