-- ===== src/Cube/Rewrite/Confines.antt =====
-- What the filters of a query that `queryRewrite` of cube/configuration.js gives let through.
use cubeforge_api.Prelude.{
  Bool, true, false, Option, none, some, List, [], ◌∷◌, ◌++◌, map, Text, ◌==◌, if◌then◌else◌, ◌≡◌,
  ◌≢◌, ◌↔◌, ◌⊎◌, inl, inr, refl, sym, ap, ◌∙◌, arith, Option-cases, includes, lit, eq_iff, In, all,
  includes-map,
}
use cubeforge_api.Semantic.Model.{Raw, raw_text, raw_number, raw_null, other}
use cubeforge_api.Prelude.Dict.{Dict, get}
use cubeforge_api.Cube.Rewrite.{
  Filter, cubes_named_in, ModelQuery, SecurityContext, named, tenant_in, query_rewrite, confining,
  cube_of, tenant_member, members_in, tenant_claim,
}
use cubeforge_api.Errors.{ok, err, thrown}
use cubeforge_api.Cube.Rewrite.Sets.{
  included_holds, all-append, includes-set_from, all-map, all_included, image_of,
}
use cubeforge_api.Cube.Rewrite.Naming.{IsOf, members_iff}

-- A row of what is queried, by the names of its members.
abbrev pub Row : Type 0
Row = Dict Text

abbrev is_one_of : Option Text → List Text → Bool
is_one_of none values = false
is_one_of (some value) values = includes values value

-- Whether a filter lets a row through; what operators other than `equals` do is a parameter.
abbrev pub passes : (Row → Filter → Bool) → Row → Filter → Bool
passes judge row f =
    if f.operator == lit "equals" then is_one_of (get row f.member) f.values else judge row f

only_tenant :
    (o : Option Text) (tenant : Text) → (is_one_of o (tenant ∷ []) ≡ true) ↔ (o ≡ some tenant)
unfolding includes
only_tenant none tenant = (λ h. cc, λ h. cc)
only_tenant (some t) tenant =
    (λ h. ground (arith, eq_iff tenant t), λ h. ground (arith, eq_iff tenant t))

passes-confining :
    (judge : Row → Filter → Bool) (row : Row) (tenant cube : Text)
    → (passes judge row (confining tenant cube) ≡ true)
      ↔ (get row (tenant_member cube) ≡ some tenant)
unfolding ◌==◌
passes-confining judge row tenant cube = only_tenant (get row (tenant_member cube)) tenant

includes-cubes_named_in :
    (query : ModelQuery) (c : Text)
    → includes (cubes_named_in query) c ≡ includes (map cube_of (members_in query)) c
unfolding cubes_named_in includes
includes-cubes_named_in query c = includes-set_from [] (map cube_of (members_in query)) c

abbrev OfMembers : Text → ModelQuery → Row → Type 0
OfMembers tenant query row =
    (member : Text)
    → In member (members_in query)
    → get row (tenant_member (cube_of member)) ≡ some tenant

confined_members :
    (judge : Row → Filter → Bool) (row : Row) (tenant : Text) (query : ModelQuery)
    → (all (passes judge row) (map (confining tenant) (cubes_named_in query)) ≡ true)
      ↔ OfMembers tenant query row
confined_members judge row tenant query = (
  λ h member there. (passes-confining judge row tenant (cube_of member)).0 (
      included_holds (λ c. passes judge row (confining tenant c)) (cubes_named_in query)
        (sym (all-map (passes judge row) (confining tenant) (cubes_named_in query)) ∙ h)
        (cube_of member)
        (includes-cubes_named_in query (cube_of member)
          ∙ includes-map cube_of member (members_in query) there)),
  λ h.
      all-map (passes judge row) (confining tenant) (cubes_named_in query)
      ∙ all_included (λ c. passes judge row (confining tenant c)) (cubes_named_in query)
          (λ c i.
            let (member, there, e) =
              image_of cube_of (members_in query) c (sym (includes-cubes_named_in query c) ∙ i) in
            (passes-confining judge row tenant c).1
              (ap (λ d. get row (tenant_member d)) (sym e) ∙ h member there)),
)

confined_iff :
    (judge : Row → Filter → Bool) (row : Row) (tenant : Text) (query : ModelQuery)
    → (all (passes judge row) (map (confining tenant) (cubes_named_in query)) ≡ true)
      ↔ IsOf tenant query row
confined_iff judge row tenant query =
    let at_members = confined_members judge row tenant query in
    let at_names = members_iff tenant query row in
    (λ h. at_names.0 (at_members.0 h), λ h. at_members.1 (at_names.1 h))

-- Two queries that ask the same and may differ in their filters.
abbrev pub AsksSame : ModelQuery → ModelQuery → Type 0
AsksSame a b =
    (a.measures ≡ b.measures)
    × (a.dimensions ≡ b.dimensions)
    × (a.segments ≡ b.segments)
    × (a.time_dimensions ≡ b.time_dimensions)

-- A context that says which tenant it is for.
abbrev pub HasTenant : SecurityContext → Text → Type 0
HasTenant context tenant =
    (claims : Dict Raw) × (context ≡ some claims)
    × (get claims tenant_claim ≡ some (raw_text tenant))
    × (tenant ≢ [])

named-text : (v : Option Raw) (t : Text) → named v ≡ some t → (v ≡ some (raw_text t)) × (t ≢ [])
named-text (some (raw_text (c ∷ u))) t h = (cc, λ e. cc)
named-text (some (raw_text [])) t h = cc
named-text none t h = cc
named-text (some (raw_number n)) t h = cc
named-text (some raw_null) t h = cc
named-text (some other) t h = cc

tenant_in-HasTenant :
    (context : SecurityContext) (tenant : Text)
    → tenant_in context ≡ some tenant
    → HasTenant context tenant
unfolding tenant_in
tenant_in-HasTenant none tenant h = cc
tenant_in-HasTenant (some claims) tenant h =
    let (is_text, filled) = named-text (get claims tenant_claim) tenant h in
    (claims, refl, is_text, filled)

HasTenant-tenant_in :
    (context : SecurityContext) (tenant : Text)
    → HasTenant context tenant
    → tenant_in context ≡ some tenant
unfolding tenant_in
HasTenant-tenant_in context [] (claims, here, is_text, filled) = absurd (filled refl)
HasTenant-tenant_in context (c ∷ t) (claims, here, is_text, filled) = rw (here, is_text) refl

filtered_iff :
    (judge : Row → Filter → Bool) (row : Row) (tenant : Text) (query : ModelQuery)
    → (all (passes judge row) (query.filters ++ map (confining tenant) (cubes_named_in query))
        ≡ true)
      ↔ ((all (passes judge row) query.filters ≡ true) × IsOf tenant query row)
filtered_iff judge row tenant query =
    let split =
      all-append (passes judge row) query.filters (map (confining tenant) (cubes_named_in query)) in
    (
      λ h. (
        ground (arith, h, split),
        (confined_iff judge row tenant query).0 (ground (arith, h, split)),
      ),
      λ (own, is_of). ground (arith, own, (confined_iff judge row tenant query).1 is_of, split),
    )

some_is_not_none : {t : Text} → ¬ (some t ≡ none)
some_is_not_none h = cc

-- A query is rewritten or refused. It is rewritten exactly if its context has a tenant, a text
-- that is not empty. It then asks for the same, and its filters let a row through exactly if those
-- it came with do and the row has the tenant in the cube of each member that the query names as a
-- measure, a dimension, a segment or in a span of time, whatever the operators other than `equals`
-- do. The cube of a member that only a filter names is not held to the tenant.
pub query_rewrite-confines :
    (judge : Row → Filter → Bool) (query : ModelQuery) (context : SecurityContext)
    → ((tenant : Text) × (rewrite : ModelQuery) × (query_rewrite query context ≡ ok rewrite)
        × HasTenant context tenant
        × (AsksSame rewrite query)
        × ((row : Row)
            → (all (passes judge row) rewrite.filters ≡ true)
              ↔ ((all (passes judge row) query.filters ≡ true) × IsOf tenant query row)))
      ⊎ ((query_rewrite query context ≡ err thrown)
          × ((tenant : Text) → ¬ (HasTenant context tenant)))
unfolding query_rewrite
query_rewrite-confines judge query context = elim (Option-cases (tenant_in context)) [
  | inl unnamed ↦ inr (
    rw unnamed refl,
    λ tenant h. absurd (some_is_not_none (sym (HasTenant-tenant_in context tenant h) ∙ unnamed)),
  )
  | inr (tenant, is_named) ↦ inl (
    tenant,
    record query { filters = query.filters ++ map (confining tenant) (cubes_named_in query) },
    rw is_named refl,
    tenant_in-HasTenant context tenant is_named,
    (refl, refl, refl, refl),
    λ row. filtered_iff judge row tenant query,
  )
]
