-- ===== src/Cube/Rewrite.antt =====
-- `queryRewrite` of cube/configuration.js.
pub mod Sets
pub mod Naming
pub mod Confines
use cubeforge_api.Prelude.{
  ◌+◌, not, Option, none, some, List, [], ◌∷◌, ◌++◌, map, Text, if◌then◌else◌, lit, nat_eq, add,
}
use cubeforge_api.Semantic.Model.{TimeDimension, Raw, raw_text}
use cubeforge_api.Prelude.Dict.{Dict, get}
use cubeforge_api.Errors.{Result, err, thrown, ok}

pub record Filter : Type 0 where
  pub member : Text
  pub operator : Text
  pub values : List Text

-- The fields of a query that `queryRewrite` reads or writes; an absent list is an empty one.
pub record ModelQuery : Type 0 where
  pub measures : List Text
  pub dimensions : List Text
  pub segments : List Text
  pub time_dimensions : List TimeDimension
  pub filters : List Filter

-- `TENANT_CLAIM`
abbrev pub tenant_claim : Text
tenant_claim = lit "tenantId"

-- `securityContext`, which may be missing or no object.
abbrev pub SecurityContext : Type 0
SecurityContext = Option (Dict Raw)

abbrev pub claim_in : SecurityContext → Option Raw
claim_in none = none
claim_in (some claims) = get claims tenant_claim

abbrev pub named : Option Raw → Option Text
named (some (raw_text [])) = none
named (some (raw_text (c ∷ t))) = some (c ∷ t)
named _ = none

-- The tenant of a context, where it is a string that is not empty.
unfoldable pub tenant_in : SecurityContext → Option Text
tenant_in context = named (claim_in context)

-- `String(member).split('.')[0]`
abbrev pub cube_of : Text → Text
cube_of [] = []
cube_of (c ∷ t) = let rest = cube_of t in if nat_eq c b'.' then [] else c ∷ rest

-- `members` of `cubesNamedIn`
abbrev pub members_in : ModelQuery → List Text
members_in query =
    ((query.measures ++ query.dimensions) ++ query.segments)
    ++ map (λ d. d.dimension) query.time_dimensions

-- `[...new Set(texts)]`, from the texts already in the set.
abbrev pub set_from : List Text → List Text → List Text
set_from seen [] = seen
set_from seen (t ∷ ts) = set_from (add seen t) ts

-- `cubesNamedIn`
unfoldable pub cubes_named_in : ModelQuery → List Text
cubes_named_in query = set_from [] (map cube_of (members_in query))

abbrev pub tenant_member : Text → Text
tenant_member cube = cube ++ lit ".tenant_id"

abbrev pub confining : Text → Text → Filter
confining tenant cube = record {
  member = tenant_member cube;
  operator = lit "equals";
  values = tenant ∷ [];
}

abbrev pub rewritten : ModelQuery → Option Text → Result ModelQuery
rewritten query none = err thrown
rewritten query (some tenant) = ok (record {
  measures = query.measures;
  dimensions = query.dimensions;
  segments = query.segments;
  time_dimensions = query.time_dimensions;
  filters = query.filters ++ map (confining tenant) (cubes_named_in query);
})

-- `queryRewrite`
unfoldable pub query_rewrite : ModelQuery → SecurityContext → Result ModelQuery
query_rewrite query context = rewritten query (tenant_in context)
