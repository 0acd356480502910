-- ===== src/Semantic/Model/Complete.antt =====
-- What the rows of an answer are: src/adapters/semantic/cube-model.ts below
-- src/application/semantic/ask-modelled-question.use-case.ts.
use cubeforge_api.Prelude.{
  suc, ◌≤◌, ◌||◌, Option, none, some, List, [], ◌∷◌, ◌++◌, map, Text, ◌≡◌, inl, inr, refl, ap, ◌∙◌,
  arith, length, Date, Bool-cases, is_invalid, map-append, includes, Bool, false, take, take-all,
  ◌==◌, ℕ,
}
use cubeforge_api.Errors.{ok, model_rejected}
use cubeforge_api.Semantic.Asking.{
  answered, ask_modelled_question, answered_from, ServedFrom, ModelledRow,
}
use cubeforge_api.Semantic.Asking.Bound.{then_ok, ask_modelled_question_iff}
use cubeforge_api.Semantic.Model.{
  Exchange, Raw, row_from, cube_ask_as, answer, answer_carried, load_for, flat_map, from_columns,
  measure_column, columns_of, CubeResult, value_of, require_well_formed_tenant, complete_through_in,
  answer_read, answer_in, asking_as, watermark_query,
}
use cubeforge_api.Semantic.Members.{grouping_member, MappedColumn}
use cubeforge_api.Semantic.Vocabulary.{
  GroupingName, grouping_shape, row_columns_of, measure_text, MeasureName,
}
use cubeforge_api.Semantic.Question.{ModelledQuestion, max_answer_rows}
use cubeforge_api.Prelude.Dict.{Dict, has, get, put, has-put}
use cubeforge_api.Access.Authorize.{Actor}
use cubeforge_api.Access.Identifiers.{require_well_formed_tenant}

length-map : {A B : Type 0} (f : A → B) (xs : List A) → length (map f xs) ≡ length xs
length-map f [] = refl
length-map f (x ∷ xs) = ap suc (length-map f xs)

rows_of_answer :
    (d e : Date) (s u : ServedFrom) (rows given : List ModelledRow)
    → answered_from s d given ≡ ok (answered e u rows)
    → rows ≡ given
unfolding answered_from
rows_of_answer d e s u rows given h = elim (Bool-cases (is_invalid d)) [
  | inl i ↦ absurd (ground (arith, rw i at h))
  | inr i ↦ ground (arith, rw i at h)
]

-- As many rows as a query's limit allows.
abbrev pub up_to : {A : Type 0} → Option ℕ → List A → List A
up_to none xs = xs
up_to (some n) xs = take n xs

module _ (x : Exchange) (actor : Actor) (asked : ModelledQuestion) (all : List (Dict Raw))
    (d : Date) (served : ServedFrom) (rows : List ModelledRow) where
  -- The rows come of one load of the question.
  record Loaded : Type 0 where
    context : Text
    result : CubeResult
    load : x.load context (load_for asked) ≡ ok result
    same : rows ≡ map (row_from asked) result.data_rows

  carried_sound :
      (context : Text) (o : Option Date)
      → answer_carried x context asked o ≡ ok (answered d served rows)
      → Loaded
  carried_sound context none h = absurd (ground (arith, h))
  carried_sound context (some carried) h =
      let (r, load, given) = then_ok (x.load context (load_for asked)) _ _ h in
      record {
        context = context;
        result = r;
        load = load;
        same = rows_of_answer _ d _ served rows _ given;
      }

  read_sound :
      (context : Text) (reported : CubeResult)
      → answer_read x asked context reported ≡ ok (answered d served rows)
      → Loaded
  read_sound context reported h =
      let (carried, _, given) =
        then_ok (complete_through_in x.date_from reported) (answer_carried x context asked) _ h in
      carried_sound context carried given

  context_sound :
      (context : Text) → answer_in x asked context ≡ ok (answered d served rows) → Loaded
  context_sound context h =
      let (reported, _, given) =
        then_ok (asking_as model_rejected (x.load context watermark_query))
          (answer_read x asked context) _ h in
      read_sound context reported given

  loaded : (tenant : Text) → cube_ask_as x tenant asked ≡ ok (answered d served rows) → Loaded
  unfolding cube_ask_as answer
  loaded tenant h =
      let (t, _, in_tenant) =
        then_ok (require_well_formed_tenant tenant) (λ _. answer x tenant asked) _ h in
      let (context, _, given) = then_ok (x.context_for tenant) (answer_in x asked) _ in_tenant in
      context_sound context given

  -- Where the layer sends at most as many of all the rows as the query's limit says, and the question
  -- carries the platform's limit: an answer that a caller gets has all the rows, and none is cut off.
  pub ask_modelled_question_complete :
      asked.limit ≡ max_answer_rows
      → ((context : Text) (r : CubeResult)
          → x.load context (load_for asked) ≡ ok r
          → r.data_rows ≡ up_to (load_for asked).limit all)
      → ask_modelled_question (cube_ask_as x) actor asked ≡ ok (answered d served rows)
      → rows ≡ map (row_from asked) all
  unfolding load_for
  ask_modelled_question_complete limit limited h =
      let a =
        (ask_modelled_question_iff (cube_ask_as x) actor asked (answered d served rows)).0 h in
      let l = loaded a.tenant a.answers in
      let sent = limited l.context l.result l.load in
      let count : length rows ≡ length (take (suc asked.limit) all) =
        ap length l.same ∙ (length-map (row_from asked) l.result.data_rows ∙ ap length sent) in
      let few : length (take (suc asked.limit) all) ≤ asked.limit =
        ground (arith, count, a.bounded, limit) in
      l.same ∙ ap (map (row_from asked)) (sent ∙ take-all asked.limit all few)

-- The columns that the vocabulary publishes for a question.
abbrev pub published_columns : ModelledQuestion → List Text
published_columns asked =
    map measure_text asked.measures
    ++ flat_map (λ g. row_columns_of (grouping_shape g)) asked.groupings

abbrev platform_of : MappedColumn → Text
platform_of c = c.platform

grouping_columns :
    (g : GroupingName)
    → map platform_of (grouping_member g).columns ≡ row_columns_of (grouping_shape g)
grouping_columns GroupingName.recorded_day = refl
grouping_columns GroupingName.occurred_day = refl
grouping_columns GroupingName.kind = refl
grouping_columns GroupingName.product = refl
grouping_columns GroupingName.location = refl

platforms_measures :
    (ms : List MeasureName) → map platform_of (map measure_column ms) ≡ map measure_text ms
platforms_measures [] = refl
platforms_measures (m ∷ ms) = ap (λ ts. measure_text m ∷ ts) (platforms_measures ms)

platforms_groupings :
    (gs : List GroupingName)
    → map platform_of (flat_map (λ g. (grouping_member g).columns) gs)
      ≡ flat_map (λ g. row_columns_of (grouping_shape g)) gs
platforms_groupings [] = refl
platforms_groupings (g ∷ gs) =
    rw
      (
        map-append platform_of (grouping_member g).columns
            (flat_map (λ h. (grouping_member h).columns) gs),
        grouping_columns g,
        platforms_groupings gs,
      )
      refl

has-from_columns :
    (row : Dict Raw) (cs : List MappedColumn) (values : ModelledRow) (k : Text)
    → has (from_columns row cs values) k ≡ (includes (map platform_of cs) k || has values k)
unfolding includes
has-from_columns row [] values k = refl
has-from_columns row (c ∷ cs) values k =
    let v = value_of (get row c.member) in
    let rest = has-from_columns row cs (put values c.platform v) k in
    let written = has-put values c.platform k v in
    elim (Bool-cases (c.platform == k)) [
      | inl e ↦ ground (arith, e, rest, written)
      | inr e ↦ ground (arith, e, rest, written)
    ]

platforms :
    (asked : ModelledQuestion) → map platform_of (columns_of asked) ≡ published_columns asked
platforms asked =
    rw
      (
        map-append platform_of (map measure_column asked.measures)
            (flat_map (λ g. (grouping_member g).columns) asked.groupings),
        platforms_measures asked.measures,
        platforms_groupings asked.groupings,
      )
      refl

or_none : (b : Bool) → (b || false) ≡ b
or_none b = ground arith

-- A row of an answer has a value under a name exactly if the vocabulary publishes a column of that
-- name for the question.
pub has-row_from :
    (asked : ModelledQuestion) (row : Dict Raw) (name : Text)
    → has (row_from asked row) name ≡ includes (published_columns asked) name
unfolding row_from has includes get
has-row_from asked row name =
    has-from_columns row (columns_of asked) [] name
    ∙ (or_none (includes (map platform_of (columns_of asked)) name)
        ∙ ap (λ ts. includes ts name) (platforms asked))
