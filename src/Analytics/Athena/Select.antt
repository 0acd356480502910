-- ===== src/Analytics/Athena/Select.antt =====
-- The shape of the statements of src/adapters/analytics/athena-analytics.ts: one reading of named
-- tables, under conditions that all have to hold. A text that has this shape can hold no other
-- condition, no alternative to one, and no second statement.
use cubeforge_api.Prelude.{
  Bool, true, not, ◌&&◌, ◌||◌, ℕ, Option, none, some, List, [], ◌∷◌, ◌++◌, Text, ◌≡◌, nat_eq, leb,
  lit, all, All, In, is_space,
}

-- A character of a name: a letter, a digit, `_` or the dot behind a table's alias.
abbrev is_name_character : ℕ → Bool
is_name_character c =
    (leb b'a' c && leb c b'z') || (leb b'0' c && leb c b'9') || nat_eq c b'_' || nat_eq c b'.'

abbrev pub IsName : Text → Type 0
IsName t = all is_name_character t ≡ true

-- A text with no quote in it, which a literal ends only behind.
abbrev pub has_no_quote : Text → Bool
has_no_quote t = all (λ c. not (nat_eq c b'\'')) t

abbrev IsGap : Text → Type 0
IsGap t = all is_space t ≡ true

-- What is selected: a column, a column under a name, or the sum of a column under a name.
pub data Item : Type 0 where
  plain : Text → Item
  named total : Text → Text → Item

pub record Table : Type 0 where
  pub name : Text
  pub alias : Option Text

-- A table that is joined where two columns are equal.
pub record Join : Type 0 where
  pub gap : Text
  pub table : Table
  pub left : Text
  pub right : Text

pub data Operator : Type 0 where
  equals at_least at_most : Operator

-- A column compared with a literal.
pub record Condition : Type 0 where
  pub column : Text
  pub operator : Operator
  pub literal : Text

-- `GROUP BY` and `ORDER BY`, with their columns.
pub data Ending : Type 0 where
  grouping ordering : Text → List Text → Ending

pub record Select : Type 0 where
  pub items : List Item
  pub from_gap : Text
  pub first : Table
  pub joins : List Join
  pub where_gap : Text
  pub condition : Condition
  pub and_gap : Text
  pub conditions : List Condition
  pub endings : List Ending

abbrev item_text : Item → Text → Text
item_text (plain column) rest = column ++ rest
item_text (named column name) rest = column ++ lit " AS " ++ name ++ rest
item_text (total column name) rest = lit "sum(" ++ column ++ lit ") AS " ++ name ++ rest

abbrev more_items : List Item → Text → Text
more_items [] rest = rest
more_items (i ∷ is) rest = lit ", " ++ item_text i (more_items is rest)

abbrev items_text : List Item → Text → Text
items_text [] rest = rest
items_text (i ∷ is) rest = item_text i (more_items is rest)

abbrev table_text : Table → Option Text → Text → Text
table_text t none rest = t.name ++ rest
table_text t (some alias) rest = t.name ++ lit " " ++ alias ++ rest

abbrev joins_text : List Join → Text → Text
joins_text [] rest = rest
joins_text (j ∷ js) rest =
    j.gap
    ++ lit "JOIN "
    ++ table_text j.table j.table.alias
        (lit " ON " ++ j.left ++ lit " = " ++ j.right ++ joins_text js rest)

abbrev operator_text : Operator → Text
operator_text equals = lit " = '"
operator_text at_least = lit " >= '"
operator_text at_most = lit " <= '"

abbrev condition_text : Condition → Text → Text
condition_text c rest = c.column ++ operator_text c.operator ++ c.literal ++ lit "'" ++ rest

abbrev conditions_text : Text → List Condition → Text → Text
conditions_text gap [] rest = rest
conditions_text gap (c ∷ cs) rest =
    gap ++ lit "AND " ++ condition_text c (conditions_text gap cs rest)

abbrev more_columns : List Text → Text → Text
more_columns [] rest = rest
more_columns (c ∷ cs) rest = lit ", " ++ c ++ more_columns cs rest

abbrev columns_text : List Text → Text → Text
columns_text [] rest = rest
columns_text (c ∷ cs) rest = c ++ more_columns cs rest

abbrev endings_text : List Ending → Text
endings_text [] = []
endings_text (grouping gap cs ∷ es) = gap ++ lit "GROUP BY " ++ columns_text cs (endings_text es)
endings_text (ordering gap cs ∷ es) = gap ++ lit "ORDER BY " ++ columns_text cs (endings_text es)

-- The text of a statement.
abbrev pub select_text : Select → Text
select_text q =
    lit "SELECT "
    ++ items_text q.items (
        q.from_gap
        ++ lit "FROM "
        ++ table_text q.first q.first.alias (
            joins_text q.joins (
              q.where_gap
              ++ lit "WHERE "
              ++ condition_text q.condition
                  (conditions_text q.and_gap q.conditions (endings_text q.endings)))))

abbrev ItemIsNamed : Item → Type 0
ItemIsNamed (plain column) = IsName column
ItemIsNamed (named column name) = IsName column × IsName name
ItemIsNamed (total column name) = IsName column × IsName name

abbrev AliasIsName : Option Text → Type 0
AliasIsName none = Unit
AliasIsName (some alias) = IsName alias

abbrev TableIsNamed : Table → Type 0
TableIsNamed t = IsName t.name × AliasIsName t.alias

abbrev JoinIsNamed : Join → Type 0
JoinIsNamed j = IsGap j.gap × TableIsNamed j.table × IsName j.left × IsName j.right

abbrev ConditionIsClosed : Condition → Type 0
ConditionIsClosed c = IsName c.column × (has_no_quote c.literal ≡ true)

abbrev EndingIsNamed : Ending → Type 0
EndingIsNamed (grouping gap cs) = IsGap gap × All IsName cs
EndingIsNamed (ordering gap cs) = IsGap gap × All IsName cs

-- A statement whose names are names, whose gaps are blank and whose literals are closed where they
-- seem to be, so that its text reads in no other way.
pub record IsClosed (q : Select) : Type 0 where
  pub items : All ItemIsNamed q.items
  pub gaps : IsGap q.from_gap × IsGap q.where_gap × IsGap q.and_gap
  pub first : TableIsNamed q.first
  pub joins : All JoinIsNamed q.joins
  pub condition : ConditionIsClosed q.condition
  pub conditions : All ConditionIsClosed q.conditions
  pub endings : All EndingIsNamed q.endings

-- The column of a table that names the tenant of a row.
abbrev tenant_column : Option Text → Text
tenant_column none = lit "tenant_id"
tenant_column (some alias) = alias ++ lit ".tenant_id"

-- The condition that holds a table to a tenant.
abbrev pub held_to : Text → Table → Condition
held_to tenant t = record { column = tenant_column t.alias; operator = equals; literal = tenant }

-- A statement each of whose tables is held to the tenant, by one of the conditions that all have to
-- hold.
pub record Confined (tenant statement : Text) : Type 0 where
  pub query : Select
  pub written : statement ≡ select_text query
  pub closed : IsClosed query
  pub first : In (held_to tenant query.first) (query.condition ∷ query.conditions)
  pub joins :
      All (λ j. In (held_to tenant j.table) (query.condition ∷ query.conditions)) query.joins
